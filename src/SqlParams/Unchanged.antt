-- ===== src/SqlParams/Unchanged.antt =====
-- A statement without colons, through the loop of params.ts.
use Prim.Native.String
use text.Mathlib.TextLemmas.{nil-append, cons-append, append-nil, append_assoc, length-cons}
use uns_kit.Kit.{
  ℕ, zero, suc, ◌≤◌, ◌≡◌, ◌≢◌, refl, sym, ap, ◌∙◌, code, Char, String, Bool, true, false, not, ◌&&◌,
  ◌||◌, List, [], ◌∷◌, ◌++◌, ◌==◌, if◌then◌else◌, if_each, if_false, arith, Result, ok, err,
}
use uns_kit.SqlParams.{
  DatabaseDialect, pg, sqlite, oracle, Param, joined, Compiling, is_next, text_append,
}
use uns_kit.SqlParams.Compile.{Turn, BoundValues, positional, named, CompiledSqlStatement}
use uns_kit.SqlParams.Scan.{
  one_char, copy, copy_both, line_comment, block_comment, quote_turn, double_quote_turn, copy_turn,
  starts_param, take_turn, scan_text, start_state, bound, statement, compile_named_params,
}

abbrev pub NoColon : String → Type 0
NoColon String.[] = Unit
NoColon (String.◌∷◌ c s) = (code c ≢ b':') × NoColon s

joined-snoc : (ts : List String) (t : String) → joined (ts ++ t ∷ []) ≡ text_append (joined ts) t
unfolding joined
joined-snoc [] t = append-nil t ∙ sym (nil-append t)
joined-snoc (u ∷ ts) t =
    ap (λ v. text_append u v) (joined-snoc ts t) ∙ sym (append_assoc u (joined ts) t)

push_next :
    (ts : List String) (c : Char) (rest : String)
    → text_append (joined (ts ++ one_char c ∷ [])) rest
      ≡ text_append (joined ts) (String.◌∷◌ c rest)
push_next ts c rest =
    ap (λ v. text_append v rest) (joined-snoc ts (one_char c))
    ∙ append_assoc (joined ts) (one_char c) rest
    ∙ ap (λ v. text_append (joined ts) v)
        (cons-append c "" rest ∙ ap (λ v. String.◌∷◌ c v) (nil-append rest))

module _ {V : Type 0} where
  -- A state that has bound nothing new.
  pub record Unbound (s t : Compiling V) : Type 0 where
    pub values : t.values ≡ s.values
    pub bind_values : t.bind_values ≡ s.bind_values
    pub parameter_order : t.parameter_order ≡ s.parameter_order

  -- A turn that moves text to the output, and nothing else.
  record Copied (s : Compiling V) (text : String) (t : Turn V) : Type 0 where
    same_text : text_append (joined t.state.output) t.rest ≡ text_append (joined s.output) text
    unbound : Unbound s t.state
    plain : NoColon t.rest
    shorter : suc (String.count t.rest) ≤ String.count text

  copy-Copied :
      (c : Char) (rest : String) (s : Compiling V)
      → NoColon rest
      → Copied s (String.◌∷◌ c rest) (copy c rest s)
  copy-Copied c rest s n = record {
    same_text = push_next s.output c rest;
    unbound = record { values = refl; bind_values = refl; parameter_order = refl };
    plain = n;
    shorter = omega (arith, length-cons c rest);
  }

  copy_both-Copied :
      (next : ℕ) (c : Char) (rest : String) (s : Compiling V)
      → NoColon rest
      → is_next next rest ≡ true
      → Copied s (String.◌∷◌ c rest) (copy_both next c rest s)
  copy_both-Copied next c String.[] s n e = absurd (ground (arith, e))
  copy_both-Copied next c (String.◌∷◌ d rest) s n e = record {
    same_text =
        push_next (s.output ++ one_char c ∷ []) d rest ∙ push_next s.output c (String.◌∷◌ d rest);
    unbound = record { values = refl; bind_values = refl; parameter_order = refl };
    plain = n.1;
    shorter = omega (arith, length-cons c (String.◌∷◌ d rest), length-cons d rest);
  }

  -- Quotes and comments do not matter for what is copied.
  any_flags :
      (s : Compiling V) (text : String) (a b c d : Bool) (t : Turn V)
      → Copied
          (record s {
            in_single_quote = a;
            in_double_quote = b;
            in_line_comment = c;
            in_block_comment = d;
          })
          text
          t
      → Copied s text t
  any_flags s text a b c d t k = record {
    same_text = k.same_text;
    unbound = record {
      values = k.unbound.values;
      bind_values = k.unbound.bind_values;
      parameter_order = k.unbound.parameter_order;
    };
    plain = k.plain;
    shorter = k.shorter;
  }

  copy_turn-Copied :
      (previous : ℕ) (c : Char) (rest : String) (s : Compiling V)
      → NoColon rest
      → Copied s (String.◌∷◌ c rest) (copy_turn previous c rest s)
  unfolding copy_turn
  copy_turn-Copied previous c rest s n =
      let P = λ (t : Turn V). Copied s (String.◌∷◌ c rest) t in
      if_each P s.in_line_comment (line_comment c rest s) _
        (λ a. any_flags s (String.◌∷◌ c rest) _ _ _ _ _ (
          copy-Copied c rest
            (record s { in_line_comment = if code c == 10 then false else s.in_line_comment }) n))
        (λ a.
          if_each P s.in_block_comment (block_comment c rest s) _
            (λ b.
              if_each P (code c == b'*' && is_next b'/' rest) _ (copy c rest s)
                (λ both. any_flags s (String.◌∷◌ c rest) _ _ _ _ _ (
                  copy_both-Copied b'/' c rest (record s { in_block_comment = false }) n
                    (ground (arith, both))))
                (λ one. copy-Copied c rest s n))
            (λ b.
              if_each P (not s.in_double_quote && code c == b'\'' && not (previous == b'\\'))
                (quote_turn c rest s) _
                (λ d.
                  any_flags s (String.◌∷◌ c rest) _ _ _ _ _
                    (copy-Copied c rest (record s { in_single_quote = not s.in_single_quote }) n))
                (λ d.
                  if_each P (not s.in_single_quote && code c == b'"' && not (previous == b'\\'))
                    (double_quote_turn c rest s) _
                    (λ e.
                      any_flags s (String.◌∷◌ c rest) _ _ _ _ _ (
                        copy-Copied c rest (record s { in_double_quote = not s.in_double_quote })
                          n))
                    (λ e.
                      if_each P (s.in_single_quote || s.in_double_quote) (copy c rest s) _
                        (λ f. copy-Copied c rest s n)
                        (λ f.
                          if_each P (code c == b'-' && is_next b'-' rest) _ _
                            (λ both. any_flags s (String.◌∷◌ c rest) _ _ _ _ _ (
                              copy_both-Copied b'-' c rest (record s { in_line_comment = true }) n
                                (ground (arith, both))))
                            (λ g.
                              if_each P (code c == b'/' && is_next b'*' rest) _ (copy c rest s)
                                (λ both. any_flags s (String.◌∷◌ c rest) _ _ _ _ _ (
                                  copy_both-Copied b'*' c rest
                                    (record s { in_block_comment = true }) n
                                    (ground (arith, both))))
                                (λ h. copy-Copied c rest s n)))))))

  take_turn-Copied :
      (dialect : DatabaseDialect) (params : List (String × Param V)) (previous : ℕ) (c : Char)
      (rest : String) (s : Compiling V)
      → code c ≢ b':'
      → take_turn dialect params previous c rest s ≡ ok (copy_turn previous c rest s)
  unfolding take_turn starts_param
  take_turn-Copied dialect params previous c rest s n =
      if_false (starts_param previous c rest s) _ (ok (copy_turn previous c rest s))
        (ground (arith, n))

  scan_text-take_turn :
      (fuel : ℕ) (dialect : DatabaseDialect) (params : List (String × Param V)) (previous : ℕ)
      (c : Char) (rest : String) (s : Compiling V) (t : Turn V)
      → take_turn dialect params previous c rest s ≡ ok t
      → scan_text (suc fuel) dialect params previous (String.◌∷◌ c rest) s
        ≡ scan_text fuel dialect params t.previous t.rest t.state
  unfolding scan_text
  scan_text-take_turn fuel dialect params previous c rest s t e =
      ap
        (λ (r : Result (Turn V)). elim r [
          | err problem ↦ err problem
          | ok next ↦ scan_text fuel dialect params next.previous next.rest next.state
        ])
        e

  bound-Unbound :
      (dialect : DatabaseDialect) (s t : Compiling V)
      → Unbound s t
      → bound dialect t ≡ bound dialect s
  bound-Unbound pg s t u = ap (λ vs. positional vs) u.values
  bound-Unbound sqlite s t u = ap (λ vs. positional vs) u.values
  bound-Unbound oracle s t u = ap (λ bs. named bs) u.bind_values

  statement_path :
      (text text' : String) (values values' : BoundValues V) (order order' : List String)
      → text ≡ text'
      → values ≡ values'
      → order ≡ order'
      → ◌≡◌ {A = CompiledSqlStatement V}
          (record { text = text; values = values; parameter_order = order })
          (record { text = text'; values = values'; parameter_order = order' })
  statement_path text text' values values' order order' a b c = cc (a, b, c)

  record Scanned (s : Compiling V) (text : String) (r : Result (Compiling V)) : Type 0 where
    final : Compiling V
    succeeds : r ≡ ok final
    whole : joined final.output ≡ text_append (joined s.output) text
    unbound : Unbound s final

  scan_text-Scanned :
      (fuel : ℕ) (dialect : DatabaseDialect) (params : List (String × Param V)) (previous : ℕ)
      (text : String) (s : Compiling V)
      → String.count text ≤ fuel
      → NoColon text
      → Scanned s text (scan_text fuel dialect params previous text s)
  unfolding scan_text
  scan_text-Scanned fuel dialect params previous String.[] s l n = record {
    final = s;
    succeeds = refl;
    whole = sym (append-nil (joined s.output));
    unbound = record { values = refl; bind_values = refl; parameter_order = refl };
  }
  scan_text-Scanned zero dialect params previous (String.◌∷◌ c rest) s l n =
      absurd (omega (arith, l, length-cons c rest))
  scan_text-Scanned (suc fuel) dialect params previous (String.◌∷◌ c rest) s l n =
      let t : Turn V = copy_turn previous c rest s in
      let k = copy_turn-Copied previous c rest s n.1 in
      let below =
        scan_text-Scanned fuel dialect params t.previous t.rest t.state
          (omega (arith, l, k.shorter)) k.plain in
      record {
        final = below.final;
        succeeds =
            scan_text-take_turn fuel dialect params previous c rest s t
              (take_turn-Copied dialect params previous c rest s n.0)
            ∙ below.succeeds;
        whole = below.whole ∙ k.same_text;
        unbound = record {
          values = below.unbound.values ∙ k.unbound.values;
          bind_values = below.unbound.bind_values ∙ k.unbound.bind_values;
          parameter_order = below.unbound.parameter_order ∙ k.unbound.parameter_order;
        };
      }

  -- A statement without a colon is compiled to itself in every dialect, whatever quotes and comments it has, and
  -- binds nothing.
  pub compile_named_params-NoColon :
      (dialect : DatabaseDialect) (params : List (String × Param V)) (sql_text : String)
      → NoColon sql_text
      → compile_named_params dialect sql_text params
        ≡ ok (record { text = sql_text; values = bound dialect start_state; parameter_order = [] })
  unfolding compile_named_params joined
  compile_named_params-NoColon dialect params sql_text n =
      let k =
        scan_text-Scanned (String.count sql_text) dialect params 0 sql_text start_state
          (omega arith) n in
      ap (λ r. statement dialect r) k.succeeds
      ∙ ap (λ (r : CompiledSqlStatement V). ok r)
          (statement_path (joined k.final.output) sql_text (bound dialect k.final)
            (bound dialect start_state) k.final.parameter_order [] (k.whole ∙ nil-append sql_text)
            (bound-Unbound dialect start_state k.final k.unbound) k.unbound.parameter_order)
