-- ===== src/SqlParams/Scan.antt =====
-- The loop of `compileNamedParams` (packages/uns-database/src/params.ts). The character before the first one is
-- 0, which is none of those that the loop looks for.
use Prim.Native.String
use uns_kit.Kit.{
  ℕ, zero, suc, code, Char, String, Bool, true, false, not, ◌&&◌, ◌||◌, List, [], ◌==◌,
  if◌then◌else◌, Result, ok, err,
}
use uns_kit.SqlParams.{
  DatabaseDialect, pg, sqlite, oracle, Param, joined, Compiling, is_next, starts_identifier,
  skip_one, first_text, lookup_param, read_parameter_name,
}
use uns_kit.SqlParams.Compile.{
  Turn, BoundValues, positional, named, CompiledSqlStatement, push_text, put_param,
}

abbrev pub one_char : Char → String
one_char c = String.◌∷◌ c ""

module _ {V : Type 0} where
  -- The character is copied.
  abbrev pub copy : Char → String → Compiling V → Turn V
  copy c rest s = record { state = push_text (one_char c) s; previous = code c; rest = rest }

  -- The character and the next one are copied.
  abbrev pub copy_both : ℕ → Char → String → Compiling V → Turn V
  copy_both next c rest s = record {
    state = push_text (first_text rest) (push_text (one_char c) s);
    previous = next;
    rest = skip_one rest;
  }

  abbrev pub line_comment : Char → String → Compiling V → Turn V
  line_comment c rest s =
      copy c rest (record s { in_line_comment = if code c == 10 then false else s.in_line_comment })

  abbrev pub block_comment : Char → String → Compiling V → Turn V
  block_comment c rest s =
      if code c == b'*' && is_next b'/' rest
      then copy_both b'/' c rest (record s { in_block_comment = false })
      else copy c rest s

  abbrev pub quote_turn : Char → String → Compiling V → Turn V
  quote_turn c rest s = copy c rest (record s { in_single_quote = not s.in_single_quote })

  abbrev pub double_quote_turn : Char → String → Compiling V → Turn V
  double_quote_turn c rest s = copy c rest (record s { in_double_quote = not s.in_double_quote })

  -- A turn that copies, with its tests in the order of the source.
  unfoldable pub copy_turn : ℕ → Char → String → Compiling V → Turn V
  copy_turn previous c rest s =
      if s.in_line_comment
      then line_comment c rest s
      else if s.in_block_comment
      then block_comment c rest s
      else if not s.in_double_quote && code c == b'\'' && not (previous == b'\\')
      then quote_turn c rest s
      else if not s.in_single_quote && code c == b'"' && not (previous == b'\\')
      then double_quote_turn c rest s
      else if s.in_single_quote || s.in_double_quote
      then copy c rest s
      else if code c == b'-' && is_next b'-' rest
      then copy_both b'-' c rest (record s { in_line_comment = true })
      else if code c == b'/' && is_next b'*' rest
      then copy_both b'*' c rest (record s { in_block_comment = true })
      else copy c rest s

  -- A colon that starts a parameter stands in no quotes and no comment, is not the second of two colons, and
  -- has the start of a name after it.
  unfoldable pub starts_param : ℕ → Char → String → Compiling V → Bool
  starts_param previous c rest s =
      code c == b':'
      && not (previous == b':')
      && starts_identifier rest
      && not s.in_line_comment
      && not s.in_block_comment
      && not s.in_single_quote
      && not s.in_double_quote

  unfoldable pub take_turn :
      DatabaseDialect → List (String × Param V) → ℕ → Char → String → Compiling V → Result (Turn V)
  unfolding starts_param copy_turn put_param read_parameter_name lookup_param
  take_turn dialect params previous c rest s =
      if starts_param previous c rest s
      then put_param dialect (read_parameter_name (code c) rest)
          (lookup_param (read_parameter_name (code c) rest).name params) s
      else ok (copy_turn previous c rest s)

  -- Every turn reads at least one character, so there are no more turns than characters.
  unfoldable pub scan_text :
      ℕ
      → DatabaseDialect
      → List (String × Param V)
      → ℕ
      → String
      → Compiling V
      → Result (Compiling V)
  unfolding take_turn
  scan_text fuel dialect params previous String.[] s = ok s
  scan_text zero dialect params previous (String.◌∷◌ c rest) s = ok s
  scan_text (suc fuel) dialect params previous (String.◌∷◌ c rest) s =
      elim (take_turn dialect params previous c rest s) [
        | err problem ↦ err problem
        | ok next ↦ scan_text fuel dialect params next.previous next.rest next.state
      ]

  abbrev pub start_state : Compiling V
  start_state = record {
    output = [];
    values = [];
    bind_values = [];
    parameter_order = [];
    pg_indexes = [];
    in_single_quote = false;
    in_double_quote = false;
    in_line_comment = false;
    in_block_comment = false;
  }

  abbrev pub bound : DatabaseDialect → Compiling V → BoundValues V
  bound oracle s = named s.bind_values
  bound pg s = positional s.values
  bound sqlite s = positional s.values

  abbrev pub statement : DatabaseDialect → Result (Compiling V) → Result (CompiledSqlStatement V)
  statement dialect (err problem) = err problem
  statement dialect (ok s) = ok (record {
    text = joined s.output;
    values = bound dialect s;
    parameter_order = s.parameter_order;
  })

  unfoldable pub compile_named_params :
      DatabaseDialect → String → List (String × Param V) → Result (CompiledSqlStatement V)
  unfolding scan_text joined
  compile_named_params dialect sql_text params =
      statement dialect (scan_text (String.count sql_text) dialect params 0 sql_text start_state)
