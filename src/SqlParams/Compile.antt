-- ===== src/SqlParams/Compile.antt =====
-- What `compileNamedParams` (packages/uns-database/src/params.ts) puts in place of a parameter.

use uns_kit.Kit.{
  ℕ, ◌+◌, String, Option, none, some, List, [], ◌∷◌, ◌++◌, map, length, take, Result, ok, err,
}
use uns_kit.SqlParams.{
  DatabaseDialect, pg, sqlite, oracle, Param, single, array, text_append, join_with, decimal, Name,
  Compiling, lookup_param, bind_value,
}
use uns_kit.SqlParams.Chunks.{chunk_array}
use uns_kit.SqlParams.InList.{InListContext, get_in_list_context}

-- What a turn leaves: the state, the character before the next one, and the text from there.
pub record Turn (V : Type 0) : Type 0 where
  pub state : Compiling V
  pub previous : ℕ
  pub rest : String

pub data BoundValues (V : Type 0) : Type 0 where
  positional : List V → BoundValues V
  named : List (String × V) → BoundValues V

pub record CompiledSqlStatement (V : Type 0) : Type 0 where
  pub text : String
  pub values : BoundValues V
  pub parameter_order : List String

abbrev pub empty_array : Option InListContext → String
empty_array none = "(select 1 where 1 = 0)"
empty_array (some context) = "1 = 0"

module _ {V : Type 0} where
  abbrev pub push_text : String → Compiling V → Compiling V
  push_text t s = record s { output = s.output ++ t ∷ [] }

  -- The names `name_chunk_item` of the items of a chunk, from `item` on.
  unfoldable pub bind_names : String → ℕ → ℕ → List V → List (String × V)
  bind_names name chunk item [] = []
  bind_names name chunk item (v ∷ vs) =
      (
        text_append name
            (text_append "_" (text_append (decimal chunk) (text_append "_" (decimal item)))),
        v,
      )
      ∷ bind_names name chunk (item + 1) vs

  unfoldable pub chunk_bindings : String → ℕ → List (List V) → List (List (String × V))
  unfolding bind_names
  chunk_bindings name chunk [] = []
  chunk_bindings name chunk (c ∷ cs) =
      bind_names name chunk 0 c ∷ chunk_bindings name (chunk + 1) cs

  abbrev pub colon_name : String × V → String
  colon_name b = text_append ":" b.0

  unfoldable pub bind_all : List (String × V) → Compiling V → Compiling V
  unfolding bind_value
  bind_all [] s = s
  bind_all (b ∷ bs) s = bind_all bs (record s {
    bind_values = bind_value b.0 b.1 s.bind_values;
    parameter_order = s.parameter_order ++ b.0 ∷ [];
  })

  abbrev pub bind_chunks : List (List (String × V)) → Compiling V → Compiling V
  bind_chunks [] s = s
  bind_chunks (c ∷ cs) s = bind_chunks cs (bind_all c s)

  abbrev pub in_condition : String → List (String × V) → String
  in_condition column chunk =
      text_append column
        (text_append " IN (" (text_append (join_with ", " (map colon_name chunk)) ")"))

  abbrev pub plain_list : List (String × V) → String
  plain_list chunk = join_with ", " (map colon_name chunk)

  abbrev pub oracle_list : Option InListContext → List (List (String × V)) → String
  oracle_list none chunks = join_with ", " (map plain_list chunks)
  oracle_list (some context) chunks =
      text_append "(" (
        text_append (join_with " OR " (map (in_condition context.left_side_expression) chunks)) ")")

  -- The values of an array are pushed one after the other, each with the name of the parameter.
  unfoldable pub push_all : String → List V → Compiling V → Compiling V
  push_all name [] s = s
  push_all name (v ∷ vs) s =
      push_all name vs
        (record s { values = s.values ++ v ∷ []; parameter_order = s.parameter_order ++ name ∷ [] })

  -- `$n`, for the numbers after the values so far.
  unfoldable pub dollar_list : ℕ → List V → List String
  dollar_list n [] = []
  dollar_list n (v ∷ vs) = text_append "$" (decimal (n + 1)) ∷ dollar_list (n + 1) vs

  abbrev pub question_mark : V → String
  question_mark v = "?"

  -- `buildArrayPlaceholders`: the text, and the state with the bound values.
  unfoldable pub build_array_placeholders :
      DatabaseDialect → String → List V → Option InListContext → Compiling V → String × Compiling V
  unfolding chunk_bindings bind_all push_all dollar_list chunk_array join_with
  build_array_placeholders oracle name items context s = (
    oracle_list context (chunk_bindings name 0 (chunk_array items 1000)),
    bind_chunks (chunk_bindings name 0 (chunk_array items 1000)) s,
  )
  build_array_placeholders pg name items context s =
      (join_with ", " (dollar_list (length s.values) items), push_all name items s)
  build_array_placeholders sqlite name items context s =
      (join_with ", " (map question_mark items), push_all name items s)

  -- `output.splice(startIndex)` drops whole texts.
  abbrev pub splice : Option InListContext → Compiling V → Compiling V
  splice none s = s
  splice (some context) s = record s { output = take context.start_index s.output }

  -- The scan goes on after the closing parenthesis, or after the name.
  abbrev pub resume_after : Option InListContext → Name → Compiling V → Turn V
  resume_after none name s = record { state = s; previous = name.last; rest = name.rest }
  resume_after (some context) name s = record {
    state = s;
    previous = b')';
    rest = context.after_paren;
  }

  unfoldable pub put_array :
      DatabaseDialect → Name → Option InListContext → List V → Compiling V → Turn V
  unfolding build_array_placeholders
  put_array dialect name context [] s =
      resume_after context name (push_text (empty_array context) (splice context s))
  put_array dialect name context (v ∷ vs) s =
      let built = build_array_placeholders dialect name.name (v ∷ vs) context s in
      resume_after context name (push_text built.0 (splice context built.1))

  -- A value that `pg` has numbered keeps its number.
  abbrev pub put_numbered : String → V → Option ℕ → Compiling V → Compiling V
  put_numbered name value (some index) s = push_text (text_append "$" (decimal index)) s
  put_numbered name value none s =
      push_text (text_append "$" (decimal (length s.values + 1))) (record s {
        values = s.values ++ value ∷ [];
        pg_indexes = (name, length s.values + 1) ∷ s.pg_indexes;
      })

  unfoldable pub put_single : DatabaseDialect → String → V → Compiling V → Compiling V
  unfolding lookup_param bind_value decimal
  put_single oracle name value s =
      push_text (text_append ":" name)
        (record s { bind_values = bind_value name value s.bind_values })
  put_single pg name value s = put_numbered name value (lookup_param name s.pg_indexes) s
  put_single sqlite name value s = push_text "?" (record s { values = s.values ++ value ∷ [] })

  abbrev pub context_for : DatabaseDialect → Compiling V → Name → Option InListContext
  context_for oracle s name = get_in_list_context s.output name.rest
  context_for pg s name = none
  context_for sqlite s name = none

  unfoldable pub put_param :
      DatabaseDialect → Name → Option (Param V) → Compiling V → Result (Turn V)
  unfolding put_array put_single get_in_list_context
  put_param dialect name none s =
      err (text_append "Missing SQL parameter ':" (text_append name.name "'."))
  put_param dialect name (some (array items)) s =
      ok (put_array dialect name (context_for dialect s name) items s)
  put_param dialect name (some (single value)) s = ok (record {
    state =
        put_single dialect name.name value
          (record s { parameter_order = s.parameter_order ++ name.name ∷ [] });
    previous = name.last;
    rest = name.rest;
  })
