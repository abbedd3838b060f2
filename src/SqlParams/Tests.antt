-- ===== src/SqlParams/Tests.antt =====
-- Runs and examples of the parameters of a statement.
use uns_kit.Kit.{ℕ, ◌≡◌, refl, String, List, [], ◌∷◌, All, arith, ok}
use uns_kit.SqlParams.{is_identifier_start, pg, sqlite, oracle, Param, single, array}
use uns_kit.SqlParams.Chunks.{chunk_array, flatten, SizedChunk, flatten-chunk_array}
use uns_kit.SqlParams.Compile.{positional, named}
use uns_kit.SqlParams.Scan.{compile_named_params, start_state, bound}
use uns_kit.SqlParams.Unchanged.{compile_named_params-NoColon}

abbrev params : List (String × Param ℕ)
params = ("id", single 7) ∷ ("ids", array (1 ∷ 2 ∷ [])) ∷ []

numbered :
    compile_named_params pg "a=:id or b=:id or ':id'" params
    ≡ ok (record {
      text = "a=$1 or b=$1 or ':id'";
      values = positional (7 ∷ []);
      parameter_order = "id" ∷ "id" ∷ [];
    })
unfolding compile_named_params is_identifier_start
numbered = refl

in_list :
    compile_named_params oracle "x in (:ids)" params
    ≡ ok (record {
      text = "(x IN (:ids_0_0, :ids_0_1))";
      values = named (("ids_0_0", 1) ∷ ("ids_0_1", 2) ∷ []);
      parameter_order = "ids_0_0" ∷ "ids_0_1" ∷ [];
    })
unfolding compile_named_params is_identifier_start
in_list = refl

-- A placeholder of several characters is one text of the output, so an index into the joined text cuts the
-- output too late: a part of the column stays.
cut_too_late :
    compile_named_params oracle "a=:id or xyz in (:ids)" params
    ≡ ok (record {
      text = "a=:id or xy(xyz IN (:ids_0_0, :ids_0_1))";
      values = named (("id", 7) ∷ ("ids_0_0", 1) ∷ ("ids_0_1", 2) ∷ []);
      parameter_order = "id" ∷ "ids_0_0" ∷ "ids_0_1" ∷ [];
    })
unfolding compile_named_params is_identifier_start
cut_too_late = refl

compile_named_params-NoColon_example :
    compile_named_params sqlite "a -- b" params
    ≡ ok (record { text = "a -- b"; values = bound sqlite start_state; parameter_order = [] })
compile_named_params-NoColon_example = compile_named_params-NoColon sqlite params "a -- b" (
  ground arith,
  (ground arith, (ground arith, (ground arith, (ground arith, (ground arith, tt))))),
)

abbrev items : List ℕ
items = 1 ∷ 2 ∷ 3 ∷ []

flatten-chunk_array_example :
    (flatten (chunk_array items 2) ≡ items) × All (SizedChunk 2) (chunk_array items 2)
flatten-chunk_array_example = flatten-chunk_array items 2 (omega arith)
