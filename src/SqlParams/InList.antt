-- ===== src/SqlParams/InList.antt =====
-- `getInListContext` (packages/uns-database/src/params.ts): the `column IN (` that ends the output so far.

use uns_kit.Kit.{
  ℕ, suc, ◌+◌, Char, code, String, Bool, ◌&&◌, ◌||◌, Option, none, some, List, [], ◌∷◌, length,
  ◌==◌, if◌then◌else◌,
}
use uns_kit.SqlParams.{joined, is_letter, is_digit, is_space, skip_spaces}

pub record InListContext : Type 0 where
  pub start_index : ℕ
  pub left_side_expression : String
  pub after_paren : String

unfoldable pub reversed : String → List Char → List Char
reversed String.[] acc = acc
reversed (String.◌∷◌ c s) acc = reversed s (c ∷ acc)

abbrev pub is_left_part : ℕ → Bool
is_left_part c = is_letter c || is_digit c || c == b'_' || c == b'.' || c == b'"' || c == b'$'

abbrev pub any_case : ℕ → Char → Bool
any_case upper c = code c == upper || code c == upper + 32

unfoldable pub drop_spaces : List Char → List Char
unfolding is_space
drop_spaces [] = []
drop_spaces (c ∷ cs) = let rest = drop_spaces cs in if is_space (code c) then rest else c ∷ cs

-- The longest left side at the end of the reversed text, and how many characters stand before it.
unfoldable pub left_side : List Char → String → String × ℕ
left_side [] acc = (acc, 0)
left_side (c ∷ cs) acc =
    let more = left_side cs (String.◌∷◌ c acc) in
    if is_left_part (code c) then more else (acc, suc (length cs))

abbrev pub some_left : String × ℕ → Option (String × ℕ)
some_left found = elim found.0 [ String.[] ↦ none | String.◌∷◌ c s ↦ some found ]

-- `\s+`, then the left side.
unfoldable pub match_left : List Char → Option (String × ℕ)
unfolding left_side drop_spaces
match_left [] = none
match_left (c ∷ cs) = if is_space (code c) then some_left (left_side (drop_spaces cs) "") else none

unfoldable pub match_in : List Char → Option (String × ℕ)
unfolding match_left
match_in (n ∷ i ∷ cs) = if any_case b'N' n && any_case b'I' i then match_left cs else none
match_in (n ∷ []) = none
match_in [] = none

-- `/([A-Za-z0-9_."$]+)\s+IN\s*\($/i`, read from the end of the text: the left side and where it starts.
unfoldable pub match_in_list : List Char → Option (String × ℕ)
unfolding match_in drop_spaces
match_in_list [] = none
match_in_list (c ∷ cs) = if code c == b'(' then match_in (drop_spaces cs) else none

abbrev pub close_paren : String × ℕ → String → Option InListContext
close_paren found String.[] = none
close_paren found (String.◌∷◌ c s) =
    if code c == b')'
    then some (record { start_index = found.1; left_side_expression = found.0; after_paren = s })
    else none

abbrev pub context_of : Option (String × ℕ) → String → Option InListContext
context_of none rest = none
context_of (some found) rest = close_paren found rest

-- The text after the parameter takes the place of the index where the search starts.
unfoldable pub get_in_list_context : List String → String → Option InListContext
unfolding match_in_list reversed joined skip_spaces
get_in_list_context output rest =
    context_of (match_in_list (reversed (joined output) [])) (skip_spaces rest)
