-- ===== src/SqlParams.antt =====
-- `compileNamedParams` (packages/uns-database/src/params.ts): named parameters of a statement become the
-- placeholders of a dialect. The output is a list of pushed texts, as the source keeps it; a character is read
-- by its code, and the text before and after the current one stands for the index.
pub mod Chunks
pub mod InList
pub mod Compile
pub mod Scan
pub mod Unchanged
mod Tests
use Prim.Native.String
use uns_kit.Kit.{
  ℕ, zero, suc, ◌+◌, ◌-◌, ◌/◌, ◌%◌, Char, code, String, Bool, true, false, not, ◌&&◌, ◌||◌, Option,
  none, some, List, [], ◌∷◌, ◌++◌, map, length, get_elem?, take, drop, ltb, leb, ◌==◌, ◌===◌,
  is_empty, if◌then◌else◌, Result, ok, err, ◌>>=◌,
}

pub data DatabaseDialect : Type 0 where
  pg : DatabaseDialect
  sqlite : DatabaseDialect
  oracle : DatabaseDialect

-- A parameter: an array, or any other value.
pub data Param (V : Type 0) : Type 0 where
  single : V → Param V
  array : List V → Param V

abbrev pub text_append : String → String → String
text_append a b = String.◌++◌ a b

unfoldable pub joined : List String → String
joined [] = ""
joined (t ∷ ts) = text_append t (joined ts)

-- `parts.join(separator)`
unfoldable pub join_with : String → List String → String
join_with separator [] = ""
join_with separator (t ∷ []) = t
join_with separator (t ∷ u ∷ ts) =
    text_append t (text_append separator (join_with separator (u ∷ ts)))

abbrev digits : List String
digits = "0" ∷ "1" ∷ "2" ∷ "3" ∷ "4" ∷ "5" ∷ "6" ∷ "7" ∷ "8" ∷ "9" ∷ []

abbrev digit_of : Option String → String
digit_of none = ""
digit_of (some d) = d

unfoldable decimal_digits : ℕ → ℕ → String
decimal_digits zero n = ""
decimal_digits (suc fuel) n =
    let higher = decimal_digits fuel (n / 10) in
    let last = digit_of (get_elem? digits (n % 10)) in
    if ltb n 10 then last else text_append higher last

-- A number in a template text; it has no more digits than its value and one.
unfoldable pub decimal : ℕ → String
unfolding decimal_digits
decimal n = decimal_digits (suc n) n

abbrev pub is_letter : ℕ → Bool
is_letter c = (leb b'a' c && leb c b'z') || (leb b'A' c && leb c b'Z')

abbrev pub is_digit : ℕ → Bool
is_digit c = leb b'0' c && leb c b'9'

unfoldable pub is_identifier_start : ℕ → Bool
is_identifier_start c = is_letter c || c == b'_'

unfoldable pub is_identifier_part : ℕ → Bool
is_identifier_part c = is_letter c || is_digit c || c == b'_'

-- `/\s/`
unfoldable pub is_space : ℕ → Bool
is_space c =
    (leb 9 c && leb c 13)
    || c == 32
    || c == 160
    || c == 5760
    || (leb 8192 c && leb c 8202)
    || c == 8232
    || c == 8233
    || c == 8239
    || c == 8287
    || c == 12288
    || c == 65279

-- The name, its last character, and what follows it.
pub record Name : Type 0 where
  pub name : String
  pub last : ℕ
  pub rest : String

unfoldable pub read_parameter_name : ℕ → String → Name
unfolding is_identifier_part
read_parameter_name last String.[] = record { name = ""; last = last; rest = "" }
read_parameter_name last (String.◌∷◌ c s) =
    let more = read_parameter_name (code c) s in
    if is_identifier_part (code c)
    then record more { name = String.◌∷◌ c more.name }
    else record { name = ""; last = last; rest = String.◌∷◌ c s }

-- What `compileNamedParams` keeps while it scans.
pub record Compiling (V : Type 0) : Type 0 where
  pub output : List String
  pub values : List V
  pub bind_values : List (String × V)
  pub parameter_order : List String
  pub pg_indexes : List (String × ℕ)
  pub in_single_quote : Bool
  pub in_double_quote : Bool
  pub in_line_comment : Bool
  pub in_block_comment : Bool

abbrev pub is_next : ℕ → String → Bool
is_next c String.[] = false
is_next c (String.◌∷◌ d s) = code d == c

abbrev pub starts_identifier : String → Bool
starts_identifier String.[] = false
starts_identifier (String.◌∷◌ d s) = is_identifier_start (code d)

abbrev pub skip_one : String → String
skip_one String.[] = ""
skip_one (String.◌∷◌ d s) = s

abbrev pub first_text : String → String
first_text String.[] = ""
first_text (String.◌∷◌ d s) = String.◌∷◌ d ""

unfoldable pub skip_spaces : String → String
unfolding is_space
skip_spaces String.[] = ""
skip_spaces (String.◌∷◌ c s) =
    let rest = skip_spaces s in if is_space (code c) then rest else String.◌∷◌ c s

unfoldable pub lookup_param : {B : Type 0} → String → List (String × B) → Option B
lookup_param name [] = none
lookup_param name (b ∷ bs) = if b.0 === name then some b.1 else lookup_param name bs

-- `bindValues[name] = value`
unfoldable pub bind_value : {V : Type 0} → String → V → List (String × V) → List (String × V)
bind_value name value [] = (name, value) ∷ []
bind_value name value (b ∷ bs) =
    let rest = bind_value name value bs in if b.0 === name then (name, value) ∷ bs else b ∷ rest
