-- ===== src/InputBoundary.antt =====
-- `uniqueInputBoundary` (packages/uns-core/src/runtime/input-queue-boundary.ts): where the input that a
-- predecessor has processed ends in the buffer of its successor. Fingerprints are texts; the hash that makes
-- them is not modelled here.
pub mod Unique
mod Tests
use uns_kit.Kit.{
  ℕ, zero, suc, ◌+◌, ◌-◌, Bool, true, false, ◌&&◌, Option, none, some, List, [], ◌∷◌, String,
  length, drop, leb, ◌==◌, ◌===◌, if◌then◌else◌, Result, ok, err,
}

-- `tail.every(...)` at one start: past the end of the items no text is met.
unfoldable pub starts_with : List String → List String → Bool
starts_with [] items = true
starts_with (t ∷ ts) [] = false
starts_with (t ∷ ts) (x ∷ xs) = x === t && starts_with ts xs

-- `items.slice(-size)` for a size above zero.
abbrev pub last_items : ℕ → List String → List String
last_items size items = drop (length items - size) items

-- The loop of `matches`, from `start` on; the items are those from there. A size is above zero, so no start
-- is left at the end of the items.
unfoldable pub match_ends : List String → ℕ → ℕ → List String → List ℕ
unfolding starts_with
match_ends tail size start [] = []
match_ends tail size start (x ∷ xs) =
    let rest = match_ends tail size (suc start) xs in
    if leb size (length (x ∷ xs))
    then (if starts_with tail (x ∷ xs) then (start + size) ∷ rest else rest)
    else []

abbrev pub only_one : List ℕ → Option ℕ
only_one [] = none
only_one (e ∷ []) = some e
only_one (e ∷ d ∷ es) = none

-- One round of the loop over sizes.
unfoldable pub boundary_at : ℕ → List String → List String → Option ℕ
unfolding match_ends
boundary_at size processed_tail buffered =
    let tail = last_items size processed_tail in
    if length (match_ends tail size 0 processed_tail) == 1
    then only_one (match_ends tail size 0 buffered)
    else none

abbrev pub or_smaller : Option ℕ → Result ℕ → Result ℕ
or_smaller none smaller = smaller
or_smaller (some e) smaller = ok e

unfoldable pub search_sizes : ℕ → List String → List String → Result ℕ
unfolding boundary_at
search_sizes zero processed_tail buffered =
    err "MQTT input overlap is missing or ambiguous; successor stays passive"
search_sizes (suc size) processed_tail buffered =
    or_smaller (boundary_at (suc size) processed_tail buffered)
      (search_sizes size processed_tail buffered)

abbrev pub lesser : ℕ → ℕ → ℕ
lesser a b = if leb a b then a else b

unfoldable pub unique_input_boundary : List String → List String → Result ℕ
unfolding search_sizes
unique_input_boundary [] buffered = ok 0
unique_input_boundary (t ∷ ts) buffered =
    search_sizes (lesser (length (t ∷ ts)) (length buffered)) (t ∷ ts) buffered
