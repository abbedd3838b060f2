-- ===== src/Topics/Matcher.antt =====
-- `UnsTopicMatcher.matches` (packages/uns-core/src/uns/uns-topic-matcher.ts).
use uns_kit.Kit.{
  ℕ, zero, suc, ap, ◌∙◌, Bool-cases, inl, inr, drop, length-drop, ◌≤◌, ◌+◌, String, ◌≡◌, refl, ◌≢◌,
  ◌↔◌, Bool, true, false, Option, none, some, List, [], ◌∷◌, length, get_elem?, ◌==◌, ◌===◌,
  if◌then◌else◌, arith, eq_iff,
}
use native.Mathlib.Numerals.{towards_suc}
use uns_kit.Topics.Split.{segments}

-- `filterSegment === topicSegments[i]`, where a missing segment is `undefined`.
abbrev same_segment : String → Option String → Bool
same_segment f none = false
same_segment f (some t) = f === t

abbrev is_present : Option String → Bool
is_present none = false
is_present (some t) = true

-- The loop: `rest` are the segments of the filter from `i` on.
scan : List String → List String → List String → ℕ → Bool
scan filter topic [] i = length filter == length topic
scan filter topic (f ∷ rest) i =
    let next = scan filter topic rest (i + 1) in
    if f === "#"
    then true
    else if f === "+"
    then (if is_present (get_elem? topic i) then next else false)
    else if same_segment f (get_elem? topic i)
    then next
    else false

unfoldable pub matches : String → String → Bool
unfolding scan
matches filter topic = scan (segments filter) (segments topic) (segments filter) 0

-- The rules for wildcards: `#` takes all that follows, `+` takes one level.
pub data Accepts : List String → List String → Type 0 where
  rest_of : {f : String} {fs ts : List String} → f ≡ "#" → Accepts (f ∷ fs) ts
  one_level :
      {f t : String} {fs ts : List String} → f ≡ "+" → Accepts fs ts → Accepts (f ∷ fs) (t ∷ ts)
  literal :
      {f t : String} {fs ts : List String}
      → f ≢ "#"
      → f ≢ "+"
      → f ≡ t
      → Accepts fs ts
      → Accepts (f ∷ fs) (t ∷ ts)
  both_end : Accepts [] []

-- The loop without its index, over what is left on both sides.
walk : List String → List String → Bool
walk [] [] = true
walk [] (t ∷ ts) = false
walk (f ∷ fs) [] = f === "#"
walk (f ∷ fs) (t ∷ ts) =
    let next = walk fs ts in
    if f === "#" then true else if f === "+" then next else if f === t then next else false

get_elem?-drop : (xs : List String) (i : ℕ) → get_elem? xs i ≡ get_elem? (drop i xs) 0
get_elem?-drop [] zero = refl
get_elem?-drop [] (suc i) = refl
get_elem?-drop (x ∷ xs) zero = refl
get_elem?-drop (x ∷ xs) (suc i) = get_elem?-drop xs i

drop-suc : (xs : List String) (i : ℕ) → drop (i + 1) xs ≡ drop 1 (drop i xs)
drop-suc [] zero = refl
drop-suc [] (suc i) = simp towards_suc
drop-suc (x ∷ xs) zero = refl
drop-suc (x ∷ xs) (suc i) = simp towards_suc (rw (← drop-suc xs i) (simp towards_suc))

-- With both cursors at `i`, the loop walks what is left of the two lists.
scan-eq-walk :
    (filter topic rest ts : List String) (i : ℕ)
    → length filter ≡ i + length rest
    → drop i topic ≡ ts
    → i ≤ length topic
    → scan filter topic rest i ≡ walk rest ts
unfolding scan walk
scan-eq-walk filter topic [] ts i h d b =
    ground (arith, length-drop i topic, ap (λ (l : List String). length l) d)
scan-eq-walk filter topic (f ∷ rest) [] i h d b = ground (
  arith,
  get_elem?-drop topic i,
  ap (λ (l : List String). get_elem? l 0) d,
  scan-eq-walk filter topic rest [] (i + 1),
)
scan-eq-walk filter topic (f ∷ rest) (t ∷ ts) i h d b = ground (
  arith,
  get_elem?-drop topic i,
  ap (λ (l : List String). get_elem? l 0) d,
  scan-eq-walk filter topic rest ts (i + 1) (ground arith) (drop-suc topic i ∙ ap (drop 1) d)
      (omega (arith, length-drop i topic, ap (λ (l : List String). length l) d)),
)

walk_sound : (fs ts : List String) → walk fs ts ≡ true → Accepts fs ts
unfolding walk
walk_sound [] [] h = both_end
walk_sound [] (t ∷ ts) h = cc
walk_sound (f ∷ fs) [] h = rest_of ((eq_iff f "#").0 h)
walk_sound (f ∷ fs) (t ∷ ts) h = elim (Bool-cases (f === "#")) [
  | inl hash ↦ rest_of ((eq_iff f "#").0 hash)
  | inr other ↦ elim (Bool-cases (f === "+")) [
    | inl plus ↦ one_level ((eq_iff f "+").0 plus) (walk_sound fs ts (ground arith))
    | inr text ↦
        literal (ground (arith, eq_iff f "#")) (ground (arith, eq_iff f "+"))
          (ground (arith, eq_iff f t)) (walk_sound fs ts (ground arith))
  ]
]

walk_complete : {fs ts : List String} → Accepts fs ts → walk fs ts ≡ true
unfolding walk
walk_complete {ts = []} (rest_of {f} e) = (eq_iff f "#").1 e
walk_complete {ts = t ∷ ts} (rest_of {f} e) = rw ((eq_iff f "#").1 e)
walk_complete (one_level {f} e a) = ground (arith, eq_iff f "+", walk_complete a)
walk_complete (literal {f} {t} p q e a) = ground (arith, eq_iff f t, walk_complete a)
walk_complete both_end = refl

matches-eq-walk :
    (filter topic : String) → matches filter topic ≡ walk (segments filter) (segments topic)
unfolding matches
matches-eq-walk filter topic =
    scan-eq-walk (segments filter) (segments topic) (segments filter) (segments topic) 0
      (omega arith) refl (omega arith)

-- `matches` answers true exactly when the wildcard rules accept the segments of the topic for
-- those of the filter, empty segments dropped on both sides.
pub matches_iff :
    (filter topic : String)
    → (matches filter topic ≡ true) ↔ Accepts (segments filter) (segments topic)
matches_iff filter topic = rw matches-eq-walk (walk_sound _ _, walk_complete)
