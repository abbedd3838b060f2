-- ===== src/InputBoundary/Unique.antt =====
-- What `uniqueInputBoundary` of input-queue-boundary.ts finds: the end of the only place of a suffix.
use mathlib.Core.List.{append-nil}
use mathlib.Core.List.{Memᴰ}
use mathlib.Core.List.Memᴰ
use mathlib.Core.Path.{subst}
use uns_kit.Kit.{
  ℕ, zero, suc, ◌+◌, ◌-◌, ◌≤◌, ◌<◌, ◌≡◌, refl, sym, ap, ◌∙◌, ◌⊎◌, inl, inr, Bool, true, false,
  Option, none, some, List, [], ◌∷◌, ◌++◌, String, length, drop, take, leb, le→leb, ◌==◌, eq_iff,
  if◌then◌else◌, ok, ok_injective, Option-cases, arith, length-append, length-drop, if_each,
}
use uns_kit.InputBoundary.{
  starts_with, last_items, match_ends, only_one, boundary_at, or_smaller, search_sizes, lesser,
  unique_input_boundary,
}

starts_with-split :
    (ts items : List String)
    → starts_with ts items ≡ true
    → (after : List String) × (items ≡ ts ++ after)
unfolding starts_with
starts_with-split [] items h = (items, refl)
starts_with-split (t ∷ ts) [] h = absurd (ground (arith, h))
starts_with-split (t ∷ ts) (x ∷ xs) h =
    let split = starts_with-split ts xs (ground (arith, h)) in
    let same : x ≡ t = (eq_iff x t).0 (ground (arith, h)) in
    (split.0, ap (λ y. y ∷ xs) same ∙ ap (λ ys. t ∷ ys) split.1)

starts_with-append : (ts after : List String) → starts_with ts (ts ++ after) ≡ true
unfolding starts_with
starts_with-append [] after = refl
starts_with-append (t ∷ ts) after = rw ((eq_iff t t).1 refl) (starts_with-append ts after)

-- The texts occur in the items, and their end is `e`.
pub record Ends (ts items : List String) (e : ℕ) : Type 0 where
  pub before : List String
  pub after : List String
  pub split : items ≡ before ++ (ts ++ after)
  pub place : e ≡ length before + length ts

module _ (ts : List String) (size : ℕ) (full : size ≡ length ts) where
  abbrev Found : ℕ → ℕ → List String → Type 0
  Found start e items = (end : ℕ) × (e ≡ start + end) × Ends ts items end

  later :
      (start e : ℕ) (x : String) (xs : List String)
      → Found (suc start) e xs
      → Found start e (x ∷ xs)
  later start e x xs (end, at, h) = (
    suc end,
    omega (arith, at),
    record {
      before = x ∷ h.before;
      after = h.after;
      split = ap (λ ys. x ∷ ys) h.split;
      place = omega (arith, h.place);
    },
  )

  match_ends-Found :
      (start e : ℕ) (items : List String)
      → Memᴰ e (match_ends ts size start items)
      → Found start e items
  unfolding match_ends
  match_ends-Found start e [] m = absurd (Memᴰ.not-nil m)
  match_ends-Found start e (x ∷ xs) m =
      let rest : List ℕ = match_ends ts size (suc start) xs in
      let below = λ (k : Memᴰ e rest). later start e x xs (match_ends-Found (suc start) e xs k) in
      if_each (λ ys. Memᴰ e ys → Found start e (x ∷ xs)) (leb size (length (x ∷ xs)))
        (if starts_with ts (x ∷ xs) then (start + size) ∷ rest else rest) []
        (λ fits.
          if_each (λ ys. Memᴰ e ys → Found start e (x ∷ xs)) (starts_with ts (x ∷ xs))
            ((start + size) ∷ rest) rest
            (λ here k. elim (Memᴰ.cases_cons k) [
              | inl at ↦
                  let split = starts_with-split ts (x ∷ xs) here in
                  (
                    size,
                    at,
                    record {
                      before = [];
                      after = split.0;
                      split = split.1;
                      place = omega (arith, full);
                    },
                  )
              | inr k' ↦ below k'
            ])
            (λ other k. below k))
        (λ none k. absurd (Memᴰ.not-nil k)) m

  match_ends-here :
      (start : ℕ) (x : String) (xs : List String)
      → size ≤ length (x ∷ xs)
      → starts_with ts (x ∷ xs) ≡ true
      → Memᴰ (start + size) (match_ends ts size start (x ∷ xs))
  unfolding match_ends
  match_ends-here start x xs fits here =
      rw (le→leb size (length (x ∷ xs)) fits, here) (Memᴰ.head refl)

  match_ends-later :
      (start e : ℕ) (x : String) (xs : List String)
      → size ≤ length (x ∷ xs)
      → Memᴰ e (match_ends ts size (suc start) xs)
      → Memᴰ e (match_ends ts size start (x ∷ xs))
  unfolding match_ends
  match_ends-later start e x xs fits m = rw (le→leb size (length (x ∷ xs)) fits) (
      if_each (λ ys. Memᴰ e ys) (starts_with ts (x ∷ xs))
        ((start + size) ∷ match_ends ts size (suc start) xs) (match_ends ts size (suc start) xs)
        (λ here. Memᴰ.tail m) (λ other. m))

  match_ends-first :
      (start : ℕ) (after items : List String)
      → 0 < size
      → items ≡ ts ++ after
      → Memᴰ (start + size) (match_ends ts size start items)
  match_ends-first start after [] l split =
      absurd (omega (arith, full, ap (λ ys. length ys) split, length-append ts after))
  match_ends-first start after (x ∷ xs) l split =
      match_ends-here start x xs
        (omega (arith, full, ap (λ ys. length ys) split, length-append ts after))
        (ap (λ ys. starts_with ts ys) split ∙ starts_with-append ts after)

  match_ends-mem :
      (start : ℕ) (before after : List String)
      → 0 < size
      → Memᴰ (start + length before + size) (match_ends ts size start (before ++ (ts ++ after)))
  match_ends-mem start [] after l =
      subst (λ e. Memᴰ (e + size) (match_ends ts size start (ts ++ after))) (omega arith)
        (match_ends-first start after (ts ++ after) l refl)
  match_ends-mem start (x ∷ before) after l =
      match_ends-later start (start + suc (length before) + size) x (before ++ (ts ++ after))
        (omega (arith, full, length-append before (ts ++ after), length-append ts after))
        (subst (λ e. Memᴰ (e + size) (match_ends ts size (suc start) (before ++ (ts ++ after))))
          (omega arith) (match_ends-mem (suc start) before after l))

  -- Every end is listed.
  Ends-mem :
      (items : List String) (e : ℕ)
      → 0 < size
      → Ends ts items e
      → Memᴰ e (match_ends ts size 0 items)
  Ends-mem items e l h =
      subst (λ ys. Memᴰ e (match_ends ts size 0 ys)) (sym h.split)
        (subst (λ d. Memᴰ d (match_ends ts size 0 (h.before ++ (ts ++ h.after))))
          (omega (arith, full, h.place)) (match_ends-mem 0 h.before h.after l))

  match_ends-Ends :
      (items : List String) (e : ℕ) → match_ends ts size 0 items ≡ e ∷ [] → Ends ts items e
  match_ends-Ends items e only =
      let found =
        match_ends-Found 0 e items (subst (λ es. Memᴰ e es) (sym only) (Memᴰ.head refl)) in
      subst (λ d. Ends ts items d) (omega (arith, found.1)) found.2

  match_ends-only :
      (items : List String) (e : ℕ)
      → 0 < size
      → match_ends ts size 0 items ≡ e ∷ []
      → (d : ℕ) → Ends ts items d
      → d ≡ e
  match_ends-only items e l only d h =
      Memᴰ.eq_of_singleton (subst (λ es. Memᴰ d es) only (Ends-mem items d l h))

-- A boundary: a suffix of what was processed that stands once in it, and once in the buffer, where `e` ends it.
pub record Boundary (processed buffered : List String) (e : ℕ) : Type 0 where
  pub size : ℕ
  pub positive : 0 < size
  pub within : size ≤ length processed
  pub found : Ends (last_items size processed) buffered e
  pub only : (d : ℕ) → Ends (last_items size processed) buffered d → d ≡ e
  pub once : (d : ℕ) → Ends (last_items size processed) processed d → d ≡ length processed

take-drop : (n : ℕ) (xs : List String) → xs ≡ take n xs ++ drop n xs
take-drop zero xs = refl
take-drop (suc n) [] = refl
take-drop (suc n) (x ∷ xs) = ap (λ ys. x ∷ ys) (take-drop n xs)

last_items-Ends : (size : ℕ) (xs : List String) → Ends (last_items size xs) xs (length xs)
last_items-Ends size xs = record {
  before = take (length xs - size) xs;
  after = [];
  split =
      take-drop (length xs - size) xs
      ∙ ap (λ ys. take (length xs - size) xs ++ ys) (sym (append-nil (last_items size xs)));
  place =
      ap (λ ys. length ys) (take-drop (length xs - size) xs)
      ∙ length-append (take (length xs - size) xs) (last_items size xs);
}

only_one-some : (es : List ℕ) (e : ℕ) → only_one es ≡ some e → es ≡ e ∷ []
only_one-some [] e h = absurd (ground (arith, h))
only_one-some (x ∷ []) e h = cc h
only_one-some (x ∷ y ∷ es) e h = absurd (ground (arith, h))

singleton : (es : List ℕ) → (length es == 1) ≡ true → (e : ℕ) × (es ≡ e ∷ [])
singleton [] h = absurd (ground (arith, h))
singleton (x ∷ []) h = (x, refl)
singleton (x ∷ y ∷ es) h = absurd (ground (arith, h))

if_some :
    (b : Bool) (o : Option ℕ) (e : ℕ) → (if b then o else none) ≡ some e → (b ≡ true) × (o ≡ some e)
if_some true o e h = (refl, h)
if_some false o e h = absurd (ground (arith, h))

boundary_at-Boundary :
    (size : ℕ) (processed buffered : List String) (e : ℕ)
    → 0 < size
    → size ≤ length processed
    → boundary_at size processed buffered ≡ some e
    → Boundary processed buffered e
unfolding boundary_at
boundary_at-Boundary size processed buffered e l w h =
    let ts : List String = last_items size processed in
    let full : size ≡ length ts =
      omega (arith, w, length-drop (length processed - size) processed) in
    let both =
      if_some (length (match_ends ts size 0 processed) == 1)
        (only_one (match_ends ts size 0 buffered)) e h in
    let sole = singleton (match_ends ts size 0 processed) both.0 in
    let found = only_one-some (match_ends ts size 0 buffered) e both.1 in
    let itself =
      match_ends-only ts size full processed sole.0 l sole.1 (length processed)
        (last_items-Ends size processed) in
    record {
      size = size;
      positive = l;
      within = w;
      found = match_ends-Ends ts size full buffered e found;
      only = match_ends-only ts size full buffered e l found;
      once = λ d k. match_ends-only ts size full processed sole.0 l sole.1 d k ∙ sym itself;
    }

search_sizes-Boundary :
    (size : ℕ) (processed buffered : List String) (e : ℕ)
    → size ≤ length processed
    → search_sizes size processed buffered ≡ ok e
    → Boundary processed buffered e
unfolding search_sizes
search_sizes-Boundary zero processed buffered e w h = absurd (ground (arith, h))
search_sizes-Boundary (suc size) processed buffered e w h =
    elim (Option-cases (boundary_at (suc size) processed buffered)) [
      | inl none_here ↦
          search_sizes-Boundary size processed buffered e (omega (arith, w))
            (sym (ap (λ o. or_smaller o (search_sizes size processed buffered)) none_here) ∙ h)
      | inr (d, here) ↦ boundary_at-Boundary (suc size) processed buffered e (omega arith) w (
          here
          ∙ ap (λ n. some n)
              (ok_injective
                (sym (ap (λ o. or_smaller o (search_sizes size processed buffered)) here) ∙ h)))
    ]

-- A boundary that is found ends a suffix of the processed input which stands once in that input and once in
-- the buffer: neither a repeated suffix nor a missing one authorizes skipping. Without processed input nothing
-- is skipped.
pub unique_input_boundary-Boundary :
    (processed buffered : List String) (e : ℕ)
    → unique_input_boundary processed buffered ≡ ok e
    → ((processed ≡ []) × (e ≡ 0)) ⊎ Boundary processed buffered e
unfolding unique_input_boundary
unique_input_boundary-Boundary [] buffered e h = inl (refl, sym (ok_injective h))
unique_input_boundary-Boundary (t ∷ ts) buffered e h = inr (
    search_sizes-Boundary (lesser (length (t ∷ ts)) (length buffered)) (t ∷ ts) buffered e
      (ground arith) h)
