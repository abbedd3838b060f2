-- ===== src/DirectRoutes/Policy.antt =====
-- The route identifiers of a policy of direct-route-policy.ts: each given one stands once.
use uns_kit.Kit.{
  ◌≡◌, ◌∙◌, ◌⊎◌, refl, sym, ap, true, false, ◌||◌, Option, none, some, List, [], ◌∷◌, ◌++◌, String,
  ◌===◌, eq_iff, if_each, if_both, arith, Bool-cases, inl, inr, Exists,
}
use uns_kit.DirectRoutes.{includes, normalize_id, keep_new, unique_strings}

other_text : (a b : String) → (a === b) ≡ false → (b === a) ≡ false
other_text a b h = elim (Bool-cases (b === a)) [
  | inl same ↦ absurd (ground (arith, h, (eq_iff a b).1 (sym ((eq_iff b a).0 same))))
  | inr other ↦ other
]

abbrev pub NoRepeat : List String → Type 0
NoRepeat [] = Unit
NoRepeat (x ∷ xs) = (includes x xs ≡ false) × NoRepeat xs

includes-snoc :
    (x y : String) (xs : List String)
    → includes x xs ≡ false
    → (y === x) ≡ false
    → includes x (xs ++ y ∷ []) ≡ false
unfolding includes
includes-snoc x y [] h o = rw o refl
includes-snoc x y (z ∷ zs) h o = ground (arith, h, includes-snoc x y zs)

NoRepeat-snoc :
    (id : String) (xs : List String)
    → includes id xs ≡ false
    → NoRepeat xs
    → NoRepeat (xs ++ id ∷ [])
unfolding includes
NoRepeat-snoc id [] h n = (refl, tt)
NoRepeat-snoc id (x ∷ xs) h n = (
  includes-snoc x id xs n.0 (other_text x id (ground (arith, h))),
  NoRepeat-snoc id xs (ground (arith, h)) n.1,
)

module _ (trim_lower_case : String → String) where
  keep_new-NoRepeat :
      (id : Option String) (seen : List String)
      → NoRepeat seen
      → NoRepeat (keep_new trim_lower_case id seen)
  keep_new-NoRepeat none seen n = n
  keep_new-NoRepeat (some id) seen n =
      if_each (λ xs. NoRepeat xs) (includes id seen) seen (seen ++ id ∷ []) (λ known. n)
        (λ fresh. NoRepeat-snoc id seen fresh n)

  pub unique_strings-NoRepeat :
      (vs seen : List String) → NoRepeat seen → NoRepeat (unique_strings trim_lower_case seen vs)
  unfolding unique_strings
  unique_strings-NoRepeat [] seen n = n
  unique_strings-NoRepeat (v ∷ vs) seen n =
      unique_strings-NoRepeat vs _
        (keep_new-NoRepeat (normalize_id trim_lower_case (some v)) seen n)

  -- Some text of the list has the identifier as its normal form.
  abbrev pub Given : String → List String → Type 0
  Given id vs = Exists (λ (v : String). normalize_id trim_lower_case (some v) ≡ some id) vs

  includes-append :
      (id x : String) (xs : List String)
      → includes id (xs ++ x ∷ []) ≡ (includes id xs || (x === id))
  unfolding includes
  includes-append id x [] = ground arith
  includes-append id x (y ∷ ys) = ground (arith, includes-append id x ys)

  keep_new-origin :
      (id : String) (o : Option String) (seen : List String)
      → includes id (keep_new trim_lower_case o seen) ≡ true
      → (includes id seen ≡ true) ⊎ (o ≡ some id)
  keep_new-origin id none seen h = inl h
  keep_new-origin id (some x) seen h =
      if_each
        (λ (ys : List String).
          includes id ys ≡ true → (includes id seen ≡ true) ⊎ (some x ≡ some id))
        (includes x seen) seen (seen ++ x ∷ []) (λ known h. inl h)
        (λ fresh h. elim (Bool-cases (x === id)) [
          | inl e ↦ inr (ap some ((eq_iff x id).0 e))
          | inr e ↦ inl (ground (arith, includes-append id x seen, h, e))
        ])
        h

  keep_new-keeps :
      (id : String) (o : Option String) (seen : List String)
      → includes id seen ≡ true
      → includes id (keep_new trim_lower_case o seen) ≡ true
  keep_new-keeps id none seen h = h
  keep_new-keeps id (some x) seen h =
      if_both (λ (ys : List String). includes id ys ≡ true) (includes x seen) seen (seen ++ x ∷ [])
        h (ground (arith, includes-append id x seen, h))

  keep_new-adds :
      (id : String) (o : Option String) (seen : List String)
      → o ≡ some id
      → includes id (keep_new trim_lower_case o seen) ≡ true
  keep_new-adds id none seen e = absurd (cc e)
  keep_new-adds id (some x) seen e =
      let same : x ≡ id = cc e in
      let itself : (x === id) ≡ true = (eq_iff x id).1 same in
      if_each (λ (ys : List String). includes id ys ≡ true) (includes x seen) seen (seen ++ x ∷ [])
        (λ known. ap (λ (y : String). includes y seen) (sym same) ∙ known)
        (λ fresh. ground (arith, includes-append id x seen, itself))

  pub unique_strings-origin :
      (id : String) (vs seen : List String)
      → includes id (unique_strings trim_lower_case seen vs) ≡ true
      → (includes id seen ≡ true) ⊎ Given id vs
  unfolding unique_strings
  unique_strings-origin id [] seen h = inl h
  unique_strings-origin id (v ∷ vs) seen h =
      let o = normalize_id trim_lower_case (some v) in
      elim (unique_strings-origin id vs (keep_new trim_lower_case o seen) h) [
        | inr later ↦ inr (inr later)
        | inl now ↦ elim (keep_new-origin id o seen now) [
          | inl known ↦ inl known
          | inr e ↦ inr (inl e)
        ]
      ]

  pub unique_strings_complete :
      (id : String) (vs seen : List String)
      → (includes id seen ≡ true) ⊎ Given id vs
      → includes id (unique_strings trim_lower_case seen vs) ≡ true
  unfolding unique_strings
  unique_strings_complete id [] seen (inl h) = h
  unique_strings_complete id [] seen (inr h) = absurd h
  unique_strings_complete id (v ∷ vs) seen (inl h) =
      unique_strings_complete id vs
        (keep_new trim_lower_case (normalize_id trim_lower_case (some v)) seen)
        (inl (keep_new-keeps id (normalize_id trim_lower_case (some v)) seen h))
  unique_strings_complete id (v ∷ vs) seen (inr (inl e)) =
      unique_strings_complete id vs
        (keep_new trim_lower_case (normalize_id trim_lower_case (some v)) seen)
        (inl (keep_new-adds id (normalize_id trim_lower_case (some v)) seen e))
  unique_strings_complete id (v ∷ vs) seen (inr (inr h)) =
      unique_strings_complete id vs
        (keep_new trim_lower_case (normalize_id trim_lower_case (some v)) seen) (inr h)
