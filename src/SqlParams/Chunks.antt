-- ===== src/SqlParams/Chunks.antt =====
-- `chunkArray` (packages/uns-database/src/params.ts), and that it loses nothing.
use uns_kit.Kit.{
  ℕ, zero, suc, ◌≤◌, ◌≡◌, refl, ap, ◌∙◌, List, [], ◌∷◌, ◌++◌, length, take, drop, arith, All,
  length-drop,
}

-- The loop over starts; the values are those from the current one on.
unfoldable pub chunks_from : {V : Type 0} → ℕ → ℕ → List V → List (List V)
chunks_from zero size values = []
chunks_from (suc fuel) size [] = []
chunks_from (suc fuel) size (v ∷ vs) =
    take size (v ∷ vs) ∷ chunks_from fuel size (drop size (v ∷ vs))

-- Every chunk takes at least one value, so there are no more chunks than values.
unfoldable pub chunk_array : {V : Type 0} → List V → ℕ → List (List V)
unfolding chunks_from
chunk_array values size = chunks_from (length values) size values

abbrev pub flatten : {V : Type 0} → List (List V) → List V
flatten [] = []
flatten (c ∷ cs) = c ++ flatten cs

module _ {V : Type 0} where
  abbrev pub SizedChunk : ℕ → List V → Type 0
  SizedChunk size chunk = (1 ≤ length chunk) × (length chunk ≤ size)

  take-append-drop : (n : ℕ) (xs : List V) → take n xs ++ drop n xs ≡ xs
  take-append-drop zero xs = refl
  take-append-drop (suc n) [] = refl
  take-append-drop (suc n) (x ∷ xs) = ap (λ ys. x ∷ ys) (take-append-drop n xs)

  take-SizedChunk : (n : ℕ) (x : V) (xs : List V) → 1 ≤ n → SizedChunk n (take n (x ∷ xs))
  take-SizedChunk zero x xs l = absurd (omega (arith, l))
  take-SizedChunk (suc n) x xs l = (omega arith, omega (arith, length-take n xs))
    where
      length-take : (m : ℕ) (ys : List V) → length (take m ys) ≤ m
      length-take zero ys = omega arith
      length-take (suc m) [] = omega arith
      length-take (suc m) (y ∷ ys) = omega (arith, length-take m ys)

  flatten-chunks_from :
      (fuel size : ℕ) (values : List V)
      → 1 ≤ size
      → length values ≤ fuel
      → flatten (chunks_from fuel size values) ≡ values
  unfolding chunks_from
  flatten-chunks_from zero size [] l f = refl
  flatten-chunks_from zero size (v ∷ vs) l f = absurd (omega (arith, f))
  flatten-chunks_from (suc fuel) size [] l f = refl
  flatten-chunks_from (suc fuel) size (v ∷ vs) l f =
      ap (λ ys. take size (v ∷ vs) ++ ys)
        (flatten-chunks_from fuel size (drop size (v ∷ vs)) l
          (omega (arith, f, l, length-drop size (v ∷ vs))))
      ∙ take-append-drop size (v ∷ vs)

  chunks_from-All :
      (fuel size : ℕ) (values : List V)
      → 1 ≤ size
      → All (SizedChunk size) (chunks_from fuel size values)
  unfolding chunks_from
  chunks_from-All zero size values l = tt
  chunks_from-All (suc fuel) size [] l = tt
  chunks_from-All (suc fuel) size (v ∷ vs) l =
      (take-SizedChunk size v vs l, chunks_from-All fuel size (drop size (v ∷ vs)) l)

  -- The chunks of an array are not empty and no longer than the size, and joined they are the array again: none
  -- of its values is lost, repeated or moved.
  pub flatten-chunk_array :
      (values : List V) (size : ℕ)
      → 1 ≤ size
      → (flatten (chunk_array values size) ≡ values)
        × All (SizedChunk size) (chunk_array values size)
  unfolding chunk_array
  flatten-chunk_array values size l = (
    flatten-chunks_from (length values) size values l (omega arith),
    chunks_from-All (length values) size values l,
  )
