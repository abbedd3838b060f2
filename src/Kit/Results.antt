-- ===== src/Kit/Results.antt =====
-- A function that may throw returns a `Result`, with the text of the error.
use Prim.Native.String.{String}
use mathlib.Core.Path.{◌≡◌, refl}
use mathlib.Core.Logic.{◌⊎◌, inl, inr}
use mathlib.Core.Bool.{Bool, true, false}

pub data Result {ℓ} (A : Type ℓ) : Type ℓ where
  err : (message : String) → Result A
  ok : (value : A) → Result A

infixl 5 ◌>>=◌ ◌>>◌
-- The first error ends a chain.
abbrev pub ◌>>=◌ {ℓ κ} : {A : Type ℓ} {B : Type κ} → Result A → (A → Result B) → Result B
◌>>=◌ (err message) next = err message
◌>>=◌ (ok value) next = next value

-- A check, and what follows it.
abbrev pub ◌>>◌ {κ} : {B : Type κ} → Result (Unit {0}) → Result B → Result B
◌>>◌ (err message) rest = err message
◌>>◌ (ok checked) rest = rest

-- `if (b) throw Error(e)`
abbrev pub throw_if : Bool → String → Result (Unit {0})
throw_if true e = err e
throw_if false e = ok tt

pub Result-cases {ℓ} :
    {A : Type ℓ} (m : Result A)
    → ((value : A) × (m ≡ ok value)) ⊎ ((message : String) × (m ≡ err message))
Result-cases (ok value) = inl (value, refl)
Result-cases (err message) = inr (message, refl)

pub ok_injective {ℓ} : {A : Type ℓ} {x y : A} → ok x ≡ ok y → x ≡ y
ok_injective e = cc e

-- What a chain that succeeds has passed.
pub bind-ok {ℓ κ} :
    {A : Type ℓ} {B : Type κ} (m : Result A) (next : A → Result B) (r : B)
    → (m >>= next) ≡ ok r
    → (a : A) × (m ≡ ok a) × (next a ≡ ok r)
bind-ok (err e) next r h = cc
bind-ok (ok a) next r h = (a, refl, h)

pub throw_if-ok {κ} :
    {B : Type κ} (b : Bool) (e : String) (m : Result B) (r : B)
    → (throw_if b e >> m) ≡ ok r
    → (b ≡ false) × (m ≡ ok r)
throw_if-ok true e m r h = cc
throw_if-ok false e m r h = (refl, h)
