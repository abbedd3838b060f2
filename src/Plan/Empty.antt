-- ===== src/Plan/Empty.antt =====
-- What lists of reasons that are empty say.
use uns_kit.Kit.{
  ◌≡◌, refl, inl, inr, Bool, true, false, not, List, [], ◌∷◌, ◌++◌, map, String, All, if◌then◌else◌,
  Bool-cases,
}
use mathlib.Core.Path.{subst}
use uns_kit.DirectRoutes.{includes}
use uns_kit.Plan.Build.{is_nil, unique_onto, unique, without, known_in, dependency_reasons, only_if}

pub is_nil-eq {ℓ} : {A : Type ℓ} (xs : List A) → is_nil xs ≡ true → xs ≡ []
is_nil-eq [] h = refl
is_nil-eq (x ∷ xs) h = absurd (cc h)

pub filled_nil {ℓ} : {A : Type ℓ} {x : A} {xs : List A} → x ∷ xs ≡ [] → ⊥
filled_nil h = cc h

pub nil_left {ℓ} : {A : Type ℓ} (xs ys : List A) → xs ++ ys ≡ [] → xs ≡ []
nil_left [] ys h = refl
nil_left (x ∷ xs) ys h = absurd (filled_nil h)

pub nil_right {ℓ} : {A : Type ℓ} (xs ys : List A) → xs ++ ys ≡ [] → ys ≡ []
nil_right [] ys h = h
nil_right (x ∷ xs) ys h = absurd (filled_nil h)

pub map-nil {ℓ κ} : {A : Type ℓ} {B : Type κ} (f : A → B) (xs : List A) → map f xs ≡ [] → xs ≡ []
map-nil f [] h = refl
map-nil f (x ∷ xs) h = absurd (filled_nil h)

pub unique_onto-filled :
    (x : String) (out vs : List String) → is_nil (unique_onto (x ∷ out) vs) ≡ false
unfolding unique_onto
unique_onto-filled x out [] = refl
unique_onto-filled x out (v ∷ vs) = elim (Bool-cases (includes v (x ∷ out))) [
  | inl e ↦ rw e (unique_onto-filled x out vs)
  | inr e ↦ rw e (unique_onto-filled x (out ++ v ∷ []) vs)
]

pub unique-nil : (vs : List String) → is_nil (unique vs) ≡ true → vs ≡ []
unfolding unique unique_onto
unique-nil [] h = refl
unique-nil (v ∷ vs) h = absurd (cc (h, first))
  where
    first : is_nil (unique (v ∷ vs)) ≡ false
    first = unique_onto-filled v [] vs

-- What is neither missing nor late is in the list.
pub without-nil :
    (known vs : List String)
    → without known vs ≡ []
    → All (λ (v : String). includes v known ≡ true) vs
unfolding without
without-nil known [] h = tt
without-nil known (v ∷ vs) h = elim (Bool-cases (includes v known)) [
  | inl e ↦ (
    e,
    without-nil known vs
        (subst (λ (b : Bool). (if b then without known vs else v ∷ without known vs) ≡ []) e h),
  )
  | inr e ↦ absurd (
      filled
        (subst (λ (b : Bool). (if b then without known vs else v ∷ without known vs) ≡ []) e h))
]
  where
    filled : v ∷ without known vs ≡ [] → ⊥
    filled k = filled_nil k

pub known_in-all :
    (known vs : List String)
    → All (λ (v : String). includes v known ≡ true) vs
    → known_in known vs ≡ vs
unfolding known_in
known_in-all known [] h = refl
known_in-all known (v ∷ vs) h = rw (h.0, known_in-all known vs h.1) refl

pub dependencies_met :
    (step_id : String) (selected seen deps : List String)
    → dependency_reasons step_id (without selected deps) (without seen (known_in selected deps))
      ≡ []
    → All (λ (d : String). includes d seen ≡ true) deps
unfolding dependency_reasons
dependencies_met step_id selected seen deps h =
    let missing : without selected deps ≡ [] = map-nil _ (without selected deps) (nil_left _ _ h) in
    let late : without seen (known_in selected deps) ≡ [] =
      map-nil _ (without seen (known_in selected deps)) (nil_right _ _ h) in
    let known : known_in selected deps ≡ deps =
      known_in-all selected deps (without-nil selected deps missing) in
    without-nil seen deps (subst (λ (ds : List String). without seen ds ≡ []) known late)

pub seven_nil :
    (a b c d e f g : List String)
    → a ++ b ++ c ++ d ++ e ++ f ++ g ≡ []
    → (b ≡ []) × (f ≡ []) × (g ≡ [])
seven_nil a b c d e f g h =
    let left = nil_left (a ++ b ++ c ++ d ++ e ++ f) g h in
    (
      nil_right a b (
          nil_left (a ++ b) c (
            nil_left (a ++ b ++ c) d
              (nil_left (a ++ b ++ c ++ d) e (nil_left (a ++ b ++ c ++ d ++ e) f left)))),
      nil_right (a ++ b ++ c ++ d ++ e) f left,
      nil_right (a ++ b ++ c ++ d ++ e ++ f) g h,
    )

pub deps_nil :
    (optional : Bool) (blockers warnings deps : List String)
    → only_if (not optional) (blockers ++ deps) ≡ []
    → warnings ++ only_if optional deps ≡ []
    → deps ≡ []
deps_nil true blockers warnings deps h k = nil_right warnings deps k
deps_nil false blockers warnings deps h k = nil_right blockers deps h
