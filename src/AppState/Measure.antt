-- ===== src/AppState/Measure.antt =====
-- The number of values, the depth and the form of a JSON value, defined apart from the visit that checks them.
use uns_kit.Kit.{ℕ, suc, ◌+◌, ◌≡◌, true, false, ltb, if◌then◌else◌}
use uns_kit.AppState.{
  Json, null, text, flag, number, other, array_of, object_of, Elements, no_element, element,
  Members, no_member, member, is_unsafe_key,
}

abbrev pub max : ℕ → ℕ → ℕ
max a b = if ltb a b then b else a

-- The values in a value, itself included.
unfoldable mutual
  pub node_count : Json → ℕ
  node_count null = 1
  node_count (text s) = 1
  node_count (flag b) = 1
  node_count (number b s) = 1
  node_count other = 1
  node_count (array_of xs) = suc (elements_count xs)
  node_count (object_of fs) = suc (members_count fs)

  pub elements_count : Elements → ℕ
  elements_count no_element = 0
  elements_count (element x xs) = node_count x + elements_count xs

  pub members_count : Members → ℕ
  members_count no_member = 0
  members_count (member key x fs) = node_count x + members_count fs

-- The levels under a value.
unfoldable mutual
  pub levels : Json → ℕ
  levels null = 0
  levels (text s) = 0
  levels (flag b) = 0
  levels (number b s) = 0
  levels other = 0
  levels (array_of xs) = elements_levels xs
  levels (object_of fs) = members_levels fs

  pub elements_levels : Elements → ℕ
  elements_levels no_element = 0
  elements_levels (element x xs) = max (suc (levels x)) (elements_levels xs)

  pub members_levels : Members → ℕ
  members_levels no_member = 0
  members_levels (member key x fs) = max (suc (levels x)) (members_levels fs)

-- Finite numbers, no executable value, and no key that reaches a prototype.
unfoldable mutual
  pub IsPlain : Json → Type 0
  IsPlain null = Unit
  IsPlain (text s) = Unit
  IsPlain (flag b) = Unit
  IsPlain (number finite s) = finite ≡ true
  IsPlain other = ⊥
  IsPlain (array_of xs) = IsPlainElements xs
  IsPlain (object_of fs) = IsPlainMembers fs

  pub IsPlainElements : Elements → Type 0
  IsPlainElements no_element = Unit
  IsPlainElements (element x xs) = IsPlain x × IsPlainElements xs

  pub IsPlainMembers : Members → Type 0
  IsPlainMembers no_member = Unit
  IsPlainMembers (member key x fs) = (is_unsafe_key key ≡ false) × IsPlain x × IsPlainMembers fs
