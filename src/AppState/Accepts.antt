-- ===== src/AppState/Accepts.antt =====
-- The visit of the application's state succeeds exactly on what is plain and within the bounds.
use uns_kit.Kit.{
  ℕ, suc, ◌+◌, ◌≤◌, ◌≡◌, refl, ◌↔◌, true, false, Result, ok, ok_injective, bind-ok, throw_if-ok,
  arith, sym, ap, ◌∙◌, ◌*◌, ltb, ◌>>◌, ◌||◌,
}
use uns_kit.AppState.Measure.{
  node_count, elements_count, members_count, levels, elements_levels, members_levels, IsPlain,
  IsPlainElements, IsPlainMembers,
}
use uns_kit.AppState.{
  Json, null, text, flag, number, other, array_of, object_of, Elements, no_element, element,
  Members, no_member, member, is_unsafe_key, check_bounds, visit, visit_elements, visit_members,
  clone_application_state,
}

check_bounds-ok {κ} :
    {B : Type κ} (n d : ℕ) (m : Result B) (r : B)
    → (check_bounds n d >> m) ≡ ok r
    → (suc n ≤ 50000) × (d ≤ 32) × (m ≡ ok r)
check_bounds-ok n d m r h =
    let (e, k) : ((ltb 50000 (suc n) || ltb 32 d) ≡ false) × (m ≡ ok r) = throw_if-ok _ _ _ _ h in
    (ground arith, ground arith, k)

leaf-ok :
    (n d m : ℕ) → (check_bounds n d >> ok (suc n)) ≡ ok m → (m ≡ n + 1) × (m ≤ 50000) × (d + 0 ≤ 32)
leaf-ok n d m h =
    let (a, b, e) = check_bounds-ok n d (ok (suc n)) m h in
    let k : suc n ≡ m = ok_injective e in (omega arith, omega arith, omega arith)

-- What a visit that succeeds has found.
mutual
  unfolding visit node_count levels IsPlain

  visit_sound :
      (j : Json) (n d m : ℕ)
      → visit j n d ≡ ok m
      → (m ≡ n + node_count j) × (m ≤ 50000) × (d + levels j ≤ 32) × IsPlain j
  visit_sound null n d m h = let r = leaf-ok n d m h in (r.0, r.1, r.2, tt)
  visit_sound (text s) n d m h = let r = leaf-ok n d m h in (r.0, r.1, r.2, tt)
  visit_sound (flag b) n d m h = let r = leaf-ok n d m h in (r.0, r.1, r.2, tt)
  visit_sound (number true s) n d m h = let r = leaf-ok n d m h in (r.0, r.1, r.2, refl)
  visit_sound (number false s) n d m h = let r = (check_bounds-ok n d _ _ h).2 in cc
  visit_sound other n d m h = let r = (check_bounds-ok n d _ _ h).2 in cc
  visit_sound (array_of xs) n d m h =
      let (a, b, e) = check_bounds-ok n d (visit_elements xs (suc n) (suc d)) m h in
      let (s, t, u, v) = visit_elements_sound xs (suc n) d m a b e in (omega (arith, s), t, u, v)
  visit_sound (object_of fs) n d m h =
      let (a, b, e) = check_bounds-ok n d (visit_members fs (suc n) (suc d)) m h in
      let (s, t, u, v) = visit_members_sound fs (suc n) d m a b e in (omega (arith, s), t, u, v)

  visit_elements_sound :
      (xs : Elements) (n d m : ℕ)
      → n ≤ 50000
      → d ≤ 32
      → visit_elements xs n (suc d) ≡ ok m
      → (m ≡ n + elements_count xs)
        × (m ≤ 50000)
        × (d + elements_levels xs ≤ 32)
        × IsPlainElements xs
  visit_elements_sound no_element n d m k l h =
      let e : n ≡ m = ok_injective h in (omega arith, omega arith, omega arith, tt)
  visit_elements_sound (element x xs) n d m k l h =
      let (a, e, f) = bind-ok (visit x n (suc d)) (λ after. visit_elements xs after (suc d)) m h in
      let (s, t, u, v) = visit_sound x n (suc d) a e in
      let (s2, t2, u2, v2) = visit_elements_sound xs a d m t l f in
      (omega (arith, s, s2), t2, ground arith, (v, v2))

  visit_members_sound :
      (fs : Members) (n d m : ℕ)
      → n ≤ 50000
      → d ≤ 32
      → visit_members fs n (suc d) ≡ ok m
      → (m ≡ n + members_count fs) × (m ≤ 50000) × (d + members_levels fs ≤ 32) × IsPlainMembers fs
  visit_members_sound no_member n d m k l h =
      let e : n ≡ m = ok_injective h in (omega arith, omega arith, omega arith, tt)
  visit_members_sound (member key x fs) n d m k l h =
      let (q, g) = throw_if-ok (is_unsafe_key key) _ _ m h in
      let (a, e, f) = bind-ok (visit x n (suc d)) (λ after. visit_members fs after (suc d)) m g in
      let (s, t, u, v) = visit_sound x n (suc d) a e in
      let (s2, t2, u2, v2) = visit_members_sound fs a d m t l f in
      (omega (arith, s, s2), t2, ground arith, (q, v, v2))

check_bounds-pass {κ} :
    {B : Type κ} (n d : ℕ) (m : Result B) → suc n ≤ 50000 → d ≤ 32 → (check_bounds n d >> m) ≡ m
check_bounds-pass n d m h k =
    let e : ltb 50000 (suc n) ≡ false = ground arith in
    let f : ltb 32 d ≡ false = ground arith in rw (e, f)

-- A plain value within the bounds passes.
mutual
  unfolding visit node_count levels IsPlain

  visit_complete :
      (j : Json) (n d : ℕ)
      → n + node_count j ≤ 50000
      → d + levels j ≤ 32
      → IsPlain j
      → visit j n d ≡ ok (n + node_count j)
  visit_complete null n d h k p =
      check_bounds-pass n d (ok (suc n)) (omega arith) (omega arith) ∙ ap ok (omega arith)
  visit_complete (text s) n d h k p =
      check_bounds-pass n d (ok (suc n)) (omega arith) (omega arith) ∙ ap ok (omega arith)
  visit_complete (flag b) n d h k p =
      check_bounds-pass n d (ok (suc n)) (omega arith) (omega arith) ∙ ap ok (omega arith)
  visit_complete (number true s) n d h k p =
      check_bounds-pass n d (ok (suc n)) (omega arith) (omega arith) ∙ ap ok (omega arith)
  visit_complete (number false s) n d h k p = absurd (cc p)
  visit_complete other n d h k p = absurd p
  visit_complete (array_of xs) n d h k p =
      check_bounds-pass n d (visit_elements xs (suc n) (suc d)) (omega arith) (omega arith)
      ∙ visit_elements_complete xs (suc n) d (omega arith) k p
      ∙ ap ok (omega arith)
  visit_complete (object_of fs) n d h k p =
      check_bounds-pass n d (visit_members fs (suc n) (suc d)) (omega arith) (omega arith)
      ∙ visit_members_complete fs (suc n) d (omega arith) k p
      ∙ ap ok (omega arith)

  visit_elements_complete :
      (xs : Elements) (n d : ℕ)
      → n + elements_count xs ≤ 50000
      → d + elements_levels xs ≤ 32
      → IsPlainElements xs
      → visit_elements xs n (suc d) ≡ ok (n + elements_count xs)
  visit_elements_complete no_element n d h k p = ap ok (omega arith)
  visit_elements_complete (element x xs) n d h k p =
      let e = visit_complete x n (suc d) (omega arith) (ground arith) p.0 in
      let f = visit_elements_complete xs (n + node_count x) d (omega arith) (ground arith) p.1 in
      rw e (f ∙ ap ok (omega arith))

  visit_members_complete :
      (fs : Members) (n d : ℕ)
      → n + members_count fs ≤ 50000
      → d + members_levels fs ≤ 32
      → IsPlainMembers fs
      → visit_members fs n (suc d) ≡ ok (n + members_count fs)
  visit_members_complete no_member n d h k p = ap ok (omega arith)
  visit_members_complete (member key x fs) n d h k p =
      let e = visit_complete x n (suc d) (omega arith) (ground arith) p.1 in
      let f = visit_members_complete fs (n + node_count x) d (omega arith) (ground arith) p.2 in
      rw (p.0, e) (f ∙ ap ok (omega arith))

-- A value is accepted exactly when it is plain, has at most 50,000 nodes, 32 levels and 768 kilobytes; what is
-- returned is the value. Values are trees, without sparse arrays.
pub clone_application_state_iff :
    (byte_length : Json → ℕ) (value result : Json)
    → (clone_application_state byte_length value ≡ ok result) ↔ (
        (result ≡ value)
        × (node_count value ≤ 50000)
        × (levels value ≤ 32)
        × IsPlain value
        × (byte_length value ≤ 768 * 1024))
unfolding clone_application_state
clone_application_state_iff byte_length value result = (
  λ h.
      let (a, e, f) = bind-ok (visit value 0 0) _ result h in
      let (g, k) = throw_if-ok (ltb (768 * 1024) (byte_length value)) _ _ result f in
      let (s, t, u, v) = visit_sound value 0 0 a e in
      let same : value ≡ result = ok_injective k in
      (sym same, omega (arith, s, t), omega (arith, u), v, ground arith),
  λ (same, small, shallow, plain, short).
      let e = visit_complete value 0 0 (omega (arith, small)) (omega (arith, shallow)) plain in
      let f : ltb (768 * 1024) (byte_length value) ≡ false = ground (arith, short) in
      rw (e, f) (ap ok (sym same)),
)
