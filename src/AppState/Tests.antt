-- ===== src/AppState/Tests.antt =====
-- The copy of the application's state at concrete values.
use uns_kit.Kit.{◌*◌, ◌≤◌, ◌≡◌, refl, ◌↔◌, true, err, ok}
use uns_kit.AppState.{
  Json, null, text, flag, number, array_of, object_of, no_element, element, no_member, member,
  visit, clone_application_state,
}
use uns_kit.AppState.Measure.{node_count, levels, IsPlain}
use uns_kit.AppState.Accepts.{clone_application_state_iff}

abbrev totals : Json
totals = object_of (
    member "sum" (number true "12")
      (member "seen" (array_of (element (text "a") (element null no_element))) no_member))

abbrev poisoned : Json
poisoned = object_of (member "__proto__" (flag true) no_member)

clone_totals : clone_application_state (λ v. 35) totals ≡ ok totals
unfolding clone_application_state visit
clone_totals = refl

clone_poisoned : clone_application_state (λ v. 35) poisoned ≡ err "Unsafe application state key"
unfolding clone_application_state visit
clone_poisoned = refl

clone_too_long :
    clone_application_state (λ v. 786433) totals
    ≡ err "Application handover state exceeds byte bound"
unfolding clone_application_state visit
clone_too_long = refl

clone_application_state_iff_example : (clone_application_state (λ v. 35) totals ≡ ok totals) ↔ (
    (totals ≡ totals)
    × (node_count totals ≤ 50000)
    × (levels totals ≤ 32)
    × IsPlain totals
    × (35 ≤ 768 * 1024))
clone_application_state_iff_example = clone_application_state_iff (λ v. 35) totals totals
