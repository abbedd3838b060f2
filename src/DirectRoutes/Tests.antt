-- ===== src/DirectRoutes/Tests.antt =====
-- Runs and examples of the direct routes.
use uns_kit.Kit.{ℕ, ◌≡◌, ◌↔◌, refl, true, false, some, [], ◌∷◌, String}
use uns_kit.DirectRoutes.{
  Workflow, intent_scope, catalog_scope, includes, normalize_id, find_intent, routes_of_intent,
  build_policy, build_decision,
}
use uns_kit.DirectRoutes.Policy.{NoRepeat, Given}
use uns_kit.DirectRoutes.Declared.{Sorted, build_policy-Sorted, Allowed, build_decision-Allowed}

-- All ids are in lower case.
abbrev as_is : String → String
as_is id = id

abbrev workflow : Workflow ℕ
workflow = record {
  intents = record { id = "trend"; direct_routes = "chart" ∷ "table" ∷ "chart" ∷ [] } ∷ [];
  direct_routes = record { id = "chart"; definition = 1 } ∷ [];
}

not_in_catalog :
    (build_decision as_is workflow catalog_scope (some "trend") (some "table") true).is_enabled
    ≡ false
unfolding build_decision
not_in_catalog = refl

build_decision-Allowed_example :
    Allowed as_is workflow intent_scope
      (some "trend")
      (some "chart")
      true
      (build_decision as_is workflow intent_scope (some "trend") (some "chart") true)
unfolding build_decision
build_decision-Allowed_example =
    build_decision-Allowed as_is workflow intent_scope (some "trend") (some "chart") true refl

build_policy-Sorted_example :
    let policy = build_policy as_is workflow (some "trend") in
    NoRepeat policy.route_ids
    × ((id : String)
        → (includes id policy.route_ids ≡ true)
          ↔ Given as_is id
              (routes_of_intent (find_intent as_is workflow (normalize_id as_is (some "trend")))))
    × Sorted as_is workflow.direct_routes policy.route_ids policy.routes policy.missing_route_ids
build_policy-Sorted_example = build_policy-Sorted as_is workflow (some "trend")
