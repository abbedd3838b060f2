-- ===== src/DirectRoutes.antt =====
-- Direct routes of the assistant workflow (packages/uns-assistant-workflow/src/direct-route-policy.ts). The trimmed
-- lower-case form of a text is a parameter, since it depends on the tables of Unicode; a value that is no text
-- is `none`.
pub mod Declared
pub mod Policy
mod Tests
use uns_kit.Kit.{
  Bool, true, false, not, ◌&&◌, ◌||◌, Option, none, some, List, [], ◌∷◌, ◌++◌, String, ◌===◌,
  is_empty, if◌then◌else◌,
}

-- A route, with what else its definition holds.
pub record DirectRoute (R : Type 0) : Type 0 where
  pub id : String
  pub definition : R

pub record Intent : Type 0 where
  pub id : String
  pub direct_routes : List String

pub record Workflow (R : Type 0) : Type 0 where
  pub intents : List Intent
  pub direct_routes : List (DirectRoute R)

pub record RoutePolicy (R : Type 0) : Type 0 where
  pub intent_id : Option String
  pub route_ids : List String
  pub routes : List (DirectRoute R)
  pub missing_route_ids : List String

pub data Reason : Type 0 where
  enabled : Reason
  runtime_disabled : Reason
  intent_not_found : Reason
  route_not_declared : Reason

pub record RouteDecision : Type 0 where
  pub intent_id : Option String
  pub route_id : String
  pub is_enabled : Bool
  pub reason : Reason
  pub policy_route_ids : List String

pub data PolicyScope : Type 0 where
  intent_scope : PolicyScope
  catalog_scope : PolicyScope

unfoldable pub includes : String → List String → Bool
includes x [] = false
includes x (y ∷ ys) = y === x || includes x ys

abbrev pub non_empty : String → Option String
non_empty s = if is_empty s then none else some s

unfoldable pub find_intent_by : String → List Intent → Option Intent
find_intent_by id [] = none
find_intent_by id (i ∷ is) = if i.id === id then some i else find_intent_by id is

-- `routesById.get`: of routes with the same id the last one counts.
abbrev pub or_else : {B : Type 0} → Option B → Option B → Option B
or_else none other = other
or_else (some b) other = some b

abbrev pub routes_of_intent : Option Intent → List String
routes_of_intent none = []
routes_of_intent (some intent) = intent.direct_routes

abbrev pub id_of_intent : Option Intent → Option String → Option String
id_of_intent none normalized = normalized
id_of_intent (some intent) normalized = some intent.id

abbrev pub text_or_empty : Option String → String
text_or_empty none = ""
text_or_empty (some s) = s

abbrev pub is_some : {B : Type 0} → Option B → Bool
is_some none = false
is_some (some b) = true

abbrev pub refused : Option String → String → Reason → List String → RouteDecision
refused intent_id route_id reason ids = record {
  intent_id = intent_id;
  route_id = route_id;
  is_enabled = false;
  reason = reason;
  policy_route_ids = ids;
}

abbrev pub allowed : Option String → String → List String → RouteDecision
allowed intent_id route_id ids = record {
  intent_id = intent_id;
  route_id = route_id;
  is_enabled = true;
  reason = enabled;
  policy_route_ids = ids;
}

module _ (trim_lower_case : String → String) where
  unfoldable pub normalize_id : Option String → Option String
  normalize_id none = none
  normalize_id (some value) = non_empty (trim_lower_case value)

  -- The next value is kept when it is not empty and not seen before.
  abbrev pub keep_new : Option String → List String → List String
  keep_new none seen = seen
  keep_new (some id) seen = if includes id seen then seen else seen ++ id ∷ []

  unfoldable pub unique_strings : List String → List String → List String
  unfolding includes normalize_id
  unique_strings seen [] = seen
  unique_strings seen (v ∷ vs) = unique_strings (keep_new (normalize_id (some v)) seen) vs

  module _ {R : Type 0} where
    abbrev pub find_normalized : Workflow R → Option String → Option Intent
    find_normalized workflow none = none
    find_normalized workflow (some id) = find_intent_by id workflow.intents

    unfoldable pub find_intent : Workflow R → Option String → Option Intent
    unfolding normalize_id find_intent_by
    find_intent workflow intent_id = find_normalized workflow (normalize_id intent_id)

    unfoldable pub find_route : String → List (DirectRoute R) → Option (DirectRoute R)
    find_route id [] = none
    find_route id (r ∷ rs) = or_else (find_route id rs) (if r.id === id then some r else none)

    abbrev pub add_found : Option (DirectRoute R) → List (DirectRoute R) → List (DirectRoute R)
    add_found none rest = rest
    add_found (some r) rest = r ∷ rest

    abbrev pub add_missing : Option (DirectRoute R) → String → List String → List String
    add_missing none id rest = id ∷ rest
    add_missing (some r) id rest = rest

    unfoldable pub routes_of : List (DirectRoute R) → List String → List (DirectRoute R)
    unfolding find_route
    routes_of declared [] = []
    routes_of declared (id ∷ ids) = add_found (find_route id declared) (routes_of declared ids)

    unfoldable pub missing_of : List (DirectRoute R) → List String → List String
    unfolding find_route
    missing_of declared [] = []
    missing_of declared (id ∷ ids) =
        add_missing (find_route id declared) id (missing_of declared ids)

    unfoldable pub build_policy : Workflow R → Option String → RoutePolicy R
    unfolding find_intent unique_strings routes_of missing_of
    build_policy workflow intent_id =
        let intent = find_intent workflow (normalize_id intent_id) in
        let route_ids = unique_strings [] (routes_of_intent intent) in
        record {
          intent_id = id_of_intent intent (normalize_id intent_id);
          route_ids = route_ids;
          routes = routes_of workflow.direct_routes route_ids;
          missing_route_ids = missing_of workflow.direct_routes route_ids;
        }

    abbrev pub decide_catalog : Workflow R → String → Bool → RouteDecision
    decide_catalog workflow route_id runtime_enabled =
        if is_empty route_id || not (is_some (find_route route_id workflow.direct_routes))
        then refused none route_id route_not_declared []
        else if not runtime_enabled
        then refused none route_id runtime_disabled (route_id ∷ [])
        else allowed none route_id (route_id ∷ [])

    abbrev pub decide_intent : Workflow R → RoutePolicy R → String → Bool → RouteDecision
    decide_intent workflow policy route_id runtime_enabled =
        if not (is_some (find_intent workflow policy.intent_id))
        then refused policy.intent_id route_id intent_not_found policy.route_ids
        else if is_empty route_id || not (includes route_id policy.route_ids)
        then refused policy.intent_id route_id route_not_declared policy.route_ids
        else if not runtime_enabled
        then refused policy.intent_id route_id runtime_disabled policy.route_ids
        else allowed policy.intent_id route_id policy.route_ids

    unfoldable pub build_decision :
        Workflow R → PolicyScope → Option String → Option String → Bool → RouteDecision
    unfolding build_policy normalize_id
    build_decision workflow catalog_scope intent_id route_id runtime_enabled =
        decide_catalog workflow (text_or_empty (normalize_id route_id)) runtime_enabled
    build_decision workflow intent_scope intent_id route_id runtime_enabled =
        decide_intent workflow (build_policy workflow intent_id)
          (text_or_empty (normalize_id route_id)) runtime_enabled
