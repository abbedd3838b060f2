-- ===== src/DirectRoutes/Declared.antt =====
-- What a decision of direct-route-policy.ts allows, and how a policy sorts the routes of an intent, against what the
-- workflow declares.
use uns_kit.Kit.{
  ◌≡◌, ◌∙◌, ◌⊎◌, ◌↔◌, refl, sym, ap, Bool, true, false, not, ◌||◌, Option, none, some, List, [],
  ◌∷◌, String, ◌===◌, eq_iff, is_empty, if_each, if◌then◌else◌, arith, inl, inr, All, Exists,
  Exists-weaken,
}
use uns_kit.DirectRoutes.{
  DirectRoute, Intent, Workflow, enabled, RouteDecision, PolicyScope, intent_scope, catalog_scope,
  includes, normalize_id, unique_strings, find_intent_by, find_intent, find_normalized, find_route,
  or_else, add_found, add_missing, routes_of, missing_of, routes_of_intent, build_policy,
  text_or_empty, is_some, decide_catalog, decide_intent, build_decision,
}
use uns_kit.DirectRoutes.Policy.{
  NoRepeat, Given, unique_strings-NoRepeat, unique_strings-origin, unique_strings_complete,
}

find_intent_by-some :
    (id : String) (is : List Intent) (i : Intent)
    → find_intent_by id is ≡ some i
    → Exists (λ (j : Intent). j ≡ i) is × (i.id ≡ id)
unfolding find_intent_by
find_intent_by-some id [] i h = absurd (cc h)
find_intent_by-some id (j ∷ js) i h =
    if_each
      (λ (o : Option Intent). o ≡ some i → Exists (λ (k : Intent). k ≡ i) (j ∷ js) × (i.id ≡ id))
      (j.id === id) (some j) (find_intent_by id js)
      (λ e h.
        let same : j ≡ i = cc h in
        (inl same, ap (λ (k : Intent). k.id) (sym same) ∙ (eq_iff j.id id).0 e))
      (λ e h. let (a, b) = find_intent_by-some id js i h in (inr a, b)) h

asked_for : (o : Option String) → is_empty (text_or_empty o) ≡ false → o ≡ some (text_or_empty o)
asked_for none h = absurd (cc h)
asked_for (some s) h = refl

module _ (trim_lower_case : String → String) {R : Type 0} where
  -- The route is one of the list, or none of the list has the identifier.
  abbrev Found : String → List (DirectRoute R) → Option (DirectRoute R) → Type 0
  Found id rs none = All (λ (r : DirectRoute R). (r.id === id) ≡ false) rs
  Found id rs (some r) = Exists (λ (x : DirectRoute R). x ≡ r) rs × (r.id ≡ id)

  find_route-Found :
      (id : String) (rs : List (DirectRoute R)) → Found id rs (find_route trim_lower_case id rs)
  unfolding find_route
  find_route-Found id [] = tt
  find_route-Found id (x ∷ rs) = later (find_route trim_lower_case id rs) (find_route-Found id rs)
    where
      first :
          All (λ (r : DirectRoute R). (r.id === id) ≡ false) rs
          → Found id (x ∷ rs) (if x.id === id then some x else none)
      first rest =
          if_each (Found id (x ∷ rs)) (x.id === id) (some x) none
            (λ e. (inl refl, (eq_iff x.id id).0 e)) (λ e. (e, rest))

      later :
          (o : Option (DirectRoute R))
          → Found id rs o
          → Found id (x ∷ rs) (or_else o (if x.id === id then some x else none))
      later none h = first h
      later (some r) (a, b) = (inr a, b)

  -- The route identifiers in their order: with a route that is declared, or with none declared.
  pub data Sorted (declared : List (DirectRoute R))
      : List String → List (DirectRoute R) → List String → Type 0 where
    nothing : Sorted declared [] [] []
    found :
        (id : String) (r : DirectRoute R) (ids : List String) (rs : List (DirectRoute R))
        (ms : List String)
        → Exists (λ (x : DirectRoute R). x ≡ r) declared
        → r.id ≡ id
        → Sorted declared ids rs ms
        → Sorted declared (id ∷ ids) (r ∷ rs) ms
    absent :
        (id : String) (ids : List String) (rs : List (DirectRoute R)) (ms : List String)
        → All (λ (r : DirectRoute R). (r.id === id) ≡ false) declared
        → Sorted declared ids rs ms
        → Sorted declared (id ∷ ids) rs (id ∷ ms)

  routes_of-Sorted :
      (declared : List (DirectRoute R)) (ids : List String)
      → Sorted declared ids
          (routes_of trim_lower_case declared ids)
          (missing_of trim_lower_case declared ids)
  unfolding routes_of missing_of
  routes_of-Sorted declared [] = nothing
  routes_of-Sorted declared (id ∷ ids) =
      one (find_route trim_lower_case id declared) (find_route-Found id declared)
        (routes_of-Sorted declared ids)
    where
      one :
          (o : Option (DirectRoute R))
          → Found id declared o
          → Sorted declared ids
              (routes_of trim_lower_case declared ids)
              (missing_of trim_lower_case declared ids)
          → Sorted declared
              (id ∷ ids)
              (add_found trim_lower_case o (routes_of trim_lower_case declared ids))
              (add_missing trim_lower_case o id (missing_of trim_lower_case declared ids))
      one none h rest = absent id ids _ _ h rest
      one (some r) (a, b) rest = found id r ids _ _ a b rest

  -- A policy lists an identifier exactly when it is the normal form of a text that the intent gives, each once;
  -- in that order each comes with a declared route of that identifier, or is missing and no declared route has it.
  pub build_policy-Sorted :
      (workflow : Workflow R) (intent_id : Option String)
      → let policy = build_policy trim_lower_case workflow intent_id in
        NoRepeat policy.route_ids
        × ((id : String)
            → (includes id policy.route_ids ≡ true)
              ↔ Given trim_lower_case id (
                  routes_of_intent (
                    find_intent trim_lower_case workflow (normalize_id trim_lower_case intent_id))))
        × Sorted workflow.direct_routes policy.route_ids policy.routes policy.missing_route_ids
  unfolding build_policy includes
  build_policy-Sorted workflow intent_id =
      let given =
        routes_of_intent
          (find_intent trim_lower_case workflow (normalize_id trim_lower_case intent_id)) in
      (
        unique_strings-NoRepeat trim_lower_case given [] tt,
        (λ id. (
          (λ h. from id given (unique_strings-origin trim_lower_case id given [] h)),
          (λ h. unique_strings_complete trim_lower_case id given [] (inr h)),
        )),
        routes_of-Sorted workflow.direct_routes (unique_strings trim_lower_case [] given),
      )
    where
      from :
          (id : String) (vs : List String)
          → (includes id [] ≡ true) ⊎ Given trim_lower_case id vs
          → Given trim_lower_case id vs
      from id vs (inl h) = absurd (cc h)
      from id vs (inr h) = h

  -- What the workflow declares of the route: an entry of the catalog, or a text of an intent with the identifier.
  abbrev pub Declared : Workflow R → PolicyScope → Option String → String → Type 0
  Declared workflow catalog_scope intent_id id =
      Exists (λ (r : DirectRoute R). r.id ≡ id) workflow.direct_routes
  Declared workflow intent_scope intent_id id =
      Exists
        (λ (i : Intent).
          (normalize_id trim_lower_case (normalize_id trim_lower_case intent_id) ≡ some i.id)
          × Given trim_lower_case id i.direct_routes)
        workflow.intents

  -- An enabled route is the one that was asked for, is declared, and the runtime has it enabled.
  pub record Allowed (workflow : Workflow R) (scope : PolicyScope)
      (intent_id route_id : Option String) (runtime_enabled : Bool) (d : RouteDecision)
      : Type 0 where
    pub running : runtime_enabled ≡ true
    pub asked : normalize_id trim_lower_case route_id ≡ some d.route_id
    pub declared : Declared workflow scope intent_id d.route_id
    pub reason : d.reason ≡ enabled

  is_some-declared :
      (id : String) (rs : List (DirectRoute R)) (o : Option (DirectRoute R))
      → Found id rs o
      → is_some o ≡ true
      → Exists (λ (r : DirectRoute R). r.id ≡ id) rs
  is_some-declared id rs none f h = absurd (cc h)
  is_some-declared id rs (some r) (a, b) h =
      Exists-weaken _ _ (λ x e. ap (λ (y : DirectRoute R). y.id) e ∙ b) rs a

  intent_source :
      (id : String) (workflow : Workflow R) (o : Option String) (i : Option Intent)
      → find_normalized trim_lower_case workflow o ≡ i
      → Given trim_lower_case id (routes_of_intent i)
      → Exists
          (λ (j : Intent). (o ≡ some j.id) × Given trim_lower_case id j.direct_routes)
          workflow.intents
  intent_source id workflow o none e h = absurd h
  intent_source id workflow none (some i) e h = absurd (cc e)
  intent_source id workflow (some x) (some i) e h =
      let (a, b) = find_intent_by-some x workflow.intents i e in
      Exists-weaken _ _ (λ j same. (ap some (sym (ap (λ (k : Intent). k.id) same ∙ b)), rw same h))
        workflow.intents a

  decide_catalog-Allowed :
      (workflow : Workflow R) (intent_id route_id : Option String) (on : Bool)
      → let d =
          decide_catalog trim_lower_case workflow
            (text_or_empty (normalize_id trim_lower_case route_id))
            on in
        d.is_enabled ≡ true → Allowed workflow catalog_scope intent_id route_id on d
  decide_catalog-Allowed workflow intent_id route_id on =
      let id = text_or_empty (normalize_id trim_lower_case route_id) in
      let P = λ (d : RouteDecision).
        d.is_enabled ≡ true → Allowed workflow catalog_scope intent_id route_id on d in
      let route = find_route trim_lower_case id workflow.direct_routes in
      if_each P (is_empty id || not (is_some route)) _ _ (λ a h. absurd (ground (arith, h)))
        (λ a.
          if_each P (not on) _ _ (λ b h. absurd (ground (arith, h)))
            (λ b h. record {
              running = ground (arith, b);
              asked = asked_for (normalize_id trim_lower_case route_id) (ground (arith, a));
              declared =
                  is_some-declared id workflow.direct_routes route
                    (find_route-Found id workflow.direct_routes) (ground (arith, a));
              reason = refl;
            }))

  decide_intent-Allowed :
      (workflow : Workflow R) (intent_id route_id : Option String) (on : Bool)
      → let d =
          decide_intent trim_lower_case workflow
            (build_policy trim_lower_case workflow intent_id)
            (text_or_empty (normalize_id trim_lower_case route_id))
            on in
        d.is_enabled ≡ true → Allowed workflow intent_scope intent_id route_id on d
  unfolding find_intent
  decide_intent-Allowed workflow intent_id route_id on =
      let id = text_or_empty (normalize_id trim_lower_case route_id) in
      let policy = build_policy trim_lower_case workflow intent_id in
      let twice = normalize_id trim_lower_case (normalize_id trim_lower_case intent_id) in
      let P = λ (d : RouteDecision).
        d.is_enabled ≡ true → Allowed workflow intent_scope intent_id route_id on d in
      if_each P (not (is_some (find_intent trim_lower_case workflow policy.intent_id))) _ _
        (λ a h. absurd (ground (arith, h)))
        (λ a.
          if_each P (is_empty id || not (includes id policy.route_ids)) _ _
            (λ b h. absurd (ground (arith, h)))
            (λ b.
              if_each P (not on) _ _ (λ c h. absurd (ground (arith, h)))
                (λ c h. record {
                  running = ground (arith, c);
                  asked = asked_for (normalize_id trim_lower_case route_id) (ground (arith, b));
                  declared =
                      intent_source id workflow twice
                        (find_normalized trim_lower_case workflow twice) refl
                        (((build_policy-Sorted workflow intent_id).1 id).0 (ground (arith, b)));
                  reason = refl;
                })))

  -- A decision enables a route only when it is the one that was asked for, the runtime has it enabled, and the
  -- workflow declares it: in the scope of the catalog, a route of the workflow has its identifier; in the scope of an
  -- intent, an intent with the given identifier gives it.
  pub build_decision-Allowed :
      (workflow : Workflow R) (scope : PolicyScope) (intent_id route_id : Option String)
      (runtime_enabled : Bool)
      → (build_decision trim_lower_case workflow scope intent_id route_id
          runtime_enabled).is_enabled
        ≡ true
      → Allowed workflow scope intent_id route_id runtime_enabled
          (build_decision trim_lower_case workflow scope intent_id route_id runtime_enabled)
  unfolding build_decision
  build_decision-Allowed workflow catalog_scope intent_id route_id on h =
      decide_catalog-Allowed workflow intent_id route_id on h
  build_decision-Allowed workflow intent_scope intent_id route_id on h =
      decide_intent-Allowed workflow intent_id route_id on h
