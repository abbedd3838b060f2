-- ===== src/Plan/Build.antt =====
-- How a plan is built: reasons, warnings and statuses of its steps, then of the plan.
use uns_kit.Kit.{
  Bool, true, false, not, ◌&&◌, ◌||◌, Option, none, some, List, [], ◌∷◌, ◌++◌, map, String,
  if◌then◌else◌,
}
use uns_kit.SqlParams.{joined, join_with}
use uns_kit.DirectRoutes.{includes}
use uns_kit.Tools.{
  Capability, ResolutionStatus, ready, missing_capability, missing_binding, provider_mismatch,
  Resolution, resolve_tools, same_status, names_with,
}
use uns_kit.Plan.{
  PlanWorkflow, PlanningStep, StepStatus, step_ready, step_blocked, step_skipped, step_partial,
  ExecutionStep,
}

abbrev pub is_nil {ℓ} : {A : Type ℓ} → List A → Bool
is_nil [] = true
is_nil (x ∷ xs) = false

-- `uniqueStrings`, and `uniqueContextRequirements` too.
unfoldable pub unique_onto : List String → List String → List String
unfolding includes
unique_onto out [] = out
unique_onto out (v ∷ vs) = unique_onto (if includes v out then out else out ++ v ∷ []) vs

unfoldable pub unique : List String → List String
unfolding unique_onto
unique vs = unique_onto [] vs

unfoldable pub without : List String → List String → List String
unfolding includes
without known [] = []
without known (v ∷ vs) = let rest = without known vs in if includes v known then rest else v ∷ rest

unfoldable pub known_in : List String → List String → List String
unfolding includes
known_in known [] = []
known_in known (v ∷ vs) =
    let rest = known_in known vs in if includes v known then v ∷ rest else rest

abbrev pub required_context_of : Option Capability → List String
required_context_of none = []
required_context_of (some c) = c.required_context

-- `getMissingContextRequirements`
unfoldable pub missing_context_of : Option (List String) → Resolution → List String
unfolding unique without
missing_context_of none r = []
missing_context_of (some available) r =
    if same_status r.status ready
    then without available (unique (required_context_of r.capability))
    else []

pub record ContextGap : Type 0 where
  pub tool_name : String
  pub requirements : List String

-- `getContextGaps`
unfoldable pub context_gaps : Option (List String) → List Resolution → List ContextGap
unfolding missing_context_of
context_gaps available [] = []
context_gaps available (r ∷ rs) =
    let rest = context_gaps available rs in
    if is_nil (missing_context_of available r)
    then rest
    else record { tool_name = r.tool_name; requirements = missing_context_of available r } ∷ rest

abbrev pub status_text : ResolutionStatus → String
status_text ready = "ready"
status_text missing_capability = "missing-capability"
status_text missing_binding = "missing-binding"
status_text provider_mismatch = "provider-mismatch"

unfoldable pub non_ready : List Resolution → List Resolution
non_ready [] = []
non_ready (r ∷ rs) =
    let rest = non_ready rs in if same_status r.status ready then rest else r ∷ rest

-- `buildToolBlockingReasons` and `buildToolWarnings`, with their own word.
unfoldable pub tool_reasons : String → String → List Resolution → List String
unfolding joined
tool_reasons word step_id rs =
    map
      (λ (r : Resolution).
        joined (step_id ∷ word ∷ r.tool_name ∷ " is " ∷ status_text r.status ∷ []))
      rs

-- `buildContextBlockingReasons` and `buildContextWarnings`
unfoldable pub context_reasons : String → String → List ContextGap → List String
unfolding joined join_with
context_reasons word step_id gaps =
    map
      (λ (g : ContextGap).
        joined (
          step_id ∷ word ∷ g.tool_name ∷ " missing context: " ∷ join_with ", " g.requirements ∷ []))
      gaps

-- `buildDependencyReasons`
unfoldable pub dependency_reasons : String → List String → List String → List String
unfolding joined
dependency_reasons step_id missing late =
    map (λ (d : String). joined (step_id ∷ " missing dependency step: " ∷ d ∷ [])) missing
    ++ map (λ (d : String). joined (step_id ∷ " dependency must run first: " ∷ d ∷ [])) late

abbrev pub only_if {ℓ} : {A : Type ℓ} → Bool → List A → List A
only_if true xs = xs
only_if false xs = []

abbrev pub step_status_of :
    Bool
    → List Resolution
    → List ContextGap
    → List String
    → List Resolution
    → List ContextGap
    → StepStatus
step_status_of optional required_bad required_gaps blocking optional_bad optional_gaps =
    if optional && (not (is_nil required_bad) || not (is_nil required_gaps))
    then step_skipped
    else if not (is_nil blocking)
    then step_blocked
    else if not (is_nil optional_bad) || not (is_nil optional_gaps)
    then step_partial
    else step_ready

abbrev pub ready_without_gap : Option (List String) → List Resolution → List String
ready_without_gap available [] = []
ready_without_gap available (r ∷ rs) =
    let rest = ready_without_gap available rs in
    if same_status r.status ready && is_nil (missing_context_of available r)
    then r.tool_name ∷ rest
    else rest

abbrev pub gap_requirements : List ContextGap → List String
gap_requirements [] = []
gap_requirements (g ∷ gs) = g.requirements ++ gap_requirements gs

abbrev pub contexts_of : List Resolution → List String
contexts_of [] = []
contexts_of (r ∷ rs) = required_context_of r.capability ++ contexts_of rs

module _ (trim_lower_case : String → String) (workflow : PlanWorkflow)
    (available : Option (List String)) where
  abbrev pub resolve : List String → List Resolution
  resolve names = resolve_tools trim_lower_case workflow.tools workflow.tool_bindings names

  -- One step, after the steps `seen` of those `selected`.
  unfoldable pub build_step : List String → List String → PlanningStep → ExecutionStep
  unfolding unique without known_in resolve_tools context_gaps non_ready tool_reasons
      context_reasons dependency_reasons names_with
  build_step selected seen s =
      let missing = without selected s.depends_on in
      let late = without seen (known_in selected s.depends_on) in
      let required = unique s.required_tool_hints in
      let others = without required (unique s.tool_hints) in
      let required_all = resolve required in
      let optional_all = resolve others in
      let required_bad = non_ready required_all in
      let optional_bad = non_ready optional_all in
      let required_gaps = context_gaps available required_all in
      let optional_gaps = context_gaps available optional_all in
      let dependencies = dependency_reasons s.id missing late in
      let blocking = only_if (not s.optional) (
        tool_reasons " required tool " s.id required_bad
        ++ context_reasons " required tool " s.id required_gaps
        ++ dependencies) in
      let both = required_all ++ optional_all in
      record {
        id = s.id;
        optional = s.optional;
        depends_on = s.depends_on;
        missing_dependencies = missing;
        out_of_order_dependencies = late;
        status =
            step_status_of s.optional required_bad required_gaps blocking optional_bad
              optional_gaps;
        tool_names = unique (required ++ others);
        required_tool_names = required;
        ready_tool_names = unique (ready_without_gap available both);
        missing_capability_names = unique (names_with missing_capability both);
        missing_binding_names = unique (names_with missing_binding both);
        provider_mismatch_names = unique (names_with provider_mismatch both);
        required_context = unique (contexts_of both);
        missing_context = unique (gap_requirements (required_gaps ++ optional_gaps));
        blocking_reasons = blocking;
        warnings =
            tool_reasons " optional tool " s.id (only_if s.optional required_bad)
            ++ tool_reasons " optional tool " s.id optional_bad
            ++ context_reasons " optional tool " s.id (only_if s.optional required_gaps)
            ++ context_reasons " optional tool " s.id optional_gaps
            ++ only_if s.optional dependencies;
      }

  unfoldable pub build_steps : List String → List String → List PlanningStep → List ExecutionStep
  unfolding build_step
  build_steps selected seen [] = []
  build_steps selected seen (s ∷ ss) =
      build_step selected seen s ∷ build_steps selected (s.id ∷ seen) ss
