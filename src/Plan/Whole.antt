-- ===== src/Plan/Whole.antt =====
-- The calls and the budget of a plan, and the plan over its steps.
use uns_kit.Kit.{
  ℕ, ◌+◌, Bool, true, false, not, ◌||◌, Option, none, some, List, [], ◌∷◌, ◌++◌, map, String, ◌===◌,
  if◌then◌else◌, length, Result, ok, ◌>>=◌,
}
use uns_kit.SqlParams.{joined, decimal}
use uns_kit.Budget.{
  Number, whole, ExecutionBudget, ExecutionBudgetUsage, ExecutionBudgetAssessment, Violation,
  ViolationCode, planning_steps_exceeded, tool_calls_exceeded, provider_calls_exceeded,
  duration_exceeded, evidence_bytes_exceeded, build_assessment,
}
use uns_kit.Tools.{
  Capability, missing_capability, missing_binding, provider_mismatch, find_capability,
  resolve_tools, names_with,
}
use uns_kit.Plan.{
  ExecutionPolicy, resolve_execution_policy, PlanWorkflow, PlanningStep, Decision, StepStatus,
  step_ready, step_blocked, step_skipped, step_partial, PlanStatus, plan_ready,
  plan_needs_clarification, plan_blocked, plan_partial, ExecutionStep, ExecutionPlan,
}
use uns_kit.Plan.Build.{
  is_nil, unique, context_gaps, non_ready, tool_reasons, context_reasons, ready_without_gap,
  gap_requirements, contexts_of, resolve, build_steps,
}

-- `retryClass === "never"`
abbrev pub attempts : Option Capability → ℕ → ℕ
attempts none most = most
attempts (some c) most = if c.retry_class === "never" then 1 else most

unfoldable pub calls_of : List Capability → ℕ → List String → ℕ
unfolding find_capability
calls_of tools most [] = 0
calls_of tools most (n ∷ ns) = attempts (find_capability n tools) most + calls_of tools most ns

abbrev pub runs : StepStatus → Bool
runs step_ready = true
runs step_partial = true
runs step_blocked = false
runs step_skipped = false

-- `getMaximumPlannedToolCalls`
unfoldable pub maximum_calls : List Capability → ℕ → List ExecutionStep → ℕ
unfolding calls_of
maximum_calls tools most [] = 0
maximum_calls tools most (s ∷ ss) =
    let rest = maximum_calls tools most ss in
    if runs s.status then calls_of tools most s.ready_tool_names + rest else rest

abbrev pub code_text : ViolationCode → String
code_text planning_steps_exceeded = "planning_steps_exceeded"
code_text tool_calls_exceeded = "tool_calls_exceeded"
code_text provider_calls_exceeded = "provider_calls_exceeded"
code_text duration_exceeded = "duration_exceeded"
code_text evidence_bytes_exceeded = "evidence_bytes_exceeded"

-- `formatAssistantWorkflowExecutionBudgetViolation`
unfoldable pub format_violation : Violation → String
unfolding joined decimal
format_violation v = joined (
    "execution budget exceeded: "
    ∷ code_text v.code
    ∷ " ("
    ∷ decimal v.actual
    ∷ " > "
    ∷ decimal v.limit
    ∷ ")"
    ∷ [])

abbrev pub violations_in : Option ExecutionBudgetAssessment → List Violation
violations_in none = []
violations_in (some a) = a.violations

abbrev pub usage_of : ℕ → ℕ → ExecutionBudgetUsage (Option Number)
usage_of step_count calls = record {
  planning_step_count = some (whole step_count);
  tool_call_count = some (whole calls);
  provider_call_count = none;
  elapsed_ms = none;
  evidence_bytes = none;
}

unfoldable pub assess_plan :
    Option (ExecutionBudget Number) → ℕ → ℕ → Result (Option ExecutionBudgetAssessment)
unfolding build_assessment
assess_plan none step_count calls = ok none
assess_plan (some budget) step_count calls =
    build_assessment budget (usage_of step_count calls) >>= (λ a. ok (some a))

abbrev pub step_ids : List PlanningStep → List String
step_ids ss = map (λ (s : PlanningStep). s.id) ss

abbrev pub all_blocking : List ExecutionStep → List String
all_blocking [] = []
all_blocking (s ∷ ss) = s.blocking_reasons ++ all_blocking ss

abbrev pub all_warnings : List ExecutionStep → List String
all_warnings [] = []
all_warnings (s ∷ ss) = s.warnings ++ all_warnings ss

abbrev pub all_tools : List ExecutionStep → List String
all_tools [] = []
all_tools (s ∷ ss) = s.tool_names ++ all_tools ss

abbrev pub is_incomplete : StepStatus → Bool
is_incomplete step_partial = true
is_incomplete step_skipped = true
is_incomplete step_ready = false
is_incomplete step_blocked = false

abbrev pub any_incomplete : List ExecutionStep → Bool
any_incomplete [] = false
any_incomplete (s ∷ ss) = is_incomplete s.status || any_incomplete ss

abbrev pub plan_status_of : Bool → List String → List String → List ExecutionStep → PlanStatus
plan_status_of needs_clarification blocking warnings steps =
    if needs_clarification
    then plan_needs_clarification
    else if not (is_nil blocking)
    then plan_blocked
    else if not (is_nil warnings) || any_incomplete steps
    then plan_partial
    else plan_ready

abbrev pub prefixed : String → List String → List String
prefixed word names = map (λ (n : String). joined (word ∷ n ∷ [])) names

module _ (trim_lower_case : String → String) (workflow : PlanWorkflow)
    (available : Option (List String)) where
  unfoldable pub plan_reasons :
      Decision → List ExecutionStep → Option ExecutionBudgetAssessment → List String
  unfolding joined resolve_tools non_ready tool_reasons context_gaps context_reasons
      format_violation
  plan_reasons decision steps assessment =
      let required = resolve trim_lower_case workflow available decision.required_tool_hints in
      prefixed "clarification required: " decision.blocking_rule_ids
      ++ prefixed "missing planning step: " decision.missing_planning_steps
      ++ prefixed "required tool is unavailable: " decision.missing_required_tool_hints
      ++ tool_reasons " required tool " "workflow" (non_ready required)
      ++ context_reasons " required tool " "workflow" (context_gaps available required)
      ++ all_blocking steps
      ++ map format_violation (violations_in assessment)

  unfoldable pub plan_of :
      Decision
      → List ExecutionStep
      → ExecutionPolicy
      → Option ExecutionBudgetAssessment
      → ExecutionPlan
  unfolding plan_reasons unique resolve_tools names_with
  plan_of decision steps policy assessment =
      let required = resolve trim_lower_case workflow available decision.required_tool_hints in
      let blocking = plan_reasons decision steps assessment in
      let warnings = unique (
        prefixed "optional tool is unavailable: " decision.missing_tool_hints
        ++ all_warnings steps) in
      let resolved = resolve trim_lower_case workflow available (all_tools steps) in
      record {
        status = plan_status_of decision.needs_clarification blocking warnings steps;
        steps = steps;
        ready_tool_names = unique (ready_without_gap available resolved);
        required_ready_tool_names = unique (ready_without_gap available required);
        missing_capability_names =
            unique
              (names_with missing_capability resolved ++ names_with missing_capability required);
        missing_binding_names =
            unique (names_with missing_binding resolved ++ names_with missing_binding required);
        provider_mismatch_names =
            unique (names_with provider_mismatch resolved ++ names_with provider_mismatch required);
        required_context = unique (contexts_of resolved);
        missing_context = unique (
            gap_requirements (context_gaps available resolved)
            ++ gap_requirements (context_gaps available required));
        missing_planning_steps = decision.missing_planning_steps;
        clarification_rule_ids = decision.blocking_rule_ids;
        blocking_reasons = unique blocking;
        warnings = warnings;
        budget_assessment = assessment;
        execution_policy = policy;
      }

  -- `buildAssistantWorkflowExecutionPlan`
  unfoldable pub build_plan : Decision → Result ExecutionPlan
  unfolding build_steps maximum_calls assess_plan resolve_execution_policy plan_of
  build_plan decision =
      let steps =
        build_steps trim_lower_case workflow available (step_ids decision.steps) []
          decision.steps in
      resolve_execution_policy workflow.execution_policy >>= (λ policy.
        assess_plan workflow.execution_budget (length steps)
          (maximum_calls workflow.tools policy.max_attempts_per_tool steps)
        >>= (λ assessment. ok (plan_of decision steps policy assessment)))
