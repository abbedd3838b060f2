-- ===== src/Plan.antt =====
-- The execution plan of an assistant workflow (packages/uns-assistant-workflow/src/execution-plan.ts and
-- execution-policy.ts): each step is resolved, and the plan is ready, partial, blocked or wants a clarification.
pub mod Build
pub mod Whole
pub mod Empty
pub mod Ready
mod Tests
use uns_kit.Kit.{
  ℕ, Bool, true, false, not, ◌&&◌, ◌||◌, Option, none, some, List, String, ◌===◌, ◌==◌, Result, err,
  ok, ◌>>◌, throw_if,
}
use uns_kit.Budget.{Number, ExecutionBudget, ExecutionBudgetAssessment}
use uns_kit.Tools.{Capability, Binding}

-- `AssistantWorkflowExecutionPolicy`
pub record ExecutionPolicy : Type 0 where
  pub failure_mode : String
  pub max_attempts_per_tool : ℕ

abbrev pub default_execution_policy : ExecutionPolicy
default_execution_policy = record { failure_mode = "fail-fast"; max_attempts_per_tool = 1 }

-- `assertAssistantWorkflowExecutionPolicy`
unfoldable pub assert_execution_policy : ExecutionPolicy → Result (Unit {0})
assert_execution_policy p =
    throw_if
      (not (p.failure_mode === "fail-fast") && not (p.failure_mode === "continue-independent"))
      "Assistant workflow execution policy failureMode is invalid."
    >> throw_if
        (not (p.max_attempts_per_tool == 1)
          && not (p.max_attempts_per_tool == 2)
          && not (p.max_attempts_per_tool == 3))
        "Assistant workflow execution policy maxAttemptsPerTool must be 1, 2, or 3."

-- `resolveAssistantWorkflowExecutionPolicy`
unfoldable pub resolve_execution_policy : Option ExecutionPolicy → Result ExecutionPolicy
unfolding assert_execution_policy
resolve_execution_policy none = ok default_execution_policy
resolve_execution_policy (some p) = assert_execution_policy p >> ok p

-- The parts of a workflow definition that a plan reads.
pub record PlanWorkflow : Type 0 where
  pub tools : List Capability
  pub tool_bindings : List Binding
  pub execution_budget : Option (ExecutionBudget Number)
  pub execution_policy : Option ExecutionPolicy

-- A step of `decision.plan.steps`
pub record PlanningStep : Type 0 where
  pub id : String
  pub optional : Bool
  pub depends_on : List String
  pub required_tool_hints : List String
  pub tool_hints : List String

-- `AssistantWorkflowDecision`, the fields that are read.
pub record Decision : Type 0 where
  pub needs_clarification : Bool
  pub blocking_rule_ids : List String
  pub steps : List PlanningStep
  pub missing_planning_steps : List String
  pub required_tool_hints : List String
  pub missing_required_tool_hints : List String
  pub missing_tool_hints : List String

pub data StepStatus : Type 0 where
  step_ready : StepStatus
  step_blocked : StepStatus
  step_skipped : StepStatus
  step_partial : StepStatus

pub data PlanStatus : Type 0 where
  plan_ready : PlanStatus
  plan_needs_clarification : PlanStatus
  plan_blocked : PlanStatus
  plan_partial : PlanStatus

pub record ExecutionStep : Type 0 where
  pub id : String
  pub optional : Bool
  pub depends_on : List String
  pub missing_dependencies : List String
  pub out_of_order_dependencies : List String
  pub status : StepStatus
  pub tool_names : List String
  pub required_tool_names : List String
  pub ready_tool_names : List String
  pub missing_capability_names : List String
  pub missing_binding_names : List String
  pub provider_mismatch_names : List String
  pub required_context : List String
  pub missing_context : List String
  pub blocking_reasons : List String
  pub warnings : List String

pub record ExecutionPlan : Type 0 where
  pub status : PlanStatus
  pub steps : List ExecutionStep
  pub ready_tool_names : List String
  pub required_ready_tool_names : List String
  pub missing_capability_names : List String
  pub missing_binding_names : List String
  pub provider_mismatch_names : List String
  pub required_context : List String
  pub missing_context : List String
  pub missing_planning_steps : List String
  pub clarification_rule_ids : List String
  pub blocking_reasons : List String
  pub warnings : List String
  pub budget_assessment : Option ExecutionBudgetAssessment
  pub execution_policy : ExecutionPolicy
