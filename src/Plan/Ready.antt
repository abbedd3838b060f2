-- ===== src/Plan/Ready.antt =====
-- What a plan that is ready has passed.
use uns_kit.Kit.{ℕ, ◌≤◌, ◌≡◌, true, false, Option, none, some, List, [], ◌∷◌, String, length, All}
use uns_kit.DirectRoutes.{includes}
use uns_kit.Budget.{
  ExecutionBudget, ExecutionBudgetAssessment, status_of, violations_of, ExecutionBudgetUsage,
}
use uns_kit.Plan.{PlanWorkflow, PlanningStep, Decision, step_ready, ExecutionStep, ExecutionPlan}
use uns_kit.Plan.Whole.{maximum_calls}

-- Every dependency of a step stands before it.
abbrev pub DependsBefore : List String → List PlanningStep → Type 0
DependsBefore seen [] = Unit
DependsBefore seen (s ∷ ss) =
    All (λ (d : String). includes d seen ≡ true) s.depends_on × DependsBefore (s.id ∷ seen) ss

-- The calls and the steps of a plan are within its budget, where it has one.
abbrev pub WithinBudget : ℕ → ℕ → Option ExecutionBudgetAssessment → Type 0
WithinBudget step_count calls none = Unit
WithinBudget step_count calls (some a) =
    (step_count ≤ a.budget.max_planning_steps) × (calls ≤ a.budget.max_tool_calls)

abbrev planned_usage : ℕ → ℕ → ExecutionBudgetUsage ℕ
planned_usage step_count calls = record {
  planning_step_count = step_count;
  tool_call_count = calls;
  provider_call_count = 0;
  elapsed_ms = 0;
  evidence_bytes = 0;
}

abbrev built_assessment : ExecutionBudget ℕ → ℕ → ℕ → ExecutionBudgetAssessment
built_assessment limits step_count calls = record {
  status = status_of (violations_of limits (planned_usage step_count calls));
  budget = limits;
  usage = planned_usage step_count calls;
  violations = violations_of limits (planned_usage step_count calls);
}

-- A plan that is ready needs no clarification, misses no planning step, has each of its steps ready and after the
-- steps it depends on, and keeps within its budget on steps and tool calls.
abbrev pub IsReady : PlanWorkflow → Decision → ExecutionPlan → Type 0
IsReady workflow decision plan =
    (decision.needs_clarification ≡ false)
    × (decision.missing_planning_steps ≡ [])
    × All (λ (s : ExecutionStep). s.status ≡ step_ready) plan.steps
    × DependsBefore [] decision.steps
    × WithinBudget (length plan.steps)
        (maximum_calls workflow.tools plan.execution_policy.max_attempts_per_tool plan.steps)
        plan.budget_assessment
