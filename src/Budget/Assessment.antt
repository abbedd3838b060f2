-- ===== src/Budget/Assessment.antt =====
-- What an assessment of execution-budget.ts decides.
use uns_kit.Kit.{ℕ, suc, ◌≤◌, ◌≡◌, refl, ◌↔◌, List, [], arith, All}
use uns_kit.Budget.{
  ExecutionBudget, ExecutionBudgetUsage, ViolationCode, planning_steps_exceeded,
  tool_calls_exceeded, provider_calls_exceeded, duration_exceeded, evidence_bytes_exceeded,
  Violation, within_budget, ExecutionBudgetAssessment, add_violation, violations_of,
}

-- Every usage is within its limit.
pub record Within (budget : ExecutionBudget ℕ) (usage : ExecutionBudgetUsage ℕ) : Type 0 where
  pub planning_steps : usage.planning_step_count ≤ budget.max_planning_steps
  pub tool_calls : usage.tool_call_count ≤ budget.max_tool_calls
  pub provider_calls : usage.provider_call_count ≤ budget.max_provider_calls
  pub duration : usage.elapsed_ms ≤ budget.max_duration_ms
  pub evidence : usage.evidence_bytes ≤ budget.max_evidence_bytes

-- A budget in the ranges that the package allows.
pub record Allowed (budget : ExecutionBudget ℕ) : Type 0 where
  pub planning_steps : (1 ≤ budget.max_planning_steps) × (budget.max_planning_steps ≤ 32)
  pub tool_calls : budget.max_tool_calls ≤ 16
  pub provider_calls : budget.max_provider_calls ≤ 8
  pub duration : (1 ≤ budget.max_duration_ms) × (budget.max_duration_ms ≤ 300000)
  pub evidence : budget.max_evidence_bytes ≤ 1000000

abbrev pub Exceeds : Violation → Type 0
Exceeds v = suc v.limit ≤ v.actual

add_violation-nil :
    (code : ViolationCode) (a l : ℕ) (rest : List Violation)
    → (add_violation code a l rest ≡ []) ↔ ((a ≤ l) × (rest ≡ []))
unfolding add_violation
add_violation-nil code a l rest = ground arith

pub violations_of-nil :
    (budget : ExecutionBudget ℕ) (usage : ExecutionBudgetUsage ℕ)
    → (violations_of budget usage ≡ []) ↔ Within budget usage
unfolding violations_of
violations_of-nil budget usage = (
  λ none.
      let steps =
        (add_violation-nil planning_steps_exceeded usage.planning_step_count
            budget.max_planning_steps _).0
          none in
      let tools =
        (add_violation-nil tool_calls_exceeded usage.tool_call_count budget.max_tool_calls _).0
          steps.1 in
      let providers =
        (add_violation-nil provider_calls_exceeded usage.provider_call_count
            budget.max_provider_calls _).0
          tools.1 in
      let time =
        (add_violation-nil duration_exceeded usage.elapsed_ms budget.max_duration_ms _).0
          providers.1 in
      let evidence =
        (add_violation-nil evidence_bytes_exceeded usage.evidence_bytes budget.max_evidence_bytes
            []).0
          time.1 in
      record {
        planning_steps = steps.0;
        tool_calls = tools.0;
        provider_calls = providers.0;
        duration = time.0;
        evidence = evidence.0;
      },
  λ within.
      (add_violation-nil planning_steps_exceeded usage.planning_step_count budget.max_planning_steps
          _).1
        (
          within.planning_steps,
          (add_violation-nil tool_calls_exceeded usage.tool_call_count budget.max_tool_calls _).1 (
            within.tool_calls,
            (add_violation-nil provider_calls_exceeded usage.provider_call_count
                  budget.max_provider_calls _).1
                (
                  within.provider_calls,
                  (add_violation-nil duration_exceeded usage.elapsed_ms budget.max_duration_ms _).1
                      (
                        within.duration,
                        (add_violation-nil evidence_bytes_exceeded usage.evidence_bytes
                              budget.max_evidence_bytes []).1
                            (within.evidence, refl),
                      ),
                ),
          ),
        ),
)

-- What an assessment says: its budget is in the allowed ranges, each violation it lists exceeds its limit, and
-- it is within the budget exactly when every usage is within its limit.
pub record Assessed (a : ExecutionBudgetAssessment) : Type 0 where
  pub allowed : Allowed a.budget
  pub exceeding : All Exceeds a.violations
  pub decides : (a.status ≡ within_budget) ↔ Within a.budget a.usage
