-- ===== src/Budget.antt =====
-- The execution budget of an assistant workflow
-- (packages/uns-assistant-workflow/src/execution-budget.ts). A number of the source is sorted by what the
-- code asks of it.
pub mod Assessment
mod Tests
use uns_kit.Kit.{
  ℕ, Bool, true, false, not, ◌&&◌, ◌||◌, Option, none, some, List, [], ◌∷◌, String, ltb,
  if◌then◌else◌, Result, ok, err, throw_if, ◌>>◌, ◌>>=◌,
}

-- A whole number, one with a fraction above it, one below zero, and an infinite one or none at all.
pub data Number : Type 0 where
  whole : ℕ → Number
  fraction : ℕ → Number
  below_zero : Number
  not_finite : Number

pub record ExecutionBudget (N : Type 0) : Type 0 where
  pub max_planning_steps : N
  pub max_tool_calls : N
  pub max_provider_calls : N
  pub max_duration_ms : N
  pub max_evidence_bytes : N

pub record ExecutionBudgetUsage (N : Type 0) : Type 0 where
  pub planning_step_count : N
  pub tool_call_count : N
  pub provider_call_count : N
  pub elapsed_ms : N
  pub evidence_bytes : N

pub data ViolationCode : Type 0 where
  planning_steps_exceeded : ViolationCode
  tool_calls_exceeded : ViolationCode
  provider_calls_exceeded : ViolationCode
  duration_exceeded : ViolationCode
  evidence_bytes_exceeded : ViolationCode

pub record Violation : Type 0 where
  pub code : ViolationCode
  pub actual : ℕ
  pub limit : ℕ

pub data BudgetStatus : Type 0 where
  within_budget : BudgetStatus
  blocked : BudgetStatus

pub record ExecutionBudgetAssessment : Type 0 where
  pub status : BudgetStatus
  pub budget : ExecutionBudget ℕ
  pub usage : ExecutionBudgetUsage ℕ
  pub violations : List Violation

-- `ASSISTANT_WORKFLOW_EXECUTION_BUDGET_LIMITS`
abbrev pub budget_limits : ExecutionBudget ℕ
budget_limits = record {
  max_planning_steps = 32;
  max_tool_calls = 16;
  max_provider_calls = 8;
  max_duration_ms = 300000;
  max_evidence_bytes = 1000000;
}

-- The value itself, when it is an integer in the range.
unfoldable pub assert_budget_value : Number → ℕ → ℕ → Result ℕ
assert_budget_value (whole n) minimum maximum =
    throw_if (ltb n minimum || ltb maximum n) "must be an integer between its limits" >> ok n
assert_budget_value (fraction n) minimum maximum = err "must be an integer between its limits"
assert_budget_value below_zero minimum maximum = err "must be an integer between its limits"
assert_budget_value not_finite minimum maximum = err "must be an integer between its limits"

unfoldable pub assert_execution_budget : ExecutionBudget Number → Result (ExecutionBudget ℕ)
unfolding assert_budget_value
assert_execution_budget budget =
    assert_budget_value budget.max_planning_steps 1 budget_limits.max_planning_steps
    >>= λ max_planning_steps.
        assert_budget_value budget.max_tool_calls 0 budget_limits.max_tool_calls
        >>= λ max_tool_calls.
            assert_budget_value budget.max_provider_calls 0 budget_limits.max_provider_calls
            >>= λ max_provider_calls.
                assert_budget_value budget.max_duration_ms 1 budget_limits.max_duration_ms
                >>= λ max_duration_ms.
                    assert_budget_value budget.max_evidence_bytes 0 budget_limits.max_evidence_bytes
                    >>= λ max_evidence_bytes. ok (record {
                      max_planning_steps = max_planning_steps;
                      max_tool_calls = max_tool_calls;
                      max_provider_calls = max_provider_calls;
                      max_duration_ms = max_duration_ms;
                      max_evidence_bytes = max_evidence_bytes;
                    })

-- A missing usage is zero, and a fraction is cut off.
unfoldable pub normalize_usage_value : Option Number → Result ℕ
normalize_usage_value none = ok 0
normalize_usage_value (some (whole n)) = ok n
normalize_usage_value (some (fraction n)) = ok n
normalize_usage_value (some below_zero) = err "usage values must be finite non-negative numbers"
normalize_usage_value (some not_finite) = err "usage values must be finite non-negative numbers"

unfoldable pub normalize_usage :
    ExecutionBudgetUsage (Option Number) → Result (ExecutionBudgetUsage ℕ)
unfolding normalize_usage_value
normalize_usage usage = normalize_usage_value usage.planning_step_count >>= λ planning_step_count.
    normalize_usage_value usage.tool_call_count >>= λ tool_call_count.
    normalize_usage_value usage.provider_call_count >>= λ provider_call_count.
    normalize_usage_value usage.elapsed_ms >>= λ elapsed_ms.
    normalize_usage_value usage.evidence_bytes >>= λ evidence_bytes. ok (record {
      planning_step_count = planning_step_count;
      tool_call_count = tool_call_count;
      provider_call_count = provider_call_count;
      elapsed_ms = elapsed_ms;
      evidence_bytes = evidence_bytes;
    })

-- `buildViolation`, in front of the violations that follow it.
unfoldable pub add_violation : ViolationCode → ℕ → ℕ → List Violation → List Violation
add_violation code actual limit rest =
    if ltb limit actual then record { code = code; actual = actual; limit = limit } ∷ rest else rest

unfoldable pub violations_of : ExecutionBudget ℕ → ExecutionBudgetUsage ℕ → List Violation
unfolding add_violation
violations_of budget usage =
    add_violation planning_steps_exceeded usage.planning_step_count budget.max_planning_steps (
      add_violation tool_calls_exceeded usage.tool_call_count budget.max_tool_calls (
        add_violation provider_calls_exceeded usage.provider_call_count budget.max_provider_calls (
          add_violation duration_exceeded usage.elapsed_ms budget.max_duration_ms (
            add_violation evidence_bytes_exceeded usage.evidence_bytes budget.max_evidence_bytes
              []))))

abbrev pub status_of : List Violation → BudgetStatus
status_of [] = within_budget
status_of (v ∷ vs) = blocked

unfoldable pub build_assessment :
    ExecutionBudget Number → ExecutionBudgetUsage (Option Number) → Result ExecutionBudgetAssessment
unfolding assert_execution_budget normalize_usage violations_of
build_assessment budget usage = assert_execution_budget budget >>= λ limits.
    normalize_usage usage >>= λ normalized_usage. ok (record {
      status = status_of (violations_of limits normalized_usage);
      budget = limits;
      usage = normalized_usage;
      violations = violations_of limits normalized_usage;
    })
