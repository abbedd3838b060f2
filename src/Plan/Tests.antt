-- ===== src/Plan/Tests.antt =====
-- Plans at concrete workflows.
use uns_kit.Kit.{◌≡◌, refl, false, Option, none, some, List, [], ◌∷◌, String, Result, ok}
use uns_kit.Budget.{whole, ExecutionBudgetAssessment, within_budget}
use uns_kit.Plan.{
  PlanWorkflow, PlanningStep, Decision, ExecutionPlan, PlanStatus, plan_ready, plan_blocked,
}
use uns_kit.Plan.Build.{build_steps}
use uns_kit.Plan.Whole.{build_plan, plan_of}

abbrev test_workflow : PlanWorkflow
test_workflow = record {
  tools =
      record {
        name = "read";
        provider = "http";
        effect = "read";
        side_effect_risk = "low";
        cacheability = "cacheable";
        output_kinds = "schema" ∷ [];
        requires_confirmation = none;
        retry_class = "safe";
        required_context = "auth" ∷ [];
      }
      ∷ [];
  tool_bindings = record { name = "read"; provider = "http" } ∷ [];
  execution_budget = some (record {
    max_planning_steps = whole 4;
    max_tool_calls = whole 4;
    max_provider_calls = whole 1;
    max_duration_ms = whole 1000;
    max_evidence_bytes = whole 1000;
  });
  execution_policy = some (record { failure_mode = "fail-fast"; max_attempts_per_tool = 2 });
}

abbrev test_step : String → List String → PlanningStep
test_step id depends_on = record {
  id = id;
  optional = false;
  depends_on = depends_on;
  required_tool_hints = "read" ∷ [];
  tool_hints = [];
}

abbrev test_decision : List PlanningStep → Decision
test_decision steps = record {
  needs_clarification = false;
  blocking_rule_ids = [];
  steps = steps;
  missing_planning_steps = [];
  required_tool_hints = "read" ∷ [];
  missing_required_tool_hints = [];
  missing_tool_hints = [];
}

abbrev ordered_steps : Decision
ordered_steps = test_decision (test_step "a" [] ∷ test_step "b" ("a" ∷ []) ∷ [])

abbrev late_steps : Decision
late_steps = test_decision (test_step "b" ("a" ∷ []) ∷ test_step "a" [] ∷ [])

abbrev status_in : Result ExecutionPlan → Option PlanStatus
status_in (ok plan) = some plan.status
status_in _ = none

ordered_ready :
    status_in (build_plan (λ s. s) test_workflow (some ("auth" ∷ [])) ordered_steps)
    ≡ some plan_ready
unfolding build_plan
ordered_ready = refl

late_blocked :
    status_in (build_plan (λ s. s) test_workflow (some ("auth" ∷ [])) late_steps)
    ≡ some plan_blocked
unfolding build_plan
late_blocked = refl

abbrev test_assessment : ExecutionBudgetAssessment
test_assessment = record {
  status = within_budget;
  budget = record {
    max_planning_steps = 4;
    max_tool_calls = 4;
    max_provider_calls = 1;
    max_duration_ms = 1000;
    max_evidence_bytes = 1000;
  };
  usage = record {
    planning_step_count = 2;
    tool_call_count = 4;
    provider_call_count = 0;
    elapsed_ms = 0;
    evidence_bytes = 0;
  };
  violations = [];
}

abbrev ordered_plan : ExecutionPlan
ordered_plan =
    plan_of (λ s. s) test_workflow (some ("auth" ∷ [])) ordered_steps
      (build_steps (λ s. s) test_workflow (some ("auth" ∷ [])) ("a" ∷ "b" ∷ []) []
        ordered_steps.steps)
      (record { failure_mode = "fail-fast"; max_attempts_per_tool = 2 }) (some test_assessment)
