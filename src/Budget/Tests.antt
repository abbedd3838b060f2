-- ===== src/Budget/Tests.antt =====
-- Runs and examples of the execution budget.
use uns_kit.Kit.{Option, none, some, [], ◌∷◌}
use uns_kit.Budget.{
  Number, whole, fraction, ExecutionBudget, ExecutionBudgetUsage, ExecutionBudgetAssessment,
  blocked, tool_calls_exceeded,
}

abbrev budget : ExecutionBudget Number
budget = record {
  max_planning_steps = whole 4;
  max_tool_calls = whole 2;
  max_provider_calls = whole 2;
  max_duration_ms = whole 1000;
  max_evidence_bytes = whole 0;
}

abbrev used : ExecutionBudgetUsage (Option Number)
used = record {
  planning_step_count = some (whole 4);
  tool_call_count = some (whole 3);
  provider_call_count = none;
  elapsed_ms = some (fraction 1000);
  evidence_bytes = none;
}

abbrev assessment : ExecutionBudgetAssessment
assessment = record {
  status = blocked;
  budget = record {
    max_planning_steps = 4;
    max_tool_calls = 2;
    max_provider_calls = 2;
    max_duration_ms = 1000;
    max_evidence_bytes = 0;
  };
  usage = record {
    planning_step_count = 4;
    tool_call_count = 3;
    provider_call_count = 0;
    elapsed_ms = 1000;
    evidence_bytes = 0;
  };
  violations = record { code = tool_calls_exceeded; actual = 3; limit = 2 } ∷ [];
}
