-- ===== src/ToolRules/Tests.antt =====
-- A selection by rules at concrete tools: a matching rule and the fallback that is not taken.
use uns_kit.Kit.{◌≡◌, refl, true, false, none, some, [], ◌∷◌, String, if◌then◌else◌, ◌===◌}
use uns_kit.HandoverState.Schema.{contains}
use uns_kit.ToolRules.{
  Rule, Reasons, SelectionInput, pruned, normalize_tool_name, rule_matches, select_by_rules,
}
use uns_kit.ToolRules.Outcome.{IsSelection, select_by_rules-IsSelection}

abbrev default_reasons : Reasons
default_reasons = record {
  no_tools = none;
  disabled = none;
  empty_selection = none;
  selected = none;
}

abbrev write_rule : Rule
write_rule = record {
  id = "writes";
  tool_names = " write " ∷ "fly" ∷ [];
  condition = some (record {
    all_signals = "wants_write" ∷ [];
    any_signals = [];
    not_signals = "read_only" ∷ [];
    min_hop = some 1;
    max_hop = none;
    enabled = none;
  });
  terminal = false;
  terminal_reason = none;
}

abbrev late_rule : Rule
late_rule = record {
  id = "late";
  tool_names = "plan" ∷ [];
  condition = some (record {
    all_signals = [];
    any_signals = [];
    not_signals = [];
    min_hop = some 5;
    max_hop = none;
    enabled = none;
  });
  terminal = true;
  terminal_reason = none;
}

abbrev test_input : SelectionInput String
test_input = record {
  all_tools = "read" ∷ "write" ∷ "plan" ∷ [];
  pruning_enabled = true;
  hop = some 2;
  signals = λ s. if s === "wants_write" then some true else none;
  suggested = [];
  rules = late_rule ∷ write_rule ∷ [];
  fallback = "read" ∷ [];
  post_fallback_rules = [];
  get_tool_name = λ t. some t;
  tool_cost = λ t. 7;
  reasons = default_reasons;
}

selected_test : select_by_rules test_input ≡ record {
  tools = "write" ∷ [];
  mode = pruned;
  reason = "intent_pruned";
  schema_chars = 7;
  tool_names = "write" ∷ [];
  applied_rule_ids = "writes" ∷ [];
}
unfolding select_by_rules
selected_test = refl

unknown_tool_test :
    (select_by_rules (record test_input { rules = []; fallback = "fly" ∷ [] })).reason
    ≡ "empty_selection"
unfolding select_by_rules
unknown_tool_test = refl

abbrev Expected : String → Type 0
Expected name = contains name ("read" ∷ "write" ∷ "fly" ∷ []) ≡ true

late_test : rule_matches late_rule.condition test_input.signals test_input.hop ≡ false
unfolding rule_matches
late_test = refl

select_by_rules-IsSelection_example : IsSelection Expected test_input (select_by_rules test_input)
unfolding normalize_tool_name contains rule_matches
select_by_rules-IsSelection_example =
    select_by_rules-IsSelection Expected test_input tt
      ((λ never. cc), ((λ matches. (refl, (refl, tt))), tt)) (refl, tt) tt
