-- ===== src/ToolRules.antt =====
-- The selection of tools by rules (packages/uns-assistant-workflow/src/tool-selection-rules.ts). The name of a tool
-- and the cost of its schema are functions of the input; the ones that the source takes when they are not given
-- read the fields of an object that is not typed, and print it as JSON.
pub mod Outcome
mod Tests
use uns_kit.Kit.{
  ℕ, ◌+◌, Bool, true, false, not, ◌&&◌, ◌||◌, Option, none, some, List, [], ◌∷◌, ◌++◌, map, String,
  ltb, is_empty, all, if◌then◌else◌,
}
use uns_kit.HandoverState.Schema.{contains}
use uns_kit.Handover.Messages.{trim}

-- `AssistantWorkflowToolSelectionRuleCondition`; a list that is not given is empty.
pub record Condition : Type 0 where
  pub all_signals : List String
  pub any_signals : List String
  pub not_signals : List String
  pub min_hop : Option ℕ
  pub max_hop : Option ℕ
  pub enabled : Option Bool

pub record Rule : Type 0 where
  pub id : String
  pub tool_names : List String
  pub condition : Option Condition
  pub terminal : Bool
  pub terminal_reason : Option String

pub record Reasons : Type 0 where
  pub no_tools : Option String
  pub disabled : Option String
  pub empty_selection : Option String
  pub selected : Option String

pub record SelectionInput (Tool : Type 0) : Type 0 where
  pub all_tools : List Tool
  pub pruning_enabled : Bool
  pub hop : Option ℕ
  pub signals : String → Option Bool
  pub suggested : List String
  pub rules : List Rule
  pub fallback : List String
  pub post_fallback_rules : List Rule
  pub get_tool_name : Tool → Option String
  pub tool_cost : Tool → ℕ
  pub reasons : Reasons

pub data SelectionMode : Type 0 where
  full : SelectionMode
  pruned : SelectionMode

pub record Selection (Tool : Type 0) : Type 0 where
  pub tools : List Tool
  pub mode : SelectionMode
  pub reason : String
  pub schema_chars : ℕ
  pub tool_names : List String
  pub applied_rule_ids : List String

-- The names and the rules so far: `selectedNames`, a set in the order of insertion, and `appliedRuleIds`.
pub record Progress : Type 0 where
  pub names : List String
  pub applied : List String

abbrev pub default_text : Option String → String → String
default_text none fallback = fallback
default_text (some s) fallback = s

abbrev pub unless_empty : String → Option String
unless_empty s = if is_empty s then none else some s

unfoldable pub normalize_tool_name : Option String → Option String
unfolding trim
normalize_tool_name none = none
normalize_tool_name (some s) = unless_empty (trim s)

abbrev pub add_name : Option String → List String → List String
add_name none names = names
add_name (some name) names = if contains name names then names else names ++ name ∷ []

unfoldable pub add_tool_names : List String → List String → List String
unfolding normalize_tool_name contains
add_tool_names names [] = names
add_tool_names names (n ∷ ns) = add_tool_names (add_name (normalize_tool_name (some n)) names) ns

-- `signals[signal] === true`
abbrev pub is_on : Option Bool → Bool
is_on none = false
is_on (some b) = b

abbrev pub below_minimum : Option ℕ → Option ℕ → Bool
below_minimum hop none = false
below_minimum none (some n) = true
below_minimum (some h) (some n) = ltb h n

abbrev pub above_maximum : Option ℕ → Option ℕ → Bool
above_maximum hop none = false
above_maximum none (some n) = true
above_maximum (some h) (some n) = ltb n h

abbrev pub is_switched_off : Option Bool → Bool
is_switched_off none = false
is_switched_off (some b) = not b

abbrev pub none_given : List String → Bool
none_given [] = true
none_given (s ∷ ss) = false

unfoldable pub rule_matches : Option Condition → (String → Option Bool) → Option ℕ → Bool
rule_matches none signals hop = true
rule_matches (some c) signals hop =
    let off = λ (s : String). not (is_on (signals s)) in
    not (is_switched_off c.enabled)
    && not (below_minimum hop c.min_hop)
    && not (above_maximum hop c.max_hop)
    && all (λ (s : String). is_on (signals s)) c.all_signals
    && (none_given c.any_signals || not (all off c.any_signals))
    && all off c.not_signals

abbrev pub apply_rule : Rule → Progress → Progress
apply_rule rule p = record {
  names = add_tool_names p.names rule.tool_names;
  applied = p.applied ++ rule.id ∷ [];
}

module _ {Tool : Type 0} where
  -- The tools and the names of `filterSelectedTools`.
  abbrev pub add_selected :
      List String → Tool → Option String → List (Tool × String) → List (Tool × String)
  add_selected names tool none rest = rest
  add_selected names tool (some name) rest =
      if contains name names then (tool, name) ∷ rest else rest

  unfoldable pub filter_selected :
      (Tool → Option String) → List String → List Tool → List (Tool × String)
  unfolding normalize_tool_name contains
  filter_selected get_name names [] = []
  filter_selected get_name names (t ∷ ts) =
      add_selected names t (normalize_tool_name (get_name t)) (filter_selected get_name names ts)

  -- `estimateAssistantWorkflowToolSchemaChars`
  unfoldable pub estimate_schema_chars : (Tool → ℕ) → List Tool → ℕ
  estimate_schema_chars cost [] = 0
  estimate_schema_chars cost (t ∷ ts) = cost t + estimate_schema_chars cost ts

  unfoldable pub name_or_unknown : (Tool → Option String) → Tool → String
  unfolding normalize_tool_name
  name_or_unknown get_name t = default_text (normalize_tool_name (get_name t)) "unknown"

  abbrev pub all_of_them : SelectionInput Tool → String → List String → Selection Tool
  all_of_them input reason applied = record {
    tools = input.all_tools;
    mode = full;
    reason = reason;
    schema_chars = estimate_schema_chars input.tool_cost input.all_tools;
    tool_names = map (name_or_unknown input.get_tool_name) input.all_tools;
    applied_rule_ids = applied;
  }

  -- The result for selected tools, of which there is one at least.
  abbrev pub some_of_them :
      SelectionInput Tool → String → List String → List (Tool × String) → Option (Selection Tool)
  some_of_them input reason applied [] = none
  some_of_them input reason applied (p ∷ ps) =
      let tools = map (λ (q : Tool × String). q.0) (p ∷ ps) in
      some (record {
        tools = tools;
        mode = pruned;
        reason = reason;
        schema_chars = estimate_schema_chars input.tool_cost tools;
        tool_names = map (λ (q : Tool × String). q.1) (p ∷ ps);
        applied_rule_ids = applied;
      })

  abbrev pub select : SelectionInput Tool → String → Progress → Option (Selection Tool)
  select input reason p =
      some_of_them input reason p.applied
        (filter_selected input.get_tool_name p.names input.all_tools)

  abbrev pub end_at : SelectionInput Tool → Rule → Progress → Option (Selection Tool)
  end_at input rule p =
      if rule.terminal then select input (default_text rule.terminal_reason rule.id) p else none

  abbrev pub or_go_on :
      Option (Selection Tool)
      → Option (Selection Tool) × Progress
      → Progress
      → Option (Selection Tool) × Progress
  or_go_on none rest p = rest
  or_go_on (some r) rest p = (some r, p)

  -- `applyRules`: the result of a terminal rule, and the progress.
  unfoldable pub apply_rules :
      SelectionInput Tool → List Rule → Progress → Option (Selection Tool) × Progress
  unfolding filter_selected add_tool_names rule_matches estimate_schema_chars
  apply_rules input [] p = (none, p)
  apply_rules input (r ∷ rs) p =
      let matched = rule_matches r.condition input.signals input.hop in
      let next = if matched then apply_rule r p else p in
      or_go_on (if matched then end_at input r next else none) (apply_rules input rs next) next

  abbrev pub start : SelectionInput Tool → Progress
  start input = record {
    names = add_tool_names [] input.suggested;
    applied = if none_given input.suggested then [] else "classifier_suggested" ∷ [];
  }

  abbrev pub fall_back : SelectionInput Tool → Progress → Progress
  fall_back input p =
      if none_given p.names && not (none_given input.fallback)
      then record {
        names = add_tool_names p.names input.fallback;
        applied = p.applied ++ "fallback" ∷ [];
      }
      else p

  abbrev pub or_all : SelectionInput Tool → Progress → Option (Selection Tool) → Selection Tool
  or_all input p none =
      all_of_them input (default_text input.reasons.empty_selection "empty_selection") p.applied
  or_all input p (some r) = r

  abbrev pub after_fallback :
      SelectionInput Tool → Option (Selection Tool) × Progress → Selection Tool
  after_fallback input (some r, p) = r
  after_fallback input (none, p) =
      or_all input p (select input (default_text input.reasons.selected "intent_pruned") p)

  abbrev pub after_rules : SelectionInput Tool → Option (Selection Tool) × Progress → Selection Tool
  after_rules input (some r, p) = r
  after_rules input (none, p) =
      after_fallback input (apply_rules input input.post_fallback_rules (fall_back input p))

  abbrev pub prune : SelectionInput Tool → Selection Tool
  prune input = after_rules input (apply_rules input input.rules (start input))

  abbrev pub select_from : SelectionInput Tool → List Tool → Selection Tool
  select_from input [] = record {
    tools = [];
    mode = full;
    reason = default_text input.reasons.no_tools "no_tools";
    schema_chars = 0;
    tool_names = [];
    applied_rule_ids = [];
  }
  select_from input (t ∷ ts) =
      if input.pruning_enabled
      then prune input
      else all_of_them input (default_text input.reasons.disabled "disabled") []

  -- `selectAssistantWorkflowToolsByRules`
  unfoldable pub select_by_rules : SelectionInput Tool → Selection Tool
  unfolding apply_rules filter_selected add_tool_names estimate_schema_chars name_or_unknown
  select_by_rules input = select_from input input.all_tools
