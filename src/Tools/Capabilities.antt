-- ===== src/Tools/Capabilities.antt =====
-- The capabilities of named tools, their summary, and the policy recommended for each
-- (packages/uns-assistant-workflow/src/tool-capabilities.ts).
use uns_kit.Kit.{
  ℕ, ◌≡◌, Bool, true, false, not, ◌||◌, Option, none, some, List, [], ◌∷◌, map, String, ◌===◌,
  length, arith, if◌then◌else◌,
}
use uns_kit.HandoverState.Schema.{contains}
use uns_kit.DirectRoutes.{normalize_id, unique_strings}
use uns_kit.Tools.{Capability, find_capability}
use uns_kit.Tools.Lookup.{count_one}
use uns_kit.Plan.Build.{unique}

unfoldable pub first_capability : String → List Capability → Option Capability
first_capability name [] = none
first_capability name (c ∷ cs) =
    let rest = first_capability name cs in if c.name === name then some c else rest

abbrev pub first_capability_named : Option String → List Capability → Option Capability
first_capability_named none tools = none
first_capability_named (some name) tools = first_capability name tools

-- `findAssistantWorkflowToolCapability`
unfoldable pub find_tool_capability :
    (String → String) → List Capability → Option String → Option Capability
unfolding normalize_id first_capability
find_tool_capability trim_lower_case tools name =
    first_capability_named (normalize_id trim_lower_case name) tools

pub record CapabilityLookup : Type 0 where
  pub tools : List Capability
  pub missing_tool_capabilities : List String

abbrev pub add_capability : String → Option Capability → CapabilityLookup → CapabilityLookup
add_capability name none l = record l {
  missing_tool_capabilities = name ∷ l.missing_tool_capabilities;
}
add_capability name (some c) l = record l { tools = c ∷ l.tools }

unfoldable pub look_up_capabilities : List Capability → List String → CapabilityLookup
unfolding find_capability
look_up_capabilities tools [] = record { tools = []; missing_tool_capabilities = [] }
look_up_capabilities tools (n ∷ ns) =
    add_capability n (find_capability n tools) (look_up_capabilities tools ns)

-- `getAssistantWorkflowToolCapabilities`
unfoldable pub get_tool_capabilities :
    (String → String) → List Capability → List String → CapabilityLookup
unfolding look_up_capabilities unique_strings
get_tool_capabilities trim_lower_case tools names =
    look_up_capabilities tools (unique_strings trim_lower_case [] names)

unfoldable pub count_keys : List (String × ℕ) → List String → List (String × ℕ)
unfolding count_one
count_keys counts [] = counts
count_keys counts (k ∷ ks) = count_keys (count_one k counts) ks

unfoldable pub count_by_onto :
    List (String × ℕ) → List Capability → (Capability → List String) → List (String × ℕ)
unfolding count_keys
count_by_onto counts [] select_keys = counts
count_by_onto counts (c ∷ cs) select_keys =
    count_by_onto (count_keys counts (select_keys c)) cs select_keys

unfoldable pub count_by : List Capability → (Capability → List String) → List (String × ℕ)
unfolding count_by_onto
count_by tools select_keys = count_by_onto [] tools select_keys

-- `requiresConfirmation === true`
abbrev pub is_confirmed : Option Bool → Bool
is_confirmed none = false
is_confirmed (some b) = b

unfoldable pub names_to_confirm : List Capability → List String
names_to_confirm [] = []
names_to_confirm (c ∷ cs) =
    let rest = names_to_confirm cs in
    if is_confirmed c.requires_confirmation then c.name ∷ rest else rest

pub record CapabilitySummary : Type 0 where
  pub tool_count : ℕ
  pub providers : List (String × ℕ)
  pub effects : List (String × ℕ)
  pub side_effect_risks : List (String × ℕ)
  pub cacheability : List (String × ℕ)
  pub retry_classes : List (String × ℕ)
  pub output_kinds : List (String × ℕ)
  pub required_context : List (String × ℕ)
  pub requires_confirmation : List String
  pub missing_tool_capabilities : List String

-- `summarizeAssistantWorkflowToolCapabilities`
unfoldable pub summarize_tool_capabilities :
    (String → String) → List Capability → List String → CapabilitySummary
unfolding get_tool_capabilities count_by names_to_confirm
summarize_tool_capabilities trim_lower_case tools names =
    let lookup = get_tool_capabilities trim_lower_case tools names in
    record {
      tool_count = length lookup.tools;
      providers = count_by lookup.tools (λ c. c.provider ∷ []);
      effects = count_by lookup.tools (λ c. c.effect ∷ []);
      side_effect_risks = count_by lookup.tools (λ c. c.side_effect_risk ∷ []);
      cacheability = count_by lookup.tools (λ c. c.cacheability ∷ []);
      retry_classes = count_by lookup.tools (λ c. c.retry_class ∷ []);
      output_kinds = count_by lookup.tools (λ c. c.output_kinds);
      required_context = count_by lookup.tools (λ c. c.required_context);
      requires_confirmation = names_to_confirm lookup.tools;
      missing_tool_capabilities = lookup.missing_tool_capabilities;
    }

-- `AssistantWorkflowToolPolicyRecommendation`
pub record Recommendation : Type 0 where
  pub tool_name : String
  pub enabled_by_default : Bool
  pub assistant_visible_by_default : Bool
  pub schema_assistant_visible_by_default : Bool
  pub explicit_call_allowed_by_default : Bool
  pub confirmation_required : Bool
  pub read_only : Bool
  pub cacheable : Bool
  pub retry_allowed : Bool
  pub side_effect_risk : String
  pub output_kinds : List String
  pub required_context : List String

-- `buildAssistantWorkflowToolPolicyRecommendation`
unfoldable pub build_recommendation : Capability → Recommendation
unfolding unique contains
build_recommendation tool =
    let output_kinds = unique tool.output_kinds in
    let is_schema_tool = contains "schema" output_kinds in
    record {
      tool_name = tool.name;
      enabled_by_default = true;
      assistant_visible_by_default = not is_schema_tool;
      schema_assistant_visible_by_default = is_schema_tool;
      explicit_call_allowed_by_default = not (tool.side_effect_risk === "high");
      confirmation_required =
          is_confirmed tool.requires_confirmation
          || (tool.effect === "write")
          || (tool.side_effect_risk === "high");
      read_only = not (tool.effect === "write");
      cacheable = tool.cacheability === "cacheable";
      retry_allowed = not (tool.retry_class === "never");
      side_effect_risk = tool.side_effect_risk;
      output_kinds = output_kinds;
      required_context = unique tool.required_context;
    }

abbrev pub tools_for : (String → String) → List Capability → Option (List String) → List Capability
tools_for trim_lower_case tools none = tools
tools_for trim_lower_case tools (some names) =
    (get_tool_capabilities trim_lower_case tools names).tools

-- `buildAssistantWorkflowToolPolicyRecommendations`
unfoldable pub build_recommendations :
    (String → String) → List Capability → Option (List String) → List Recommendation
unfolding get_tool_capabilities build_recommendation
build_recommendations trim_lower_case tools names =
    map build_recommendation (tools_for trim_lower_case tools names)

-- A tool that may be used without confirmation only reads, and may be called explicitly.
pub build_recommendation-reads :
    (tool : Capability)
    → (build_recommendation tool).confirmation_required ≡ false
    → ((build_recommendation tool).read_only ≡ true)
      × ((build_recommendation tool).explicit_call_allowed_by_default ≡ true)
unfolding build_recommendation
build_recommendation-reads tool h = (ground (arith, h), ground (arith, h))
