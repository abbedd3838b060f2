-- ===== src/Tools.antt =====
-- The tools of an assistant workflow, resolved against their bindings
-- (packages/uns-assistant-workflow/src/tool-bindings.ts). Trimming and lower case are a parameter; a provider and a
-- context requirement are the texts of their union types.
pub mod Capabilities
pub mod Lookup
pub mod Partition
mod Tests
use uns_kit.Kit.{
  ℕ, zero, suc, ◌+◌, Bool, true, false, not, ◌&&◌, Option, none, some, List, [], ◌∷◌, ◌++◌, map,
  String, ◌===◌, if◌then◌else◌, length,
}
use uns_kit.DirectRoutes.{unique_strings, or_else}

-- `AssistantWorkflowToolCapabilityDefinition`
pub record Capability : Type 0 where
  pub name : String
  pub provider : String
  pub effect : String
  pub side_effect_risk : String
  pub cacheability : String
  pub retry_class : String
  pub output_kinds : List String
  pub required_context : List String
  pub requires_confirmation : Option Bool

-- `AssistantWorkflowToolBindingDefinition`
pub record Binding : Type 0 where
  pub name : String
  pub provider : String

pub data ResolutionStatus : Type 0 where
  ready : ResolutionStatus
  missing_capability : ResolutionStatus
  missing_binding : ResolutionStatus
  provider_mismatch : ResolutionStatus

pub record Resolution : Type 0 where
  pub tool_name : String
  pub status : ResolutionStatus
  pub capability : Option Capability
  pub binding : Option Binding
  pub provider : Option String

-- `capabilitiesByName.get` and `bindingsByName.get`: of entries with one name the last counts.
unfoldable pub find_capability : String → List Capability → Option Capability
find_capability name [] = none
find_capability name (c ∷ cs) =
    or_else (find_capability name cs) (if c.name === name then some c else none)

unfoldable pub find_binding : String → List Binding → Option Binding
find_binding name [] = none
find_binding name (b ∷ bs) =
    or_else (find_binding name bs) (if b.name === name then some b else none)

-- `resolveToolStatus`
unfoldable pub resolve_tool_status : Option Capability → Option Binding → ResolutionStatus
resolve_tool_status none binding = missing_capability
resolve_tool_status (some c) none = missing_binding
resolve_tool_status (some c) (some b) =
    if c.provider === b.provider then ready else provider_mismatch

abbrev pub capability_provider : Option Capability → Option String
capability_provider none = none
capability_provider (some c) = some c.provider

abbrev pub binding_provider : Option Binding → Option String
binding_provider none = none
binding_provider (some b) = some b.provider

unfoldable pub resolve_tool : List Capability → List Binding → String → Resolution
unfolding find_capability find_binding resolve_tool_status
resolve_tool tools bindings name =
    let capability = find_capability name tools in
    let binding = find_binding name bindings in
    record {
      tool_name = name;
      status = resolve_tool_status capability binding;
      capability = capability;
      binding = binding;
      provider = or_else (binding_provider binding) (capability_provider capability);
    }

-- The resolutions of `resolveAssistantWorkflowTools`, one for each name that is left.
unfoldable pub resolve_tools :
    (String → String) → List Capability → List Binding → List String → List Resolution
unfolding resolve_tool unique_strings
resolve_tools trim_lower_case tools bindings names =
    map (resolve_tool tools bindings) (unique_strings trim_lower_case [] names)

abbrev pub same_status : ResolutionStatus → ResolutionStatus → Bool
same_status ready ready = true
same_status missing_capability missing_capability = true
same_status missing_binding missing_binding = true
same_status provider_mismatch provider_mismatch = true
same_status _ _ = false

-- `resolutions.filter(…).map(…)`
unfoldable pub names_with : ResolutionStatus → List Resolution → List String
names_with status [] = []
names_with status (r ∷ rs) =
    let rest = names_with status rs in
    if same_status r.status status then r.tool_name ∷ rest else rest

pub record ResolutionSummary : Type 0 where
  pub resolutions : List Resolution
  pub ready_tool_names : List String
  pub missing_capability_names : List String
  pub missing_binding_names : List String
  pub provider_mismatch_names : List String

-- `resolveAssistantWorkflowTools`
unfoldable pub resolve_workflow_tools :
    (String → String) → List Capability → List Binding → List String → ResolutionSummary
unfolding resolve_tools names_with
resolve_workflow_tools trim_lower_case tools bindings names =
    let resolutions = resolve_tools trim_lower_case tools bindings names in
    record {
      resolutions = resolutions;
      ready_tool_names = names_with ready resolutions;
      missing_capability_names = names_with missing_capability resolutions;
      missing_binding_names = names_with missing_binding resolutions;
      provider_mismatch_names = names_with provider_mismatch resolutions;
    }

pub record Coverage : Type 0 where
  pub bound_tool_names : List String
  pub unbound_tool_names : List String
  pub binding_without_capability_names : List String
  pub provider_mismatches : List (String × String × String)

abbrev pub cover_tool : Capability → Option Binding → Coverage → Coverage
cover_tool c none v = record v { unbound_tool_names = c.name ∷ v.unbound_tool_names }
cover_tool c (some b) v = record v {
  bound_tool_names = c.name ∷ v.bound_tool_names;
  provider_mismatches =
      if b.provider === c.provider
      then v.provider_mismatches
      else (c.name, c.provider, b.provider) ∷ v.provider_mismatches;
}

unfoldable pub cover_tools : List Capability → List Binding → Coverage → Coverage
unfolding find_binding
cover_tools [] bindings v = v
cover_tools (c ∷ cs) bindings v =
    cover_tool c (find_binding c.name bindings) (cover_tools cs bindings v)

abbrev pub add_unknown : Option Capability → String → List String → List String
add_unknown none name rest = name ∷ rest
add_unknown (some c) name rest = rest

unfoldable pub bindings_without : List Capability → List Binding → List String
unfolding find_capability
bindings_without tools [] = []
bindings_without tools (b ∷ bs) =
    add_unknown (find_capability b.name tools) b.name (bindings_without tools bs)

-- `buildAssistantWorkflowToolBindingCoverage`
unfoldable pub build_coverage : List Capability → List Binding → Coverage
unfolding cover_tools bindings_without
build_coverage tools bindings = cover_tools tools bindings (record {
  bound_tool_names = [];
  unbound_tool_names = [];
  binding_without_capability_names = bindings_without tools bindings;
  provider_mismatches = [];
})
