-- ===== src/Tools/Partition.antt =====
-- Each tool is resolved once, and falls under one status.
use mathlib.Core.Path.{subst}
use uns_kit.Kit.{◌+◌, ◌≡◌, refl, ap, sym, List, [], ◌∷◌, map, String, length, arith, All}
use uns_kit.DirectRoutes.{unique_strings}
use uns_kit.DirectRoutes.Policy.{NoRepeat, unique_strings-NoRepeat}
use uns_kit.Tools.{
  Capability, Binding, ready, missing_capability, missing_binding, provider_mismatch, Resolution,
  resolve_tool_status, resolve_tool, resolve_tools, names_with, resolve_workflow_tools,
}

abbrev pub tool_names : List Resolution → List String
tool_names rs = map (λ (r : Resolution). r.tool_name) rs

status_counts :
    (rs : List Resolution)
    → length (names_with ready rs)
        + length (names_with missing_capability rs)
        + length (names_with missing_binding rs)
        + length (names_with provider_mismatch rs)
      ≡ length rs
unfolding names_with
status_counts [] = omega arith
status_counts (r ∷ rs) = ground (arith, status_counts rs)

names_of_resolved :
    (tools : List Capability) (bindings : List Binding) (names : List String)
    → tool_names (map (resolve_tool tools bindings) names) ≡ names
unfolding resolve_tool
names_of_resolved tools bindings [] = refl
names_of_resolved tools bindings (n ∷ ns) =
    ap (λ (xs : List String). n ∷ xs) (names_of_resolved tools bindings ns)

-- A ready tool has a capability and a binding of the same provider.
abbrev pub Provided : Resolution → Type 0
Provided r = resolve_tool_status r.capability r.binding ≡ r.status

resolved-Provided :
    (tools : List Capability) (bindings : List Binding) (names : List String)
    → All Provided (map (resolve_tool tools bindings) names)
unfolding resolve_tool
resolved-Provided tools bindings [] = tt
resolved-Provided tools bindings (n ∷ ns) = (refl, resolved-Provided tools bindings ns)

-- The summary resolves no tool twice, and the lists of names by status are together as long as the resolutions.
pub resolve_workflow_tools-partition :
    (trim_lower_case : String → String) (tools : List Capability) (bindings : List Binding)
    (names : List String)
    → let s = resolve_workflow_tools trim_lower_case tools bindings names in
      NoRepeat (tool_names s.resolutions)
      × (length s.ready_tool_names
            + length s.missing_capability_names
            + length s.missing_binding_names
            + length s.provider_mismatch_names
          ≡ length s.resolutions)
unfolding resolve_workflow_tools resolve_tools
resolve_workflow_tools-partition trim_lower_case tools bindings names = (
  subst NoRepeat (sym (names_of_resolved tools bindings (unique_strings trim_lower_case [] names)))
      (unique_strings-NoRepeat trim_lower_case names [] tt),
  status_counts (resolve_tools trim_lower_case tools bindings names),
)
