-- ===== src/Tools/Tests.antt =====
-- The resolution of tools at concrete workflows.
use uns_kit.Kit.{length, none, true, false, some, ◌≡◌, refl, List, [], ◌∷◌, String}
use uns_kit.Tools.{Capability, Binding, resolve_workflow_tools, build_coverage}
use uns_kit.Tools.Capabilities.{
  summarize_tool_capabilities, build_recommendation, build_recommendations,
}
use uns_kit.Tools.Lookup.{find_tool_binding, get_tool_bindings, summarize_tool_bindings}

abbrev test_tools : List Capability
test_tools =
    record {
      name = "read";
      provider = "http";
      effect = "read";
      side_effect_risk = "low";
      cacheability = "cacheable";
      output_kinds = "schema" ∷ [];
      requires_confirmation = none;
      retry_class = "safe";
      required_context = [];
    }
    ∷ record {
      name = "write";
      provider = "mcp";
      effect = "read";
      side_effect_risk = "low";
      cacheability = "cacheable";
      output_kinds = "schema" ∷ [];
      requires_confirmation = none;
      retry_class = "never";
      required_context = [];
    }
    ∷ record {
      name = "plan";
      provider = "repl";
      effect = "read";
      side_effect_risk = "low";
      cacheability = "cacheable";
      output_kinds = "schema" ∷ [];
      requires_confirmation = none;
      retry_class = "never";
      required_context = [];
    }
    ∷ []

abbrev test_bindings : List Binding
test_bindings =
    record { name = "read"; provider = "http" } ∷ record { name = "write"; provider = "http" } ∷ []

abbrev asked : List String
asked = "read" ∷ "write" ∷ "plan" ∷ "read" ∷ "fly" ∷ []

summary :
    (resolve_workflow_tools (λ s. s) test_tools test_bindings asked).ready_tool_names ≡ "read" ∷ []
unfolding resolve_workflow_tools
summary = refl

coverage : (build_coverage test_tools test_bindings).unbound_tool_names ≡ "plan" ∷ []
unfolding build_coverage
coverage = refl

missing :
    (get_tool_bindings (λ s. s) test_bindings asked).missing_tool_bindings ≡ "plan" ∷ "fly" ∷ []
unfolding get_tool_bindings
missing = refl

providers : (summarize_tool_bindings test_tools test_bindings).providers ≡ ("http", 2) ∷ []
unfolding summarize_tool_bindings
providers = refl

first_found :
    find_tool_binding (λ s. s) test_bindings (some "write")
    ≡ some (record { name = "write"; provider = "http" })
unfolding find_tool_binding
first_found = refl

abbrev erase : Capability
erase = record {
  name = "erase";
  provider = "http";
  effect = "write";
  side_effect_risk = "high";
  cacheability = "none";
  retry_class = "never";
  output_kinds = "text" ∷ "text" ∷ [];
  required_context = [];
  requires_confirmation = some false;
}

erase_confirmed : (build_recommendation erase).confirmation_required ≡ true
unfolding build_recommendation
erase_confirmed = refl

effects :
    (summarize_tool_capabilities
      (λ s. s)
      (erase ∷ test_tools)
      ("erase" ∷ "read" ∷ "plan" ∷ [])).effects
    ≡ ("write", 1) ∷ ("read", 2) ∷ []
unfolding summarize_tool_capabilities
effects = refl

recommended : length (build_recommendations (λ s. s) test_tools (some asked)) ≡ 3
unfolding build_recommendations
recommended = refl
