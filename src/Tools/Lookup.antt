-- ===== src/Tools/Lookup.antt =====
-- The bindings of named tools and the summary of all bindings
-- (packages/uns-assistant-workflow/src/tool-bindings.ts).
use uns_kit.Kit.{
  ℕ, suc, ◌+◌, ◌≡◌, refl, ap, Option, none, some, List, [], ◌∷◌, map, String, ◌===◌, length, arith,
  if◌then◌else◌,
}
use uns_kit.DirectRoutes.{normalize_id, unique_strings}
use uns_kit.Tools.{
  Capability, Binding, Resolution, Coverage, find_binding, build_coverage, resolve_tool,
  resolve_tools,
}

unfoldable pub first_binding : String → List Binding → Option Binding
first_binding name [] = none
first_binding name (b ∷ bs) =
    let rest = first_binding name bs in if b.name === name then some b else rest

abbrev pub first_named : Option String → List Binding → Option Binding
first_named none bindings = none
first_named (some name) bindings = first_binding name bindings

-- `findAssistantWorkflowToolBinding`: of bindings with one name the first counts here.
unfoldable pub find_tool_binding : (String → String) → List Binding → Option String → Option Binding
unfolding normalize_id first_binding
find_tool_binding trim_lower_case bindings name =
    first_named (normalize_id trim_lower_case name) bindings

pub record BindingLookup : Type 0 where
  pub bindings : List Binding
  pub missing_tool_bindings : List String

abbrev pub add_looked_up : String → Option Binding → BindingLookup → BindingLookup
add_looked_up name none l = record l { missing_tool_bindings = name ∷ l.missing_tool_bindings }
add_looked_up name (some b) l = record l { bindings = b ∷ l.bindings }

unfoldable pub look_up : List Binding → List String → BindingLookup
unfolding find_binding
look_up bindings [] = record { bindings = []; missing_tool_bindings = [] }
look_up bindings (n ∷ ns) = add_looked_up n (find_binding n bindings) (look_up bindings ns)

-- `getAssistantWorkflowToolBindings`
unfoldable pub get_tool_bindings : (String → String) → List Binding → List String → BindingLookup
unfolding look_up unique_strings
get_tool_bindings trim_lower_case bindings names =
    look_up bindings (unique_strings trim_lower_case [] names)

-- `out[provider] = (out[provider] ?? 0) + 1`
unfoldable pub count_one : String → List (String × ℕ) → List (String × ℕ)
count_one provider [] = (provider, 1) ∷ []
count_one provider ((p, n) ∷ rest) =
    let later = count_one provider rest in
    if p === provider then (p, suc n) ∷ rest else (p, n) ∷ later

unfoldable pub count_onto : List (String × ℕ) → List Binding → List (String × ℕ)
unfolding count_one
count_onto counts [] = counts
count_onto counts (b ∷ bs) = count_onto (count_one b.provider counts) bs

unfoldable pub count_providers : List Binding → List (String × ℕ)
unfolding count_onto
count_providers bindings = count_onto [] bindings

pub record BindingSummary : Type 0 where
  pub binding_count : ℕ
  pub providers : List (String × ℕ)
  pub coverage : Coverage

-- `summarizeAssistantWorkflowToolBindings`
unfoldable pub summarize_tool_bindings : List Capability → List Binding → BindingSummary
unfolding count_providers build_coverage
summarize_tool_bindings tools bindings = record {
  binding_count = length bindings;
  providers = count_providers bindings;
  coverage = build_coverage tools bindings;
}

abbrev counted : List (String × ℕ) → ℕ
counted [] = 0
counted (c ∷ cs) = c.1 + counted cs

counted-count_one :
    (provider : String) (counts : List (String × ℕ))
    → counted (count_one provider counts) ≡ suc (counted counts)
unfolding count_one
counted-count_one provider [] = refl
counted-count_one provider ((p, n) ∷ rest) = ground (arith, counted-count_one provider rest)

counted-count_onto :
    (counts : List (String × ℕ)) (bs : List Binding)
    → counted (count_onto counts bs) ≡ counted counts + length bs
unfolding count_onto
counted-count_onto counts [] = omega arith
counted-count_onto counts (b ∷ bs) = omega (
  arith,
  counted-count_onto (count_one b.provider counts) bs,
  counted-count_one b.provider counts,
)

-- The counts by provider are together the number of bindings.
pub counted-summarize_tool_bindings :
    (tools : List Capability) (bindings : List Binding)
    → counted (summarize_tool_bindings tools bindings).providers
      ≡ (summarize_tool_bindings tools bindings).binding_count
unfolding summarize_tool_bindings count_providers
counted-summarize_tool_bindings tools bindings = omega (arith, counted-count_onto [] bindings)

-- The look-up of bindings and the resolution of tools find the same bindings.
abbrev bindings_of : List Resolution → List (Option Binding)
bindings_of rs = map (λ (r : Resolution). r.binding) rs

abbrev found : List (Option Binding) → List Binding
found [] = []
found (none ∷ os) = found os
found (some b ∷ os) = b ∷ found os

found-look_up :
    (tools : List Capability) (bindings : List Binding) (ns : List String)
    → found (bindings_of (map (resolve_tool tools bindings) ns)) ≡ (look_up bindings ns).bindings
unfolding look_up resolve_tool
found-look_up tools bindings [] = refl
found-look_up tools bindings (n ∷ ns) =
    added (find_binding n bindings) (found-look_up tools bindings ns)
  where
    added :
        (o : Option Binding)
        → found (bindings_of (map (resolve_tool tools bindings) ns))
          ≡ (look_up bindings ns).bindings
        → found (o ∷ bindings_of (map (resolve_tool tools bindings) ns))
          ≡ (add_looked_up n o (look_up bindings ns)).bindings
    added none same = same
    added (some b) same = ap (λ (bs : List Binding). b ∷ bs) same

pub get_tool_bindings-resolve_tools :
    (trim_lower_case : String → String) (tools : List Capability) (bindings : List Binding)
    (names : List String)
    → found (bindings_of (resolve_tools trim_lower_case tools bindings names))
      ≡ (get_tool_bindings trim_lower_case bindings names).bindings
unfolding resolve_tools get_tool_bindings
get_tool_bindings-resolve_tools trim_lower_case tools bindings names =
    found-look_up tools bindings (unique_strings trim_lower_case [] names)
