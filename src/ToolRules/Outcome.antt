-- ===== src/ToolRules/Outcome.antt =====
-- What a selection by rules contains.
use mathlib.Core.Path.{subst}
use uns_kit.Kit.{
  ◌≡◌, ◌<◌, ◌⊎◌, refl, ap, sym, ◌∙◌, inl, inr, true, not, ◌&&◌, Option, none, some, List, [], ◌∷◌,
  ◌++◌, map, String, ◌===◌, eq_iff, length, arith, Bool-cases, All, All-append, if_both, if_each,
}
use uns_kit.HandoverState.Schema.{contains}
use uns_kit.ToolRules.{
  Rule, SelectionInput, full, pruned, Selection, Progress, default_text, normalize_tool_name,
  add_name, add_tool_names, none_given, rule_matches, add_selected, filter_selected,
  estimate_schema_chars, name_or_unknown, all_of_them, some_of_them, select, end_at, apply_rule,
  or_go_on, apply_rules, start, fall_back, or_all, after_fallback, after_rules, select_from,
  select_by_rules,
}

-- A predicate on the name that a text gives, when it gives one.
abbrev pub Holds : (String → Type 0) → Option String → Type 0
Holds P none = Unit
Holds P (some name) = P name

abbrev pub AllGiven : (String → Type 0) → List String → Type 0
AllGiven P names = All (λ (n : String). Holds P (normalize_tool_name (some n))) names

module _ (P : String → Type 0) where
  contains-All :
      (name : String) (names : List String) → contains name names ≡ true → All P names → P name
  unfolding contains
  contains-All name [] h a = absurd (ground (arith, h))
  contains-All name (n ∷ ns) h a = elim (Bool-cases (n === name)) [
    | inl e ↦ subst P ((eq_iff n name).0 e) a.0
    | inr e ↦ contains-All name ns (ground (arith, h, e)) a.1
  ]

  add_tool_names-All :
      (names given : List String)
      → All P names
      → AllGiven P given
      → All P (add_tool_names names given)
  unfolding add_tool_names
  add_tool_names-All names [] a g = a
  add_tool_names-All names (n ∷ ns) a g =
      add_tool_names-All (add_name (normalize_tool_name (some n)) names) ns
        (added (normalize_tool_name (some n)) g.0) g.1
    where
      added : (o : Option String) → Holds P o → All P (add_name o names)
      added none h = a
      added (some name) h =
          if_both (All P) (contains name names) names (names ++ name ∷ []) a
            (All-append P names (name ∷ []) a (h, tt))

module _ {Tool : Type 0} where
  abbrev tools_of : List (Tool × String) → List Tool
  tools_of ps = map (λ (p : Tool × String). p.0) ps

  abbrev names_of : List (Tool × String) → List String
  names_of ps = map (λ (p : Tool × String). p.1) ps

  -- What is shown is the name of the tool.
  filter_selected-names :
      (get : Tool → Option String) (names : List String) (ts : List Tool)
      → names_of (filter_selected get names ts)
        ≡ map (name_or_unknown get) (tools_of (filter_selected get names ts))
  unfolding filter_selected name_or_unknown
  filter_selected-names get names [] = refl
  filter_selected-names get names (t ∷ ts) =
      added (normalize_tool_name (get t)) refl (filter_selected-names get names ts)
    where
      rest : List (Tool × String)
      rest = filter_selected get names ts

      added :
          (o : Option String)
          → normalize_tool_name (get t) ≡ o
          → names_of rest ≡ map (name_or_unknown get) (tools_of rest)
          → names_of (add_selected names t o rest)
            ≡ map (name_or_unknown get) (tools_of (add_selected names t o rest))
      added none same later = later
      added (some name) same later =
          let shown : name ≡ name_or_unknown get t =
            sym (ap (λ (o : Option String). default_text o "unknown") same) in
          if_both
            (λ (ps : List (Tool × String)). names_of ps ≡ map (name_or_unknown get) (tools_of ps))
            (contains name names) ((t, name) ∷ rest) rest
            (ap (λ (n : String). n ∷ names_of rest) shown
              ∙ ap (λ (ns : List String). name_or_unknown get t ∷ ns) later)
            later

  filter_selected-All :
      (P : String → Type 0) (get : Tool → Option String) (names : List String) (ts : List Tool)
      → All P names
      → All P (names_of (filter_selected get names ts))
  unfolding filter_selected
  filter_selected-All P get names [] a = tt
  filter_selected-All P get names (t ∷ ts) a =
      added (normalize_tool_name (get t)) (filter_selected-All P get names ts a)
    where
      rest : List (Tool × String)
      rest = filter_selected get names ts

      added :
          (o : Option String)
          → All P (names_of rest)
          → All P (names_of (add_selected names t o rest))
      added none later = later
      added (some name) later =
          if_each (λ (ps : List (Tool × String)). All P (names_of ps)) (contains name names)
            ((t, name) ∷ rest) rest (λ known. (contains-All P name names known a, later))
            (λ unknown. later)

  -- A result of the selection: its costs and names are of its tools, and it is whole, or some are selected by
  -- names of which `P` holds.
  abbrev pub IsSelection : (String → Type 0) → SelectionInput Tool → Selection Tool → Type 0
  IsSelection P input r =
      (r.schema_chars ≡ estimate_schema_chars input.tool_cost r.tools)
      × (r.tool_names ≡ map (name_or_unknown input.get_tool_name) r.tools)
      × (((r.mode ≡ full) × (r.tools ≡ input.all_tools))
          ⊎ ((r.mode ≡ pruned)
              × (input.pruning_enabled ≡ true)
              × (0 < length r.tools)
              × ((names : List String) × (r.tools
                    ≡ tools_of (filter_selected input.get_tool_name names input.all_tools)))
              × All P r.tool_names))

  abbrev pub IfAny : (String → Type 0) → SelectionInput Tool → Option (Selection Tool) → Type 0
  IfAny P input none = Unit
  IfAny P input (some r) = IsSelection P input r

  abbrev pub AllMatching : (String → Type 0) → SelectionInput Tool → List Rule → Type 0
  AllMatching P input rules =
      All
        (λ (r : Rule).
          rule_matches r.condition input.signals input.hop ≡ true → AllGiven P r.tool_names)
        rules

  module _ (P : String → Type 0) (input : SelectionInput Tool) where
    abbrev Pruning : Type 0
    Pruning = input.pruning_enabled ≡ true

    some_of_them-IfAny :
        (reason : String) (applied names : List String) (ps : List (Tool × String))
        → Pruning
        → filter_selected input.get_tool_name names input.all_tools ≡ ps
        → names_of ps ≡ map (name_or_unknown input.get_tool_name) (tools_of ps)
        → All P (names_of ps)
        → IfAny P input (some_of_them input reason applied ps)
    some_of_them-IfAny reason applied names [] on same shown a = tt
    some_of_them-IfAny reason applied names (p ∷ ps) on same shown a =
        (refl, shown, inr (refl, on, omega arith, (names, ap tools_of (sym same)), a))

    select-IfAny :
        (reason : String) (p : Progress)
        → Pruning
        → All P p.names
        → IfAny P input (select input reason p)
    select-IfAny reason p on a =
        let get = input.get_tool_name in
        some_of_them-IfAny reason p.applied p.names (filter_selected get p.names input.all_tools) on
          refl (filter_selected-names get p.names input.all_tools)
          (filter_selected-All P get p.names input.all_tools a)

    abbrev Going : Option (Selection Tool) × Progress → Type 0
    Going o = IfAny P input o.0 × All P o.1.names

    or_go_on-Going :
        (o : Option (Selection Tool)) (rest : Option (Selection Tool) × Progress) (q : Progress)
        → IfAny P input o
        → Going rest
        → All P q.names
        → Going (or_go_on o rest q)
    or_go_on-Going none rest q h g a = g
    or_go_on-Going (some s) rest q h g a = (h, a)

    apply_rules-Going :
        (rules : List Rule) (p : Progress)
        → Pruning
        → AllMatching P input rules
        → All P p.names
        → Going (apply_rules input rules p)
    unfolding apply_rules
    apply_rules-Going [] p on m a = (tt, a)
    apply_rules-Going (r ∷ rs) p on m a =
        elim (Bool-cases (rule_matches r.condition input.signals input.hop)) [
          | inl e ↦
              let next = apply_rule r p in
              let k : All P next.names = add_tool_names-All P p.names r.tool_names a (m.0 e) in
              let rest : Going (apply_rules input rs next) = apply_rules-Going rs next on m.1 k in
              rw e (
                or_go_on-Going (end_at input r next) (apply_rules input rs next) next
                  (if_both (IfAny P input) r.terminal
                    (select input (default_text r.terminal_reason r.id) next) none
                    (select-IfAny (default_text r.terminal_reason r.id) next on k) tt)
                  rest k)
          | inr e ↦ rw e (apply_rules-Going rs p on m.1 a)
        ]

    all_of_them-IsSelection :
        (reason : String) (applied : List String)
        → IsSelection P input (all_of_them input reason applied)
    all_of_them-IsSelection reason applied = (refl, refl, inl (refl, refl))

    after_fallback-IsSelection :
        (o : Option (Selection Tool) × Progress)
        → Pruning
        → Going o
        → IsSelection P input (after_fallback input o)
    after_fallback-IsSelection (some r, p) on g = g.0
    after_fallback-IsSelection (none, p) on g =
        let reason = default_text input.reasons.selected "intent_pruned" in
        last (select input reason p) (select-IfAny reason p on g.1)
      where
        last :
            (s : Option (Selection Tool)) → IfAny P input s → IsSelection P input (or_all input p s)
        last none h =
            all_of_them-IsSelection (default_text input.reasons.empty_selection "empty_selection")
              p.applied
        last (some s) h = h

    after_rules-IsSelection :
        (o : Option (Selection Tool) × Progress)
        → Pruning
        → AllGiven P input.fallback
        → AllMatching P input input.post_fallback_rules
        → Going o
        → IsSelection P input (after_rules input o)
    after_rules-IsSelection (some r, p) on f m g = g.0
    after_rules-IsSelection (none, p) on f m g =
        after_fallback-IsSelection (apply_rules input input.post_fallback_rules (fall_back input p))
          on
          (apply_rules-Going input.post_fallback_rules (fall_back input p) on m (
            if_both (λ (q : Progress). All P q.names)
              (none_given p.names && not (none_given input.fallback)) _ p
              (add_tool_names-All P p.names input.fallback g.1 f) g.1))

    select_from-IsSelection :
        (ts : List Tool)
        → input.all_tools ≡ ts
        → AllGiven P input.suggested
        → AllMatching P input input.rules
        → AllGiven P input.fallback
        → AllMatching P input input.post_fallback_rules
        → IsSelection P input (select_from input ts)
    unfolding estimate_schema_chars
    select_from-IsSelection [] same s m f l = (refl, refl, inl (refl, sym same))
    select_from-IsSelection (t ∷ ts) same s m f l =
        if_each (IsSelection P input) input.pruning_enabled _ _
          (λ on. after_rules-IsSelection (apply_rules input input.rules (start input)) on f l (
            apply_rules-Going input.rules (start input) on m
              (add_tool_names-All P [] input.suggested tt s)))
          (λ off. all_of_them-IsSelection (default_text input.reasons.disabled "disabled") [])

    -- When `P` holds of each name that the classifier, the fallback or a matching rule gives, the result has the
    -- costs and the names of its tools, and is either all tools, or pruned: then pruning is on, a tool is left,
    -- the tools are those with a name among some names, and `P` holds of each name.
    pub select_by_rules-IsSelection :
        AllGiven P input.suggested
        → AllMatching P input input.rules
        → AllGiven P input.fallback
        → AllMatching P input input.post_fallback_rules
        → IsSelection P input (select_by_rules input)
    unfolding select_by_rules
    select_by_rules-IsSelection s m f l = select_from-IsSelection input.all_tools refl s m f l
