-- ===== src/ToolCache/Machine.antt =====
-- `AssistantWorkflowToolResultCache` of tool-result-cache.ts over its calls: bounds, and reading what was written.
use mathlib.Core.Path.{subst}
use uns_kit.Kit.{
  ℕ, suc, ◌+◌, ◌≤◌, ◌≡◌, refl, sym, ap, ◌∙◌, Bool, true, ◌&&◌, Option, none, some, List, [], ◌∷◌,
  String, if◌then◌else◌, length, leb, arith, if_each, if_true, length-append,
}
use uns_kit.ToolCache.{
  CacheEntry, ToolResultCache, find_entry, delete_entry, get_found, get, evict_oldest, make_room,
  store_entry, clear_scope, clear, set,
}
use uns_kit.ToolCache.Entries.{
  Distinct, find_entry-delete_entry, find_entry-delete_none, length-delete_first,
  length-delete_found, Distinct-delete_entry, find_entry-add_entry, Distinct-add_entry,
  Distinct-keep_entries, length-keep_entries, key-find_entry,
}

-- The calls of the cache, with their times.
pub data Event : Type 0 where
  gets : String → String → ℕ → Event
  sets : String → String → String → ℕ → ℕ → Event
  clears_scope : (String → Bool) → Event
  clears : Event

-- The cache holds at most its number of entries, under distinct keys, and reports their number.
pub record Inv (c : ToolResultCache) : Type 0 where
  pub some_room : 1 ≤ c.max_entries
  pub bounded : length c.entries ≤ c.max_entries
  pub reported : c.stats.size ≡ length c.entries
  pub distinct : Distinct c.entries

-- What a new entry needs: a free place and a free key.
record Roomy (key : String) (c : ToolResultCache) : Type 0 where
  some_room : 1 ≤ c.max_entries
  free : suc (length c.entries) ≤ c.max_entries
  absent : find_entry key c.entries ≡ none
  distinct : Distinct c.entries

evict_oldest-Roomy :
    (key : String) (c : ToolResultCache) (es : List CacheEntry)
    → c.entries ≡ es
    → find_entry key es ≡ none
    → Inv c
    → leb c.max_entries (length es) ≡ true
    → Roomy key (evict_oldest es c)
evict_oldest-Roomy key c [] e absent h full = absurd (ground (arith, h.some_room, full))
evict_oldest-Roomy key c (x ∷ es) e absent h full = record {
  some_room = h.some_room;
  free =
      subst (λ ys. suc (length (delete_entry x.key ys)) ≤ c.max_entries) (sym e)
        (omega (arith, length-delete_first x es, h.bounded, ap (λ ys. length ys) e));
  absent = find_entry-delete_none key x.key c.entries (ap (λ ys. find_entry key ys) e ∙ absent);
  distinct = Distinct-delete_entry x.key c.entries h.distinct;
}

make_room-Roomy :
    (key : String) (c : ToolResultCache) (found : Option CacheEntry)
    → find_entry key c.entries ≡ found
    → Inv c
    → Roomy key (make_room found key c)
make_room-Roomy key c (some old) e h = record {
  some_room = h.some_room;
  free = omega (arith, length-delete_found key old c.entries h.distinct e, h.bounded);
  absent = find_entry-delete_entry key c.entries;
  distinct = Distinct-delete_entry key c.entries h.distinct;
}
make_room-Roomy key c none e h =
    if_each (λ z. Roomy key z) (leb c.max_entries (length c.entries)) (evict_oldest c.entries c) c
      (λ full. evict_oldest-Roomy key c c.entries refl e h full)
      (λ free. record {
        some_room = h.some_room;
        free = ground (arith, free);
        absent = e;
        distinct = h.distinct;
      })

store_entry-Inv : (e : CacheEntry) (c : ToolResultCache) → Roomy e.key c → Inv (store_entry e c)
store_entry-Inv e c h = record {
  some_room = h.some_room;
  bounded = omega (arith, length-append c.entries (e ∷ []), h.free);
  reported = refl;
  distinct = Distinct-add_entry e c.entries h.absent h.distinct;
}

get_found-Inv :
    (found : Option CacheEntry) (key : String) (now_ms : ℕ) (c : ToolResultCache)
    → find_entry key c.entries ≡ found
    → Inv c
    → Inv (get_found found key now_ms c).1
get_found-Inv none key now_ms c e h = record {
  some_room = h.some_room;
  bounded = h.bounded;
  reported = h.reported;
  distinct = h.distinct;
}
get_found-Inv (some entry) key now_ms c e h =
    let fewer = length-delete_found key entry c.entries h.distinct e in
    let apart = Distinct-delete_entry key c.entries h.distinct in
    if_each (λ (r : Option String × ToolResultCache). Inv r.1) (leb entry.expires_at now_ms) _ _
      (λ expired. record {
        some_room = h.some_room;
        bounded = omega (arith, fewer, h.bounded);
        reported = refl;
        distinct = apart;
      })
      (λ hit. record {
        some_room = h.some_room;
        bounded =
            omega
              (arith, fewer, h.bounded, length-append (delete_entry key c.entries) (entry ∷ []));
        reported =
            omega
              (arith, fewer, h.reported, length-append (delete_entry key c.entries) (entry ∷ []));
        distinct =
            Distinct-add_entry entry (delete_entry key c.entries)
              (subst (λ k. find_entry k (delete_entry key c.entries) ≡ none)
                (sym (key-find_entry key entry c.entries e))
                (find_entry-delete_entry key c.entries))
              apart;
      })

module _ (is_cacheable_tool : String → Bool) (should_cache_value : String → Bool) where
  unfoldable pub step : Event → ToolResultCache → ToolResultCache
  unfolding get set clear_scope clear
  step (gets tool_name key now_ms) c =
      (get is_cacheable_tool should_cache_value tool_name key now_ms c).1
  step (sets tool_name key value now_ms ttl_ms) c =
      set is_cacheable_tool should_cache_value tool_name key value now_ms ttl_ms c
  step (clears_scope in_scope) c = clear_scope in_scope c
  step clears c = clear c

  unfoldable pub run_events : List Event → ToolResultCache → ToolResultCache
  unfolding step
  run_events [] c = c
  run_events (e ∷ es) c = run_events es (step e c)

  step-Inv : (e : Event) (c : ToolResultCache) → Inv c → Inv (step e c)
  unfolding step get set clear_scope clear
  step-Inv (gets tool_name key now_ms) c h =
      if_each (λ (r : Option String × ToolResultCache). Inv r.1) (is_cacheable_tool tool_name)
        (get_found (find_entry key c.entries) key now_ms c) (none, c)
        (λ yes. get_found-Inv (find_entry key c.entries) key now_ms c refl h) (λ other. h)
  step-Inv (sets tool_name key value now_ms ttl_ms) c h =
      if_each (λ z. Inv z) (is_cacheable_tool tool_name && should_cache_value value) _ c
        (λ cached.
          store_entry-Inv (record { value = value; expires_at = now_ms + ttl_ms; key = key })
            (make_room (find_entry key c.entries) key c)
            (make_room-Roomy key c (find_entry key c.entries) refl h))
        (λ other. h)
  step-Inv (clears_scope in_scope) c h = record {
    some_room = h.some_room;
    bounded = omega (arith, length-keep_entries in_scope c.entries, h.bounded);
    reported = refl;
    distinct = Distinct-keep_entries in_scope c.entries h.distinct;
  }
  step-Inv clears c h = record {
    some_room = h.some_room;
    bounded = omega arith;
    reported = refl;
    distinct = tt;
  }

  -- Over any calls the cache keeps at most its number of entries, under distinct keys, and its statistics
  -- report how many there are.
  pub run_events-Inv : (es : List Event) (c : ToolResultCache) → Inv c → Inv (run_events es c)
  unfolding run_events
  run_events-Inv [] c h = h
  run_events-Inv (e ∷ es) c h = run_events-Inv es (step e c) (step-Inv e c h)

  get_found-hit :
      (e : CacheEntry) (key : String) (now_ms : ℕ) (c : ToolResultCache)
      → (get_found (some e) key now_ms c).0
        ≡ (if leb e.expires_at now_ms then none else some e.value)
  get_found-hit e key now_ms c = ground arith

  -- A `get` that directly follows the `set` of a value that is one to cache, for a cacheable tool and under the same
  -- key, returns the value exactly when its time to live is not over, and else nothing.
  pub get-set :
      (tool_name key value : String) (now_ms ttl_ms later_ms : ℕ) (c : ToolResultCache)
      → Inv c
      → is_cacheable_tool tool_name ≡ true
      → should_cache_value value ≡ true
      → (get is_cacheable_tool should_cache_value tool_name key later_ms
          (set is_cacheable_tool should_cache_value tool_name key value now_ms ttl_ms c)).0
        ≡ (if leb (now_ms + ttl_ms) later_ms then none else some value)
  unfolding get set
  get-set tool_name key value now_ms ttl_ms later_ms c h cacheable cached =
      let e : CacheEntry = record { value = value; expires_at = now_ms + ttl_ms; key = key } in
      let roomy : ToolResultCache = make_room (find_entry key c.entries) key c in
      let c' : ToolResultCache = store_entry e roomy in
      let stored : set is_cacheable_tool should_cache_value tool_name key value now_ms ttl_ms c
          ≡ c' =
        if_true (is_cacheable_tool tool_name && should_cache_value value) c' c
          (ground (arith, cacheable, cached)) in
      let found : find_entry key c'.entries ≡ some e =
        find_entry-add_entry e roomy.entries
          (make_room-Roomy key c (find_entry key c.entries) refl h).absent in
      ap (λ z. (get is_cacheable_tool should_cache_value tool_name key later_ms z).0) stored
      ∙ ap (λ (r : Option String × ToolResultCache). r.0)
          (if_true (is_cacheable_tool tool_name)
            (get_found (find_entry key c'.entries) key later_ms c') (none, c') cacheable)
      ∙ ap (λ o. (get_found o key later_ms c').0) found
      ∙ get_found-hit e key later_ms c'
