-- ===== src/ToolCache/History.antt =====
-- `AssistantWorkflowToolResultCache` of tool-result-cache.ts against the history of its calls.
use mathlib.Core.Path.{subst}
use mathlib.Core.Option.{some-injective}
use uns_kit.Kit.{
  length, ℕ, ◌+◌, ◌≡◌, ◌<◌, ◌⊎◌, refl, sym, ap, ◌∙◌, inl, inr, Bool, true, false, ◌&&◌, Option,
  none, some, List, [], ◌∷◌, String, ◌===◌, eq_iff, leb, arith, Bool-cases, if_each, if_both,
  if_false, if◌then◌else◌,
}
use uns_kit.ToolCache.{
  CacheEntry, ToolResultCache, new_cache, find_entry, delete_entry, add_entry, keep_entries,
  get_found, get, evict_oldest, make_room, store_entry, clear_scope, clear, set,
}
use uns_kit.ToolCache.Entries.{find_entry-delete_entry, find_entry-delete_none, key-find_entry}
use uns_kit.ToolCache.Machine.{Event, gets, sets, clears_scope, clears, step, run_events}

-- What is found, if anything, has the value and the end of life of the record.
abbrev Agrees : Option CacheEntry → Option (String × ℕ) → Type 0
Agrees none record_of = Unit
Agrees (some e) record_of = record_of ≡ some (e.value, e.expires_at)

keep_entries-absent :
    (in_scope : String → Bool) (key : String) (es : List CacheEntry)
    → in_scope key ≡ true
    → find_entry key (keep_entries in_scope es) ≡ none
unfolding keep_entries find_entry
keep_entries-absent in_scope key [] on = refl
keep_entries-absent in_scope key (e ∷ es) on =
    let rest : find_entry key (keep_entries in_scope es) ≡ none =
      keep_entries-absent in_scope key es on in
    if_each (λ (xs : List CacheEntry). find_entry key xs ≡ none) (in_scope e.key)
      (keep_entries in_scope es) (e ∷ keep_entries in_scope es) (λ dropped. rest)
      (λ kept. elim (Bool-cases (e.key === key)) [
        | inl hit ↦ absurd (cc (ap in_scope ((eq_iff e.key key).0 hit), on, kept))
        | inr miss ↦ rw miss rest
      ])

module _ (key : String) where
  split-cons :
      (e : CacheEntry) (es : List CacheEntry) (w : Option (String × ℕ))
      → Agrees (find_entry key (e ∷ es)) w
      → (((e.key === key) ≡ true) × (w ≡ some (e.value, e.expires_at)))
        ⊎ (((e.key === key) ≡ false) × Agrees (find_entry key es) w)
  unfolding find_entry
  split-cons e es w =
      if_each
        (λ (o : Option CacheEntry).
          Agrees o w
          → (((e.key === key) ≡ true) × (w ≡ some (e.value, e.expires_at)))
            ⊎ (((e.key === key) ≡ false) × Agrees (find_entry key es) w))
        (e.key === key) (some e) (find_entry key es) (λ hit h. inl (hit, h))
        (λ miss h. inr (miss, h))

  join-hit :
      (e : CacheEntry) (es : List CacheEntry) (w : Option (String × ℕ))
      → (e.key === key) ≡ true
      → w ≡ some (e.value, e.expires_at)
      → Agrees (find_entry key (e ∷ es)) w
  unfolding find_entry
  join-hit e es w hit h = rw hit h

  join-miss :
      (e : CacheEntry) (es : List CacheEntry) (w : Option (String × ℕ))
      → (e.key === key) ≡ false
      → Agrees (find_entry key es) w
      → Agrees (find_entry key (e ∷ es)) w
  unfolding find_entry
  join-miss e es w miss h = rw miss h

  none-Agrees :
      (es : List CacheEntry) (w : Option (String × ℕ))
      → find_entry key es ≡ none
      → Agrees (find_entry key es) w
  none-Agrees es w h = rw h tt

  delete-Agrees :
      (other : String) (es : List CacheEntry) (w : Option (String × ℕ))
      → Agrees (find_entry key es) w
      → Agrees (find_entry key (delete_entry other es)) w
  unfolding delete_entry
  delete-Agrees other [] w h = h
  delete-Agrees other (e ∷ es) w h = elim (split-cons e es w h) [
    | inr (miss, tail) ↦
        let rest : Agrees (find_entry key (delete_entry other es)) w =
          delete-Agrees other es w tail in
        if_both (λ (xs : List CacheEntry). Agrees (find_entry key xs) w) (e.key === other)
          (delete_entry other es) (e ∷ delete_entry other es) rest
          (join-miss e (delete_entry other es) w miss rest)
    | inl (hit, same_value) ↦
        if_each (λ (xs : List CacheEntry). Agrees (find_entry key xs) w) (e.key === other)
          (delete_entry other es) (e ∷ delete_entry other es)
          (λ same.
            let name : other ≡ key = sym ((eq_iff e.key other).0 same) ∙ (eq_iff e.key key).0 hit in
            none-Agrees (delete_entry other es) w (
              ap (λ (k : String). find_entry k (delete_entry other es)) (sym name)
              ∙ find_entry-delete_entry other es))
          (λ kept. join-hit e (delete_entry other es) w hit same_value)
  ]

  add-Agrees :
      (e : CacheEntry) (es : List CacheEntry) (w : Option (String × ℕ))
      → ((e.key === key) ≡ true → w ≡ some (e.value, e.expires_at))
      → Agrees (find_entry key es) w
      → Agrees (find_entry key (add_entry e es)) w
  add-Agrees e [] w new h = elim (Bool-cases (e.key === key)) [
    | inl hit ↦ join-hit e [] w hit (new hit)
    | inr miss ↦ join-miss e [] w miss h
  ]
  add-Agrees e (x ∷ es) w new h = elim (split-cons x es w h) [
    | inl (hit, value) ↦ join-hit x (add_entry e es) w hit value
    | inr (miss, tail) ↦ join-miss x (add_entry e es) w miss (add-Agrees e es w new tail)
  ]

  keep-Agrees :
      (in_scope : String → Bool) (es : List CacheEntry) (w : Option (String × ℕ))
      → Agrees (find_entry key es) w
      → Agrees (find_entry key (keep_entries in_scope es)) (if in_scope key then none else w)
  unfolding keep_entries find_entry
  keep-Agrees in_scope [] w h = none-Agrees [] (if in_scope key then none else w) find_nothing
    where
      find_nothing : find_entry key [] ≡ none
      find_nothing = refl
  keep-Agrees in_scope (e ∷ es) w h =
      let w' = if in_scope key then none else w in
      elim (split-cons e es w h) [
        | inr (miss, tail) ↦
            let rest : Agrees (find_entry key (keep_entries in_scope es)) w' =
              keep-Agrees in_scope es w tail in
            if_both (λ (xs : List CacheEntry). Agrees (find_entry key xs) w') (in_scope e.key)
              (keep_entries in_scope es) (e ∷ keep_entries in_scope es) rest
              (join-miss e (keep_entries in_scope es) w' miss rest)
        | inl (hit, value) ↦
            let name : in_scope e.key ≡ in_scope key = ap in_scope ((eq_iff e.key key).0 hit) in
            if_each (λ (xs : List CacheEntry). Agrees (find_entry key xs) w') (in_scope e.key)
              (keep_entries in_scope es) (e ∷ keep_entries in_scope es)
              (λ dropped.
                none-Agrees (keep_entries in_scope es) w' (dropped_all es (sym name ∙ dropped)))
              (λ kept.
                join-hit e (keep_entries in_scope es) w' hit
                  (if_false (in_scope key) none w (sym name ∙ kept) ∙ value))
      ]
    where
      dropped_all :
          (xs : List CacheEntry)
          → in_scope key ≡ true
          → find_entry key (keep_entries in_scope xs) ≡ none
      dropped_all xs on = keep_entries-absent in_scope key xs on

  -- The key's entry agrees with what was written last.
  abbrev pub Follows : ToolResultCache → Option (String × ℕ) → Type 0
  Follows c w = Agrees (find_entry key c.entries) w

  get_found-Follows :
      (k : String) (found : Option CacheEntry) (now_ms : ℕ) (c : ToolResultCache)
      (w : Option (String × ℕ))
      → find_entry k c.entries ≡ found
      → Follows c w
      → Follows (get_found found k now_ms c).1 w
  get_found-Follows k none now_ms c w e h = h
  get_found-Follows k (some entry) now_ms c w e h =
      let rest : Agrees (find_entry key (delete_entry k c.entries)) w =
        delete-Agrees k c.entries w h in
      if_both (λ (r : Option String × ToolResultCache). Follows r.1 w) (leb entry.expires_at now_ms)
        _ _ rest
        (add-Agrees entry (delete_entry k c.entries) w
          (λ hit.
            let name : k ≡ key =
              sym (key-find_entry k entry c.entries e) ∙ (eq_iff entry.key key).0 hit in
            subst (λ (o : Option CacheEntry). Agrees o w)
              (ap (λ (x : String). find_entry x c.entries) (sym name) ∙ e) h)
          rest)

  evict_oldest-Follows :
      (es : List CacheEntry) (c : ToolResultCache) (w : Option (String × ℕ))
      → Follows c w
      → Follows (evict_oldest es c) w
  evict_oldest-Follows [] c w h = h
  evict_oldest-Follows (oldest ∷ rest) c w h = delete-Agrees oldest.key c.entries w h

  make_room-Follows :
      (k : String) (found : Option CacheEntry) (c : ToolResultCache) (w : Option (String × ℕ))
      → Follows c w
      → Follows (make_room found k c) w
  make_room-Follows k (some old) c w h = delete-Agrees k c.entries w h
  make_room-Follows k none c w h =
      if_both (λ (z : ToolResultCache). Follows z w) (leb c.max_entries (length c.entries))
        (evict_oldest c.entries c) c (evict_oldest-Follows c.entries c w h) h

  evict_oldest-absent :
      (k : String) (es : List CacheEntry) (c : ToolResultCache)
      → find_entry k c.entries ≡ none
      → find_entry k (evict_oldest es c).entries ≡ none
  evict_oldest-absent k [] c h = h
  evict_oldest-absent k (oldest ∷ rest) c h = find_entry-delete_none k oldest.key c.entries h

  make_room-absent :
      (k : String) (found : Option CacheEntry) (c : ToolResultCache)
      → find_entry k c.entries ≡ found
      → find_entry k (make_room found k c).entries ≡ none
  make_room-absent k (some old) c e = find_entry-delete_entry k c.entries
  make_room-absent k none c e =
      if_both (λ (z : ToolResultCache). find_entry k z.entries ≡ none)
        (leb c.max_entries (length c.entries)) (evict_oldest c.entries c) c
        (evict_oldest-absent k c.entries c e) e

module _ (is_cacheable_tool : String → Bool) (should_cache_value : String → Bool) where
  -- The value and the end of life that a key was given last, if nothing has been cleared since.
  unfoldable pub write : String → Event → Option (String × ℕ) → Option (String × ℕ)
  write key (gets tool_name k now_ms) w = w
  write key (sets tool_name k value now_ms ttl_ms) w =
      if (is_cacheable_tool tool_name && should_cache_value value) && (k === key)
      then some (value, now_ms + ttl_ms)
      else w
  write key (clears_scope in_scope) w = if in_scope key then none else w
  write key clears w = none

  unfoldable pub last_write : String → List Event → Option (String × ℕ) → Option (String × ℕ)
  unfolding write
  last_write key [] w = w
  last_write key (e ∷ es) w = last_write key es (write key e w)

  set-Follows :
      (key tool_name k value : String) (now_ms ttl_ms : ℕ) (c : ToolResultCache)
      (w : Option (String × ℕ))
      → Follows key c w
      → Follows key
          (set is_cacheable_tool should_cache_value tool_name k value now_ms ttl_ms c)
          (write key (sets tool_name k value now_ms ttl_ms) w)
  unfolding set write
  set-Follows key tool_name k value now_ms ttl_ms c w h =
      elim (Bool-cases (is_cacheable_tool tool_name && should_cache_value value)) [
        | inr off ↦ rw off h
        | inl on ↦ rw on (stored (Bool-cases (k === key)))
      ]
    where
      entry : CacheEntry
      entry = record { value = value; expires_at = now_ms + ttl_ms; key = k }

      roomy : ToolResultCache
      roomy = make_room (find_entry k c.entries) k c

      stored :
          ((k === key) ≡ true) ⊎ ((k === key) ≡ false)
          → Follows key
              (store_entry entry roomy)
              (if k === key then some (value, now_ms + ttl_ms) else w)
      stored (inr other) =
          add-Agrees key entry roomy.entries
            (if k === key then some (value, now_ms + ttl_ms) else w)
            (λ hit. absurd (cc (hit, other)))
            (rw other (make_room-Follows key k (find_entry k c.entries) c w h))
      stored (inl hit) =
          add-Agrees key entry roomy.entries
            (if k === key then some (value, now_ms + ttl_ms) else w) (λ same. rw hit refl)
            (none-Agrees key roomy.entries _ (
              ap (λ (x : String). find_entry x roomy.entries) (sym ((eq_iff k key).0 hit))
              ∙ make_room-absent key k (find_entry k c.entries) c refl))

  step-Follows :
      (key : String) (e : Event) (c : ToolResultCache) (w : Option (String × ℕ))
      → Follows key c w
      → Follows key (step is_cacheable_tool should_cache_value e c) (write key e w)
  unfolding step write get clear_scope clear
  step-Follows key (gets tool_name k now_ms) c w h =
      if_both (λ (r : Option String × ToolResultCache). Follows key r.1 w)
        (is_cacheable_tool tool_name) (get_found (find_entry k c.entries) k now_ms c) (none, c)
        (get_found-Follows key k (find_entry k c.entries) now_ms c w refl h) h
  step-Follows key (sets tool_name k value now_ms ttl_ms) c w h =
      set-Follows key tool_name k value now_ms ttl_ms c w h
  step-Follows key (clears_scope in_scope) c w h = keep-Agrees key in_scope c.entries w h
  step-Follows key clears c w h = none-Agrees key [] none refl

  run_events-Follows :
      (key : String) (es : List Event) (c : ToolResultCache) (w : Option (String × ℕ))
      → Follows key c w
      → Follows key (run_events is_cacheable_tool should_cache_value es c) (last_write key es w)
  unfolding run_events last_write
  run_events-Follows key [] c w h = h
  run_events-Follows key (e ∷ es) c w h =
      run_events-Follows key es (step is_cacheable_tool should_cache_value e c) (write key e w)
        (step-Follows key e c w h)

  -- A value is live when it was written last and its end of life is after the time.
  abbrev pub Live : Option (String × ℕ) → ℕ → String → Type 0
  Live w now_ms value = (expires_at : ℕ) × (w ≡ some (value, expires_at)) × (now_ms < expires_at)

  found-Live :
      (found : Option CacheEntry) (k : String) (now_ms : ℕ) (c : ToolResultCache) (value : String)
      (w : Option (String × ℕ))
      → Agrees found w
      → (get_found found k now_ms c).0 ≡ some value
      → Live w now_ms value
  found-Live none k now_ms c value w h = λ e. absurd (cc e)
  found-Live (some entry) k now_ms c value w h =
      if_each (λ (r : Option String × ToolResultCache). r.0 ≡ some value → Live w now_ms value)
        (leb entry.expires_at now_ms) _ _ (λ expired e. absurd (cc e))
        (λ fresh e. (
          entry.expires_at,
          h ∙ ap (λ (v : String). some (v, entry.expires_at)) (some-injective entry.value value e),
          ground (arith, fresh),
        ))

  -- After any calls of a new cache, what `get` returns is the value that the key was given last, by a call of a
  -- cacheable tool with a value to cache; its time to live is not over, and neither its scope nor the cache has been
  -- cleared since.
  pub get-last_write :
      (max_entries : Option ℕ) (es : List Event) (tool_name key value : String) (now_ms : ℕ)
      → (get is_cacheable_tool should_cache_value tool_name key now_ms
          (run_events is_cacheable_tool should_cache_value es (new_cache max_entries))).0
        ≡ some value
      → Live (last_write key es none) now_ms value
  unfolding get new_cache
  get-last_write max_entries es tool_name key value now_ms =
      let c = run_events is_cacheable_tool should_cache_value es (new_cache max_entries) in
      if_each
        (λ (r : Option String × ToolResultCache).
          r.0 ≡ some value → Live (last_write key es none) now_ms value)
        (is_cacheable_tool tool_name) (get_found (find_entry key c.entries) key now_ms c) (none, c)
        (λ on.
          found-Live (find_entry key c.entries) key now_ms c value (last_write key es none)
            (run_events-Follows key es (new_cache max_entries) none (none-Agrees key [] none refl)))
        (λ off e. absurd (cc e))
