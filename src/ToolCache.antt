-- ===== src/ToolCache.antt =====
-- `AssistantWorkflowToolResultCache` (packages/uns-assistant-workflow/src/tool-result-cache.ts). The entries
-- of the `Map` stand in its order of insertion. The key of a call, the time to live and the three tests are
-- parameters, as the options of the constructor make them; times and lengths of time are in milliseconds.
pub mod Entries
pub mod History
pub mod Machine
mod Tests
use uns_kit.Kit.{
  ℕ, zero, suc, ◌+◌, ◌*◌, Bool, true, false, not, ◌&&◌, ◌||◌, Option, none, some, List, [], ◌∷◌,
  ◌++◌, String, length, ltb, leb, ◌===◌, is_empty, if◌then◌else◌,
}

pub record CacheStats : Type 0 where
  pub hits : ℕ
  pub misses : ℕ
  pub evictions : ℕ
  pub expirations : ℕ
  pub size : ℕ

pub record CacheEntry : Type 0 where
  pub value : String
  pub expires_at : ℕ
  pub key : String

pub record ToolResultCache : Type 0 where
  pub entries : List CacheEntry
  pub max_entries : ℕ
  pub stats : CacheStats

-- `chooseAssistantWorkflowToolResultCacheTtlMs`, of the parsed end of the range. A range that ends in the
-- future is live.
unfoldable pub choose_ttl_ms : Option ℕ → ℕ → ℕ
choose_ttl_ms none now_ms = 15 * 60000
choose_ttl_ms (some to_ms) now_ms =
    if ltb now_ms (to_ms + 5 * 60000)
    then 30000
    else if ltb now_ms (to_ms + 60 * 60000)
    then 5 * 60000
    else if ltb now_ms (to_ms + 24 * 60 * 60000)
    then 30 * 60000
    else 2 * 60 * 60000

-- `new AssistantWorkflowToolResultCache`
unfoldable pub new_cache : Option ℕ → ToolResultCache
new_cache max_entries = record {
  entries = [];
  max_entries = elim max_entries [ none ↦ 500 | some n ↦ if ltb n 1 then 1 else n ];
  stats = record { hits = 0; misses = 0; evictions = 0; expirations = 0; size = 0 };
}

-- `Map.get`
unfoldable pub find_entry : String → List CacheEntry → Option CacheEntry
find_entry key [] = none
find_entry key (e ∷ es) = if e.key === key then some e else find_entry key es

-- `Map.delete`
unfoldable pub delete_entry : String → List CacheEntry → List CacheEntry
delete_entry key [] = []
delete_entry key (e ∷ es) =
    let rest = delete_entry key es in if e.key === key then rest else e ∷ rest

-- `Map.set` of a key that is not there.
abbrev pub add_entry : CacheEntry → List CacheEntry → List CacheEntry
add_entry e es = es ++ e ∷ []

-- `get` after the key is built, and its result.
abbrev pub get_found :
    Option CacheEntry → String → ℕ → ToolResultCache → Option String × ToolResultCache
get_found none key now_ms c =
    (none, record c { stats = record c.stats { misses = c.stats.misses + 1 } })
get_found (some entry) key now_ms c =
    if leb entry.expires_at now_ms
    then (
      none,
      record c {
        entries = delete_entry key c.entries;
        stats = record c.stats {
          expirations = c.stats.expirations + 1;
          misses = c.stats.misses + 1;
          size = length (delete_entry key c.entries);
        };
      },
    )
    else (
      some entry.value,
      record c {
        entries = add_entry entry (delete_entry key c.entries);
        stats = record c.stats { hits = c.stats.hits + 1 };
      },
    )

-- The oldest entry leaves.
abbrev pub evict_oldest : List CacheEntry → ToolResultCache → ToolResultCache
evict_oldest [] c = c
evict_oldest (oldest ∷ rest) c = record c {
  entries = delete_entry oldest.key c.entries;
  stats = record c.stats { evictions = c.stats.evictions + 1 };
}

-- The place for a new entry: its old one, a free one, or that of the oldest entry.
abbrev pub make_room : Option CacheEntry → String → ToolResultCache → ToolResultCache
make_room (some old) key c = record c { entries = delete_entry key c.entries }
make_room none key c = if leb c.max_entries (length c.entries) then evict_oldest c.entries c else c

abbrev pub store_entry : CacheEntry → ToolResultCache → ToolResultCache
store_entry e c = record c {
  entries = add_entry e c.entries;
  stats = record c.stats { size = length (add_entry e c.entries) };
}

-- `clearScope`: the entries whose key has the prefix of the scope.
unfoldable pub keep_entries : (String → Bool) → List CacheEntry → List CacheEntry
keep_entries in_scope [] = []
keep_entries in_scope (e ∷ es) =
    let rest = keep_entries in_scope es in if in_scope e.key then rest else e ∷ rest

unfoldable pub clear_scope : (String → Bool) → ToolResultCache → ToolResultCache
unfolding keep_entries
clear_scope in_scope c = record c {
  entries = keep_entries in_scope c.entries;
  stats = record c.stats { size = length (keep_entries in_scope c.entries) };
}

unfoldable pub clear : ToolResultCache → ToolResultCache
clear c = record c { entries = []; stats = record c.stats { size = 0 } }

module _ (is_cacheable_tool : String → Bool) (should_cache_value : String → Bool) where
  unfoldable pub get : String → String → ℕ → ToolResultCache → Option String × ToolResultCache
  unfolding find_entry delete_entry
  get tool_name key now_ms c =
      if is_cacheable_tool tool_name
      then get_found (find_entry key c.entries) key now_ms c
      else (none, c)

  unfoldable pub set : String → String → String → ℕ → ℕ → ToolResultCache → ToolResultCache
  unfolding find_entry delete_entry
  set tool_name key value now_ms ttl_ms c =
      if is_cacheable_tool tool_name && should_cache_value value
      then store_entry (record { value = value; expires_at = now_ms + ttl_ms; key = key })
          (make_room (find_entry key c.entries) key c)
      else c
