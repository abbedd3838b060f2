-- ===== src/ToolCache/Tests.antt =====
-- Runs and examples of the tool result cache.
use uns_kit.Kit.{◌≡◌, refl, Bool, true, none, some, List, [], ◌∷◌, String, arith}
use uns_kit.ToolCache.{ToolResultCache, new_cache, get, set}
use uns_kit.ToolCache.History.{Live, last_write, get-last_write}
use uns_kit.ToolCache.Machine.{Event, gets, sets, Inv, run_events, run_events-Inv, get-set}

abbrev always : String → Bool
always text = true

abbrev small : ToolResultCache
unfolding new_cache
small = new_cache (some 2)

small-Inv : Inv small
unfolding new_cache
small-Inv = record {
  some_room = omega arith;
  bounded = omega arith;
  reported = refl;
  distinct = tt;
}

abbrev calls : List Event
calls =
    sets "t" "a" "1" 0 10
    ∷ sets "t" "b" "2" 1 10
    ∷ gets "t" "a" 5
    ∷ sets "t" "c" "3" 6 10
    ∷ gets "t" "b" 7
    ∷ []

-- The entry that was read last stays.
evicts_oldest : (run_events always always calls small).stats.evictions ≡ 1
unfolding run_events new_cache
evicts_oldest = refl

run_events-Inv_example : Inv (run_events always always calls small)
run_events-Inv_example = run_events-Inv always always calls small small-Inv

get-set_example :
    (get always always "t" "a" 9 (set always always "t" "a" "1" 0 10 small)).0 ≡ some "1"
get-set_example = get-set always always "t" "a" "1" 0 10 9 small small-Inv refl refl

expired_get : (get always always "t" "a" 10 (set always always "t" "a" "1" 0 10 small)).0 ≡ none
unfolding get set new_cache
expired_get = refl

get-last_write_example : Live always always (last_write always always "a" calls none) 9 "1"
unfolding get new_cache run_events
get-last_write_example = get-last_write always always (some 2) calls "t" "a" "1" 9 refl
