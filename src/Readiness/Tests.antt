-- ===== src/Readiness/Tests.antt =====
-- Runs and examples of the subscription readiness.
use uns_kit.Kit.{◌≡◌, refl, inr, true, false, some, List, [], ◌∷◌}
use uns_kit.Readiness.{
  Filter, new_readiness, connection, sent, received, ready, handover_ready, find_filter, settle_all,
}
use uns_kit.Readiness.Ready.{find_filter-settle_all, handover_ready-sent}

acknowledged :
    ready (received false 1 (1 ∷ []) (sent false 1 ("a" ∷ []) (connection true new_readiness)))
    ≡ true
unfolding ready received sent connection
acknowledged = refl

abbrev newer : List Filter
newer = record { topic = "a"; revision = 2; acknowledged = false } ∷ []

find_filter-settle_all_example :
    find_filter "a" (settle_all false (0 ∷ []) 0 (("a", 1) ∷ []) newer)
    ≡ some (record { topic = "a"; revision = 2; acknowledged = false })
unfolding find_filter
find_filter-settle_all_example =
    find_filter-settle_all false (0 ∷ []) 0 "a"
      (record { topic = "a"; revision = 2; acknowledged = false }) (("a", 1) ∷ []) newer refl
      (inr refl, tt)

handover_ready-sent_example :
    handover_ready (sent false 1 ("a" ∷ []) (connection true new_readiness)) ≡ false
handover_ready-sent_example = handover_ready-sent false 1 "a" [] (connection true new_readiness)
