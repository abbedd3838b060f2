-- ===== src/Throttled/Publisher/Machine.antt =====
-- `ThrottledPublisher` of throttled-queue.ts as a machine: requests, ends of publishing, delays and handovers.
use uns_kit.Kit.{
  ℕ, ◌≤◌, ◌≡◌, refl, Bool, true, false, Option, none, some, List, [], ◌∷◌, String, get_elem?, arith,
  Result, ok, err, throw_if, ◌>>◌,
}
use uns_kit.Throttled.{pending_count}
use uns_kit.Throttled.Publisher.{
  Snapshot, PublisherQueueItem, Publisher, is_full, assert_can_accept_publish,
  enqueue_accepted_publish, enqueue_or_throw, settle, publish_ended, publish_delay_elapsed,
  become_active, become_passive,
}
use uns_kit.Throttled.Publisher.Bounds.{
  pending_count-delay_elapsed, pending_count-item_done, pending_count-push_item,
  pending_count-activate,
}

pub data Event (O : Type 0) : Type 0 where
  requested : PublisherQueueItem O → Event O
  ended : ℕ → Option String → Event O
  delay_over : Event O
  activated : Snapshot → Event O
  silenced : ℕ → Event O

abbrev pub AtMost : Option ℕ → ℕ → Type 0
AtMost none n = Unit
AtMost (some limit) n = n ≤ limit

AtMost-le : (limit : Option ℕ) {n m : ℕ} → AtMost limit n → m ≤ n → AtMost limit m
AtMost-le none h l = tt
AtMost-le (some limit) h l = omega (arith, h, l)

module _ {O : Type 0} (compute_hash_for_batch : List (PublisherQueueItem O) → String) where
  -- A request that throws leaves the publisher as it is.
  abbrev pub or_same : Result (Publisher O) → Publisher O → Publisher O
  or_same (ok p') p = p'
  or_same (err problem) p = p

  unfoldable pub step : Event O → Publisher O → Publisher O
  unfolding enqueue_or_throw publish_ended publish_delay_elapsed become_active become_passive
  step (requested item) p = or_same (enqueue_or_throw item p) p
  step (ended place problem) p = publish_ended place problem p
  step delay_over p = publish_delay_elapsed p
  step (activated snapshot) p = become_active compute_hash_for_batch snapshot p
  step (silenced n) p = (become_passive compute_hash_for_batch n p).0

  unfoldable pub run_events : List (Event O) → Publisher O → Publisher O
  unfolding step
  run_events [] p = p
  run_events (e ∷ es) p = run_events es (step e p)

  -- The requests that wait or are being published are within the limit.
  abbrev pub Within : Publisher O → Type 0
  Within p = AtMost p.max_pending_publishes (pending_count p.base)

  accepted-Within :
      (p : Publisher O) (item : PublisherQueueItem O) (limit : Option ℕ)
      → AtMost limit (pending_count p.base)
      → (full : Bool) → is_full limit (pending_count p.base) ≡ full
      → p.max_pending_publishes ≡ limit
      → Within (
          or_same
            (throw_if full "Publisher queue is full." >> ok (enqueue_accepted_publish item p))
            p)
  unfolding enqueue_accepted_publish
  accepted-Within p item limit h true e same = rw same h
  accepted-Within p item none h false e same = rw same tt
  accepted-Within p item (some limit) h false e same =
      rw same (ground (arith, pending_count-push_item item p.base, e))

  settle-Within :
      (place : ℕ) (problem : Option String) (found : Option (PublisherQueueItem O))
      (p : Publisher O)
      → Within p
      → Within (settle place problem found p)
  settle-Within place problem none p h = h
  settle-Within place problem (some item) p h =
      AtMost-le p.max_pending_publishes h (pending_count-item_done place item p.base)

  step-Within : (e : Event O) (p : Publisher O) → Within p → Within (step e p)
  unfolding step enqueue_or_throw assert_can_accept_publish publish_ended publish_delay_elapsed
      become_active become_passive pending_count
  step-Within (requested item) p h =
      accepted-Within p item p.max_pending_publishes h
        (is_full p.max_pending_publishes (pending_count p.base)) refl refl
  step-Within (ended place problem) p h =
      settle-Within place problem (get_elem? p.base.running place) p h
  step-Within delay_over p h =
      AtMost-le p.max_pending_publishes h (omega (arith, pending_count-delay_elapsed p.base))
  step-Within (activated snapshot) p h =
      AtMost-le p.max_pending_publishes h
        (pending_count-activate compute_hash_for_batch snapshot p.base)
  step-Within (silenced n) p h = h

  -- A publisher with a limit that starts within it never holds more requests, queued and in flight together,
  -- than the limit, whatever is requested, ends, is handed over or resumed.
  pub run_events-Within :
      (es : List (Event O)) (p : Publisher O) → Within p → Within (run_events es p)
  unfolding run_events
  run_events-Within [] p h = h
  run_events-Within (e ∷ es) p h = run_events-Within es (step e p) (step-Within e p h)
