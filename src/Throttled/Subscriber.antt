-- ===== src/Throttled/Subscriber.antt =====
-- `ThrottledSubscriber` (packages/uns-core/src/uns-mqtt/throttled-queue.ts): the queue of incoming messages,
-- which keeps the message whose handler failed, and the handover of input to a successor. The hashes are
-- parameters; a cursor or a preview that its schema refuses is `none`.
pub mod Drain
pub mod Machine
pub mod Resume
use uns_kit.Kit.{
  ℕ, zero, suc, ◌+◌, Bool, true, false, not, ◌&&◌, ◌||◌, Option, none, some, List, [], ◌∷◌, ◌++◌,
  String, map, length, get_elem?, drop, take, ltb, leb, ◌==◌, ◌===◌, if◌then◌else◌, Result, ok, err,
  throw_if, ◌>>◌, ◌>>=◌,
}
use uns_kit.InputBoundary.{unique_input_boundary}
use uns_kit.Throttled.{
  Throttled, new_throttled, is_nil, slice_last, process_queue, after_item, item_done, push_item,
  delay_elapsed,
}
use uns_kit.Throttled.Publisher.{Snapshot, activate}

pub record SubscriberQueueItem : Type 0 where
  pub topic : String
  pub message : String
  pub timestamp : ℕ

pub record InputQueueCursor : Type 0 where
  pub batch_size : ℕ
  pub reference_hash : String
  pub processed_tail : Option (List String)

pub record Subscriber : Type 0 where
  pub base : Throttled SubscriberQueueItem
  pub retain_failed_input : Bool
  pub input_failed : Bool
  pub prepared_resume : Option ℕ

unfoldable pub new_subscriber : ℕ → Bool → Bool → Bool → Subscriber
unfolding new_throttled
new_subscriber delay persist_to_disk active retain_failed_input = record {
  base = new_throttled delay persist_to_disk 1 active;
  retain_failed_input = retain_failed_input;
  input_failed = false;
  prepared_resume = none;
}

unfoldable pub enqueue : SubscriberQueueItem → Subscriber → Subscriber
unfolding push_item
enqueue item s = record s { base = push_item item s.base }

abbrev pub handled : ℕ → Option SubscriberQueueItem → Subscriber → Subscriber
handled place none s = s
handled place (some item) s = record s { base = item_done place item s.base }

-- The handler of the call at `place` returned.
unfoldable pub handler_returned : ℕ → Subscriber → Subscriber
unfolding item_done
handler_returned place s = handled place (get_elem? s.base.running place) s

-- The `catch` of `processItem`.
abbrev pub retain : SubscriberQueueItem → Subscriber → Subscriber
retain item s =
    if s.retain_failed_input
    then record s {
      base = record s.base { active = false; queue = item ∷ s.base.queue };
      input_failed = true;
    }
    else s

abbrev pub unhandled : ℕ → Option SubscriberQueueItem → Subscriber → Subscriber
unhandled place none s = s
unhandled place (some item) s = record (retain item s) {
  base = after_item place (retain item s).base;
}

-- The handler threw: `processItem` throws again, and the item is not remembered as processed.
unfoldable pub handler_threw : ℕ → Subscriber → Subscriber
unfolding after_item
handler_threw place s = unhandled place (get_elem? s.base.running place) s

unfoldable pub input_delay_elapsed : Subscriber → Subscriber
unfolding delay_elapsed
input_delay_elapsed s = record s { base = delay_elapsed s.base }

-- `becomePassive` up to its first await.
unfoldable pub become_passive : Subscriber → Subscriber
become_passive s = record s { base = record s.base { active = false } }

-- A turn of the loop of `drainOwnedInput` and what follows it up to the first await of `becomePassive`: it waits
-- (`none`), throws, or makes the input passive.
unfoldable pub drain_owned_input : Subscriber → Result (Option Subscriber)
unfolding become_passive
drain_owned_input s =
    throw_if s.input_failed "Managed MQTT input failed; retained input requires review"
    >> (if s.base.active && (not (is_nil s.base.queue) || ltb 0 s.base.in_flight)
        then ok none
        else ok (some (become_passive s)))

-- The wait of `becomePassive` is over, and with it `drainOwnedInput`. Whether a call in flight has failed meanwhile is
-- not tested again.
abbrev pub passive_reached : Subscriber → Bool
passive_reached s = not (ltb 0 s.base.in_flight)

abbrev pub is_ok : {A : Type 0} → Result A → Bool
is_ok (ok value) = true
is_ok (err problem) = false

abbrev pub sole_end : List ℕ → Result ℕ
sole_end [] = err "MQTT input overlap is missing or ambiguous; successor stays passive"
sole_end (e ∷ []) = ok e
sole_end (e ∷ d ∷ es) = err "MQTT input overlap is missing or ambiguous; successor stays passive"

module _ (input_fingerprint : SubscriberQueueItem → String)
    (compute_hash_for_batch : Bool → List SubscriberQueueItem → String) where
  -- `becomePassive` when no call is in flight any more.
  unfoldable pub input_cursor : ℕ → Bool → Subscriber → InputQueueCursor
  input_cursor n strict s = record {
    batch_size = length (slice_last n s.base.last_processed);
    reference_hash = compute_hash_for_batch strict (slice_last n s.base.last_processed);
    processed_tail = if strict then some (map input_fingerprint s.base.last_processed) else none;
  }

  unfoldable pub get_input_preview : Subscriber → Result (List String)
  get_input_preview s =
      throw_if s.input_failed "Managed MQTT input outcome requires review"
      >> (throw_if s.base.active "MQTT successor is not passive"
          >> ok (map input_fingerprint (slice_last 100 s.base.queue)))

  unfoldable pub can_resume_input : Option (List String) → Subscriber → Bool
  unfolding unique_input_boundary
  can_resume_input none s = false
  can_resume_input (some preview) s =
      if s.input_failed || not s.base.active
      then false
      else is_ok (unique_input_boundary (map input_fingerprint s.base.last_processed) preview)

  -- The ends of all windows of the reference hash, from `start` on; a size is above zero.
  unfoldable pub window_ends : String → ℕ → ℕ → List SubscriberQueueItem → List ℕ
  window_ends reference_hash batch_size start [] = []
  window_ends reference_hash batch_size start (x ∷ xs) =
      let rest = window_ends reference_hash batch_size (suc start) xs in
      if leb batch_size (length (x ∷ xs))
      then (if compute_hash_for_batch true (take batch_size (x ∷ xs)) === reference_hash
          then (start + batch_size) ∷ rest
          else rest)
      else []

  -- Where the input of the predecessor ends in this queue.
  abbrev pub boundary_of :
      Option (List String) → InputQueueCursor → List SubscriberQueueItem → Result ℕ
  boundary_of (some tail) cursor queue = unique_input_boundary tail (map input_fingerprint queue)
  boundary_of none cursor queue =
      if cursor.batch_size == 0
      then ok 0
      else sole_end (window_ends cursor.reference_hash cursor.batch_size 0 queue)

  abbrev pub prepare_at : Result ℕ → Subscriber → Result (Unit {0}) × Subscriber
  prepare_at (err problem) s = (err problem, s)
  prepare_at (ok index) s = (ok tt, record s { prepared_resume = some index })

  abbrev pub prepare_parsed : Option InputQueueCursor → Subscriber → Result (Unit {0}) × Subscriber
  prepare_parsed none s = (err "invalid cursor", s)
  prepare_parsed (some cursor) s =
      prepare_at (boundary_of cursor.processed_tail cursor s.base.queue) s

  -- The earlier preparation is dropped also when the new one fails.
  unfoldable pub prepare_resume :
      Option InputQueueCursor → Subscriber → Result (Unit {0}) × Subscriber
  unfolding unique_input_boundary window_ends
  prepare_resume cursor s =
      if s.input_failed
      then (err "Managed MQTT input outcome requires review", s)
      else if s.base.active
      then (err "MQTT successor is not passive", s)
      else prepare_parsed cursor (record s { prepared_resume = none })

  abbrev pub resume_prepared : Option ℕ → Subscriber → Result Subscriber
  resume_prepared none s = err "MQTT resume was not prepared"
  resume_prepared (some index) s = ok (record s {
    base = process_queue (record s.base { queue = drop index s.base.queue; active = true });
    prepared_resume = none;
  })

  unfoldable pub activate_prepared_resume : Subscriber → Result Subscriber
  unfolding process_queue
  activate_prepared_resume s =
      throw_if s.base.active "MQTT resume was not prepared" >> resume_prepared s.prepared_resume s

  unfoldable pub become_active : Snapshot → Subscriber → Result Subscriber
  unfolding activate
  become_active snapshot s =
      throw_if s.input_failed
        "Managed MQTT input cannot be retried after an unknown application outcome"
      >> ok (record s { base = activate (compute_hash_for_batch false) snapshot s.base })
