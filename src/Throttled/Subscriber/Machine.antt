-- ===== src/Throttled/Subscriber/Machine.antt =====
-- `ThrottledSubscriber` of throttled-queue.ts as a machine, and what a failed handler stops.
use mathlib.Core.Path.{subst}
use uns_kit.Kit.{
  ℕ, ◌-◌, ◌≡◌, refl, sym, Bool, true, false, not, ◌&&◌, ◌||◌, Option, none, some, List, [], ◌∷◌,
  ◌++◌, String, get_elem?, if◌then◌else◌, if_each, if_both, arith, Result, ok, err, throw_if, ◌>>◌,
}
use uns_kit.Throttled.{
  Throttled, is_nil, can_start, save_queue, drive, process_queue, delay_elapsed, remember,
  after_item, item_done, push_item, start_left, start_active, remove_at,
}
use uns_kit.Throttled.Publisher.{Snapshot}
use uns_kit.Throttled.Subscriber.{
  SubscriberQueueItem, InputQueueCursor, Subscriber, enqueue, handled, handler_returned, retain,
  unhandled, handler_threw, input_delay_elapsed, become_passive, drain_owned_input, prepare_resume,
  resume_prepared, activate_prepared_resume, become_active,
}

pub data Event : Type 0 where
  received : SubscriberQueueItem → Event
  returned : ℕ → Event
  threw : ℕ → Event
  delay_over : Event
  silenced : Event
  drains : Event
  prepares : Option InputQueueCursor → Event
  activates : Event
  resumes : Snapshot → Event

abbrev pub or_same : Result Subscriber → Subscriber → Subscriber
or_same (ok s') s = s'
or_same (err problem) s = s

abbrev pub or_waits : Result (Option Subscriber) → Subscriber → Subscriber
or_waits (ok (some s')) s = s'
or_waits (ok none) s = s
or_waits (err problem) s = s

module _ (input_fingerprint : SubscriberQueueItem → String)
    (compute_hash_for_batch : Bool → List SubscriberQueueItem → String) where
  -- A call that throws leaves what it had changed before it threw.
  unfoldable pub step : Event → Subscriber → Subscriber
  unfolding enqueue handler_returned handler_threw input_delay_elapsed become_passive
      drain_owned_input prepare_resume activate_prepared_resume become_active
  step (received item) s = enqueue item s
  step (returned place) s = handler_returned place s
  step (threw place) s = handler_threw place s
  step delay_over s = input_delay_elapsed s
  step silenced s = become_passive s
  step drains s = or_waits (drain_owned_input s) s
  step (prepares cursor) s = (prepare_resume input_fingerprint compute_hash_for_batch cursor s).1
  step activates s = or_same (activate_prepared_resume input_fingerprint compute_hash_for_batch s) s
  step (resumes snapshot) s =
      or_same (become_active input_fingerprint compute_hash_for_batch snapshot s) s

  unfoldable pub run_events : List Event → Subscriber → Subscriber
  unfolding step
  run_events [] s = s
  run_events (e ∷ es) s = run_events es (step e s)

-- The base queue is passive and has made these calls.
record Halted (calls : List SubscriberQueueItem) (q : Throttled SubscriberQueueItem) : Type 0 where
  passive : q.active ≡ false
  called : q.calls ≡ calls

-- Input has failed, and no resume is prepared.
pub record Latched (calls : List SubscriberQueueItem) (s : Subscriber) : Type 0 where
  pub failed : s.input_failed ≡ true
  pub unprepared : s.prepared_resume ≡ none
  pub passive : s.base.active ≡ false
  pub called : s.base.calls ≡ calls

module _ (calls : List SubscriberQueueItem) where
  process_queue-Halted :
      (q : Throttled SubscriberQueueItem) → Halted calls q → Halted calls (process_queue q)
  unfolding process_queue
  process_queue-Halted q h =
      if_each (λ z. Halted calls z) (q.is_processing || not q.active) q _ (λ stays. h)
        (λ goes. absurd (ground (arith, goes, h.passive)))

  delay_elapsed-Halted :
      (q : Throttled SubscriberQueueItem) → Halted calls q → Halted calls (delay_elapsed q)
  unfolding delay_elapsed drive
  delay_elapsed-Halted q h =
      if_both (λ z. Halted calls z) q.delaying _ q
        (if_each (λ z. Halted calls z) (can_start q && q.active) _
          (record q { delaying = false; is_processing = false })
          (λ goes. absurd (ground (arith, goes, h.passive)))
          (λ stops. record { passive = h.passive; called = h.called }))
        h

  save_queue-Halted :
      (q : Throttled SubscriberQueueItem) → Halted calls q → Halted calls (save_queue q)
  unfolding save_queue
  save_queue-Halted q h = ground arith

  after_item-Halted :
      (place : ℕ) (q : Throttled SubscriberQueueItem)
      → Halted calls q
      → Halted calls (after_item place q)
  unfolding after_item start_left
  after_item-Halted place q h =
      let left : Throttled SubscriberQueueItem = record q {
        in_flight = q.in_flight - 1;
        running = remove_at place q.running;
      } in
      let saved : Halted calls (save_queue left) =
        save_queue-Halted left (record { passive = h.passive; called = h.called }) in
      if_both (λ z. Halted calls z)
        ((save_queue left).active && not (is_nil (save_queue left).queue))
        (process_queue (save_queue left)) (save_queue left)
        (process_queue-Halted (save_queue left) saved) saved

  push_item-Halted :
      (item : SubscriberQueueItem) (q : Throttled SubscriberQueueItem)
      → Halted calls q
      → Halted calls (push_item item q)
  unfolding push_item start_active
  push_item-Halted item q h =
      let more : Throttled SubscriberQueueItem = record q { queue = q.queue ++ item ∷ [] } in
      let saved : Halted calls (save_queue more) =
        save_queue-Halted more (record { passive = h.passive; called = h.called }) in
      if_both (λ z. Halted calls z) (save_queue more).active (process_queue (save_queue more))
        (save_queue more) (process_queue-Halted (save_queue more) saved) saved

  halted : (s : Subscriber) → Latched calls s → Halted calls s.base
  halted s h = record { passive = h.passive; called = h.called }

  with_base :
      (s : Subscriber) (q : Throttled SubscriberQueueItem)
      → Latched calls s
      → Halted calls q
      → Latched calls (record s { base = q })
  with_base s q h k = record {
    failed = h.failed;
    unprepared = h.unprepared;
    passive = k.passive;
    called = k.called;
  }

  handled-Latched :
      (place : ℕ) (found : Option SubscriberQueueItem) (s : Subscriber)
      → Latched calls s
      → Latched calls (handled place found s)
  unfolding item_done
  handled-Latched place none s h = h
  handled-Latched place (some item) s h =
      let q : Throttled SubscriberQueueItem = record s.base {
        last_processed = remember item s.base.last_processed;
      } in
      with_base s (after_item place q) h
        (after_item-Halted place q (record { passive = h.passive; called = h.called }))

  -- The failure of a call in flight halts the input, if it is to be kept.
  retain-Latched :
      (item : SubscriberQueueItem) (s : Subscriber)
      → s.retain_failed_input ≡ true
      → s.prepared_resume ≡ none
      → s.base.calls ≡ calls
      → Latched calls (retain item s)
  retain-Latched item s keeps unprepared e = ground arith

  unhandled-Latched :
      (place : ℕ) (item : SubscriberQueueItem) (s : Subscriber)
      → Latched calls (retain item s)
      → Latched calls (unhandled place (some item) s)
  unhandled-Latched place item s h =
      with_base (retain item s) (after_item place (retain item s).base) h
        (after_item-Halted place (retain item s).base (halted (retain item s) h))

  unhandled_again :
      (place : ℕ) (found : Option SubscriberQueueItem) (s : Subscriber)
      → Latched calls s
      → Latched calls (unhandled place found s)
  unhandled_again place none s h = h
  unhandled_again place (some item) s h = unhandled-Latched place item s (
      if_both (λ z. Latched calls z) s.retain_failed_input _ s
        (record { failed = refl; unprepared = h.unprepared; passive = refl; called = h.called }) h)

  drain_refused :
      (b : Bool) (problem : String) (next : Result (Option Subscriber)) (s : Subscriber)
      → b ≡ true
      → Latched calls s
      → Latched calls (or_waits (throw_if b problem >> next) s)
  drain_refused true problem next s e h = h
  drain_refused false problem next s e h = absurd (ground (arith, e))

  resume_refused :
      (b : Bool) (problem : String) (next : Result Subscriber) (s : Subscriber)
      → b ≡ true
      → Latched calls s
      → Latched calls (or_same (throw_if b problem >> next) s)
  resume_refused true problem next s e h = h
  resume_refused false problem next s e h = absurd (ground (arith, e))

  module _ (input_fingerprint : SubscriberQueueItem → String)
      (compute_hash_for_batch : Bool → List SubscriberQueueItem → String) where
    resume_unprepared :
        (b : Bool) (prepared : Option ℕ) (s : Subscriber)
        → prepared ≡ none
        → Latched calls s
        → Latched calls (
            or_same
              (throw_if b "MQTT resume was not prepared"
                >> resume_prepared input_fingerprint compute_hash_for_batch prepared s)
              s)
    resume_unprepared true prepared s e h = h
    resume_unprepared false none s e h = h
    resume_unprepared false (some index) s e h = absurd (ground (arith, e))

    refused :
        (b : Bool) (problem : String) (next : Result (Unit {0}) × Subscriber) (s : Subscriber)
        → b ≡ true
        → Latched calls s
        → Latched calls ((if b then (err problem, s) else next).1)
    refused true problem next s e h = h
    refused false problem next s e h = absurd (ground (arith, e))

    step-Latched :
        (e : Event) (s : Subscriber)
        → Latched calls s
        → Latched calls (step input_fingerprint compute_hash_for_batch e s)
    unfolding step enqueue handler_returned handler_threw input_delay_elapsed become_passive
        drain_owned_input prepare_resume activate_prepared_resume become_active
    step-Latched (received item) s h =
        with_base s (push_item item s.base) h (push_item-Halted item s.base (halted s h))
    step-Latched (returned place) s h = handled-Latched place (get_elem? s.base.running place) s h
    step-Latched (threw place) s h = unhandled_again place (get_elem? s.base.running place) s h
    step-Latched delay_over s h =
        with_base s (delay_elapsed s.base) h (delay_elapsed-Halted s.base (halted s h))
    step-Latched silenced s h = record {
      failed = h.failed;
      unprepared = h.unprepared;
      passive = refl;
      called = h.called;
    }
    step-Latched drains s h = drain_refused s.input_failed _ _ s h.failed h
    step-Latched (prepares cursor) s h = refused s.input_failed _ _ s h.failed h
    step-Latched activates s h = resume_unprepared s.base.active s.prepared_resume s h.unprepared h
    step-Latched (resumes snapshot) s h = resume_refused s.input_failed _ _ s h.failed h

    run_events-Latched :
        (es : List Event) (s : Subscriber)
        → Latched calls s
        → Latched calls (run_events input_fingerprint compute_hash_for_batch es s)
    unfolding run_events
    run_events-Latched [] s h = h
    run_events-Latched (e ∷ es) s h = run_events-Latched es _ (step-Latched e s h)

-- When the handler of a message in flight throws and failed input is kept, and no resume was prepared, no
-- later event calls the handler again, and the input stays passive and failed.
pub run_events-handler_threw :
    (input_fingerprint : SubscriberQueueItem → String)
    (compute_hash_for_batch : Bool → List SubscriberQueueItem → String) (es : List Event)
    (place : ℕ) (item : SubscriberQueueItem) (s : Subscriber)
    → get_elem? s.base.running place ≡ some item
    → s.retain_failed_input ≡ true
    → s.prepared_resume ≡ none
    → Latched s.base.calls
        (run_events input_fingerprint compute_hash_for_batch es (handler_threw place s))
unfolding handler_threw
run_events-handler_threw fingerprint hash es place item s found keeps unprepared =
    run_events-Latched s.base.calls fingerprint hash es (handler_threw place s) (
      subst (λ o. Latched s.base.calls (unhandled place o s)) (sym found)
        (unhandled-Latched s.base.calls place item s
          (retain-Latched s.base.calls item s keeps unprepared refl)))
