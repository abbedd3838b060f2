-- ===== src/Throttled/Subscriber/Drain.antt =====
-- The drain of owned input of throttled-queue.ts, and what happens to the input after it.
use mathlib.Core.Path.{subst}
use mathlib.Core.List.{append-nil, append_assoc}
use uns_kit.Kit.{
  ℕ, ◌≡◌, refl, ap, ◌∙◌, Bool, true, false, not, ◌&&◌, ◌||◌, Option, none, some, List, [], ◌∷◌,
  ◌++◌, length, ltb, get_elem?, String, if_each, if_both, if◌then◌else◌, arith, All, Result, ok,
  err, throw_if, ◌>>◌, ok_injective,
}
use uns_kit.Throttled.{
  Throttled, is_nil, can_start, save_queue, drive, process_queue, delay_elapsed, push_item,
  start_active,
}
use uns_kit.Throttled.Bounds.{Sound}
use uns_kit.Throttled.Subscriber.{
  SubscriberQueueItem, InputQueueCursor, Subscriber, enqueue, handler_returned, handler_threw,
  input_delay_elapsed, become_passive, drain_owned_input, prepare_at, prepare_parsed,
  prepare_resume, boundary_of,
}
use uns_kit.Throttled.Subscriber.Machine.{
  Event, received, returned, threw, delay_over, silenced, drains, prepares, activates, resumes,
  or_waits, step, run_events,
}

-- Everything but an activation.
abbrev pub IsCalm : Event → Type 0
IsCalm activates = ⊥
IsCalm (resumes snapshot) = ⊥
IsCalm _ = Unit

-- The items that the events bring, in their order.
abbrev pub arrivals : List Event → List SubscriberQueueItem
arrivals [] = []
arrivals (received item ∷ es) = item ∷ arrivals es
arrivals (_ ∷ es) = arrivals es

-- The queue is passive, has made these calls, holds these items and runs nothing.
record Rests (calls waiting : List SubscriberQueueItem) (q : Throttled SubscriberQueueItem)
    : Type 0 where
  passive : q.active ≡ false
  called : q.calls ≡ calls
  kept : q.queue ≡ waiting
  nothing_runs : q.running ≡ []

-- So is the input, and it has not failed.
pub record Resting (calls waiting : List SubscriberQueueItem) (s : Subscriber) : Type 0 where
  pub confirmed : s.input_failed ≡ false
  pub passive : s.base.active ≡ false
  pub called : s.base.calls ≡ calls
  pub kept : s.base.queue ≡ waiting
  pub nothing_runs : s.base.running ≡ []

module _ (calls : List SubscriberQueueItem) where
  delay_elapsed-Rests :
      (waiting : List SubscriberQueueItem) (q : Throttled SubscriberQueueItem)
      → Rests calls waiting q
      → Rests calls waiting (delay_elapsed q)
  unfolding delay_elapsed drive
  delay_elapsed-Rests waiting q h =
      if_both (λ z. Rests calls waiting z) q.delaying _ q
        (if_each (λ z. Rests calls waiting z) (can_start q && q.active) _
          (record q { delaying = false; is_processing = false })
          (λ goes. absurd (ground (arith, goes, h.passive)))
          (λ stops. record {
            passive = h.passive;
            called = h.called;
            kept = h.kept;
            nothing_runs = h.nothing_runs;
          }))
        h

  save_queue-Rests :
      (waiting : List SubscriberQueueItem) (q : Throttled SubscriberQueueItem)
      → Rests calls waiting q
      → Rests calls waiting (save_queue q)
  unfolding save_queue
  save_queue-Rests waiting q h = ground arith

  push_item-Rests :
      (item : SubscriberQueueItem) (waiting : List SubscriberQueueItem)
      (q : Throttled SubscriberQueueItem)
      → Rests calls waiting q
      → Rests calls (waiting ++ item ∷ []) (push_item item q)
  unfolding push_item start_active
  push_item-Rests item waiting q h =
      let more : Throttled SubscriberQueueItem = record q { queue = q.queue ++ item ∷ [] } in
      let saved : Rests calls (waiting ++ item ∷ []) (save_queue more) =
        save_queue-Rests (waiting ++ item ∷ []) more (record {
          passive = h.passive;
          called = h.called;
          kept = ap (λ (xs : List SubscriberQueueItem). xs ++ item ∷ []) h.kept;
          nothing_runs = h.nothing_runs;
        }) in
      if_each (λ z. Rests calls (waiting ++ item ∷ []) z) (save_queue more).active
        (process_queue (save_queue more)) (save_queue more)
        (λ on. absurd (ground (arith, on, saved.passive))) (λ off. saved)

  with_base :
      (waiting waiting' : List SubscriberQueueItem) (s : Subscriber)
      (q : Throttled SubscriberQueueItem)
      → Resting calls waiting s
      → Rests calls waiting' q
      → Resting calls waiting' (record s { base = q })
  with_base waiting waiting' s q h k = record {
    confirmed = h.confirmed;
    passive = k.passive;
    called = k.called;
    kept = k.kept;
    nothing_runs = k.nothing_runs;
  }

  rests :
      (waiting : List SubscriberQueueItem) (s : Subscriber)
      → Resting calls waiting s
      → Rests calls waiting s.base
  rests waiting s h = record {
    passive = h.passive;
    called = h.called;
    kept = h.kept;
    nothing_runs = h.nothing_runs;
  }

  no_call : (place : ℕ) (xs : List SubscriberQueueItem) → xs ≡ [] → get_elem? xs place ≡ none
  no_call place [] h = refl
  no_call place (x ∷ xs) h = absurd (cc h)

  drained_again :
      (failed busy : Bool) (problem : String) (s : Subscriber) (waiting : List SubscriberQueueItem)
      → Resting calls waiting s
      → Resting calls waiting (
          or_waits
            (throw_if failed problem >> (if busy then ok none else ok (some (become_passive s))))
            s)
  unfolding become_passive
  drained_again true busy problem s waiting h = h
  drained_again false true problem s waiting h = h
  drained_again false false problem s waiting h = record {
    confirmed = h.confirmed;
    passive = refl;
    called = h.called;
    kept = h.kept;
    nothing_runs = h.nothing_runs;
  }

  module _ (input_fingerprint : SubscriberQueueItem → String)
      (compute_hash_for_batch : Bool → List SubscriberQueueItem → String) where
    prepare_at-Resting :
        (r : Result ℕ) (s : Subscriber) (waiting : List SubscriberQueueItem)
        → Resting calls waiting s
        → Resting calls waiting (prepare_at input_fingerprint compute_hash_for_batch r s).1
    prepare_at-Resting (err problem) s waiting h = h
    prepare_at-Resting (ok index) s waiting h = record {
      confirmed = h.confirmed;
      passive = h.passive;
      called = h.called;
      kept = h.kept;
      nothing_runs = h.nothing_runs;
    }

    prepare_parsed-Resting :
        (cursor : Option InputQueueCursor) (s : Subscriber) (waiting : List SubscriberQueueItem)
        → Resting calls waiting s
        → Resting calls waiting (prepare_parsed input_fingerprint compute_hash_for_batch cursor s).1
    prepare_parsed-Resting none s waiting h = h
    prepare_parsed-Resting (some cursor) s waiting h =
        prepare_at-Resting
          (boundary_of input_fingerprint compute_hash_for_batch cursor.processed_tail cursor
            s.base.queue)
          s waiting h

    step-Resting :
        (e : Event) (s : Subscriber) (waiting : List SubscriberQueueItem)
        → IsCalm e
        → Resting calls waiting s
        → Resting calls
            (waiting ++ arrivals (e ∷ []))
            (step input_fingerprint compute_hash_for_batch e s)
    unfolding step enqueue handler_returned handler_threw input_delay_elapsed become_passive
        drain_owned_input prepare_resume
    step-Resting (received item) s waiting calm h =
        with_base waiting (waiting ++ item ∷ []) s (push_item item s.base) h
          (push_item-Rests item waiting s.base (rests waiting s h))
    step-Resting (returned place) s waiting calm h =
        rw (append-nil waiting, no_call place s.base.running h.nothing_runs) h
    step-Resting (threw place) s waiting calm h =
        rw (append-nil waiting, no_call place s.base.running h.nothing_runs) h
    step-Resting delay_over s waiting calm h = rw (append-nil waiting) (
        with_base waiting waiting s (delay_elapsed s.base) h
          (delay_elapsed-Rests waiting s.base (rests waiting s h)))
    step-Resting silenced s waiting calm h = rw (append-nil waiting) (record {
      confirmed = h.confirmed;
      passive = refl;
      called = h.called;
      kept = h.kept;
      nothing_runs = h.nothing_runs;
    })
    step-Resting drains s waiting calm h = rw (append-nil waiting) (
        drained_again s.input_failed
          (s.base.active && (not (is_nil s.base.queue) || ltb 0 s.base.in_flight)) _ s waiting h)
    step-Resting (prepares cursor) s waiting calm h = rw (append-nil waiting) (
        if_both (λ (r : Result (Unit {0}) × Subscriber). Resting calls waiting r.1) s.input_failed _
          _ h
          (if_both (λ (r : Result (Unit {0}) × Subscriber). Resting calls waiting r.1) s.base.active
            _ _ h
            (prepare_parsed-Resting cursor (record s { prepared_resume = none }) waiting
              (record {
                confirmed = h.confirmed;
                passive = h.passive;
                called = h.called;
                kept = h.kept;
                nothing_runs = h.nothing_runs;
              }))))
    step-Resting activates s waiting calm h = absurd calm
    step-Resting (resumes snapshot) s waiting calm h = absurd calm

    arrivals-cons :
        (e : Event) (es : List Event) → arrivals (e ∷ []) ++ arrivals es ≡ arrivals (e ∷ es)
    arrivals-cons (received item) es = refl
    arrivals-cons (returned place) es = refl
    arrivals-cons (threw place) es = refl
    arrivals-cons delay_over es = refl
    arrivals-cons silenced es = refl
    arrivals-cons drains es = refl
    arrivals-cons (prepares cursor) es = refl
    arrivals-cons activates es = refl
    arrivals-cons (resumes snapshot) es = refl

    run_events-Resting :
        (es : List Event) (s : Subscriber) (waiting : List SubscriberQueueItem)
        → All IsCalm es
        → Resting calls waiting s
        → Resting calls
            (waiting ++ arrivals es)
            (run_events input_fingerprint compute_hash_for_batch es s)
    unfolding run_events
    run_events-Resting [] s waiting calm h = rw (append-nil waiting) h
    run_events-Resting (e ∷ es) s waiting calm h =
        let s' = step input_fingerprint compute_hash_for_batch e s in
        subst
          (λ (xs : List SubscriberQueueItem).
            Resting calls xs (run_events input_fingerprint compute_hash_for_batch es s'))
          (append_assoc waiting (arrivals (e ∷ [])) (arrivals es)
            ∙ ap (λ (xs : List SubscriberQueueItem). waiting ++ xs) (arrivals-cons e es))
          (run_events-Resting es s' (waiting ++ arrivals (e ∷ [])) calm.1
            (step-Resting e s waiting calm.0 h))

nothing_left : (xs : List SubscriberQueueItem) → is_nil xs ≡ true → xs ≡ []
nothing_left [] h = refl
nothing_left (x ∷ xs) h = absurd (cc h)

no_running : (xs : List SubscriberQueueItem) → length xs ≡ 0 → xs ≡ []
no_running [] h = refl
no_running (x ∷ xs) h = absurd (omega (arith, h))

drained-Resting :
    (failed busy : Bool) (s s' : Subscriber)
    → s.input_failed ≡ failed
    → (s.base.active && (not (is_nil s.base.queue) || ltb 0 s.base.in_flight)) ≡ busy
    → s.base.active ≡ true
    → s.base.in_flight ≡ length s.base.running
    → (throw_if failed "Managed MQTT input failed; retained input requires review"
        >> (if busy then ok none else ok (some (become_passive s))))
      ≡ ok (some s')
    → Resting s.base.calls [] s'
unfolding become_passive
drained-Resting true busy s s' f b on counted h = absurd (ground (arith, h))
drained-Resting false true s s' f b on counted h = absurd (ground (arith, ok_injective h))
drained-Resting false false s s' f b on counted h =
    let same : become_passive s ≡ s' = cc (ok_injective h) in
    subst (Resting s.base.calls []) same (record {
      confirmed = f;
      passive = refl;
      called = refl;
      kept = nothing_left s.base.queue (ground (arith, b, on));
      nothing_runs = no_running s.base.running (ground (arith, b, on, counted));
    })

-- When the drain of an active input, in a state that the queue keeps (`Sound`), ends its loop, the input has not failed and no call is in flight; and from then
-- on, whatever happens but an activation, the handler is called no more, the input does not fail, and all that
-- arrives is kept in order.
pub run_events-drain_owned_input :
    (input_fingerprint : SubscriberQueueItem → String)
    (compute_hash_for_batch : Bool → List SubscriberQueueItem → String) (es : List Event)
    (s s' : Subscriber)
    → s.base.active ≡ true
    → Sound s.base
    → drain_owned_input s ≡ ok (some s')
    → All IsCalm es
    → Resting s.base.calls [] s'
      × Resting s.base.calls
          (arrivals es)
          (run_events input_fingerprint compute_hash_for_batch es s')
unfolding drain_owned_input
run_events-drain_owned_input fingerprint hash es s s' on sound h calm =
    let now : Resting s.base.calls [] s' =
      drained-Resting s.input_failed
        (s.base.active && (not (is_nil s.base.queue) || ltb 0 s.base.in_flight)) s s' refl refl on
        sound.ready.counted h in
    (now, run_events-Resting s.base.calls fingerprint hash es s' [] calm now)
