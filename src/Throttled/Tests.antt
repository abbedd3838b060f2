-- ===== src/Throttled/Tests.antt =====
-- Runs and examples of the throttled queues.
use uns_kit.Kit.{
  ok, ◌&&◌, not, ℕ, zero, suc, ◌≡◌, refl, Bool, true, false, none, some, List, [], ◌∷◌, ◌++◌,
  String, drop, arith,
}
use uns_kit.Throttled.{Throttled, new_throttled, pending_count, drive}
use uns_kit.Throttled.Ends.{drive_terminates}
use uns_kit.Throttled.Bounds.{Sound}
use uns_kit.Throttled.Order.{flow}
use uns_kit.Throttled.Machine
use uns_kit.Throttled.Machine.{pushed_items, run_events, run_events-Sound, flow-run_events}
use uns_kit.Throttled.Publisher.{
  Publisher, PublisherQueueItem, new_publisher, activate, snapshot_of,
}
use uns_kit.Throttled.Publisher.Machine as Publishing
use uns_kit.Throttled.Publisher.Machine.{Within, AtMost, run_events-Within}
use uns_kit.Throttled.Publisher.Resume.{First, flow-activate}
use uns_kit.Throttled.Subscriber.{
  SubscriberQueueItem, Subscriber, InputQueueCursor, new_subscriber, enqueue, handler_threw,
  become_passive, drain_owned_input, passive_reached, prepare_resume, activate_prepared_resume,
}
use uns_kit.Throttled.Subscriber.Machine as Receiving
use uns_kit.Throttled.Subscriber.Machine.{Latched, run_events-handler_threw}
use uns_kit.Throttled.Subscriber.Drain.{Resting, run_events-drain_owned_input}
use uns_kit.Throttled.Subscriber.Resume.{Prepared, activate_prepared_resume-prepare_resume}

-- Two calls at a time, with a delay.
abbrev fresh : Throttled ℕ
unfolding new_throttled
fresh = new_throttled 5 true 2 true

abbrev history : List (Machine.Event ℕ)
history =
    Machine.pushed 1
    ∷ Machine.pushed 2
    ∷ Machine.pushed 3
    ∷ Machine.threw 0
    ∷ Machine.delay_over
    ∷ Machine.silenced
    ∷ Machine.returned 0
    ∷ Machine.pushed 4
    ∷ []

called : (run_events history fresh).calls ≡ 1 ∷ 2 ∷ 3 ∷ []
unfolding run_events new_throttled
called = refl

fresh-Sound : Sound fresh
unfolding new_throttled
fresh-Sound = record {
  ready = record { counted = refl; bounded = omega arith; suspended = refl; few = omega arith };
  busy = refl;
}

run_events-Sound_example : Sound (run_events history fresh)
run_events-Sound_example = run_events-Sound history fresh fresh-Sound

flow-run_events_example : flow (run_events history fresh) ≡ flow fresh ++ pushed_items history
flow-run_events_example = flow-run_events history fresh

abbrev request : String → PublisherQueueItem ℕ
request id = record { topic = "raw/a"; message = "{}"; id = id; options = 0 }

abbrev limited : Publisher ℕ
unfolding new_publisher
limited = new_publisher 0 false "publisher" true 1 (some 2)

-- The texts of a batch stand for its hash.
abbrev ids : List (PublisherQueueItem ℕ) → String
ids [] = ""
ids (x ∷ xs) = x.id

abbrev requests : List (Publishing.Event ℕ)
requests =
    Publishing.requested (request "1")
    ∷ Publishing.requested (request "2")
    ∷ Publishing.requested (request "3")
    ∷ Publishing.silenced 2
    ∷ Publishing.ended 0 none
    ∷ Publishing.activated (record { reference_hash = none; batch_size = none })
    ∷ []

run_events-Within_example : Within ids (Publishing.run_events ids requests limited)
unfolding new_publisher pending_count
run_events-Within_example = run_events-Within ids requests limited (omega arith)

-- A hash that tells these batches apart.
abbrev first_text : List String → String
first_text [] = ""
first_text (x ∷ xs) = x

abbrev waiting : Throttled String
unfolding new_throttled
waiting = record (new_throttled 0 false 1 false) { queue = "a" ∷ "b" ∷ "c" ∷ [] }

flow-activate_example :
    flow (activate first_text (snapshot_of first_text ("b" ∷ [])) waiting) ≡ "c" ∷ []
unfolding new_throttled
flow-activate_example =
    flow-activate first_text waiting ("a" ∷ []) ("b" ∷ []) ("c" ∷ []) refl (omega arith) first
  where
    first : First first_text ("a" ∷ []) ("b" ∷ []) ("c" ∷ [])
    first zero l = refl
    first (suc k) l = absurd (omega (arith, l))

abbrev received : String → SubscriberQueueItem
received message = record { topic = "raw/a"; message = message; timestamp = 7 }

-- The text of a message stands for its fingerprint.
abbrev fingerprint : SubscriberQueueItem → String
fingerprint item = item.message

abbrev batch_text : Bool → List SubscriberQueueItem → String
batch_text strict [] = ""
batch_text strict (x ∷ xs) = x.message

abbrev managed : Subscriber
unfolding new_subscriber enqueue
managed = enqueue (received "2") (enqueue (received "1") (new_subscriber 0 false true true))

run_events-handler_threw_example : Latched managed.base.calls (
    Receiving.run_events fingerprint batch_text
      (Receiving.received (received "3")
        ∷ Receiving.delay_over
        ∷ Receiving.prepares none
        ∷ Receiving.activates
        ∷ [])
      (handler_threw 0 managed))
unfolding new_subscriber enqueue
run_events-handler_threw_example =
    run_events-handler_threw fingerprint batch_text
      (Receiving.received (received "3")
        ∷ Receiving.delay_over
        ∷ Receiving.prepares none
        ∷ Receiving.activates
        ∷ [])
      0 (received "1") managed refl refl refl

abbrev successor : Subscriber
unfolding new_subscriber
successor = record (new_subscriber 0 false false true) {
  base = record (new_subscriber 0 false false true).base {
    queue = received "1" ∷ received "2" ∷ received "3" ∷ [];
  };
}

abbrev cursor : InputQueueCursor
cursor = record {
  batch_size = 2;
  reference_hash = "1";
  processed_tail = some ("0" ∷ "1" ∷ "2" ∷ []);
}

abbrev prepared : Subscriber
prepared = record successor { prepared_resume = some 2 }

abbrev resumed : Subscriber
resumed = record successor {
  base = record successor.base {
    queue = [];
    active = true;
    in_flight = 1;
    running = received "3" ∷ [];
    calls = received "3" ∷ [];
  };
}

activate_prepared_resume-prepare_resume_example :
    (index : ℕ) × Prepared fingerprint batch_text ("0" ∷ "1" ∷ "2" ∷ []) successor prepared index
    × (flow resumed.base ≡ drop index (received "1" ∷ received "2" ∷ received "3" ∷ []))
unfolding prepare_resume activate_prepared_resume new_subscriber
activate_prepared_resume-prepare_resume_example =
    activate_prepared_resume-prepare_resume fingerprint batch_text ("0" ∷ "1" ∷ "2" ∷ []) cursor
      successor prepared resumed refl refl refl

abbrev owner : Subscriber
unfolding new_subscriber
owner = new_subscriber 0 false true true

-- The owner has handled a message.
abbrev served : Subscriber
unfolding Receiving.run_events new_subscriber
served =
    Receiving.run_events fingerprint batch_text
      (Receiving.received (received "1") ∷ Receiving.returned 0 ∷ []) owner

served-Sound : Sound served.base
unfolding Receiving.run_events new_subscriber
served-Sound = record {
  ready = record { counted = refl; bounded = omega arith; suspended = refl; few = omega arith };
  busy = refl;
}

run_events-drain_owned_input_example :
    Resting served.base.calls [] (become_passive served)
    × Resting served.base.calls (received "2" ∷ received "3" ∷ []) (
        Receiving.run_events fingerprint batch_text
          (Receiving.received (received "2")
            ∷ Receiving.threw 0
            ∷ Receiving.received (received "3")
            ∷ [])
          (become_passive served))
unfolding drain_owned_input Receiving.run_events new_subscriber
run_events-drain_owned_input_example =
    run_events-drain_owned_input fingerprint batch_text
      (Receiving.received (received "2")
        ∷ Receiving.threw 0
        ∷ Receiving.received (received "3")
        ∷ [])
      served (become_passive served) refl served-Sound refl (tt, (tt, (tt, tt)))

-- A passive shadow is drained at once, and the end waits for its call in flight, which may still fail.
abbrev shadow : Subscriber
unfolding Receiving.run_events new_subscriber
shadow =
    Receiving.run_events fingerprint batch_text
      (Receiving.received (received "1") ∷ Receiving.silenced ∷ []) owner

shadow_drained : drain_owned_input shadow ≡ ok (some shadow)
unfolding drain_owned_input Receiving.run_events new_subscriber
shadow_drained = refl

shadow_waits : passive_reached shadow ≡ false
unfolding Receiving.run_events new_subscriber
shadow_waits = refl

-- A preparation that precedes a failure is still activated: the handler is called again after the failure.
stale_preparation :
    (Receiving.run_events fingerprint batch_text
      (Receiving.silenced
        ∷ Receiving.prepares
            (some (record { batch_size = 0; reference_hash = ""; processed_tail = none }))
        ∷ Receiving.threw 0
        ∷ Receiving.activates
        ∷ [])
      managed).base.calls
    ≡ received "1" ∷ received "1" ∷ []
unfolding Receiving.run_events new_subscriber enqueue
stale_preparation = refl

abbrev two_queued : Throttled ℕ
two_queued = record fresh { queue = 1 ∷ 2 ∷ []; is_processing = true }

drive_terminates_example :
    (drive 7 two_queued ≡ drive 3 two_queued)
    × (((drive 7 two_queued).is_processing && not (drive 7 two_queued).delaying) ≡ false)
unfolding new_throttled
drive_terminates_example = drive_terminates 7 two_queued (omega arith)
