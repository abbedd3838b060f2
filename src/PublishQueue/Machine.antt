-- ===== src/PublishQueue/Machine.antt =====
-- The output queue as a machine: the calls of its owner, the answers of the broker and the timers, one
-- event at a time, in any order.
pub mod Keeps
pub mod Fifo
pub mod Drain
use uns_kit.Kit.{
  ℕ, suc, String, Bool, Option, none, some, List, [], ◌∷◌, ◌++◌, if◌then◌else◌, Result, ok, err,
}
use uns_kit.PublishQueue.Records.{PublishRecord, PublishOptions}
use uns_kit.PublishQueue.Store.{Disk}
use uns_kit.PublishQueue.Queue.{Run, sending, Queue, new_record, is_idle, enqueue_or_throw}
use uns_kit.PublishQueue.Delivery.{
  remove_sent, acknowledged, unconfirmed, begin_run, retry, become_active, become_passive, passive,
  wait_for_idle, waiter_timeout, begin_close, finish_close,
}

pub data Event : Type 0 where
  enqueue : Disk → (topic message id : String) → Option PublishOptions → Event
  run_starts acknowledges retry_fires : Event
  rejects : (ℕ → Disk) → Event
  activates : Option ℕ → Event
  silences silent : Event
  waits : (waiter timeout_ms : ℕ) → Event
  wait_ends : (waiter : ℕ) → Event
  starts_close : Event
  closes : (ℕ → Disk) → Event

-- `closes` waits for `processing`, and takes place when nothing runs. `close` awaits only the run of the time of its
-- call: after a `becomeActive` in between, a new run may be in flight when it goes on, which is not modelled.
unfoldable pub step : Event → Queue → Queue
step (enqueue disk topic message id options) q =
    (enqueue_or_throw disk q topic message id options).1
step run_starts q = begin_run q
step acknowledges q = acknowledged q
step retry_fires q = retry q
step (rejects disks) q = unconfirmed disks q
step (activates batch_size) q = (become_active batch_size q).1
step silences q = become_passive q
step silent q = passive q
step (waits waiter timeout_ms) q = wait_for_idle waiter timeout_ms q
step (wait_ends waiter) q = waiter_timeout waiter q
step starts_close q = begin_close q
step (closes disks) q = if is_idle q.processing then (finish_close disks q).1 else q

abbrev pub records_of : Result (Unit {0}) → PublishRecord → List PublishRecord
records_of (ok _) r = r ∷ []
records_of (err e) r = []

-- The records that an event admits, and those that it confirms as delivered.
unfoldable pub accepted : Event → Queue → List PublishRecord
accepted (enqueue disk topic message id options) q =
    records_of (enqueue_or_throw disk q topic message id options).0
      (new_record q topic message id options)
accepted _ q = []

abbrev pub sent_records : Run → List PublishRecord
sent_records (sending source r) = r ∷ []
sent_records _ = []

unfoldable pub confirmed : Event → Queue → List PublishRecord
confirmed acknowledges q = sent_records q.processing
confirmed _ q = []

unfoldable pub run_events : List Event → Queue → Queue
run_events [] q = q
run_events (e ∷ es) q = run_events es (step e q)

unfoldable pub all_accepted : List Event → Queue → List PublishRecord
all_accepted [] q = []
all_accepted (e ∷ es) q = accepted e q ++ all_accepted es (step e q)

unfoldable pub all_confirmed : List Event → Queue → List PublishRecord
all_confirmed [] q = []
all_confirmed (e ∷ es) q = confirmed e q ++ all_confirmed es (step e q)
