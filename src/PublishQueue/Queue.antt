-- ===== src/PublishQueue/Queue.antt =====
-- `MqttPublishQueue` (packages/uns-core/src/uns-mqtt/publish-queue.ts): its state, admission, and the
-- calls that start and stop it. What runs between two awaits is one step; a promise or a timer is
-- what the state says of it, and what it settles goes to `outcomes`.
use uns_kit.Kit.{
  ℕ, suc, ◌+◌, String, Bool, true, false, ◌&&◌, ◌||◌, not, Option, none, some, List, [], ◌∷◌, ◌++◌,
  map, length, total, ltb, leb, ◌==◌, ◌===◌, if◌then◌else◌, Result, ok, err, ◌>>◌, throw_if,
}
use uns_kit.PublishQueue.Records.{
  Mode, Config, PublishRecord, PublishOptions, qos_of, retain_of, envelope_bytes, check_envelope,
}
use uns_kit.PublishQueue.Store
use uns_kit.PublishQueue.Store.{Store, Disk, summary, row_bytes}

pub data Source : Type 0 where
  from_memory from_disk : Source

-- `processing`: no promise, one whose `run` has not begun, or one that awaits `send`.
pub data Run : Type 0 where
  idle scheduled : Run
  sending : Source → PublishRecord → Run

-- What a caller's promise came to: of an admitted publish by its id, of `waitForIdle` by its number.
pub data Outcome : Type 0 where
  delivered_id rejected_id : String → Outcome
  idle_reached idle_failed : ℕ → Outcome

pub record Queue : Type 0 where
  pub config : Config
  pub store : Store
  pub memory : List PublishRecord
  pub completions : List String
  pub waiters : List ℕ
  pub seq : ℕ
  pub active : Bool
  pub closed : Bool
  pub processing : Run
  pub retry_timer : Bool
  pub delivered : ℕ
  pub retries : ℕ
  pub last_error : Option String
  pub blocked : Option String
  pub outcomes : List Outcome

pub data State : Type 0 where
  idle pending retrying blocked closed : State

pub record Status : Type 0 where
  pub mode : Mode
  pub state : State
  pub pending_records : ℕ
  pub pending_bytes : ℕ
  pub memory_records : ℕ
  pub disk_records : ℕ
  pub in_flight : Bool
  pub delivered : ℕ
  pub retries : ℕ
  pub last_error : Option String

abbrev pub is_idle : Run → Bool
is_idle Run.idle = true
is_idle _ = false

abbrev pub is_blocked : Option String → Bool
is_blocked none = false
is_blocked (some e) = true

unfoldable pub snapshot : Queue → Status
unfolding summary
snapshot q =
    let disk = summary q.store in
    record {
      mode = q.config.mode;
      state =
          if q.closed
          then State.closed
          else if is_blocked q.blocked
          then State.blocked
          else if q.retry_timer
          then State.retrying
          else if ltb 0 (disk.records + length q.memory)
          then State.pending
          else State.idle;
      pending_records = disk.records + length q.memory;
      pending_bytes = disk.bytes + total row_bytes q.memory;
      memory_records = length q.memory;
      disk_records = disk.records;
      in_flight = not (is_idle q.processing);
      delivered = q.delivered;
      retries = q.retries;
      last_error = q.last_error;
    }

-- Waiters are resolved once nothing is pending and nothing runs.
unfoldable pub emit : Queue → Queue
unfolding snapshot
emit q =
    if (snapshot q).pending_records == 0 && is_idle q.processing
    then record q { waiters = []; outcomes = q.outcomes ++ map idle_reached q.waiters }
    else q

unfoldable pub schedule : Queue → Queue
schedule q =
    if not q.active
      || q.closed
      || is_blocked q.blocked
      || not (is_idle q.processing)
      || q.retry_timer
    then q
    else record q { processing = scheduled }

-- The constructor, over the store that it opened.
unfoldable pub new_queue : Config → Store → Bool → Result Queue
unfolding summary schedule
new_queue config store active =
    let saved = summary store in
    if ltb config.max_records saved.records || ltb config.max_bytes saved.bytes
    then err "Retained MQTT outbox exceeds configured limits; preserve and review it"
    else ok (
        schedule (record {
          config = config;
          store = store;
          memory = [];
          completions = [];
          waiters = [];
          seq = saved.last_seq;
          active = active;
          closed = false;
          processing = Run.idle;
          retry_timer = false;
          delivered = 0;
          retries = 0;
          last_error = none;
          blocked = none;
          outcomes = [];
        }))

abbrev pub has_id : String → List String → Bool
has_id id [] = false
has_id id (x ∷ xs) = id === x || has_id id xs

unfoldable pub check_open : Queue → Result (Unit {0})
check_open q = elim q.blocked [
  | some e ↦ err e
  | none ↦ throw_if q.closed "MQTT publish queue is closed"
]

unfoldable pub check_capacity : Queue → ℕ → Result (Unit {0})
unfolding snapshot
check_capacity q bytes =
    throw_if
      (leb q.config.max_records (snapshot q).pending_records
        || ltb q.config.max_bytes ((snapshot q).pending_bytes + bytes))
      "MQTT publish queue capacity reached; admission rejected"

abbrev pub is_durable : Mode → Bool
is_durable Mode.durable = true
is_durable Mode.buffered = false

-- Whether an admitted record is written to disk and not kept in memory.
unfoldable pub goes_to_disk : Queue → ℕ → Bool
goes_to_disk q bytes =
    is_durable q.config.mode
    || leb q.config.memory_records (length q.memory)
    || ltb q.config.memory_bytes (total row_bytes q.memory + bytes)

-- The record that an enqueue makes, under the next sequence number.
abbrev pub new_record : Queue → String → String → String → Option PublishOptions → PublishRecord
new_record q topic message id options = record {
  seq = suc q.seq;
  id = id;
  topic = topic;
  message = message;
  qos = qos_of options;
  retain = retain_of options;
  bytes = envelope_bytes topic message;
}

-- All that `enqueueOrThrow` checks before it takes a sequence number.
unfoldable pub admission :
    Queue → String → String → String → Option PublishOptions → Result (Unit {0})
unfolding check_open check_capacity
admission q topic message id options = do
  check_open q
  throw_if (has_id id q.completions) "Duplicate MQTT queue admission id"
  check_envelope q.config topic message id options
  check_capacity q (envelope_bytes topic message)

-- The call returns to its caller with the completion registered.
unfoldable pub accept : Queue → String → Queue
unfolding emit schedule
accept q id = schedule (emit (record q { completions = q.completions ++ id ∷ [] }))

-- A failed write leaves the sequence number taken.
unfoldable pub place : Disk → Queue → PublishRecord → Result (Unit {0}) × Queue
unfolding goes_to_disk accept
place disk q r =
    let numbered = record q { seq = r.seq } in
    if goes_to_disk q r.bytes
    then elim (Store.put q.config disk q.store r) [
      | err e ↦ (err e, numbered)
      | ok store ↦ (ok tt, accept (record numbered { store = store }) r.id)
    ]
    else (ok tt, accept (record numbered { memory = q.memory ++ r ∷ [] }) r.id)

unfoldable pub enqueue_or_throw :
    Disk → Queue → String → String → String → Option PublishOptions → Result (Unit {0}) × Queue
unfolding admission place
enqueue_or_throw disk q topic message id options = elim (admission q topic message id options) [
  | err e ↦ (err e, q)
  | ok _ ↦ place disk q (new_record q topic message id options)
]
