-- ===== src/PublishQueue/Delivery.antt =====
-- The rest of `MqttPublishQueue` (packages/uns-core/src/uns-mqtt/publish-queue.ts): the delivery loop
-- `run`, its failure, retry, and the calls that activate, silence, await and close the queue. The
-- reactions chained on the promise of `run` follow its return in the same step.
use uns_kit.Kit.{
  ℕ, suc, ◌+◌, String, Bool, true, false, ◌&&◌, ◌||◌, not, Option, none, some, List, [], ◌∷◌, ◌++◌,
  map, ltb, ◌==◌, ◌===◌, if◌then◌else◌, Result, ok, err,
}
use uns_kit.PublishQueue.Records.{Config, PublishRecord}
use uns_kit.PublishQueue.Store
use uns_kit.PublishQueue.Store.{Store, Disk}
use uns_kit.PublishQueue.Queue.{
  Source, from_memory, from_disk, Run, scheduled, sending, delivered_id, rejected_id, idle_reached,
  idle_failed, Queue, is_idle, is_blocked, snapshot, emit, schedule,
}

-- The callbacks of `finally`.
unfoldable pub finish_run : Queue → Queue
unfolding emit schedule snapshot
finish_run q =
    let idle_queue = record q { processing = Run.idle } in
    if q.closed
    then idle_queue
    else if ltb 0 (snapshot (emit idle_queue)).pending_records
    then schedule (emit idle_queue)
    else emit idle_queue

-- `fail`, and the `finally` that follows it.
abbrev pub block : String → Queue → Queue
block e q = record q {
  blocked = some e;
  last_error = some "MQTT outbox blocked; preserve storage and inspect local error";
  waiters = [];
  outcomes = q.outcomes ++ map idle_failed q.waiters;
}

unfoldable pub fail : Queue → String → Queue
unfolding finish_run
fail q e = finish_run (emit (block e q))

-- `!memory || (disk && disk.seq < memory.seq) ? disk : memory`
unfoldable pub pick : Option PublishRecord → List PublishRecord → Option (Source × PublishRecord)
pick none [] = none
pick (some disk) [] = some (from_disk, disk)
pick none (m ∷ _) = some (from_memory, m)
pick (some disk) (m ∷ _) =
    if ltb disk.seq m.seq then some (from_disk, disk) else some (from_memory, m)

-- `if (!record) return;`, or the call of `send`.
unfoldable pub send_or_return : Option (Source × PublishRecord) → Queue → Queue
unfolding finish_run
send_or_return none q = finish_run q
send_or_return (some (source, r)) q = record q { processing = sending source r }

unfoldable pub after_head : Result (Option PublishRecord) → Queue → Queue
unfolding fail pick send_or_return
after_head (err e) q = fail q e
after_head (ok disk) q = send_or_return (pick disk q.memory) q

-- One turn of the loop, up to the `await` of `send` or the return.
unfoldable pub turn : Queue → Queue
unfolding finish_run after_head
turn q =
    if q.active && not q.closed && not (is_blocked q.blocked)
    then after_head (Store.head q.store) q
    else finish_run q

-- The record leaves the place that it was read from.
unfoldable pub remove_sent : Source → PublishRecord → Queue → Result Queue
remove_sent from_memory r q = elim q.memory [
  | [] ↦ ok q
  | _ ∷ rest ↦ ok (record q { memory = rest })
]
remove_sent from_disk r q = elim (Store.complete q.store r) [
  | err e ↦ err e
  | ok store ↦ ok (record q { store = store })
]

abbrev pub without_id : String → List String → List String
without_id id [] = []
without_id id (x ∷ xs) = if id === x then xs else x ∷ without_id id xs

abbrev pub waits_for : String → List String → Bool
waits_for id [] = false
waits_for id (x ∷ xs) = id === x || waits_for id xs

-- Counters and the completion of a delivered record.
unfoldable pub record_delivery : PublishRecord → Queue → Queue
record_delivery r q = record q {
  delivered = q.delivered + 1;
  last_error = none;
  completions = without_id r.id q.completions;
  outcomes =
      if waits_for r.id q.completions then q.outcomes ++ delivered_id r.id ∷ [] else q.outcomes;
}

unfoldable pub after_send : PublishRecord → Result Queue → Queue → Queue
unfolding turn record_delivery
after_send r (err e) q = fail q e
after_send r (ok removed) q = turn (emit (record_delivery r removed))

-- `send` was acknowledged, if one was under way.
unfoldable pub acknowledge_run : Run → Queue → Queue
unfolding remove_sent after_send
acknowledge_run (sending source r) q = after_send r (remove_sent source r q) q
acknowledge_run _ q = q

unfoldable pub acknowledged : Queue → Queue
unfolding acknowledge_run
acknowledged q = acknowledge_run q.processing q

-- `while (memory.length) { store.put(memory[0]); memory.shift(); }`, with what stays on an error.
unfoldable pub spill :
    Config
    → (ℕ → Disk)
    → ℕ
    → Store
    → List PublishRecord
    → Option String × Store × List PublishRecord
spill config disks k s [] = (none, s, [])
spill config disks k s (r ∷ rest) = elim (Store.put config (disks k) s r) [
  | err e ↦ (some e, s, r ∷ rest)
  | ok s' ↦ spill config disks (suc k) s' rest
]

-- The queue with its memory written to disk as far as the writes went.
unfoldable pub spilled : (ℕ → Disk) → Queue → Option String × Queue
unfolding spill
spilled disks q =
    let (error, store, memory) = spill q.config disks 0 q.store q.memory in
    (error, record q { store = store; memory = memory })

abbrev pub count_failure : Queue → Queue
count_failure q = record q {
  retries = q.retries + 1;
  last_error = some "MQTT delivery unconfirmed; retained for retry";
  retry_timer = q.active || q.retry_timer;
}

unfoldable pub after_failure : Option String → Queue → Queue
unfolding fail finish_run
after_failure (some e) q = fail q e
after_failure none q = finish_run (count_failure q)

-- `send` was rejected: nothing counts as sent, and what memory holds goes to disk.
unfoldable pub reject_run : Run → (ℕ → Disk) → Queue → Queue
unfolding spilled after_failure
reject_run (sending source r) disks q = let (error, q') = spilled disks q in after_failure error q'
reject_run _ disks q = q

unfoldable pub unconfirmed : (ℕ → Disk) → Queue → Queue
unfolding reject_run
unconfirmed disks q = reject_run q.processing disks q

abbrev pub is_scheduled : Run → Bool
is_scheduled scheduled = true
is_scheduled _ = false

-- The promise chain starts `run`.
unfoldable pub begin_run : Queue → Queue
unfolding turn
begin_run q = if is_scheduled q.processing then turn q else q

abbrev pub clear_timer : Queue → Queue
clear_timer q = record q { retry_timer = false }

-- The retry timer.
unfoldable pub retry : Queue → Queue
unfolding schedule
retry q = if q.retry_timer then schedule (clear_timer q) else q

abbrev pub wake : Queue → Queue
wake q = record q { active = true }

-- `becomeActive`, with the batch size of the snapshot, if there is one.
unfoldable pub become_active : Option ℕ → Queue → Result (Unit {0}) × Queue
unfolding schedule
become_active none q = (ok tt, schedule (wake q))
become_active (some batch_size) q =
    if batch_size == 0
    then (ok tt, schedule (wake q))
    else (err "Persistent MQTT output cannot discard work using legacy handover hashes", q)

-- `becomePassive` up to its `await`.
unfoldable pub become_passive : Queue → Queue
become_passive q = record q { active = false; retry_timer = false }

-- `becomePassive` after its `await`.
unfoldable pub passive : Queue → Queue
unfolding emit
passive q = emit q

-- `waitForIdle`, under a number for its promise.
unfoldable pub wait_for_idle : ℕ → ℕ → Queue → Queue
unfolding snapshot
wait_for_idle waiter timeout_ms q =
    if is_blocked q.blocked
    then record q { outcomes = q.outcomes ++ idle_failed waiter ∷ [] }
    else if (snapshot q).pending_records == 0 && is_idle q.processing
    then record q { outcomes = q.outcomes ++ idle_reached waiter ∷ [] }
    else if timeout_ms == 0
    then record q { outcomes = q.outcomes ++ idle_failed waiter ∷ [] }
    else record q { waiters = q.waiters ++ waiter ∷ [] }

abbrev pub remove_waiter : ℕ → List ℕ → List ℕ
remove_waiter w [] = []
remove_waiter w (x ∷ xs) = if w == x then xs else x ∷ remove_waiter w xs

abbrev pub has_waiter : ℕ → List ℕ → Bool
has_waiter w [] = false
has_waiter w (x ∷ xs) = w == x || has_waiter w xs

-- The timer of a waiter.
unfoldable pub waiter_timeout : ℕ → Queue → Queue
waiter_timeout waiter q =
    if has_waiter waiter q.waiters
    then record q {
      waiters = remove_waiter waiter q.waiters;
      outcomes = q.outcomes ++ idle_failed waiter ∷ [];
    }
    else q

-- `close` up to its `await`.
unfoldable pub begin_close : Queue → Queue
begin_close q = if q.closed then q else record q { active = false; retry_timer = false }

abbrev pub stop_all : Queue → Queue
stop_all q = record q {
  closed = true;
  completions = [];
  waiters = [];
  outcomes = q.outcomes ++ (map rejected_id q.completions ++ map idle_failed q.waiters);
}

abbrev pub close_store : Queue → Queue
close_store q = record q { store = Store.close q.store }

-- The queue closes once its memory is on disk.
unfoldable pub after_spill : Option String → Queue → Option String × Queue
unfolding emit
after_spill (some e) q = (some e, q)
after_spill none q = (none, close_store (emit (stop_all q)))

-- `close` after its `await`: a failed write leaves the queue open.
unfoldable pub finish_close : (ℕ → Disk) → Queue → Option String × Queue
unfolding spilled after_spill
finish_close disks q =
    if q.closed then (none, q) else let (error, q') = spilled disks q in after_spill error q'
