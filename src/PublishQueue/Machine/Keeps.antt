-- ===== src/PublishQueue/Machine/Keeps.antt =====
-- Every event keeps the invariant, and what it does to the backlog.
use uns_kit.Kit.{
  ℕ, ◌≡◌, refl, ◌∙◌, inl, inr, true, not, ◌&&◌, ◌==◌, Option, none, some, List, String, arith,
  Bool-cases, if_both, Result, ok, err,
}
use uns_kit.PublishQueue.Records.{PublishRecord}
use uns_kit.PublishQueue.Store
use uns_kit.PublishQueue.Store.{Store, Disk, head, put}
use uns_kit.PublishQueue.Queue.{Source, Run, sending, Queue, is_blocked, is_idle, emit, schedule}
use uns_kit.PublishQueue.Delivery.{
  finish_run, fail, pick, count_failure, wake, clear_timer, stop_all, close_store, send_or_return,
  after_head, turn, record_delivery, after_send, acknowledge_run, acknowledged, reject_run,
  is_scheduled, spilled, after_failure, unconfirmed, begin_run, retry, become_active,
  become_passive, passive, wait_for_idle, waiter_timeout, begin_close, after_spill, finish_close,
}
use uns_kit.PublishQueue.Order.{insert_all}
use uns_kit.PublishQueue.Invariant.{
  Inv, Settled, Inv-Settled, emit-Inv, schedule-Inv, emit-Settled, finish_run-Inv, fail-Inv,
  enqueue_or_throw-Inv,
}
use uns_kit.PublishQueue.Sending.{turn-Inv, spill_order, remove_sent-Removed, spilled-Settled}
use uns_kit.PublishQueue.Machine.{
  Event, enqueue, run_starts, acknowledges, retry_fires, rejects, activates, silences, silent,
  waits, wait_ends, starts_close, closes, step,
}

-- All accepted records that are not confirmed, in the order of their numbers.
unfoldable pub backlog : Queue → List PublishRecord
unfolding insert_all
backlog q = insert_all q.store.pending q.memory

-- The records are where they were.
abbrev pub Same : Queue → Queue → Type 0
Same q q' = (q'.store.pending ≡ q.store.pending) × (q'.memory ≡ q.memory)

pub backlog-Same : (q q' : Queue) → Same q q' → backlog q' ≡ backlog q
unfolding backlog
backlog-Same q q' e = cc (e.0, e.1)

pub backlog-emit : (q : Queue) → backlog (emit q) ≡ backlog q
unfolding emit
backlog-emit q = backlog-Same q (emit q) (ground arith)

pub backlog-schedule : (q : Queue) → backlog (schedule q) ≡ backlog q
unfolding schedule
backlog-schedule q = backlog-Same q (schedule q) (ground arith)

pub backlog-finish_run : (q : Queue) → backlog (finish_run q) ≡ backlog q
unfolding finish_run emit schedule
backlog-finish_run q = backlog-Same q (finish_run q) (ground arith)

pub backlog-fail : (q : Queue) (e : String) → backlog (fail q e) ≡ backlog q
unfolding fail finish_run emit schedule
backlog-fail q e = backlog-Same q (fail q e) (ground arith)

backlog-send_or_return :
    (q : Queue) (p : Option (Source × PublishRecord)) → backlog (send_or_return p q) ≡ backlog q
unfolding send_or_return
backlog-send_or_return q none = backlog-finish_run q
backlog-send_or_return q (some picked) = backlog-Same q _ (refl, refl)

backlog-after_head :
    (q : Queue) (m : Result (Option PublishRecord)) → backlog (after_head m q) ≡ backlog q
unfolding after_head
backlog-after_head q (err e) = backlog-fail q e
backlog-after_head q (ok disk) = backlog-send_or_return q (pick disk q.memory)

pub backlog-turn : (q : Queue) → backlog (turn q) ≡ backlog q
unfolding turn
backlog-turn q =
    if_both (λ x. backlog x ≡ backlog q) (q.active && not q.closed && not (is_blocked q.blocked)) _
      _ (backlog-after_head q (head q.store)) (backlog-finish_run q)

idle_run : (p : Run) → is_idle p ≡ true → p ≡ Run.idle
idle_run Run.idle e = refl
idle_run _ e = cc

idle_Inv : (q : Queue) → q.processing ≡ Run.idle → Settled q → Inv q
idle_Inv q e h = rw e h

after_send-Inv :
    (q : Queue) (r : PublishRecord) (left : Queue) → Settled left → Inv (after_send r (ok left) q)
unfolding after_send record_delivery
after_send-Inv q r left h = turn-Inv _ (emit-Settled _ h)

pub backlog-after_send :
    (q : Queue) (r : PublishRecord) (left : Queue)
    → backlog (after_send r (ok left) q) ≡ backlog left
unfolding after_send record_delivery
backlog-after_send q r left =
    backlog-turn (emit (record_delivery r left))
    ∙ backlog-emit (record_delivery r left)
    ∙ backlog-Same left (record_delivery r left) (refl, refl)

after_failure-Inv : (q : Queue) (e : Option String) → Settled q → Inv (after_failure e q)
unfolding after_failure
after_failure-Inv q (some e) h = fail-Inv q e h
after_failure-Inv q none h = finish_run-Inv (count_failure q) h

pub backlog-after_failure :
    (q : Queue) (e : Option String) → backlog (after_failure e q) ≡ backlog q
unfolding after_failure
backlog-after_failure q (some e) = backlog-fail q e
backlog-after_failure q none =
    backlog-finish_run (count_failure q) ∙ backlog-Same q (count_failure q) (refl, refl)

wait_for_idle-Inv : (q : Queue) (w t : ℕ) → Inv q → Inv (wait_for_idle w t q)
unfolding wait_for_idle
wait_for_idle-Inv q w t h = ground arith

waiter_timeout-Inv : (q : Queue) (w : ℕ) → Inv q → Inv (waiter_timeout w q)
unfolding waiter_timeout
waiter_timeout-Inv q w h = ground arith

retry-Inv : (q : Queue) → Inv q → Inv (retry q)
unfolding retry
retry-Inv q h = if_both (λ x. Inv x) q.retry_timer _ _ (schedule-Inv (clear_timer q) h) h

become_active-Inv : (q : Queue) (n : Option ℕ) → Inv q → Inv (become_active n q).1
unfolding become_active
become_active-Inv q none h = schedule-Inv (wake q) h
become_active-Inv q (some n) h =
    if_both (λ (x : Result (Unit {0}) × Queue). Inv x.1) (n == 0) _ _ (schedule-Inv (wake q) h) h

begin_close-Inv : (q : Queue) → Inv q → Inv (begin_close q)
unfolding begin_close become_passive
begin_close-Inv q h = if_both (λ x. Inv x) q.closed q (become_passive q) h h

pending-close : (s : Store) → (Store.close s).pending ≡ s.pending
unfolding Store.close
pending-close s = ground arith

close_store-Inv : (q : Queue) → q.closed ≡ true → Inv q → Inv (close_store q)
close_store-Inv q shut h = record {
  rows = rw pending-close h.rows;
  buffer = h.buffer;
  apart = rw pending-close h.apart;
  rows_below = rw pending-close h.rows_below;
  buffer_below = h.buffer_below;
  counts_open = λ e. cc (shut, e);
  record_limit = rw pending-close h.record_limit;
  byte_limit = rw pending-close h.byte_limit;
  first = rw pending-close h.first;
}

stop_all-Inv : (q : Queue) → Inv q → Inv (stop_all q)
stop_all-Inv q h = record {
  rows = h.rows;
  buffer = h.buffer;
  apart = h.apart;
  rows_below = h.rows_below;
  buffer_below = h.buffer_below;
  counts_open = λ e. cc e;
  record_limit = h.record_limit;
  byte_limit = h.byte_limit;
  first = h.first;
}

closed-emit : (q : Queue) → (emit q).closed ≡ q.closed
unfolding emit
closed-emit q = ground arith

after_spill-Inv : (q : Queue) (e : Option String) → Inv q → Inv (after_spill e q).1
unfolding after_spill
after_spill-Inv q (some e) h = h
after_spill-Inv q none h =
    close_store-Inv (emit (stop_all q)) (closed-emit (stop_all q))
      (emit-Inv (stop_all q) (stop_all-Inv q h))

pub backlog-spilled : (disks : ℕ → Disk) (q : Queue) → backlog (spilled disks q).1 ≡ backlog q
unfolding backlog spilled
backlog-spilled disks q = spill_order q.config disks 0 q.store q.memory

backlog-after_spill : (q : Queue) (e : Option String) → backlog (after_spill e q).1 ≡ backlog q
unfolding after_spill
backlog-after_spill q (some e) = refl
backlog-after_spill q none =
    backlog-Same (emit (stop_all q)) (close_store (emit (stop_all q))) (pending-close _, refl)
    ∙ backlog-emit (stop_all q)
    ∙ backlog-Same q (stop_all q) (refl, refl)

processing-spilled : (disks : ℕ → Disk) (q : Queue) → (spilled disks q).1.processing ≡ q.processing
unfolding spilled
processing-spilled disks q = refl

finish_close-Inv :
    (disks : ℕ → Disk) (q : Queue) → q.processing ≡ Run.idle → Inv q → Inv (finish_close disks q).1
unfolding finish_close
finish_close-Inv disks q idle h =
    if_both (λ (x : Option String × Queue). Inv x.1) q.closed (none, q)
      (after_spill (spilled disks q).0 (spilled disks q).1) h
      (after_spill-Inv (spilled disks q).1 (spilled disks q).0 (
        idle_Inv (spilled disks q).1 (processing-spilled disks q ∙ idle)
          (spilled-Settled disks q (Inv-Settled q h))))

pub backlog-finish_close :
    (disks : ℕ → Disk) (q : Queue) → backlog (finish_close disks q).1 ≡ backlog q
unfolding finish_close
backlog-finish_close disks q =
    if_both (λ (x : Option String × Queue). backlog x.1 ≡ backlog q) q.closed (none, q)
      (after_spill (spilled disks q).0 (spilled disks q).1) refl
      (backlog-after_spill (spilled disks q).1 (spilled disks q).0 ∙ backlog-spilled disks q)

acknowledge_run-Inv : (p : Run) (q : Queue) → q.processing ≡ p → Inv q → Inv (acknowledge_run p q)
unfolding acknowledge_run
acknowledge_run-Inv (sending source r) q e h =
    let gone = remove_sent-Removed q source r (rw e at h.first) (Inv-Settled q h) in
    rw (gone.removed) (after_send-Inv q r gone.queue gone.settled)
acknowledge_run-Inv _ q e h = h

reject_run-Inv : (p : Run) (disks : ℕ → Disk) (q : Queue) → Inv q → Inv (reject_run p disks q)
unfolding reject_run
reject_run-Inv (sending source r) disks q h =
    after_failure-Inv (spilled disks q).1 (spilled disks q).0
      (spilled-Settled disks q (Inv-Settled q h))
reject_run-Inv _ disks q h = h

-- Every event keeps the invariant: the numbers of disk and memory ascend, are apart and do not pass
-- the counter, the limits on records and bytes hold, an open queue counts the rows of its store, and
-- a record on its way is the first of its place and below all of the other. A close is taken to go on
-- when no run is in flight.
pub step-Inv : (e : Event) (q : Queue) → Inv q → Inv (step e q)
unfolding step begin_run acknowledged unconfirmed passive become_passive
step-Inv (enqueue disk topic message id options) q h =
    enqueue_or_throw-Inv disk q topic message id options h
step-Inv run_starts q h =
    if_both (λ x. Inv x) (is_scheduled q.processing) (turn q) q (turn-Inv q (Inv-Settled q h)) h
step-Inv acknowledges q h = acknowledge_run-Inv q.processing q refl h
step-Inv retry_fires q h = retry-Inv q h
step-Inv (rejects disks) q h = reject_run-Inv q.processing disks q h
step-Inv (activates batch_size) q h = become_active-Inv q batch_size h
step-Inv silences q h = h
step-Inv silent q h = emit-Inv q h
step-Inv (waits waiter timeout_ms) q h = wait_for_idle-Inv q waiter timeout_ms h
step-Inv (wait_ends waiter) q h = waiter_timeout-Inv q waiter h
step-Inv starts_close q h = begin_close-Inv q h
step-Inv (closes disks) q h = elim (Bool-cases (is_idle q.processing)) [
  | inl e ↦ rw (e, step) (finish_close-Inv disks q (idle_run q.processing e) h)
  | inr e ↦ rw (e, step) h
]
