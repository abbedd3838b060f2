-- ===== src/PublishQueue/Machine/Fifo.antt =====
-- The output queue as a first-in first-out list: what each event does to its backlog.
use mathlib.Core.List.{append-nil, append_assoc}
use uns_kit.Kit.{
  ℕ, suc, ◌≡◌, refl, sym, ap, ◌∙◌, inl, inr, Option, none, some, List, [], ◌∷◌, ◌++◌, String, ◌==◌,
  arith, Bool-cases, Result-cases, if_both, Result, ok, err,
}
use uns_kit.PublishQueue.Records.{PublishRecord, PublishOptions}
use uns_kit.PublishQueue.Store.{Disk, put, insert_row}
use uns_kit.PublishQueue.Queue.{
  Source, Run, sending, Queue, emit, schedule, accept, place, goes_to_disk, admission, new_record,
  enqueue_or_throw, is_idle,
}
use uns_kit.PublishQueue.Delivery.{
  turn, acknowledge_run, acknowledged, reject_run, unconfirmed, begin_run, is_scheduled, retry,
  become_active, become_passive, passive, wait_for_idle, waiter_timeout, begin_close, finish_close,
  wake, clear_timer, spilled,
}
use uns_kit.PublishQueue.Order.{
  AllBelow, insert_all, insert_row_last, insert_all-below, insert_all-push, insert_all-written,
}
use uns_kit.PublishQueue.Invariant.{Inv, Inv-Settled, put-eq-ok}
use uns_kit.PublishQueue.Sending.{remove_sent-Removed, Removed}
use uns_kit.PublishQueue.Machine.{
  Event, enqueue, run_starts, acknowledges, retry_fires, rejects, activates, silences, silent,
  waits, wait_ends, starts_close, closes, step, records_of, accepted, sent_records, confirmed,
  run_events, all_accepted, all_confirmed,
}
use uns_kit.PublishQueue.Machine.Keeps.{
  backlog, backlog-Same, backlog-emit, backlog-schedule, backlog-turn, backlog-after_send,
  backlog-after_failure, backlog-spilled, backlog-finish_close, step-Inv,
}

backlog-accept : (q : Queue) (id : String) → backlog (accept q id) ≡ backlog q
unfolding accept
backlog-accept q id =
    let waiting : Queue = record q { completions = q.completions ++ id ∷ [] } in
    backlog-schedule (emit waiting) ∙ backlog-emit waiting ∙ backlog-Same q waiting (refl, refl)

module _ (q : Queue) (r : PublishRecord) (h : Inv q) (next : r.seq ≡ suc q.seq) where
  rows_before : AllBelow r.seq q.store.pending
  rows_before = rw next h.rows_below

  buffer_before : AllBelow r.seq q.memory
  buffer_before = rw next h.buffer_below

  abbrev kept : Queue
  kept = record q { seq = r.seq; memory = q.memory ++ r ∷ [] }

  abbrev written : Queue
  written = record q {
    seq = r.seq;
    store = record q.store { pending = insert_row r q.store.pending };
  }

  backlog-kept : backlog kept ≡ backlog q ++ r ∷ []
  unfolding backlog
  backlog-kept =
      insert_all-push q.store.pending q.memory r
      ∙ insert_row_last r (insert_all q.store.pending q.memory)
          (insert_all-below q.store.pending q.memory r.seq rows_before buffer_before)

  backlog-written : backlog written ≡ backlog q ++ r ∷ []
  unfolding backlog
  backlog-written =
      ap (λ l. insert_all l q.memory) (insert_row_last r q.store.pending rows_before)
      ∙ insert_all-written q.store.pending q.memory r buffer_before

  backlog-place :
      (disk : Disk) → backlog (place disk q r).1 ≡ backlog q ++ records_of (place disk q r).0 r
  unfolding place
  backlog-place disk = elim (Bool-cases (goes_to_disk q r.bytes)) [
    | inl e ↦ elim (Result-cases (put q.config disk q.store r)) [
      | inl (s, fine) ↦
          rw (e, fine, put-eq-ok q.config disk q.store s r fine)
            (backlog-accept written r.id ∙ backlog-written)
      | inr (why, bad) ↦
          rw (e, bad)
            (backlog-Same q (record q { seq = r.seq }) (refl, refl) ∙ sym (append-nil (backlog q)))
    ]
    | inr e ↦ rw e (backlog-accept kept r.id ∙ backlog-kept)
  ]

backlog-enqueue :
    (disk : Disk) (q : Queue) (topic message id : String) (options : Option PublishOptions)
    → Inv q
    → backlog q
        ++ records_of
            (enqueue_or_throw disk q topic message id options).0
            (new_record q topic message id options)
      ≡ backlog (enqueue_or_throw disk q topic message id options).1
unfolding enqueue_or_throw
backlog-enqueue disk q topic message id options h =
    elim (Result-cases (admission q topic message id options)) [
      | inl (checked, fine) ↦
          rw (fine, enqueue_or_throw)
            (sym (backlog-place q (new_record q topic message id options) h refl disk))
      | inr (why, bad) ↦ rw (bad, enqueue_or_throw) (append-nil _)
    ]

backlog-Removed :
    (q : Queue) {source : Source} {r : PublishRecord} (gone : Removed q source r)
    → backlog q ≡ r ∷ backlog gone.queue
unfolding backlog
backlog-Removed q gone = gone.order

backlog-acknowledge_run :
    (p : Run) (q : Queue)
    → q.processing ≡ p
    → Inv q
    → backlog q ≡ sent_records p ++ backlog (acknowledge_run p q)
unfolding acknowledge_run
backlog-acknowledge_run (sending source r) q e h =
    let gone = remove_sent-Removed q source r (rw e at h.first) (Inv-Settled q h) in
    rw gone.removed
      (backlog-Removed q gone ∙ ap (λ l. r ∷ l) (sym (backlog-after_send q r gone.queue)))
backlog-acknowledge_run _ q e h = refl

backlog-reject_run :
    (p : Run) (disks : ℕ → Disk) (q : Queue) → backlog (reject_run p disks q) ≡ backlog q
unfolding reject_run
backlog-reject_run (sending source r) disks q =
    backlog-after_failure (spilled disks q).1 (spilled disks q).0 ∙ backlog-spilled disks q
backlog-reject_run _ disks q = refl

backlog-wait_for_idle : (w t : ℕ) (q : Queue) → backlog (wait_for_idle w t q) ≡ backlog q
unfolding wait_for_idle
backlog-wait_for_idle w t q = backlog-Same q (wait_for_idle w t q) (ground arith)

backlog-waiter_timeout : (w : ℕ) (q : Queue) → backlog (waiter_timeout w q) ≡ backlog q
unfolding waiter_timeout
backlog-waiter_timeout w q = backlog-Same q (waiter_timeout w q) (ground arith)

backlog-become_active : (n : Option ℕ) (q : Queue) → backlog (become_active n q).1 ≡ backlog q
unfolding become_active
backlog-become_active none q = backlog-schedule (wake q) ∙ backlog-Same q (wake q) (refl, refl)
backlog-become_active (some n) q =
    if_both (λ (x : Result (Unit {0}) × Queue). backlog x.1 ≡ backlog q) (n == 0)
      (ok tt, schedule (wake q)) (err _, q)
      (backlog-schedule (wake q) ∙ backlog-Same q (wake q) (refl, refl)) refl

backlog-retry : (q : Queue) → backlog (retry q) ≡ backlog q
unfolding retry
backlog-retry q =
    if_both (λ x. backlog x ≡ backlog q) q.retry_timer (schedule (clear_timer q)) q
      (backlog-schedule (clear_timer q) ∙ backlog-Same q (clear_timer q) (refl, refl)) refl

-- One event: what it accepts goes to the end of the backlog, what it confirms was at its start, and
-- nothing else moves, whichever of the checks, writes or sends fail.
pub step_fifo :
    (e : Event) (q : Queue)
    → Inv q
    → backlog q ++ accepted e q ≡ confirmed e q ++ backlog (step e q)
unfolding step accepted confirmed begin_run acknowledged acknowledge_run unconfirmed reject_run
    become_passive passive begin_close
step_fifo (enqueue disk topic message id options) q h =
    backlog-enqueue disk q topic message id options h
step_fifo run_starts q h =
    append-nil (backlog q)
    ∙ if_both (λ x. backlog q ≡ backlog x) (is_scheduled q.processing) (turn q) q
        (sym (backlog-turn q)) refl
step_fifo acknowledges q h = append-nil (backlog q) ∙ backlog-acknowledge_run q.processing q refl h
step_fifo retry_fires q h = append-nil (backlog q) ∙ sym (backlog-retry q)
step_fifo (rejects disks) q h =
    append-nil (backlog q) ∙ sym (backlog-reject_run q.processing disks q)
step_fifo (activates n) q h = append-nil (backlog q) ∙ sym (backlog-become_active n q)
step_fifo silences q h =
    append-nil (backlog q) ∙ sym (backlog-Same q (become_passive q) (refl, refl))
step_fifo silent q h = append-nil (backlog q) ∙ sym (backlog-emit q)
step_fifo (waits w t) q h = append-nil (backlog q) ∙ sym (backlog-wait_for_idle w t q)
step_fifo (wait_ends w) q h = append-nil (backlog q) ∙ sym (backlog-waiter_timeout w q)
step_fifo starts_close q h =
    append-nil (backlog q)
    ∙ if_both (λ x. backlog q ≡ backlog x) q.closed q (become_passive q) refl
        (sym (backlog-Same q (become_passive q) (refl, refl)))
step_fifo (closes disks) q h =
    append-nil (backlog q)
    ∙ if_both (λ x. backlog q ≡ backlog x) (is_idle q.processing) (finish_close disks q).1 q
        (sym (backlog-finish_close disks q)) refl

run_events-Inv : (es : List Event) (q : Queue) → Inv q → Inv (run_events es q)
unfolding run_events
run_events-Inv [] q h = h
run_events-Inv (e ∷ es) q h = run_events-Inv es (step e q) (step-Inv e q h)

-- Whatever happens, in whatever order: the records that were pending, followed by all that were
-- accepted since, are the records that the broker confirmed, in that order and each once, followed
-- by those that are still on disk or in memory. A close is taken to go on when no run is in flight.
pub run_events_fifo :
    (es : List Event) (q : Queue)
    → Inv q
    → backlog q ++ all_accepted es q ≡ all_confirmed es q ++ backlog (run_events es q)
unfolding run_events all_accepted all_confirmed
run_events_fifo [] q h = append-nil (backlog q)
run_events_fifo (e ∷ es) q h =
    sym (append_assoc (backlog q) _ _)
    ∙ ap (λ l. l ++ all_accepted es (step e q)) (step_fifo e q h)
    ∙ append_assoc (confirmed e q) _ _
    ∙ ap (λ l. confirmed e q ++ l) (run_events_fifo es (step e q) (step-Inv e q h))
    ∙ sym (append_assoc (confirmed e q) _ _)
