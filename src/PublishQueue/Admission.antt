-- ===== src/PublishQueue/Admission.antt =====
-- What an enqueue and a close promise to the caller.
use uns_kit.Kit.{
  ℕ, suc, ◌≤◌, ◌≡◌, refl, sym, ◌∙◌, inl, inr, true, false, Option, none, some, List, [], ◌∷◌, ◌++◌,
  map, String, arith, if_false, Result-cases, ok,
}
use mathlib.Core.Path.{subst}
use mathlib.Core.List.{append-nil}
use uns_kit.PublishQueue.Order.{insert_all}
use uns_kit.PublishQueue.Sending.{spill_order}
use uns_kit.PublishQueue.Records.{
  Config, PublishRecord, PublishOptions, qos_of, envelope_bytes, check_envelope,
  validate_output_row, max_safe_integer,
}
use uns_kit.PublishQueue.Store
use uns_kit.PublishQueue.Store.{Store, Disk, put, insert_row}
use uns_kit.PublishQueue.Queue.{Queue, rejected_id, idle_failed, admission, new_record, emit}
use uns_kit.PublishQueue.Delivery.{spill, spilled, stop_all, close_store, after_spill, finish_close}

-- What the envelope check lets pass, the reader of the stored row lets pass.
check_envelope-validates :
    (config : Config) (topic message id : String) (options : Option PublishOptions)
    (r : PublishRecord)
    → check_envelope config topic message id options ≡ ok tt
    → r.topic ≡ topic
    → r.message ≡ message
    → r.id ≡ id
    → r.qos ≡ qos_of options
    → r.bytes ≡ envelope_bytes topic message
    → 1 ≤ r.seq
    → r.seq ≤ max_safe_integer
    → validate_output_row r ≡ true
unfolding check_envelope validate_output_row
check_envelope-validates config topic message id options r h et em ei eq eb lo hi = ground arith

envelope_checked :
    (q : Queue) (topic message id : String) (options : Option PublishOptions)
    → admission q topic message id options ≡ ok tt
    → check_envelope q.config topic message id options ≡ ok tt
unfolding admission
envelope_checked q topic message id options h = ground arith

-- Every record that an enqueue makes passes the integrity check of the reader, while the sequence
-- number is a safe integer.
pub new_record-validates :
    (q : Queue) (topic message id : String) (options : Option PublishOptions)
    → admission q topic message id options ≡ ok tt
    → suc q.seq ≤ max_safe_integer
    → validate_output_row (new_record q topic message id options) ≡ true
new_record-validates q topic message id options h safe =
    check_envelope-validates q.config topic message id options _
      (envelope_checked q topic message id options h) refl refl refl refl refl (omega arith) safe

some-ne-none : {e : String} → some e ≡ none → ⊥
some-ne-none h = cc

spill-eq-none :
    (config : Config) (disks : ℕ → Disk) (k : ℕ) (s : Store) (memory : List PublishRecord)
    → (spill config disks k s memory).0 ≡ none
    → (spill config disks k s memory).2 ≡ []
unfolding spill
spill-eq-none config disks k s [] h = refl
spill-eq-none config disks k s (r ∷ memory) h = elim (Result-cases (put config (disks k) s r)) [
  | inl (s', fine) ↦
      rw (fine, spill) (spill-eq-none config disks (suc k) s' memory (rw (fine, spill) at h))
  | inr (why, bad) ↦ absurd (some-ne-none (rw (bad, spill) at h))
]

-- A queue that closed: nothing is in memory, all that was pending is on disk in its order, and every
-- promise that was open is rejected.
pub record Stopped (q q' : Queue) : Type 0 where
  pub is_closed : q'.closed ≡ true
  pub memory_empty : q'.memory ≡ []
  pub all_on_disk : q'.store.pending ≡ insert_all q.store.pending q.memory
  pub no_completions : q'.completions ≡ []
  pub no_waiters : q'.waiters ≡ []
  pub settled :
      q'.outcomes ≡ q.outcomes ++ (map rejected_id q.completions ++ map idle_failed q.waiters)

stop_all-Stopped : (q : Queue) → q.memory ≡ [] → Stopped q (close_store (emit (stop_all q)))
unfolding emit insert_all Store.close
stop_all-Stopped q e = record {
  is_closed = ground arith;
  memory_empty = ground arith;
  all_on_disk = rw (e, insert_all) (ground arith);
  no_completions = ground arith;
  no_waiters = ground arith;
  settled = ground (
    arith,
    append-nil (q.outcomes ++ (map rejected_id q.completions ++ map idle_failed q.waiters)),
  );
}

spilled-Stopped : (disks : ℕ → Disk) (q q' : Queue) → Stopped (spilled disks q).1 q' → Stopped q q'
unfolding spilled
spilled-Stopped disks q q' h = record {
  is_closed = h.is_closed;
  memory_empty = h.memory_empty;
  all_on_disk = h.all_on_disk ∙ spill_order q.config disks 0 q.store q.memory;
  no_completions = h.no_completions;
  no_waiters = h.no_waiters;
  settled = h.settled;
}

memory-spilled :
    (disks : ℕ → Disk) (q : Queue) → (spilled disks q).0 ≡ none → (spilled disks q).1.memory ≡ []
unfolding spilled
memory-spilled disks q h = spill-eq-none q.config disks 0 q.store q.memory h

after_spill-Stopped :
    (q : Queue) (e : Option String)
    → (e ≡ none → q.memory ≡ [])
    → (after_spill e q).0 ≡ none
    → Stopped q (after_spill e q).1
unfolding after_spill
after_spill-Stopped q (some e) m h = absurd (some-ne-none h)
after_spill-Stopped q none m h = stop_all-Stopped q (m refl)

-- A close that does not fail stops an open queue as `Stopped` says.
pub finish_close-Stopped :
    (disks : ℕ → Disk) (q : Queue)
    → q.closed ≡ false
    → (finish_close disks q).0 ≡ none
    → Stopped q (finish_close disks q).1
unfolding finish_close
finish_close-Stopped disks q is_open =
    let after = after_spill (spilled disks q).0 (spilled disks q).1 in
    subst (λ (x : Option String × Queue). x.0 ≡ none → Stopped q x.1)
      (sym (if_false q.closed (none, q) after is_open))
      (λ h.
        spilled-Stopped disks q after.1
          (after_spill-Stopped (spilled disks q).1 (spilled disks q).0 (memory-spilled disks q) h))
