-- ===== src/PublishQueue/Invariant.antt =====
-- The invariant of the output queue, kept by each of its calls.
use uns_kit.Kit.{
  ℕ, suc, ◌+◌, ◌≤◌, ◌<◌, ◌≡◌, refl, ap, ◌⊎◌, inl, inr, Bool, false, Option, none, List, [], ◌∷◌,
  ◌++◌, length, total, String, ltb, arith, All-append, Bool-cases, if_both, Result-cases, ok,
  length-append, total-append,
}
use uns_kit.PublishQueue.Records.{Config, PublishRecord, PublishOptions, envelope_bytes}
use uns_kit.PublishQueue.Store.{Store, Disk, row_bytes, insert_row, put, summary}
use uns_kit.PublishQueue.Queue.{
  Source, Run, scheduled, sending, from_memory, from_disk, Queue, snapshot, emit, schedule,
  admission, accept, place, new_record, goes_to_disk, enqueue_or_throw,
}
use uns_kit.PublishQueue.Delivery.{finish_run, fail, block}
use uns_kit.PublishQueue.Order.{
  AllBelow, AllAbove, Ascending, Disjoint, insert_row_last, Ascending-push, AllBelow-mono,
  Disjoint-push, Disjoint-written,
}

-- A record that awaits its acknowledgement is the first of its place, and below all of the other.
abbrev pub SendsFirst : Run → List PublishRecord → List PublishRecord → Type 0
SendsFirst Run.idle rows memory = Unit
SendsFirst scheduled rows memory = Unit
SendsFirst (sending from_memory r) rows memory =
    (rest : List PublishRecord) × (memory ≡ r ∷ rest) × AllAbove r.seq rows
SendsFirst (sending from_disk r) rows memory =
    (rest : List PublishRecord) × (rows ≡ r ∷ rest) × AllAbove r.seq memory

pub record Sound (config : Config) (store : Store) (memory : List PublishRecord) (seq : ℕ)
    (closed : Bool) (processing : Run) : Type 0 where
  pub rows : Ascending store.pending
  pub buffer : Ascending memory
  pub apart : Disjoint store.pending memory
  pub rows_below : AllBelow (suc seq) store.pending
  pub buffer_below : AllBelow (suc seq) memory
  pub counts_open : closed ≡ false → store.final_summary ≡ none
  pub record_limit : length store.pending + length memory ≤ config.max_records
  pub byte_limit : total row_bytes store.pending + total row_bytes memory ≤ config.max_bytes
  pub first : SendsFirst processing store.pending memory

-- The invariant speaks of these fields of the queue, and of no others.
abbrev pub Inv : Queue → Type 0
Inv q = Sound q.config q.store q.memory q.seq q.closed q.processing

SendsFirst-push :
    (p : Run) (rows memory : List PublishRecord) (r : PublishRecord)
    → SendsFirst p rows memory
    → AllBelow r.seq rows
    → SendsFirst p rows (memory ++ r ∷ [])
SendsFirst-push Run.idle rows memory r h b = tt
SendsFirst-push scheduled rows memory r h b = tt
SendsFirst-push (sending from_memory x) rows memory r (rest, e, above) b =
    (rest ++ r ∷ [], ap (λ l. l ++ r ∷ []) e, above)
SendsFirst-push (sending from_disk x) rows memory r (rest, e, above) b =
    let below : AllBelow r.seq (x ∷ rest) = rw e at b in
    (rest, e, All-append (λ y. x.seq < y.seq) memory (r ∷ []) above (below.0, tt))

SendsFirst-written :
    (p : Run) (rows memory : List PublishRecord) (r : PublishRecord)
    → SendsFirst p rows memory
    → AllBelow r.seq memory
    → SendsFirst p (rows ++ r ∷ []) memory
SendsFirst-written Run.idle rows memory r h b = tt
SendsFirst-written scheduled rows memory r h b = tt
SendsFirst-written (sending from_disk x) rows memory r (rest, e, above) b =
    (rest ++ r ∷ [], ap (λ l. l ++ r ∷ []) e, above)
SendsFirst-written (sending from_memory x) rows memory r (rest, e, above) b =
    let below : AllBelow r.seq (x ∷ rest) = rw e at b in
    (rest, e, All-append (λ y. x.seq < y.seq) rows (r ∷ []) above (below.0, tt))

-- Whether a run awaits the answer to a `send`.
pub Run-cases :
    (p : Run)
    → ((s : Source) × (r : PublishRecord) × (p ≡ sending s r)) ⊎ ((p ≡ Run.idle) ⊎ (p ≡ scheduled))
Run-cases Run.idle = inr (inl refl)
Run-cases scheduled = inr (inr refl)
Run-cases (sending s r) = inl (s, r, refl)

pub emit-Inv : (q : Queue) → Inv q → Inv (emit q)
unfolding emit
emit-Inv q h = ground arith

pub schedule-Inv : (q : Queue) → Inv q → Inv (schedule q)
unfolding schedule
schedule-Inv q h = ground arith

-- The invariant without what it says of a record on its way.
abbrev pub Settled : Queue → Type 0
Settled q = Sound q.config q.store q.memory q.seq q.closed Run.idle

pub Inv-Settled : (q : Queue) → Inv q → Settled q
Inv-Settled q h = record {
  rows = h.rows;
  buffer = h.buffer;
  apart = h.apart;
  rows_below = h.rows_below;
  buffer_below = h.buffer_below;
  counts_open = h.counts_open;
  record_limit = h.record_limit;
  byte_limit = h.byte_limit;
  first = tt;
}

pub emit-Settled : (q : Queue) → Settled q → Settled (emit q)
unfolding emit
emit-Settled q h = ground arith

pub finish_run-Inv : (q : Queue) → Settled q → Inv (finish_run q)
unfolding finish_run
finish_run-Inv q h =
    let idle_queue : Queue = record q { processing = Run.idle } in
    let h1 : Inv (emit idle_queue) = emit-Inv idle_queue h in
    if_both (λ x. Inv x) q.closed _ _ h
      (if_both (λ x. Inv x) (ltb 0 (snapshot (emit idle_queue)).pending_records) _ _
        (schedule-Inv (emit idle_queue) h1) h1)

pub fail-Inv : (q : Queue) (e : String) → Settled q → Inv (fail q e)
unfolding fail
fail-Inv q e h = finish_run-Inv (emit (block e q)) (emit-Settled (block e q) h)

-- What a successful write leaves.
pub put-eq-ok :
    (config : Config) (disk : Disk) (s s' : Store) (r : PublishRecord)
    → put config disk s r ≡ ok s'
    → s' ≡ record s { pending = insert_row r s.pending }
unfolding put
put-eq-ok config disk s s' r h = ground arith

accept-Inv : (q : Queue) (id : String) → Inv q → Inv (accept q id)
unfolding accept
accept-Inv q id h =
    let waiting : Queue = record q { completions = q.completions ++ id ∷ [] } in
    schedule-Inv (emit waiting) (emit-Inv waiting h)

-- An admitted publish finds the queue open and with room for its bytes.
pub record HasRoom (q : Queue) (bytes : ℕ) : Type 0 where
  pub open_queue : q.closed ≡ false
  pub unblocked : q.blocked ≡ none
  pub room : (snapshot q).pending_records < q.config.max_records
  pub byte_room : (snapshot q).pending_bytes + bytes ≤ q.config.max_bytes

pub admission-HasRoom :
    (q : Queue) (topic message id : String) (options : Option PublishOptions)
    → admission q topic message id options ≡ ok tt
    → HasRoom q (envelope_bytes topic message)
unfolding admission
admission-HasRoom q topic message id options h = record {
  open_queue = ground arith;
  unblocked = ground arith;
  room = ground arith;
  byte_room = ground arith;
}

module _ (q : Queue) (r : PublishRecord) (h : Inv q) (next : r.seq ≡ suc q.seq)
    (fits : HasRoom q r.bytes) where
  counts :
      ((snapshot q).pending_records ≡ length q.store.pending + length q.memory)
      × ((snapshot q).pending_bytes ≡ total row_bytes q.store.pending + total row_bytes q.memory)
  unfolding snapshot
  counts = rw (h.counts_open fits.open_queue, summary) (refl, refl)

  rows_before : AllBelow r.seq q.store.pending
  rows_before = rw next h.rows_below

  buffer_before : AllBelow r.seq q.memory
  buffer_before = rw next h.buffer_below

  kept_in_memory : Inv (record q { seq = r.seq; memory = q.memory ++ r ∷ [] })
  kept_in_memory = record {
    rows = h.rows;
    buffer = Ascending-push q.memory r h.buffer buffer_before;
    apart = Disjoint-push q.store.pending q.memory r h.apart rows_before;
    rows_below = AllBelow-mono _ _ q.store.pending (omega arith) h.rows_below;
    buffer_below =
        All-append (λ x. x.seq < suc r.seq) q.memory (r ∷ [])
          (AllBelow-mono _ _ q.memory (omega arith) h.buffer_below) (omega arith, tt);
    counts_open = h.counts_open;
    record_limit = omega (arith, counts, fits.room, length-append q.memory (r ∷ []));
    byte_limit = omega (arith, counts, fits.byte_room, total-append row_bytes q.memory (r ∷ []));
    first = SendsFirst-push q.processing q.store.pending q.memory r h.first rows_before;
  }

  written_to_disk :
      Inv (record q {
        seq = r.seq;
        store = record q.store { pending = insert_row r q.store.pending };
      })
  written_to_disk = rw (insert_row_last r q.store.pending rows_before) (record {
    rows = Ascending-push q.store.pending r h.rows rows_before;
    buffer = h.buffer;
    apart = Disjoint-written q.store.pending q.memory r h.apart buffer_before;
    rows_below =
        All-append (λ x. x.seq < suc r.seq) q.store.pending (r ∷ [])
          (AllBelow-mono _ _ q.store.pending (omega arith) h.rows_below) (omega arith, tt);
    buffer_below = AllBelow-mono _ _ q.memory (omega arith) h.buffer_below;
    counts_open = h.counts_open;
    record_limit = omega (arith, counts, fits.room, length-append q.store.pending (r ∷ []));
    byte_limit =
        omega (arith, counts, fits.byte_room, total-append row_bytes q.store.pending (r ∷ []));
    first = SendsFirst-written q.processing q.store.pending q.memory r h.first buffer_before;
  })

  renumbered : Inv (record q { seq = r.seq })
  renumbered = record {
    rows = h.rows;
    buffer = h.buffer;
    apart = h.apart;
    rows_below = AllBelow-mono _ _ q.store.pending (omega arith) h.rows_below;
    buffer_below = AllBelow-mono _ _ q.memory (omega arith) h.buffer_below;
    counts_open = h.counts_open;
    record_limit = h.record_limit;
    byte_limit = h.byte_limit;
    first = h.first;
  }

  place-Inv : (disk : Disk) → Inv (place disk q r).1
  unfolding place
  place-Inv disk = elim (Bool-cases (goes_to_disk q r.bytes)) [
    | inl e ↦ elim (Result-cases (put q.config disk q.store r)) [
      | inl (s, ok_s) ↦
          rw (e, ok_s, put-eq-ok q.config disk q.store s r ok_s) (accept-Inv _ r.id written_to_disk)
      | inr (why, bad) ↦ rw (e, bad) renumbered
    ]
    | inr e ↦ rw e (accept-Inv _ r.id kept_in_memory)
  ]

pub enqueue_or_throw-Inv :
    (disk : Disk) (q : Queue) (topic message id : String) (options : Option PublishOptions)
    → Inv q
    → Inv (enqueue_or_throw disk q topic message id options).1
unfolding enqueue_or_throw
enqueue_or_throw-Inv disk q topic message id options h =
    elim (Result-cases (admission q topic message id options)) [
      | inl (checked, fine) ↦
          rw (fine, enqueue_or_throw)
            (place-Inv q (new_record q topic message id options) h refl
              (admission-HasRoom q topic message id options fine) disk)
      | inr (why, bad) ↦ rw (bad, enqueue_or_throw) h
    ]
