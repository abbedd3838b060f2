-- ===== src/PublishQueue/Sending.antt =====
-- The delivery loop keeps the invariant of the output queue.
use mathlib.Core.Path.{subst}
use mathlib.Core.Option.{some-injective}
use text.Mathlib.TextPositions.{eq_refl}
use uns_kit.Kit.{
  ℕ, suc, ◌<◌, ◌≡◌, refl, sym, ap, ◌∙◌, inl, inr, Bool, not, ◌&&◌, Option, none, some, List, [],
  ◌∷◌, length, total, ltb, arith, Bool-cases, Result-cases, if_both, ltb→lt, Result, ok, err,
}
use uns_kit.PublishQueue.Records.{Config, PublishRecord}
use uns_kit.PublishQueue.Store.{Store, Disk, head, delete_row, complete, insert_row, put, row_bytes}
use uns_kit.PublishQueue.Queue.{Source, Run, sending, from_memory, from_disk, Queue, is_blocked}
use uns_kit.PublishQueue.Delivery.{
  pick, send_or_return, after_head, turn, remove_sent, spill, spilled,
}
use uns_kit.PublishQueue.Order.{
  AllBelow, AllAbove, Ascending, Disjoint, AllAbove-trans, insert_all, insert_all_memory_first,
  insert_all_disk_first, ltb-ne→lt, insert_row-Ascending, Disjoint-insert_row, All-insert_row,
  length-insert_row, total-insert_row,
}
use uns_kit.PublishQueue.Invariant.{
  SendsFirst, Sound, Inv, Settled, finish_run-Inv, fail-Inv, put-eq-ok,
}

abbrev pub first_row : List PublishRecord → Option PublishRecord
first_row [] = none
first_row (r ∷ rows) = some r

head-eq-ok :
    (s : Store) (disk : Option PublishRecord) → head s ≡ ok disk → disk ≡ first_row s.pending
unfolding head
head-eq-ok s disk h = ground arith

moved :
    (rows memory : List PublishRecord) (p q : Source × PublishRecord)
    → some p ≡ some q
    → SendsFirst (sending p.0 p.1) rows memory
    → SendsFirst (sending q.0 q.1) rows memory
moved rows memory p q e =
    subst (λ (x : Source × PublishRecord). SendsFirst (sending x.0 x.1) rows memory)
      (some-injective p q e)

-- The record that the loop picks is the first of the two lists.
pick-SendsFirst :
    (rows memory : List PublishRecord) (picked : Source × PublishRecord)
    → pick (first_row rows) memory ≡ some picked
    → Ascending rows
    → Ascending memory
    → Disjoint rows memory
    → SendsFirst (sending picked.0 picked.1) rows memory
unfolding pick
pick-SendsFirst [] [] picked p a b d = cc
pick-SendsFirst [] (m ∷ memory) picked p a b d =
    moved [] (m ∷ memory) (from_memory, m) picked p (memory, refl, tt)
pick-SendsFirst (x ∷ rows) [] picked p a b d =
    moved (x ∷ rows) [] (from_disk, x) picked p (rows, refl, tt)
pick-SendsFirst (x ∷ rows) (m ∷ memory) picked p a b d = elim (Bool-cases (ltb x.seq m.seq)) [
  | inl e ↦
      let below : x.seq < m.seq = ltb→lt _ _ e in
      moved (x ∷ rows) (m ∷ memory) (from_disk, x) picked (rw e at p)
        (rows, refl, (below, AllAbove-trans x.seq m.seq memory below b.0))
  | inr e ↦
      let below : m.seq < x.seq = ltb-ne→lt e (λ same. d.0.0 (sym same)) in
      moved (x ∷ rows) (m ∷ memory) (from_memory, m) picked (rw e at p)
        (memory, refl, (below, AllAbove-trans m.seq x.seq rows below a.0))
]

delete_row_none :
    (r : PublishRecord) (rows : List PublishRecord)
    → AllAbove r.seq rows
    → delete_row r rows ≡ (rows, 0)
unfolding delete_row
delete_row_none r [] h = refl
delete_row_none r (x ∷ rows) h = ground (arith, delete_row_none r rows h.1)

delete_row_first :
    (r : PublishRecord) (rows : List PublishRecord)
    → AllAbove r.seq rows
    → delete_row r (r ∷ rows) ≡ (rows, 1)
unfolding delete_row
delete_row_first r rows h = rw (delete_row_none r rows h, eq_refl r.id) (ground arith)

send_or_return-Inv :
    (q : Queue) (p : Option (Source × PublishRecord))
    → pick (first_row q.store.pending) q.memory ≡ p
    → Settled q
    → Inv (send_or_return p q)
unfolding send_or_return
send_or_return-Inv q none e h = finish_run-Inv q h
send_or_return-Inv q (some picked) e h = record {
  rows = h.rows;
  buffer = h.buffer;
  apart = h.apart;
  rows_below = h.rows_below;
  buffer_below = h.buffer_below;
  counts_open = h.counts_open;
  record_limit = h.record_limit;
  byte_limit = h.byte_limit;
  first = pick-SendsFirst q.store.pending q.memory picked e h.rows h.buffer h.apart;
}

after_head-Inv :
    (q : Queue) (m : Result (Option PublishRecord))
    → head q.store ≡ m
    → Settled q
    → Inv (after_head m q)
unfolding after_head
after_head-Inv q (err why) e h = fail-Inv q why h
after_head-Inv q (ok disk) e h =
    send_or_return-Inv q (pick disk q.memory)
      (ap (λ d. pick d q.memory) (sym (head-eq-ok q.store disk e))) h

pub turn-Inv : (q : Queue) → Settled q → Inv (turn q)
unfolding turn
turn-Inv q h =
    if_both (λ x. Inv x) (q.active && not q.closed && not (is_blocked q.blocked)) _ _
      (after_head-Inv q (head q.store) refl h) (finish_run-Inv q h)

-- What is left when the first record of the backlog is gone from its place.
pub record Removed (q : Queue) (source : Source) (r : PublishRecord) : Type 0 where
  pub queue : Queue
  pub removed : remove_sent source r q ≡ ok queue
  pub settled : Settled queue
  pub order : insert_all q.store.pending q.memory ≡ r ∷ insert_all queue.store.pending queue.memory

Disjoint-tail :
    (x : PublishRecord) (rows memory : List PublishRecord)
    → Disjoint (x ∷ rows) memory
    → Disjoint rows memory
Disjoint-tail x rows [] d = tt
Disjoint-tail x rows (m ∷ memory) d = (d.0.1, Disjoint-tail x rows memory d.1)

memory-Removed :
    (q : Queue) (r : PublishRecord) (rest : List PublishRecord)
    → q.memory ≡ r ∷ rest
    → AllAbove r.seq q.store.pending
    → Settled q
    → Removed q from_memory r
unfolding remove_sent
memory-Removed q r rest e above h =
    let left : Queue = record q { memory = rest } in
    let buffer : Ascending (r ∷ rest) = rw e at h.buffer in
    let apart : Disjoint q.store.pending (r ∷ rest) = rw e at h.apart in
    let buffer_below : AllBelow (suc q.seq) (r ∷ rest) = rw e at h.buffer_below in
    record {
      queue = left;
      removed = rw e;
      settled = record {
        rows = h.rows;
        buffer = buffer.1;
        apart = apart.1;
        rows_below = h.rows_below;
        buffer_below = buffer_below.1;
        counts_open = h.counts_open;
        record_limit = omega (arith, h.record_limit, ap (λ (l : List PublishRecord). length l) e);
        byte_limit = omega (arith, h.byte_limit, ap (total row_bytes) e);
        first = tt;
      };
      order =
          ap (insert_all q.store.pending) e
          ∙ insert_all_memory_first r q.store.pending rest above buffer.0;
    }

complete_first :
    (s : Store) (r : PublishRecord) (rest : List PublishRecord)
    → s.pending ≡ r ∷ rest
    → AllAbove r.seq rest
    → complete s r ≡ ok (record s { pending = rest })
unfolding complete
complete_first s r rest e above =
    let first : delete_row r s.pending ≡ (rest, 1) =
      ap (delete_row r) e ∙ delete_row_first r rest above in
    rw first

row-Removed :
    (q : Queue) (r : PublishRecord) (rest : List PublishRecord)
    → q.store.pending ≡ r ∷ rest
    → AllAbove r.seq q.memory
    → Settled q
    → Removed q from_disk r
unfolding remove_sent
row-Removed q r rest e above h =
    let left : Queue = record q { store = record q.store { pending = rest } } in
    let rows : Ascending (r ∷ rest) = rw e at h.rows in
    let apart : Disjoint (r ∷ rest) q.memory = rw e at h.apart in
    let rows_below : AllBelow (suc q.seq) (r ∷ rest) = rw e at h.rows_below in
    record {
      queue = left;
      removed = rw (complete_first q.store r rest e rows.0, remove_sent);
      settled = record {
        rows = rows.1;
        buffer = h.buffer;
        apart = Disjoint-tail r rest q.memory apart;
        rows_below = rows_below.1;
        buffer_below = h.buffer_below;
        counts_open = h.counts_open;
        record_limit = omega (arith, h.record_limit, ap (λ (l : List PublishRecord). length l) e);
        byte_limit = omega (arith, h.byte_limit, ap (total row_bytes) e);
        first = tt;
      };
      order = ap (λ l. insert_all l q.memory) e ∙ insert_all_disk_first r rest q.memory above;
    }

-- An acknowledged record leaves its place, and the checkpoint never differs.
pub remove_sent-Removed :
    (q : Queue) (source : Source) (r : PublishRecord)
    → SendsFirst (sending source r) q.store.pending q.memory
    → Settled q
    → Removed q source r
remove_sent-Removed q from_memory r (rest, e, above) h = memory-Removed q r rest e above h
remove_sent-Removed q from_disk r (rest, e, above) h = row-Removed q r rest e above h

-- Writing the first memory record to disk keeps everything in order.
put_first-Sound :
    (config : Config) (s : Store) (r : PublishRecord) (memory : List PublishRecord) (seq : ℕ)
    (closed : Bool)
    → Sound config s (r ∷ memory) seq closed Run.idle
    → Sound config (record s { pending = insert_row r s.pending }) memory seq closed Run.idle
put_first-Sound config s r memory seq closed h = record {
  rows = insert_row-Ascending r s.pending h.rows h.apart.0;
  buffer = h.buffer.1;
  apart = Disjoint-insert_row r s.pending memory h.buffer.0 h.apart.1;
  rows_below = All-insert_row (λ x. x.seq < suc seq) r s.pending h.buffer_below.0 h.rows_below;
  buffer_below = h.buffer_below.1;
  counts_open = h.counts_open;
  record_limit = omega (arith, h.record_limit, length-insert_row r s.pending);
  byte_limit = omega (arith, h.byte_limit, total-insert_row r s.pending);
  first = tt;
}

spill-Sound :
    (config : Config) (disks : ℕ → Disk) (k : ℕ) (s : Store) (memory : List PublishRecord) (seq : ℕ)
    (closed : Bool)
    → Sound config s memory seq closed Run.idle
    → Sound config
        (spill config disks k s memory).1
        (spill config disks k s memory).2
        seq
        closed
        Run.idle
unfolding spill
spill-Sound config disks k s [] seq closed h = h
spill-Sound config disks k s (r ∷ memory) seq closed h =
    elim (Result-cases (put config (disks k) s r)) [
      | inl (s', fine) ↦
          rw (fine, spill, put-eq-ok config (disks k) s s' r fine)
            (spill-Sound config disks (suc k) _ memory seq closed
              (put_first-Sound config s r memory seq closed h))
      | inr (why, bad) ↦ rw (bad, spill) h
    ]

-- However far the writes went, the backlog is the same.
pub spill_order :
    (config : Config) (disks : ℕ → Disk) (k : ℕ) (s : Store) (memory : List PublishRecord)
    → insert_all (spill config disks k s memory).1.pending (spill config disks k s memory).2
      ≡ insert_all s.pending memory
unfolding spill insert_all
spill_order config disks k s [] = refl
spill_order config disks k s (r ∷ memory) = elim (Result-cases (put config (disks k) s r)) [
  | inl (s', fine) ↦
      rw (fine, spill, put-eq-ok config (disks k) s s' r fine)
        (spill_order config disks (suc k) _ memory)
  | inr (why, bad) ↦ rw (bad, spill)
]

pub spilled-Settled : (disks : ℕ → Disk) (q : Queue) → Settled q → Settled (spilled disks q).1
unfolding spilled
spilled-Settled disks q h = spill-Sound q.config disks 0 q.store q.memory q.seq q.closed h
