-- ===== src/PublishQueue/Machine/Drain.antt =====
-- With an active queue and a broker that acknowledges every send, the backlog is delivered.
use uns_kit.Kit.{
  ℕ, zero, suc, ◌+◌, ◌≡◌, refl, sym, ap, ◌∙◌, inl, inr, true, false, not, ◌&&◌, none, some, List,
  [], ◌∷◌, length, ltb, arith, All, Bool-cases, if_true, ok,
}
use mathlib.Core.Path.{subst}
use uns_kit.PublishQueue.Records.{PublishRecord, validate_output_row}
use uns_kit.PublishQueue.Store.{Store, head, delete_row, complete}
use uns_kit.PublishQueue.Queue.{
  Source, from_memory, from_disk, Run, scheduled, sending, Queue, snapshot, emit, schedule,
  is_blocked,
}
use uns_kit.PublishQueue.Delivery.{
  finish_run, pick, send_or_return, after_head, turn, remove_sent, record_delivery, after_send,
  acknowledge_run, acknowledged, begin_run, is_scheduled,
}
use uns_kit.PublishQueue.Order.{length-insert_all}
use uns_kit.PublishQueue.Invariant.{Inv, Settled, Inv-Settled, emit-Settled}
use uns_kit.PublishQueue.Sending.{first_row, Removed, remove_sent-Removed, turn-Inv}
use uns_kit.PublishQueue.Machine.Keeps.{backlog, backlog-finish_run, backlog-Same, backlog-emit}

abbrev pub IsIntact : PublishRecord → Type 0
IsIntact r = validate_output_row r ≡ true

-- The queue may send, and the rows on disk are intact.
pub record IsLive (q : Queue) : Type 0 where
  pub is_active : q.active ≡ true
  pub is_open : q.closed ≡ false
  pub unblocked : q.blocked ≡ none
  pub intact : All IsIntact q.store.pending

-- Nothing is pending, nothing runs, and no one waits.
pub record IsDrained (q : Queue) : Type 0 where
  pub no_backlog : backlog q ≡ []
  pub no_run : q.processing ≡ Run.idle
  pub no_waiters : q.waiters ≡ []

delete_row-IsIntact :
    (r : PublishRecord) (rows : List PublishRecord)
    → All IsIntact rows
    → All IsIntact (delete_row r rows).0
unfolding delete_row
delete_row-IsIntact r [] h = tt
delete_row-IsIntact r (x ∷ rows) h = ground (arith, delete_row-IsIntact r rows h.1)

remove_sent-IsLive :
    (source : Source) (r : PublishRecord) (q left : Queue)
    → remove_sent source r q ≡ ok left
    → IsLive q
    → IsLive left
unfolding remove_sent complete
remove_sent-IsLive from_memory r q left e h = ground arith
remove_sent-IsLive from_disk r q left e h =
    ground (arith, delete_row-IsIntact r q.store.pending h.intact)

emit-IsLive : (q : Queue) → IsLive q → IsLive (emit q)
unfolding emit
emit-IsLive q h = ground arith

record_delivery-IsLive : (r : PublishRecord) (q : Queue) → IsLive q → IsLive (record_delivery r q)
unfolding record_delivery
record_delivery-IsLive r q h = ground arith

head_at :
    (s : Store) (rows : List PublishRecord)
    → s.pending ≡ rows
    → All IsIntact rows
    → head s ≡ ok (first_row rows)
unfolding head
head_at s [] e h = rw (e, head)
head_at s (r ∷ rows) e h = rw (e, head, h.0)

turn_live :
    (q : Queue) → IsLive q → turn q ≡ send_or_return (pick (first_row q.store.pending) q.memory) q
unfolding turn after_head
turn_live q h =
    if_true (q.active && not q.closed && not (is_blocked q.blocked)) _ _ (ground arith)
    ∙ ap (λ m. after_head m q) (head_at q.store q.store.pending refl h.intact)

pick-none :
    (rows memory : List PublishRecord)
    → length rows + length memory ≡ 0
    → pick (first_row rows) memory ≡ none
unfolding pick
pick-none [] [] h = refl
pick-none [] (m ∷ memory) h = absurd (omega arith)
pick-none (x ∷ rows) memory h = absurd (omega arith)

pick-some :
    (rows memory : List PublishRecord) (n : ℕ)
    → length rows + length memory ≡ suc n
    → (p : Source × PublishRecord) × (pick (first_row rows) memory ≡ some p)
unfolding pick
pick-some [] [] n h = absurd (omega arith)
pick-some [] (m ∷ memory) n h = ((from_memory, m), refl)
pick-some (x ∷ rows) [] n h = ((from_disk, x), refl)
pick-some (x ∷ rows) (m ∷ memory) n h = elim (Bool-cases (ltb x.seq m.seq)) [
  | inl e ↦ ((from_disk, x), rw e)
  | inr e ↦ ((from_memory, m), rw e)
]

pub length-backlog : (q : Queue) → length (backlog q) ≡ length q.store.pending + length q.memory
unfolding backlog
length-backlog q = length-insert_all q.store.pending q.memory

backlog_empty : (q : Queue) → length (backlog q) ≡ 0 → backlog q ≡ []
backlog_empty q h = ground arith

-- The loop returns: the queue is idle and whoever waits is released.
finish_run_empty :
    (q : Queue)
    → length q.store.pending + length q.memory ≡ 0
    → q.closed ≡ false
    → q.store.final_summary ≡ none
    → ((finish_run q).processing ≡ Run.idle) × ((finish_run q).waiters ≡ [])
unfolding finish_run emit snapshot schedule
finish_run_empty q e o f = ground arith

turn-IsDrained : (q : Queue) → IsLive q → Settled q → length (backlog q) ≡ 0 → IsDrained (turn q)
turn-IsDrained q live h e =
    let counts = sym (length-backlog q) ∙ e in
    let at_end : turn q ≡ finish_run q =
      turn_live q live
      ∙ ap (λ p. send_or_return p q) (pick-none q.store.pending q.memory counts)
      ∙ (unfold send_or_return in refl) in
    let (no_run, no_waiters) =
      finish_run_empty q counts live.is_open (h.counts_open live.is_open) in
    record {
      no_backlog = ap backlog at_end ∙ backlog-finish_run q ∙ backlog_empty q e;
      no_run = ap (λ x. x.processing) at_end ∙ no_run;
      no_waiters = ap (λ x. x.waiters) at_end ∙ no_waiters;
    }

abbrev pub acknowledge_times : ℕ → Queue → Queue
acknowledge_times zero q = q
acknowledge_times (suc n) q = acknowledge_times n (acknowledged q)

abbrev sends : Queue → Source × PublishRecord → Queue
sends q p = record q { processing = sending p.0 p.1 }

-- One acknowledgement: the queue that the loop goes on with has one record less.
record Advanced (q : Queue) (n : ℕ) : Type 0 where
  later : Queue
  live : IsLive later
  settled : Settled later
  shorter : length (backlog later) ≡ n
  goes_on : acknowledged (turn q) ≡ turn later

delivered_shorter :
    (q left : Queue) (r : PublishRecord) (n : ℕ)
    → length (backlog q) ≡ suc n
    → backlog q ≡ r ∷ backlog left
    → length (backlog (emit (record_delivery r left))) ≡ n
unfolding record_delivery
delivered_shorter q left r n e order =
    let counted = record_delivery r left in
    ap (λ (l : List PublishRecord). length l)
      (backlog-emit counted ∙ backlog-Same left counted (refl, refl))
    ∙ omega (arith, e, ap (λ (l : List PublishRecord). length l) order)

send-Advanced :
    (q : Queue) (n : ℕ) (p : Source × PublishRecord)
    → IsLive q
    → Settled q
    → length (backlog q) ≡ suc n
    → turn q ≡ sends q p
    → Removed (sends q p) p.0 p.1
    → Advanced q n
unfolding acknowledged acknowledge_run after_send backlog
send-Advanced q n p live h e at_send gone =
    let left = gone.queue in
    let counted = record_delivery p.1 left in
    record {
      later = emit counted;
      live = emit-IsLive counted (
          record_delivery-IsLive p.1 left (
            remove_sent-IsLive p.0 p.1 (sends q p) left gone.removed (record {
              is_active = live.is_active;
              is_open = live.is_open;
              unblocked = live.unblocked;
              intact = live.intact;
            })));
      settled = emit-Settled counted (unfold record_delivery in gone.settled);
      shorter = delivered_shorter q left p.1 n e gone.order;
      goes_on = ap acknowledged at_send ∙ ap (λ m. after_send p.1 m (sends q p)) gone.removed;
    }

advance : (q : Queue) (n : ℕ) → IsLive q → Settled q → length (backlog q) ≡ suc n → Advanced q n
advance q n live h e =
    let (p, picked) = pick-some q.store.pending q.memory n (sym (length-backlog q) ∙ e) in
    let at_send : turn q ≡ sends q p =
      turn_live q live ∙ ap (λ x. send_or_return x q) picked ∙ (unfold send_or_return in refl) in
    send-Advanced q n p live h e at_send
      (remove_sent-Removed (sends q p) p.0 p.1 (subst (λ x. Inv x) at_send (turn-Inv q h)).first h)

acknowledge_times-turn-IsDrained :
    (n : ℕ) (q : Queue)
    → IsLive q
    → Settled q
    → length (backlog q) ≡ n
    → IsDrained (acknowledge_times n (turn q))
acknowledge_times-turn-IsDrained zero q live h e = turn-IsDrained q live h e
acknowledge_times-turn-IsDrained (suc n) q live h e =
    let a = advance q n live h e in
    subst (λ x. IsDrained (acknowledge_times n x)) (sym a.goes_on)
      (acknowledge_times-turn-IsDrained n a.later a.live a.settled a.shorter)

starts : (q : Queue) → q.processing ≡ scheduled → begin_run q ≡ turn q
unfolding begin_run
starts q e = if_true (is_scheduled q.processing) (turn q) q (ap is_scheduled e)

-- From a scheduled run of a live queue, as many acknowledgements as there are pending records
-- deliver them all: the backlog is empty, the queue is idle, and all that waited are released.
pub acknowledge_times-IsDrained :
    (q : Queue)
    → Inv q
    → IsLive q
    → q.processing ≡ scheduled
    → IsDrained (acknowledge_times (length (backlog q)) (begin_run q))
acknowledge_times-IsDrained q h live e =
    subst (λ x. IsDrained (acknowledge_times (length (backlog q)) x)) (sym (starts q e))
      (acknowledge_times-turn-IsDrained (length (backlog q)) q live (Inv-Settled q h) refl)
