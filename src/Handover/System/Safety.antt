-- ===== src/Handover/System/Safety.antt =====
-- At most one process owns the application or takes it over, whatever the order of the steps.
use mathlib.Core.Path.{subst}
use uns_kit.Kit.{
  if_each, if_both, if_true, ==_iff, ◌==◌, ℕ, ◌≡◌, refl, sym, ap, ◌∙◌, ◌<◌, ◌⊎◌, inl, inr, Bool,
  true, false, Option, none, some, List, String, All, eq_iff,
}
use uns_kit.HandoverState.{Codec}
use uns_kit.Handover.{Body, Message, Output, published, TargetPreparation, Manager}
use uns_kit.Handover.Messages.{is_given}
use uns_kit.Handover.Handle.{
  Input, arrives, timeout, activation, due, retry, reviewed, prepared, fin_tick, cursors, activates,
  drained, step,
}
use uns_kit.Handover.Local.{
  Stage, waits, takes, owns, gave, fails, stage, stage_of, fin_id, Local, SafeBody, IsFin,
  BringsFin, Move, rests, starts, returns, wins, loses, gives,
}
use uns_kit.Handover.Local.Steps.{step-Kept}
use uns_kit.Handover.System.{
  replace, Member, here, there, IsPlainBody, IsOpen, SystemStep, acts, receives, Start, Reach,
  begins, later,
}
use uns_kit.Handover.System.Ownership.{
  Part, is_past, Own, PartMove, part_rests, part_starts, part_ends, part_wins, part_gives, Moved,
  Own-Moved, taken_from_holder,
}

abbrev pub part : Manager → Part
part m = record { part_stage = stage m; id = m.handover_id; fin = fin_id m }

pub parts : (ℕ → Manager) → ℕ → Part
parts s p = part (s p)

pub replace-cases :
    (s : ℕ → Manager) (p : ℕ) (m : Manager) (x : ℕ) → (x ≡ p) ⊎ (replace s p m x ≡ s x)
replace-cases s p m x =
    if_each (λ (r : Manager). (x ≡ p) ⊎ (r ≡ s x)) (p == x) m (s x)
      (λ t. inl (sym ((==_iff p x).0 t))) (λ e. inr refl)

pub replace-at : (s : ℕ → Manager) (p : ℕ) (m : Manager) → replace s p m p ≡ m
replace-at s p m = if_true (p == p) m (s p) ((==_iff p p).1 refl)

pub Member-All {ℓ} :
    (P : Output → Type ℓ) (o : Output) (os : List Output) → Member o os → All P os → P o
Member-All P o _ (here _ os) h = h.0
Member-All P o _ (there _ x os m) h = Member-All P o os m h.1

stage-gave :
    (peer : Option String) (active : Bool) (t : TargetPreparation)
    → is_given peer ≡ true
    → stage_of peer active t ≡ gave
stage-gave none active t h = absurd (cc h)
stage-gave (some p) active t h = refl

-- A fin that a process has sent shows that it gave its state away, under the identifier of the fin.
sent_fin :
    (m : Manager) (message : Message) (id : Option String) (body : Option Body)
    → SafeBody (is_given m.source_peer) (fin_id m) m.accepted_state_digest message body
    → IsFin id message body
    → (stage m ≡ gave) × (fin_id m ≡ id)
sent_fin m message id none h fin = absurd fin
sent_fin m message id (some body) (inl e, k) (kind, same) =
    absurd (cc ((eq_iff body.kind "handover_fin").1 kind, e))
sent_fin m message id (some body) (inr (given, e), k) (kind, same) =
    (stage-gave m.source_peer m.active m.target given, sym e ∙ same)

no_fin :
    (id : Option String) (message : Message) (body : Option Body)
    → IsPlainBody body
    → IsFin id message body
    → ⊥
no_fin id message none plain fin = fin
no_fin id message (some body) (a, b) (kind, same) = cc ((eq_iff body.kind "handover_fin").1 kind, a)

open_fin : (id : Option String) (i : Input) → IsOpen i → BringsFin id i → ⊥
open_fin id (arrives e exported) plain fin = no_fin id e.message e.message.body plain fin
open_fin id timeout plain fin = fin
open_fin id (activation r) plain fin = fin
open_fin id (due r) plain fin = fin
open_fin id (retry r) plain fin = fin
open_fin id (reviewed r) plain fin = fin
open_fin id (prepared r) plain fin = fin
open_fin id fin_tick plain fin = fin
open_fin id (cursors r) plain fin = fin
open_fin id (activates r) plain fin = fin
open_fin id (drained r) plain fin = fin

-- What the processes keep together.
pub record Safely (n : ℕ) (s : ℕ → Manager) : Type 0 where
  pub local : (p : ℕ) → Local (s p)
  pub own : Own n (parts s)

-- Where a fin that a process acts on comes from.
abbrev Source : ℕ → (ℕ → Manager) → ℕ → Input → Type 0
Source n s p i =
    BringsFin (s p).handover_id i
    → (q : ℕ) × (q < n) × (stage (s q) ≡ gave) × (fin_id (s q) ≡ (s p).handover_id)

Move-part :
    (n : ℕ) (s : ℕ → Manager) (p : ℕ) (i : Input) (m : Manager)
    → Source n s p i
    → Move i (s p) m
    → PartMove n (parts s) p (part m)
unfolding parts
Move-part n s p i m source (rests a b) = part_rests a b
Move-part n s p i m source (starts fin a b) =
    let (q, c, d, e) = source fin in part_starts q c d e a b
Move-part n s p i m source (returns a b) = part_ends a (inl b)
Move-part n s p i m source (loses a b) = part_ends a (inr b)
Move-part n s p i m source (wins a b) = part_wins a b
Move-part n s p i m source (gives a b) = part_gives a b

-- One process has moved, the others are as they were.
one-Moved :
    (n : ℕ) (s : ℕ → Manager) (p : ℕ) (i : Input) (m : Manager)
    → p < n
    → Source n s p i
    → m.handover_id ≡ (s p).handover_id
    → Move i (s p) m
    → Moved n (parts s) (parts (replace s p m)) p
unfolding parts
one-Moved n s p i m inside source id move =
    let now : replace s p m p ≡ m = replace-at s p m in
    record {
      inside = inside;
      move =
          subst (λ (k : Manager). PartMove n (parts s) p (part k)) (sym now)
            (Move-part n s p i m source move);
      same_id = ap (λ (k : Manager). k.handover_id) now ∙ id;
      others = λ x. elim (replace-cases s p m x) [ inl e ↦ inl e | inr e ↦ inr (ap part e) ];
    }

one-Local :
    (s : ℕ → Manager) (p : ℕ) (m : Manager)
    → Local m
    → ((x : ℕ) → Local (s x))
    → (x : ℕ) → Local (replace s p m x)
one-Local s p m h all_local x = if_both Local (p == x) m (s x) h (all_local x)

one_step :
    (codec : Codec) (n : ℕ) (s : ℕ → Manager) (p : ℕ) (i : Input)
    → p < n
    → Source n s p i
    → Safely n s
    → Safely n (replace s p (step codec i (s p)))
one_step codec n s p i inside source safe =
    let m : Manager = step codec i (s p) in
    let (h, id, move) = step-Kept codec i (s p) (safe.local p) in
    record {
      local = one-Local s p m h safe.local;
      own = Own-Moved (one-Moved n s p i m inside source id move) safe.own;
    }

pub SystemStep-Safely :
    {codec : Codec} {n : ℕ} {s t : ℕ → Manager} → SystemStep codec n s t → Safely n s → Safely n t
SystemStep-Safely {codec} {n} {s} (acts p i inside plain) safe =
    one_step codec n s p i inside (λ fin. absurd (open_fin (s p).handover_id i plain fin)) safe
SystemStep-Safely {codec} {n} {s} (receives p q e exported inside sender sent) safe =
    one_step codec n s p (arrives e exported) inside
      (λ fin.
        let (a, b) =
          sent_fin (s q) e.message (s p).handover_id e.message.body
            (Member-All _ (published e.message) (s q).outputs sent (safe.local q).10) fin in
        (q, sender, a, b))
      safe

pub Start-Safely :
    {n owner : ℕ} {s : ℕ → Manager}
    → Start n owner s
    → ((p q : ℕ) → p < n → q < n → (s p).handover_id ≡ (s q).handover_id → p ≡ q)
    → Safely n s
unfolding parts
Start-Safely {n} {owner} {s} start distinct = record {
  local = start.local;
  own = record {
    holder = owner;
    inside = start.inside;
    holds = ap is_past start.first;
    owner_is = λ x hx h. only_owner x (start.others x) (λ e. cc (e, h));
    given = λ x hx h. inl (only_owner x (start.others x) (λ e. cc (e, h)));
    taking = λ x hx h. absurd (no_taker x (start.others x) h);
    distinct = distinct;
  };
}
  where
    only_owner :
        (x : ℕ) → (x ≡ owner) ⊎ (stage (s x) ≡ waits) → (stage (s x) ≡ waits → ⊥) → x ≡ owner
    only_owner x (inl e) h = e
    only_owner x (inr e) h = absurd (h e)

    no_taker : (x : ℕ) → (x ≡ owner) ⊎ (stage (s x) ≡ waits) → stage (s x) ≡ takes → ⊥
    no_taker x (inl e) h = cc (ap (λ (y : ℕ). stage (s y)) e, start.first, h)
    no_taker x (inr e) h = cc (e, h)

Reach-Safely :
    {codec : Codec} {n owner : ℕ} {s t : ℕ → Manager}
    → Start n owner s
    → ((p q : ℕ) → p < n → q < n → (s p).handover_id ≡ (s q).handover_id → p ≡ q)
    → Reach codec n s t
    → Safely n t
Reach-Safely start distinct begins = Start-Safely start distinct
Reach-Safely start distinct (later r st) = SystemStep-Safely st (Reach-Safely start distinct r)

-- Owning the application, or taking it over.
abbrev pub is_busy : Stage → Bool
is_busy owns = true
is_busy takes = true
is_busy waits = false
is_busy gave = false
is_busy fails = false

busy-holder :
    {n : ℕ} (s : ℕ → Manager)
    → (own : Own n (parts s)) → (x : ℕ) → x < n
    → is_busy (stage (s x)) ≡ true
    → ((stage (s x) ≡ owns) × (x ≡ own.holder))
      ⊎ ((stage (s own.holder) ≡ gave) × (fin_id (s own.holder) ≡ (s x).handover_id))
unfolding parts
busy-holder {n} s own x inside h = from (stage (s x)) refl h
  where
    from :
        (k : Stage)
        → stage (s x) ≡ k
        → is_busy k ≡ true
        → ((stage (s x) ≡ owns) × (x ≡ own.holder))
          ⊎ ((stage (s own.holder) ≡ gave) × (fin_id (s own.holder) ≡ (s x).handover_id))
    from owns e h = inl (e, own.owner_is x inside e)
    from takes e h = inr (taken_from_holder own x inside e)
    from waits e h = absurd (cc h)
    from gave e h = absurd (cc h)
    from fails e h = absurd (cc h)

-- All processes are stateful, none is started by force or has an activation pending, their handover identifiers are
-- pairwise distinct (one process at most has none, and it is active already), one owns the application and the others
-- wait (`Start`, with what `Local` asks of each). Then at most one process at a time owns the application or takes it over, whatever is lost, doubled, delayed
-- or reordered, and whatever is forged but fins and acknowledgements.
pub one_owner :
    {codec : Codec} {n owner : ℕ} {s t : ℕ → Manager}
    → Start n owner s
    → ((p q : ℕ) → p < n → q < n → (s p).handover_id ≡ (s q).handover_id → p ≡ q)
    → Reach codec n s t
    → (p q : ℕ) → p < n
    → q < n
    → is_busy (stage (t p)) ≡ true
    → is_busy (stage (t q)) ≡ true
    → p ≡ q
unfolding parts
one_owner {n} {t} start distinct r p q hp hq busy_p busy_q =
    both (busy-holder t own p hp busy_p) (busy-holder t own q hq busy_q)
  where
    own : Own n (parts t)
    own = (Reach-Safely start distinct r).own

    both :
        ((stage (t p) ≡ owns) × (p ≡ own.holder))
          ⊎ ((stage (t own.holder) ≡ gave) × (fin_id (t own.holder) ≡ (t p).handover_id))
        → ((stage (t q) ≡ owns) × (q ≡ own.holder))
          ⊎ ((stage (t own.holder) ≡ gave) × (fin_id (t own.holder) ≡ (t q).handover_id))
        → p ≡ q
    both (inl a) (inl b) = a.1 ∙ sym b.1
    both (inl a) (inr b) = absurd (cc (ap (λ (y : ℕ). stage (t y)) a.1, a.0, b.0))
    both (inr a) (inl b) = absurd (cc (ap (λ (y : ℕ). stage (t y)) b.1, b.0, a.0))
    both (inr a) (inr b) = own.distinct p q hp hq (sym a.1 ∙ b.1)
