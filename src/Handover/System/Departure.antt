-- ===== src/Handover/System/Departure.antt =====
-- A source leaves only when its state was accepted.
use mathlib.Core.Path.{subst}
use uns_kit.Kit.{
  Result, ℕ, ◌≡◌, refl, sym, ap, ◌∙◌, ◌<◌, ◌⊎◌, inl, inr, Bool, true, false, Option, none, some,
  String, eq_iff,
}
use uns_kit.AppState.{Json}
use uns_kit.HandoverState.{Codec}
use uns_kit.Handover.{Body, Message, Event, published, Manager}
use uns_kit.Handover.Messages.{is_given}
use uns_kit.Handover.Source.{is_staying}
use uns_kit.Handover.Handle.{
  Input, arrives, timeout, activation, due, retry, reviewed, prepared, fin_tick, cursors, activates,
  drained, step,
}
use uns_kit.Handover.Local.{Local, SafeBody, fin_id}
use uns_kit.Handover.Local.Exits.{Settled, Stays, IsAck, BringsAck, Leaves, Stays-same}
use uns_kit.Handover.Local.Acks.{step-Grows}
use uns_kit.Handover.System.{
  replace, Member, IsPlainBody, IsOpen, SystemStep, acts, receives, Start, Reach, begins, later,
}
use uns_kit.Handover.System.Safety.{
  Safely, replace-cases, replace-at, Member-All, SystemStep-Safely, Start-Safely,
}

-- Some process has accepted the digest.
abbrev pub AcceptedBy : ℕ → (ℕ → Manager) → Option String → Type 0
AcceptedBy n s digest =
    (q : ℕ) × (q < n) × ((s q).accepted_state_digest ≡ digest) × (is_given digest ≡ true)

record Departs (n : ℕ) (s : ℕ → Manager) : Type 0 where
  safely : Safely n s
  settled : (p : ℕ) → Settled (s p)
  left : (p : ℕ) → p < n → is_staying (s p).source_exit ≡ false → AcceptedBy n s (s p).state_digest

sent_ack :
    (given : Bool) (fin digest wanted : Option String) (message : Message) (body : Option Body)
    → SafeBody given fin digest message body
    → IsAck wanted body
    → digest ≡ wanted
sent_ack given fin digest wanted message none h ack = absurd ack
sent_ack given fin digest wanted message (some body) (k, inl e) (kind, same, there_is) =
    absurd (cc ((eq_iff body.kind "handover_ack").1 kind, e))
sent_ack given fin digest wanted message (some body) (k, inr (a, e)) (kind, same, there_is) =
    sym e ∙ same

no_ack : (digest : Option String) (body : Option Body) → IsPlainBody body → IsAck digest body → ⊥
no_ack digest none plain ack = ack
no_ack digest (some body) (a, b) (kind, same, given) =
    cc ((eq_iff body.kind "handover_ack").1 kind, b)

open_ack : (digest : Option String) (i : Input) → IsOpen i → BringsAck digest i → ⊥
open_ack digest (arrives e exported) plain ack = no_ack digest e.message.body plain ack
open_ack digest timeout plain ack = ack
open_ack digest (activation r) plain ack = ack
open_ack digest (due r) plain ack = ack
open_ack digest (retry r) plain ack = ack
open_ack digest (reviewed r) plain ack = ack
open_ack digest (prepared r) plain ack = ack
open_ack digest fin_tick plain ack = ack
open_ack digest (cursors r) plain ack = ack
open_ack digest (activates r) plain ack = ack
open_ack digest (drained r) plain ack = ack

given_ack : (digest : Option String) (i : Input) → BringsAck digest i → is_given digest ≡ true
given_ack digest (arrives e exported) ack = given e.message.body ack
  where
    given : (body : Option Body) → IsAck digest body → is_given digest ≡ true
    given none h = absurd h
    given (some body) (a, b, c) = c
given_ack digest timeout ack = absurd ack
given_ack digest (activation r) ack = absurd ack
given_ack digest (due r) ack = absurd ack
given_ack digest (retry r) ack = absurd ack
given_ack digest (reviewed r) ack = absurd ack
given_ack digest (prepared r) ack = absurd ack
given_ack digest fin_tick ack = absurd ack
given_ack digest (cursors r) ack = absurd ack
given_ack digest (activates r) ack = absurd ack
given_ack digest (drained r) ack = absurd ack

-- How a process was before and is after a step: its digests, and what it needs to leave.
abbrev Step : ℕ → (ℕ → Manager) → Manager → Manager → Type 0
Step n s m m' =
    Settled m'
    × Stays m.accepted_state_digest m'.accepted_state_digest
    × Stays m.state_digest m'.state_digest
    × ((is_staying m'.source_exit ≡ is_staying m.source_exit) ⊎ AcceptedBy n s m.state_digest)

steps :
    (n : ℕ) (s : ℕ → Manager) (p : ℕ) (m : Manager)
    → Step n s (s p) m
    → ((x : ℕ) → Settled (s x))
    → (x : ℕ) → Step n s (s x) (replace s p m x)
steps n s p m h settled x = elim (replace-cases s p m x) [
  | inr e ↦
      subst (Step n s (s x)) (sym e)
        (settled x, Stays-same (s x).accepted_state_digest, Stays-same (s x).state_digest, inl refl)
  | inl e ↦
      subst (λ (y : ℕ). Step n s (s y) (replace s p m y)) (sym e)
        (subst (Step n s (s p)) (sym (replace-at s p m)) h)
]

stayed :
    (o o' digest : Option String) → Stays o o' → o ≡ digest → is_given digest ≡ true → o' ≡ digest
stayed none o' digest h e given = absurd (cc (ap is_given e, given))
stayed (some d) o' digest h e given = h ∙ e

accepted_still :
    (n : ℕ) (s t : ℕ → Manager)
    → ((x : ℕ) → Step n s (s x) (t x))
    → (o o' : Option String) → Stays o o'
    → AcceptedBy n s o
    → AcceptedBy n t o'
accepted_still n s t moved o o' same (q, inside, e, given) =
    let digest : o' ≡ o = stayed o o' o same refl given in
    (
      q,
      inside,
      stayed (s q).accepted_state_digest (t q).accepted_state_digest o (moved q).1 e given
          ∙ sym digest,
      ap is_given digest ∙ given,
    )

left_after :
    (n : ℕ) (s t : ℕ → Manager)
    → ((x : ℕ) → Step n s (s x) (t x))
    → Departs n s
    → (x : ℕ) → x < n
    → is_staying (t x).source_exit ≡ false
    → AcceptedBy n t (t x).state_digest
left_after n s t moved d x inside gone = elim ((moved x).3) [
  | inl e ↦
      accepted_still n s t moved (s x).state_digest (t x).state_digest (moved x).2
        (d.left x inside (sym e ∙ gone))
  | inr acc ↦ accepted_still n s t moved (s x).state_digest (t x).state_digest (moved x).2 acc
]

one_departure :
    (codec : Codec) (n : ℕ) (s : ℕ → Manager) (p : ℕ) (i : Input)
    → (BringsAck (s p).state_digest i → AcceptedBy n s (s p).state_digest)
    → Safely n (replace s p (step codec i (s p)))
    → Departs n s
    → Departs n (replace s p (step codec i (s p)))
one_departure codec n s p i source safe d =
    let (a, b, c, leaves) = step-Grows codec i (s p) (d.safely.local p) (d.settled p) in
    let moved : (x : ℕ) → Step n s (s x) (replace s p (step codec i (s p)) x) =
      steps n s p (step codec i (s p)) (a, b, c, from leaves) d.settled in
    record {
      safely = safe;
      settled = λ x. (moved x).0;
      left = left_after n s (replace s p (step codec i (s p))) moved d;
    }
  where
    from :
        Leaves i (s p).state_digest (s p).source_exit (step codec i (s p)).source_exit
        → (is_staying (step codec i (s p)).source_exit ≡ is_staying (s p).source_exit)
          ⊎ AcceptedBy n s (s p).state_digest
    from (inl e) = inl e
    from (inr ack) = inr (source ack)

acknowledged_by :
    (n : ℕ) (s : ℕ → Manager) (q : ℕ) (digest : Option String) (e : Event) (exported : Result Json)
    → q < n
    → Local (s q)
    → Member (published e.message) (s q).outputs
    → BringsAck digest (arrives e exported)
    → AcceptedBy n s digest
acknowledged_by n s q digest e exported inside h sent ack = (
  q,
  inside,
  sent_ack _ (fin_id (s q)) (s q).accepted_state_digest digest e.message e.message.body
      (Member-All _ (published e.message) (s q).outputs sent h.10) ack,
  given_ack digest (arrives e exported) ack,
)

step-Departs :
    {codec : Codec} {n : ℕ} {s t : ℕ → Manager} → SystemStep codec n s t → Departs n s → Departs n t
step-Departs {codec} {n} {s} (acts p i inside plain) d =
    one_departure codec n s p i (λ ack. absurd (open_ack (s p).state_digest i plain ack))
      (SystemStep-Safely {codec = codec} {n = n} {s = s} (acts p i inside plain) d.safely) d
step-Departs {codec} {n} {s} (receives p q e exported inside sender sent) d =
    one_departure codec n s p (arrives e exported)
      (acknowledged_by n s q (s p).state_digest e exported sender (d.safely.local q) sent)
      (SystemStep-Safely {codec = codec} {n = n} {s = s}
        (receives p q e exported inside sender sent) d.safely)
      d

Start-Departs :
    {n owner : ℕ} {s : ℕ → Manager}
    → Start n owner s
    → ((p q : ℕ) → p < n → q < n → (s p).handover_id ≡ (s q).handover_id → p ≡ q)
    → Departs n s
Start-Departs {n} {owner} {s} start distinct = record {
  safely = Start-Safely start distinct;
  settled = λ p. unset (s p) (start.unprepared p);
  left = λ p inside gone. absurd (cc (ap is_staying (start.stays p), gone));
}
  where
    unset : (m : Manager) → m.state_digest ≡ none → Settled m
    unset m e = rw e (refl, refl)

Reach-Departs :
    {codec : Codec} {n owner : ℕ} {s t : ℕ → Manager}
    → Start n owner s
    → ((p q : ℕ) → p < n → q < n → (s p).handover_id ≡ (s q).handover_id → p ≡ q)
    → Reach codec n s t
    → Departs n t
Reach-Departs start distinct begins = Start-Departs start distinct
Reach-Departs start distinct (later r st) = step-Departs st (Reach-Departs start distinct r)

-- All processes are stateful, none is started by force or has an activation pending, their handover identifiers are
-- pairwise distinct (one process at most has none, and it is active already), one owns the application and the others
-- wait (`Start`, with what `Local` asks of each). Then a process that drains before its exit, or has exited, has prepared a state, and some process has
-- accepted exactly the digest of that state; no fin or acknowledgement is forged.
pub left_accepted :
    {codec : Codec} {n owner : ℕ} {s t : ℕ → Manager}
    → Start n owner s
    → ((p q : ℕ) → p < n → q < n → (s p).handover_id ≡ (s q).handover_id → p ≡ q)
    → Reach codec n s t
    → (p : ℕ) → p < n
    → is_staying (t p).source_exit ≡ false
    → AcceptedBy n t (t p).state_digest
left_accepted {n} {t} start distinct r p inside gone =
    (Reach-Departs start distinct r).left p inside gone
