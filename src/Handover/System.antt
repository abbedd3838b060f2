-- ===== src/Handover/System.antt =====
-- Processes that hand over to each other: their steps in any order, with messages that are lost, doubled, delayed
-- and forged, but for fins and acknowledgements, which come from one of the processes.
pub mod Ownership
pub mod Safety
pub mod Departure
mod Tests
use uns_kit.Kit.{
  if◌then◌else◌, ◌==◌, ℕ, ◌≡◌, refl, ◌<◌, ◌⊎◌, Bool, true, false, Option, none, some, List, [], ◌∷◌,
  String, ◌===◌, Result,
}
use uns_kit.AppState.{Json}
use uns_kit.HandoverState.{Codec}
use uns_kit.Handover.{SourceExit, staying, Body, Message, Event, Output, published, Manager}
use uns_kit.Handover.Handle.{Input, arrives, step}
use uns_kit.Handover.Local.{Stage, waits, owns, stage, Local}

-- The processes, of which `p` is now in another state.
abbrev pub replace : (ℕ → Manager) → ℕ → Manager → ℕ → Manager
replace s p m q = if p == q then m else s q

-- An output of the list.
pub data Member : Output → List Output → Type 0 where
  here : (o : Output) (os : List Output) → Member o (o ∷ os)
  there : (o x : Output) (os : List Output) → Member o os → Member o (x ∷ os)

-- No fin and no acknowledgement.
abbrev pub IsPlainBody : Option Body → Type 0
IsPlainBody none = Unit
IsPlainBody (some body) =
    ((body.kind === "handover_fin") ≡ false) × ((body.kind === "handover_ack") ≡ false)

-- What may come from anywhere: everything but fins and acknowledgements.
abbrev pub IsOpen : Input → Type 0
IsOpen (arrives e exported) = IsPlainBody e.message.body
IsOpen _ = Unit

-- One of `n` processes gets an input of its own, or a message that one of them has sent.
pub data SystemStep (codec : Codec) (n : ℕ) (s : ℕ → Manager) : (ℕ → Manager) → Type 0 where
  acts :
      (p : ℕ) (i : Input)
      → p < n
      → IsOpen i
      → SystemStep codec n s (replace s p (step codec i (s p)))
  receives :
      (p q : ℕ) (e : Event) (exported : Result Json)
      → p < n
      → q < n
      → Member (published e.message) (s q).outputs
      → SystemStep codec n s (replace s p (step codec (arrives e exported) (s p)))

-- One process owns the application, as the first does once it has made itself active, and the others wait, as they
-- are made; none is about to exit or has prepared a state.
pub record Start (n : ℕ) (owner : ℕ) (s : ℕ → Manager) : Type 0 where
  pub inside : owner < n
  pub local : (p : ℕ) → Local (s p)
  pub stays : (p : ℕ) → (s p).source_exit ≡ staying
  pub unprepared : (p : ℕ) → (s p).state_digest ≡ none
  pub first : stage (s owner) ≡ owns
  pub others : (p : ℕ) → (p ≡ owner) ⊎ (stage (s p) ≡ waits)

pub data Reach (codec : Codec) (n : ℕ) (start : ℕ → Manager) : (ℕ → Manager) → Type 0 where
  begins : Reach codec n start start
  later :
      {s t : ℕ → Manager} → Reach codec n start s → SystemStep codec n s t → Reach codec n start t
