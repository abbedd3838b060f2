-- ===== src/Handover/Local.antt =====
-- The part that a stateful process plays in handovers, and what every step of it keeps.
pub mod Sends
pub mod Timers
pub mod Gives
pub mod Takes
pub mod Arrivals
pub mod Steps
pub mod Exits
pub mod Digests
pub mod Acks
pub mod Once
pub mod Imports
pub mod Baseline
use uns_kit.Kit.{
  ℕ, zero, suc, ◌+◌, ◌≡◌, refl, ◌⊎◌, inl, inr, Bool, true, false, not, ◌&&◌, ◌||◌, Option, none,
  some, List, [], ◌∷◌, ◌++◌, map, String, ◌===◌, All,
}
use uns_kit.Handover.{
  ActiveTimer, cleared, armed, fired, Body, Message, Event, HandoverRequest, SourceExit, staying,
  draining, exited, TargetPreparation, idle, checking, applying, accepted, stuck, Output, published,
  Manager,
}
use uns_kit.Handover.Messages.{
  is_given, same_text, first_of, normalize_handover_id, get_handover_id,
}
use uns_kit.Handover.Handle.{Input, arrives, is_idle}

-- A process waits, takes a state over, owns the application, has given it away, or is stuck in a failed takeover.
pub data Stage : Type 0 where
  waits : Stage
  takes : Stage
  owns : Stage
  gave : Stage
  fails : Stage

abbrev pub target_stage : TargetPreparation → Stage
target_stage idle = waits
target_stage (checking state digest) = takes
target_stage (applying state digest) = takes
target_stage accepted = fails
target_stage stuck = fails

abbrev pub stage_of : Option String → Bool → TargetPreparation → Stage
stage_of (some peer) active target = gave
stage_of none true target = owns
stage_of none false target = target_stage target

abbrev pub stage : Manager → Stage
stage m = stage_of m.source_peer m.active m.target

-- The identifier that the receiver of a fin of this process reads.
abbrev pub fin_id : Manager → Option String
fin_id m = normalize_handover_id (normalize_handover_id (first_of m.accepted_id m.handover_id))

-- A fin is sent by a process that gave its state away, under the migration it accepted; an acknowledgement has the
-- digest that was accepted.
abbrev pub SafeBody : Bool → Option String → Option String → Message → Option Body → Type 0
SafeBody given fin digest message none = Unit
SafeBody given fin digest message (some body) =
    (((body.kind === "handover_fin") ≡ false)
      ⊎ ((given ≡ true) × (get_handover_id body message ≡ fin)))
    × (((body.kind === "handover_ack") ≡ false)
        ⊎ ((is_given digest ≡ true) × (body.state_digest ≡ digest)))

abbrev pub Safe : Bool → Option String → Option String → Output → Type 0
Safe given fin digest (published message) = SafeBody given fin digest message message.body
Safe given fin digest _ = Unit

abbrev pub Sent : Manager → List Output → Type 0
Sent m = All (Safe (is_given m.source_peer) (fin_id m) m.accepted_state_digest)

abbrev pub is_open : TargetPreparation → Bool
is_open idle = false
is_open (checking state digest) = true
is_open (applying state digest) = true
is_open accepted = false
is_open stuck = true

abbrev pub is_accepted : TargetPreparation → Bool
is_accepted accepted = true
is_accepted _ = false

abbrev pub is_exited : SourceExit → Bool
is_exited (exited status) = true
is_exited _ = false

abbrev pub SameRequest : Option HandoverRequest → Option String → Option String → Type 0
SameRequest none peer id = Unit
SameRequest (some r) peer id = (is_given peer ≡ true) × (r.handover_id ≡ id)

-- Only who gave its state away has a request to answer and a prepared state.
abbrev pub Holds : Manager → Type 0
Holds m =
    SameRequest m.request m.source_peer m.accepted_id
    × ((is_given m.prepared_state && not (is_given m.source_peer)) ≡ false)

abbrev pub is_armed : ActiveTimer → Bool
is_armed armed = true
is_armed cleared = false
is_armed fired = false

-- A stateful process, which is never started by force, runs no activation outside a takeover. It has an identifier,
-- or it is or was an owner and its timer is over, as of the first process, which made itself active. Who gave its state away is passive and in a handover until it exits; an owner and who gave is in no
-- takeover, and an owner that took nothing over asks for nothing.
abbrev pub Local : Manager → Type 0
Local m =
    (m.stateful ≡ true)
    × ((is_given m.handover_id || (not (is_armed m.timer) && (m.active || is_given m.source_peer)))
        ≡ true)
    × (m.force_start ≡ false)
    × (m.activations ≡ 0)
    × ((is_given m.source_peer && not m.in_progress && not (is_exited m.source_exit)) ≡ false)
    × ((is_given m.source_peer && m.active) ≡ false)
    × (((is_given m.source_peer || m.active) && is_open m.target) ≡ false)
    × ((m.active && is_idle m.target && m.requesting) ≡ false)
    × Holds m
    × (is_accepted m.target ≡ is_given m.accepted_state_digest)
    × Sent m m.outputs

-- The input is a fin under the identifier.
abbrev pub IsFin : Option String → Message → Option Body → Type 0
IsFin id message none = ⊥
IsFin id message (some body) = (body.kind ≡ "handover_fin") × (get_handover_id body message ≡ id)

abbrev pub BringsFin : Option String → Input → Type 0
BringsFin id (arrives e exported) = IsFin id e.message e.message.body
BringsFin id _ = ⊥

-- How one input changes the part a process plays.
pub data Move (i : Input) (m m' : Manager) : Type 0 where
  rests : stage m' ≡ stage m → fin_id m' ≡ fin_id m → Move i m m'
  starts : BringsFin m.handover_id i → stage m ≡ waits → stage m' ≡ takes → Move i m m'
  returns : stage m ≡ takes → stage m' ≡ waits → Move i m m'
  wins : stage m ≡ takes → stage m' ≡ owns → Move i m m'
  loses : stage m ≡ takes → stage m' ≡ fails → Move i m m'
  gives : stage m ≡ owns → stage m' ≡ gave → Move i m m'

abbrev pub Kept : Input → Manager → Manager → Type 0
Kept i m m' = Local m' × (m'.handover_id ≡ m.handover_id) × Move i m m'
