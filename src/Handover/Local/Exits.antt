-- ===== src/Handover/Local/Exits.antt =====
-- A source begins to leave only on an acknowledgement of its own state, and neither an accepted digest nor the
-- digest of a prepared state changes again.
use uns_kit.Kit.{
  ℕ, ◌+◌, ◌-◌, ◌≡◌, refl, ◌⊎◌, inl, Bool, true, false, not, ◌&&◌, ◌||◌, Option, none, some, List,
  String, ◌==◌, ltb, if_each, if_both, arith, Result, err, ok,
}
use uns_kit.HandoverState.{Offer}
use uns_kit.Handover.{
  Body, ActiveTimer, cleared, armed, fired, HandoverRequest, Preparation, not_started, running,
  finished, broken, SourceExit, Manager,
}
use uns_kit.Handover.Messages.{is_given}
use uns_kit.Handover.Source.{is_staying, accept_request, finish_review, send_state}
use uns_kit.Handover.Target.{deactivate_application}
use uns_kit.Handover.Handle.{
  Input, arrives, promote, begin_activation, end_activation, activation_done, send_request,
  offer_of, ask, has_answer, first_request, repeat_request,
}

abbrev pub is_running : Preparation → Bool
is_running running = true
is_running not_started = false
is_running finished = false
is_running broken = false

-- Who has a prepared state gave it away, and no preparation runs.
abbrev pub Settled : Manager → Type 0
Settled m =
    ((is_given m.state_digest && not (is_given m.source_peer)) ≡ false)
    × ((is_given m.state_digest && is_running m.preparation) ≡ false)

-- A digest stays once it is there.
abbrev pub Stays : Option String → Option String → Type 0
Stays none after = Unit
Stays (some d) after = after ≡ some d

abbrev pub IsAck : Option String → Option Body → Type 0
IsAck digest none = ⊥
IsAck digest (some body) =
    (body.kind ≡ "handover_ack") × (body.state_digest ≡ digest) × (is_given digest ≡ true)

-- The input is an acknowledgement of the state with the digest.
abbrev pub BringsAck : Option String → Input → Type 0
BringsAck digest (arrives e exported) = IsAck digest e.message.body
BringsAck digest _ = ⊥

abbrev pub Leaves : Input → Option String → SourceExit → SourceExit → Type 0
Leaves i digest before after = (is_staying after ≡ is_staying before) ⊎ BringsAck digest i

abbrev pub Grows : Input → Manager → Manager → Type 0
Grows i m m' =
    Settled m'
    × Stays m.accepted_state_digest m'.accepted_state_digest
    × Stays m.state_digest m'.state_digest
    × Leaves i m.state_digest m.source_exit m'.source_exit

pub Stays-same : (o : Option String) → Stays o o
Stays-same none = tt
Stays-same (some d) = refl

pub Stays-none : (o o' : Option String) → is_given o ≡ false → Stays o o'
Stays-none none o' h = tt
Stays-none (some d) o' h = absurd (cc h)

pub still : (i : Input) (m : Manager) → Settled m → Grows i m m
still i m j = (j, Stays-same m.accepted_state_digest, Stays-same m.state_digest, inl refl)

pub promote-Grows :
    (i : Input) (m : Manager) (t : ActiveTimer) → Settled m → Grows i m (promote t m)
promote-Grows i m cleared j = still i m j
promote-Grows i m fired j = still i m j
promote-Grows i m armed j =
    if_both (Grows i m) (m.stateful && is_given m.handover_id) (record m { timer = fired })
      (begin_activation (record m { timer = fired })) (still i m j) (still i m j)

pub activation_done-Grows :
    (i : Input) (m : Manager) (r : Result (Unit {0})) → Settled m → Grows i m (activation_done r m)
unfolding activation_done deactivate_application
activation_done-Grows i m r j = if_both (Grows i m) (m.activations == 0) m _ (still i m j) (ended r)
  where
    ended :
        (r : Result (Unit {0}))
        → Grows i m (end_activation r (record m { activations = m.activations - 1 }))
    ended (err message) = still i m j
    ended (ok done) = still i m j

send_request-Grows :
    (i : Input) (m : Manager) (topic : String) (offer : Result (Option (List Offer)))
    → Settled m
    → Grows i m (send_request topic offer m)
send_request-Grows i m topic (err message) j = still i m j
send_request-Grows i m topic (ok offer) j = still i m j

ask-Grows :
    (i : Input) (m : Manager) (topic : Option String) (offer : Result (List Offer))
    → Settled m
    → Grows i m (ask topic offer m)
ask-Grows i m none offer j = still i m j
ask-Grows i m (some topic) offer j =
    if_both (Grows i m) (has_answer m) (record m { request_retries = none })
      (send_request topic (offer_of m offer) m) (still i m j)
      (send_request-Grows i m topic (offer_of m offer) j)

pub first_request-Grows :
    (i : Input) (m : Manager) (pending : Bool) (offer : Result (List Offer))
    → Settled m
    → Grows i m (first_request pending offer m)
first_request-Grows i m false offer j = still i m j
first_request-Grows i m true offer j =
    ask-Grows i (record m { in_progress = true; request_pending = false }) m.asking offer j

pub repeat_request-Grows :
    (i : Input) (m : Manager) (retries : Option ℕ) (offer : Result (List Offer))
    → Settled m
    → Grows i m (repeat_request retries offer m)
repeat_request-Grows i m none offer j = still i m j
repeat_request-Grows i m (some n) offer j =
    if_both (Grows i m) (ltb 15 (n + 1) || has_answer m) (record m { request_retries = none })
      (ask m.asking offer (record m { request_retries = some (n + 1) })) (still i m j)
      (ask-Grows i (record m { request_retries = some (n + 1) }) m.asking offer j)

-- Who accepts a request has no prepared state yet.
pub accept_request-Grows :
    (i : Input) (r : HandoverRequest) (m : Manager)
    → is_given m.source_peer ≡ false
    → Settled m
    → Grows i m (accept_request r m)
unfolding accept_request
accept_request-Grows i r m alone (a, b) = (
  (ground (arith, a, alone), ground (arith, a, alone)),
  Stays-same m.accepted_state_digest,
  Stays-same m.state_digest,
  inl refl,
)

pub finish_review-Grows :
    (i : Input) (o : Option HandoverRequest) (ready : Bool) (m : Manager)
    → Settled m
    → Grows i m (finish_review o ready m)
finish_review-Grows i none ready m j = still i m j
finish_review-Grows i (some r) ready m j =
    if_each (Grows i m) (not ready || is_given m.source_peer || not m.active)
      (record m { review = none }) (accept_request r (record m { review = none }))
      (λ t. still i m j)
      (λ f. accept_request-Grows i r (record m { review = none }) (ground (arith, f)) j)

pub send_state-Grows :
    (i : Input) (m : Manager) (digest : String) (sent : Result (Unit {0})) (r : HandoverRequest)
    (m' : Manager)
    → is_given m.state_digest ≡ false
    → is_given m'.source_peer ≡ true
    → m'.state_digest ≡ some digest
    → Stays m.accepted_state_digest m'.accepted_state_digest
    → is_staying m'.source_exit ≡ is_staying m.source_exit
    → Grows i m (send_state sent r m')
send_state-Grows i m digest (err message) r m' none_yet given now acc e = (
  (ground (arith, given), ground arith),
  acc,
  Stays-none m.state_digest m'.state_digest none_yet,
  inl e,
)
send_state-Grows i m digest (ok done) r m' none_yet given now acc e = (
  (ground (arith, given), ground arith),
  acc,
  Stays-none m.state_digest m'.state_digest none_yet,
  inl e,
)
