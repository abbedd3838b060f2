-- ===== src/Handover/Local/Acks.antt =====
-- Only an acknowledgement of the prepared state lets a source begin to leave.
use mathlib.Core.Path.{subst}
use uns_kit.Kit.{
  ◌≡◌, refl, sym, ◌∙◌, inr, true, false, not, ◌&&◌, ◌||◌, Option, none, some, [], ◌∷◌, String,
  ◌===◌, eq_iff, ltb, if_each, if_both, arith, Result, err, ok,
}
use uns_kit.AppState.{Json}
use uns_kit.HandoverState.{Codec}
use uns_kit.Topics.Builder.{handover_topic}
use uns_kit.Handover.{
  Body, Message, Event, cleared, SourceExit, staying, draining, exited, emitted, Manager, put,
}
use uns_kit.Handover.Messages.{
  is_given, same_text, get_handover_id, handover_topic_of, parse_active_value,
}
use uns_kit.Handover.Source.{
  review_done, all_ready, source_prepared, fin_retry, begin_exit, is_stranger, is_other_migration,
  is_other_state, handle_ack, source_drained,
}
use uns_kit.Handover.Target.{
  ignores_subscriber, handle_subscriber, cursors_prepared, target_activated,
}
use uns_kit.Handover.Handle.{
  Input, arrives, timeout, activation, due, retry, reviewed, prepared, fin_tick, cursors, activates,
  drained, active_timeout, publish_intent, observe_active, is_observed, is_other_protocol,
  is_refused, handle_response, handle_body, handle_handover, is_own, deliver, handle_message,
  is_true, request_due, request_retry, react, react_unless, step,
}
use uns_kit.Handover.Local.{Local}
use uns_kit.Handover.Local.Sends.{same_text-eq}
use uns_kit.Handover.Local.Exits.{
  Settled, Stays, IsAck, BringsAck, Leaves, Grows, Stays-same, still, promote-Grows,
  activation_done-Grows, first_request-Grows, repeat_request-Grows, finish_review-Grows,
}
use uns_kit.Handover.Local.Digests.{
  finish_preparation-Grows, repeat_fin-Grows, apply_checked-Grows, finish_activation-Grows,
  finish_exit-Grows, handle_request-Grows, handle_fin-Grows,
}

begin_exit-Grows :
    (i : Input) (m : Manager) (e : SourceExit)
    → m.source_exit ≡ e
    → BringsAck m.state_digest i
    → Settled m
    → Grows i m (begin_exit e m)
begin_exit-Grows i m staying now brings j =
    (j, Stays-same m.accepted_state_digest, Stays-same m.state_digest, inr brings)
begin_exit-Grows i m draining now brings j = still i m j
begin_exit-Grows i m (exited status) now brings j = still i m j

other_state :
    (body : Body) (id : Option String) (m : Manager)
    → is_other_state id body.state_digest m ≡ false
    → m.stateful ≡ true
    → (same_text body.state_digest m.state_digest ≡ true) × (is_given m.state_digest ≡ true)
other_state body id m h st = (ground arith, ground arith)

handle_ack-Grows :
    (i : Input) (body : Body) (message : Message) (m : Manager)
    → (body.state_digest ≡ m.state_digest
        → is_given m.state_digest ≡ true
        → BringsAck m.state_digest i)
    → m.stateful ≡ true
    → Settled m
    → Grows i m (handle_ack body message m)
unfolding handle_ack
handle_ack-Grows i body message m brings st j =
    let id = get_handover_id body message in
    if_both (Grows i m) (is_stranger message m) m _ (still i m j) (
      if_both (Grows i m) (is_other_migration id m) m _ (still i m j) (
        if_each (Grows i m) (is_other_state id body.state_digest m) m _ (λ t. still i m j)
          (λ f.
            let (same, given) = other_state body id m f st in
            begin_exit-Grows i m m.source_exit refl
              (brings (same_text-eq body.state_digest m.state_digest same) given) j)))

brought_ack :
    (e : Event) (exported : Result Json) (body : Body) (digest : Option String)
    → e.message.body ≡ some body
    → body.kind ≡ "handover_ack"
    → body.state_digest ≡ digest
    → is_given digest ≡ true
    → BringsAck digest (arrives e exported)
brought_ack e exported body digest read kind same given =
    subst (IsAck digest) (sym read) (kind, same, given)

handle_response-Grows :
    (codec : Codec) (exported : Result Json) (e : Event) (body : Body) (m : Manager)
    → e.message.body ≡ some body
    → m.stateful ≡ true
    → Settled m
    → Grows (arrives e exported) m (handle_response codec exported e body m)
unfolding handle_response handle_subscriber
handle_response-Grows codec exported e body m read st j =
    let i : Input = arrives e exported in
    if_both (Grows i m) (is_other_protocol body m) m _ (still i m j) (
      if_both (Grows i m) (is_refused body e m) m _ (still i m j) (
        if_both (Grows i m) (body.kind === "handover_request") _ _
          (handle_request-Grows codec exported i body e.message m j)
          (if_both (Grows i m) (body.kind === "handover_subscriber") _ _
            (if_both (Grows i m) (ignores_subscriber body e.message m) m _ (still i m j)
              (still i m j))
            (if_both (Grows i m) (body.kind === "handover_fin") _ _
              (handle_fin-Grows codec i body e.message m j)
              (if_each (Grows i m) (body.kind === "handover_ack") _ m
                (λ t.
                  handle_ack-Grows i body e.message m
                    (brought_ack e exported body m.state_digest read
                      ((eq_iff body.kind "handover_ack").0 t))
                    st j)
                (λ f. still i m j))))))

deliver-Grows :
    (codec : Codec) (exported : Result Json) (e : Event) (m : Manager)
    → m.stateful ≡ true
    → Settled m
    → Grows (arrives e exported) m (deliver codec exported e m)
unfolding handle_handover
deliver-Grows codec exported e m st j =
    let i : Input = arrives e exported in
    if_both (Grows i m)
      ((e.message.topic === handover_topic m.topics) && m.handover_enabled && not (is_own e m)) _ m
      (if_both (Grows i m) (ltb 1100000 e.size) m _ (still i m j) (read e.message.body refl))
      (still i m j)
  where
    read :
        (o : Option Body)
        → e.message.body ≡ o
        → Grows (arrives e exported) m (handle_body codec exported e o m)
    read none given = still (arrives e exported) m j
    read (some body) given = handle_response-Grows codec exported e body m given st j

-- What observing a heartbeat leaves as it is.
abbrev Unchanged : Manager → Manager → Type 0
Unchanged m m' =
    (m'.state_digest ≡ m.state_digest)
    × (m'.accepted_state_digest ≡ m.accepted_state_digest)
    × (m'.source_exit ≡ m.source_exit)
    × (m'.stateful ≡ m.stateful)
    × Settled m'

observe_active-Unchanged : (e : Event) (m : Manager) → Settled m → Unchanged m (observe_active e m)
unfolding observe_active
observe_active-Unchanged e m j =
    if_both (Unchanged m) e.retain _ _ (refl, refl, refl, refl, j)
      (if_both (Unchanged m) (m.request_enabled && m.handover_enabled) _ _
        (intended (handover_topic_of e.message.topic))
        (if_both (Unchanged m) m.force_start _ _ (refl, refl, refl, refl, j)
          (refl, refl, refl, refl, j)))
  where
    intended :
        (topic : Result String)
        → Unchanged m (
            publish_intent topic (
              put (emitted m.active ∷ []) (record m {
                timer = cleared;
                requesting = true;
                expected_source = e.message.process_id;
              })))
    intended (err message) = (refl, refl, refl, refl, j)
    intended (ok topic) = (refl, refl, refl, refl, j)

after_Unchanged : (i : Input) (m m' m'' : Manager) → Unchanged m m' → Grows i m' m'' → Grows i m m''
after_Unchanged i m m' m'' (sd, acc, e, st, j) (k, a, b, l) = (
  k,
  subst (λ (o : Option String). Stays o m''.accepted_state_digest) acc a,
  subst (λ (o : Option String). Stays o m''.state_digest) sd b,
  subst (λ (o : Option String). Leaves i o m.source_exit m''.source_exit) sd
      (subst (λ (x : SourceExit). Leaves i m'.state_digest x m''.source_exit) e l),
)

handle_message-Grows :
    (codec : Codec) (exported : Result Json) (e : Event) (m : Manager)
    → m.stateful ≡ true
    → Settled m
    → Grows (arrives e exported) m (handle_message codec exported e m)
unfolding handle_message
handle_message-Grows codec exported e m st j =
    let i : Input = arrives e exported in
    let u : Unchanged m (observe_active e m) = observe_active-Unchanged e m j in
    if_both (Grows i m) (is_observed e m) _ _
      (if_both (Grows i m) (is_own e m || not (is_true (parse_active_value e.message.body))) m _
        (still i m j)
        (if_both (Grows i m) e.retain (observe_active e m)
          (deliver codec exported e (observe_active e m))
          (after_Unchanged i m (observe_active e m) (observe_active e m) u
            (still i (observe_active e m) u.4))
          (after_Unchanged i m (observe_active e m) (deliver codec exported e (observe_active e m))
            u (deliver-Grows codec exported e (observe_active e m) (u.3 ∙ st) u.4))))
      (deliver-Grows codec exported e m st j)

react-Grows :
    (codec : Codec) (i : Input) (m : Manager) → Local m → Settled m → Grows i m (react codec i m)
unfolding active_timeout request_due request_retry review_done source_prepared fin_retry
    cursors_prepared target_activated source_drained
react-Grows codec (arrives e exported) m h j = handle_message-Grows codec exported e m h.0 j
react-Grows codec timeout m h j = promote-Grows timeout m m.timer j
react-Grows codec (activation r) m h j = activation_done-Grows (activation r) m r j
react-Grows codec (due offer) m h j = first_request-Grows (due offer) m m.request_pending offer j
react-Grows codec (retry offer) m h j =
    repeat_request-Grows (retry offer) m m.request_retries offer j
react-Grows codec (reviewed answers) m h j =
    finish_review-Grows (reviewed answers) m.review (all_ready answers) m j
react-Grows codec (prepared p) m h j =
    finish_preparation-Grows codec (prepared p) m p m.request m.preparation refl h.0 h.8.0 j
react-Grows codec fin_tick m h j = repeat_fin-Grows fin_tick m m.fin_retries m.request j
react-Grows codec (cursors r) m h j = apply_checked-Grows (cursors r) m m.target r j
react-Grows codec (activates act) m h j =
    finish_activation-Grows (activates act) m m.target act refl h j
react-Grows codec (drained end) m h j = finish_exit-Grows (drained end) m m.source_exit end refl j

-- Every input leaves the digests that are set, and starts no leaving but by an acknowledgement of the state.
pub step-Grows :
    (codec : Codec) (i : Input) (m : Manager) → Local m → Settled m → Grows i m (step codec i m)
unfolding step
step-Grows codec i m h j = unless m.source_exit
  where
    unless : (e : SourceExit) → Grows i m (react_unless e codec i m)
    unless (exited status) = still i m j
    unless staying = react-Grows codec i m h j
    unless draining = react-Grows codec i m h j
