-- ===== src/Handover/Local/Arrivals.antt =====
-- A message that arrives keeps the part a process plays, or changes it the way one input may.
use uns_kit.Kit.{
  ◌≡◌, refl, ap, sym, ◌∙◌, true, false, not, ◌&&◌, ◌||◌, Option, none, some, [], ◌∷◌, String, ◌===◌,
  eq_iff, ltb, if_each, if_both, arith, Result, err, ok, inl,
}
use mathlib.Core.Path.{subst}
use uns_kit.AppState.{Json}
use uns_kit.HandoverState.{Codec}
use uns_kit.Topics.Builder.{handover_topic}
use uns_kit.Handover.{
  Body, Message, Event, HandoverRequest, SourceExit, staying, draining, exited, emitted, Manager,
  put, cleared,
}
use uns_kit.Handover.Messages.{
  is_given, or_empty, get_handover_id, handover_payload, handover_message, handover_topic_of,
  parse_active_value,
}
use uns_kit.Handover.Source.{
  check_request, consider, request_of, is_repeated, handle_request, begin_exit, handle_ack,
  is_stranger, is_other_migration, is_other_state,
}
use uns_kit.Handover.Target.{handle_subscriber, handle_fin, ignores_subscriber}
use uns_kit.Handover.Handle.{
  Input, arrives, publish_intent, intend, observe_active, is_observed, handle_response, handle_body,
  handle_handover, is_own, is_other_protocol, is_refused, deliver, handle_message, is_true, refresh,
}
use uns_kit.Handover.Local.{
  Local, Kept, Move, rests, starts, returns, wins, loses, gives, BringsFin, IsFin, is_exited,
}
use uns_kit.Handover.Local.Sends.{
  Rest, Rest-put, Local-put, Rest-same, Rest-Kept, state_message-Safe,
}
use uns_kit.Handover.Local.Gives.{accept_request-Kept}
use uns_kit.Handover.Local.Takes.{handle_stateful_fin-Kept, if_ok-either}

same : (i : Input) (m : Manager) → Local m → Kept i m m
same i m h = Rest-Kept i m m (Rest-same m h)

consider-Kept :
    (codec : Codec) (exported : Result Json) (i : Input) (body : Body) (o : Option HandoverRequest)
    (m : Manager)
    → is_given m.source_peer ≡ false
    → m.active ≡ true
    → Local m
    → Kept i m (consider codec exported body o m)
consider-Kept codec exported i body none m alone active h = same i m h
consider-Kept codec exported i body (some r) m alone active h =
    if_both (Kept i m) m.stateful _ _
      (if_ok-either (Kept i m) (check_request codec exported body m) _ _ (same i m h) (
        if_both (Kept i m) (is_given m.review) m (record m { review = some r }) (same i m h)
          (h, refl, rests refl refl)))
      (accept_request-Kept i r m alone active h)

repeated_given :
    (m : Manager) (body : Body) (message : Message)
    → is_repeated body message m ≡ true
    → Local m
    → is_given m.source_peer ≡ true
repeated_given m body message t (a, b, c, d, e, f, g, q, (k, prepared), l, sent) = ground arith

handle_request-Kept :
    (codec : Codec) (exported : Result Json) (i : Input) (body : Body) (message : Message)
    (m : Manager)
    → Local m
    → Kept i m (handle_request codec exported body message m)
unfolding handle_request
handle_request-Kept codec exported i body message m h =
    if_each (Kept i m) (is_repeated body message m) _ _
      (λ t. Rest-Kept i m (put _ m) (
        Rest-put m _ h (
          state_message-Safe m (or_empty message.response_topic) m.accepted_id
              m.accepted_state_digest (repeated_given m body message t h) refl,
          tt,
        )))
      (λ f.
        if_each (Kept i m) (is_given m.source_peer || not m.active) m _ (λ t. same i m h)
          (λ g.
            consider-Kept codec exported i body
              (request_of message.process_id (get_handover_id body message) message.response_topic)
              m (ground arith) (ground arith) h))

handle_subscriber-Kept :
    (i : Input) (body : Body) (message : Message) (m : Manager)
    → Local m
    → Kept i m (handle_subscriber body message m)
unfolding handle_subscriber
handle_subscriber-Kept i body message m h =
    if_each (Kept i m) (ignores_subscriber body message m) m _ (λ t. same i m h)
      (λ f. absurd (ground (arith, h.0)))

handle_fin-Kept :
    (codec : Codec) (i : Input) (body : Body) (message : Message) (m : Manager)
    → (get_handover_id body message ≡ m.handover_id → BringsFin m.handover_id i)
    → Local m
    → Kept i m (handle_fin codec body message m)
unfolding handle_fin
handle_fin-Kept codec i body message m brings h =
    if_each (Kept i m) m.stateful _ _
      (λ t. handle_stateful_fin-Kept codec i body message m brings h)
      (λ f. absurd (ground (arith, h.0)))

begin_exit-Kept :
    (i : Input) (e : SourceExit) (m : Manager)
    → m.source_exit ≡ e
    → Local m
    → Kept i m (begin_exit e m)
begin_exit-Kept i staying m now (a, b, c, d, e, f, g, q, k, l, sent) =
    let stays : is_exited m.source_exit ≡ false = ap is_exited now in
    ((a, b, c, d, ground (arith, e, stays), f, g, q, k, l, sent), refl, rests refl refl)
begin_exit-Kept i draining m now h = (h, refl, rests refl refl)
begin_exit-Kept i (exited status) m now h = same i m h

handle_ack-Kept :
    (i : Input) (body : Body) (message : Message) (m : Manager)
    → Local m
    → Kept i m (handle_ack body message m)
unfolding handle_ack
handle_ack-Kept i body message m h =
    let id = get_handover_id body message in
    if_both (Kept i m) (is_stranger message m) m _ (same i m h) (
      if_both (Kept i m) (is_other_migration id m) m _ (same i m h) (
        if_both (Kept i m) (is_other_state id body.state_digest m) m _ (same i m h)
          (begin_exit-Kept i m.source_exit m refl h)))

brought :
    (e : Event) (body : Body) (id : Option String)
    → e.message.body ≡ some body
    → body.kind ≡ "handover_fin"
    → get_handover_id body e.message ≡ id
    → IsFin id e.message e.message.body
brought e body id read kind same_id = subst (IsFin id e.message) (sym read) (kind, same_id)

-- A handler of one kind of message, under the test of the kind.
handle_response-Kept :
    (codec : Codec) (exported : Result Json) (e : Event) (body : Body) (m : Manager)
    → e.message.body ≡ some body
    → Local m
    → Kept (arrives e exported) m (handle_response codec exported e body m)
unfolding handle_response
handle_response-Kept codec exported e body m read h =
    let i : Input = arrives e exported in
    if_both (Kept i m) (is_other_protocol body m) m _ (same i m h) (
      if_both (Kept i m) (is_refused body e m) m _ (same i m h) (
        if_both (Kept i m) (body.kind === "handover_request") _ _
          (handle_request-Kept codec exported i body e.message m h)
          (if_both (Kept i m) (body.kind === "handover_subscriber") _ _
            (handle_subscriber-Kept i body e.message m h)
            (if_each (Kept i m) (body.kind === "handover_fin") _ _
              (λ t.
                handle_fin-Kept codec i body e.message m
                  (λ id.
                    brought e body m.handover_id read ((eq_iff body.kind "handover_fin").0 t) id)
                  h)
              (λ f.
                if_both (Kept i m) (body.kind === "handover_ack") _ m
                  (handle_ack-Kept i body e.message m h) (same i m h))))))

handle_body-Kept :
    (codec : Codec) (exported : Result Json) (e : Event) (o : Option Body) (m : Manager)
    → e.message.body ≡ o
    → Local m
    → Kept (arrives e exported) m (handle_body codec exported e o m)
handle_body-Kept codec exported e none m read h = same (arrives e exported) m h
handle_body-Kept codec exported e (some body) m read h =
    handle_response-Kept codec exported e body m read h

handle_handover-Kept :
    (codec : Codec) (exported : Result Json) (e : Event) (m : Manager)
    → Local m
    → Kept (arrives e exported) m (handle_handover codec exported e m)
unfolding handle_handover
handle_handover-Kept codec exported e m h =
    if_both (Kept (arrives e exported) m) (ltb 1100000 e.size) m _ (same (arrives e exported) m h)
      (handle_body-Kept codec exported e e.message.body m refl h)

deliver-Kept :
    (codec : Codec) (exported : Result Json) (e : Event) (m : Manager)
    → Local m
    → Kept (arrives e exported) m (deliver codec exported e m)
deliver-Kept codec exported e m h =
    if_both (Kept (arrives e exported) m)
      ((e.message.topic === handover_topic m.topics) && m.handover_enabled && not (is_own e m)) _ m
      (handle_handover-Kept codec exported e m h) (same (arrives e exported) m h)

publish_intent-Rest :
    (m : Manager) (topic : Result String) → Local m → Rest m (publish_intent topic m)
unfolding handover_message handover_payload
publish_intent-Rest m (err message) h = Rest-same m h
publish_intent-Rest m (ok topic) h =
    Rest-put (record m { asking = some topic; request_pending = true }) _ h
      ((inl refl, inl refl), tt)

observed_parts :
    (e : Event) (m : Manager)
    → is_observed e m ≡ true
    → (m.requesting ≡ false) × (m.active ≡ false) × (m.in_progress ≡ false)
observed_parts e m seen = (ground arith, ground arith, ground arith)

-- Asking starts only while the process is passive.
asking-Local :
    (m : Manager) (source : Option String)
    → m.active ≡ false
    → Local m
    → Local (record m { timer = cleared; requesting = true; expected_source = source })
asking-Local m source passive (a, b, c, d, e, f, g, q, k, l, sent) =
    (a, ground (arith, b), c, d, e, f, g, ground (arith, passive), k, l, sent)

intend-Rest :
    (m : Manager) (topic : String) (source : Option String)
    → m.active ≡ false
    → Local m
    → Rest m (intend topic source m)
intend-Rest m topic source passive h =
    publish_intent-Rest
      (put (emitted m.active ∷ [])
        (record m { timer = cleared; requesting = true; expected_source = source }))
      (handover_topic_of topic)
      (Local-put (record m { timer = cleared; requesting = true; expected_source = source })
        (emitted m.active ∷ []) (asking-Local m source passive h) (tt, tt))

-- A passive process may arm its timer again.
refreshed-Rest :
    (m : Manager)
    → (m.requesting ≡ false) × (m.active ≡ false) × (m.in_progress ≡ false)
    → is_exited m.source_exit ≡ false
    → Local m
    → Rest m (record m { timer = refresh m.timer })
refreshed-Rest m (r, active, progress) alive (a, b, c, d, e, f, g, q, k, l, sent) = (
  (a, ground (arith, b, active, progress, alive, e), c, d, e, f, g, q, k, l, sent),
  refl,
  refl,
  refl,
)

-- A heartbeat is observed only by who is passive.
observe_active-Rest :
    (e : Event) (m : Manager)
    → is_observed e m ≡ true
    → is_exited m.source_exit ≡ false
    → Local m
    → Rest m (observe_active e m)
unfolding observe_active
observe_active-Rest e m seen alive h =
    if_both (Rest m) e.retain _ _ (refreshed-Rest m (observed_parts e m seen) alive h) (
      if_both (Rest m) (m.request_enabled && m.handover_enabled) _ _
        (intend-Rest m e.message.topic e.message.process_id (observed_parts e m seen).1 h)
        (if_each (Rest m) m.force_start _ _ (λ t. absurd (ground (arith, h.2, t)))
          (λ f. refreshed-Rest m (observed_parts e m seen) alive h)))

-- A step after one that changes no part.
after_Rest : (i : Input) (m m' m'' : Manager) → Rest m m' → Kept i m' m'' → Kept i m m''
after_Rest i m m' m'' (h, id, s, f) (h', id', move) = (h', id' ∙ id, moved move)
  where
    moved : Move i m' m'' → Move i m m''
    moved (rests a b) = rests (a ∙ s) (b ∙ f)
    moved (starts a b c) = starts (subst (λ (o : Option String). BringsFin o i) id a) (sym s ∙ b) c
    moved (returns a b) = returns (sym s ∙ a) b
    moved (wins a b) = wins (sym s ∙ a) b
    moved (loses a b) = loses (sym s ∙ a) b
    moved (gives a b) = gives (sym s ∙ a) b

pub handle_message-Kept :
    (codec : Codec) (exported : Result Json) (e : Event) (m : Manager)
    → is_exited m.source_exit ≡ false
    → Local m
    → Kept (arrives e exported) m (handle_message codec exported e m)
unfolding handle_message
handle_message-Kept codec exported e m alive h =
    let i : Input = arrives e exported in
    if_each (Kept i m) (is_observed e m) _ _
      (λ seen.
        let r : Rest m (observe_active e m) = observe_active-Rest e m seen alive h in
        if_both (Kept i m) (is_own e m || not (is_true (parse_active_value e.message.body))) m _
          (same i m h)
          (if_both (Kept i m) e.retain (observe_active e m)
            (deliver codec exported e (observe_active e m)) (Rest-Kept i m (observe_active e m) r)
            (after_Rest i m (observe_active e m) (deliver codec exported e (observe_active e m)) r
              (deliver-Kept codec exported e (observe_active e m) r.0))))
      (λ f. deliver-Kept codec exported e m h)
