-- ===== src/Handover/Local/Baseline.antt =====
-- A handed over state is imported at most once, however often its fin arrives.
use uns_kit.Kit.{
  ◌≤◌, ◌≡◌, refl, ap, true, not, ◌&&◌, ◌||◌, Option, none, some, List, [], ◌∷◌, ◌++◌, String, ◌===◌,
  ltb, if_both, arith, Result, err, ok,
}
use uns_kit.AppState.{Json}
use uns_kit.HandoverState.{HandoverState, Codec}
use uns_kit.Topics.Builder.{handover_topic}
use uns_kit.Handover.{
  Body, Message, Event, Proxy, cleared, HandoverRequest, SourceExit, staying, draining, exited,
  TargetPreparation, idle, checking, applying, accepted, stuck, Output, published, emitted,
  activated, publisher_active, imported, Manager, put,
}
use uns_kit.Handover.Messages.{
  is_given, same_text, or_empty, get_handover_id, handover_topic_of, parse_active_value,
  accepts_handover_response, handover_message, handover_payload,
}
use uns_kit.Handover.Source.{
  consider, check_request, request_of, is_repeated, handle_request, review_done, all_ready,
  source_prepared, fin_retry, begin_exit, is_stranger, is_other_migration, is_other_state,
  handle_ack, source_drained,
}
use uns_kit.Handover.Target.{
  publishers_active, subscribers_active, deactivate_application, activate_named, acks,
  ignores_subscriber, handle_subscriber, accept_prepared_state, begin_checking, join_preparation,
  handle_stateful_fin, handle_stateless_fin, handle_fin, apply_checked, cursors_prepared,
  Activation, give_up, succeed, finish_activation, target_activated,
}
use uns_kit.Handover.Handle.{
  Input, arrives, timeout, activation, due, retry, reviewed, prepared, fin_tick, cursors, activates,
  drained, active_timeout, publish_intent, observe_active, is_observed, is_other_protocol,
  is_refused, handle_response, handle_body, handle_handover, is_own, deliver, handle_message,
  is_true, request_due, request_retry, react, react_unless, step,
}
use uns_kit.Handover.Local.Takes.{if_ok-either}
use uns_kit.Handover.Local.Once.{
  imports, credit, Once, imports-append, imports-map, Once-put, imports_two, imports-acks,
  imports-activate_named,
}
use uns_kit.Handover.Local.Imports.{
  opened_outputs, subscribed_outputs, begin_activation-Once, promote-Once, deactivate-Once,
  activation_done-Once, first_request-Once, repeat_request-Once, accept_request-Once,
  finish_review-Once, finish_preparation-Once, repeat_fin-Once, finish_exit-Once,
}

-- An import takes the credit.
apply_checked-Once :
    (m : Manager) (t : TargetPreparation) (r : Result (Unit {0}))
    → m.target ≡ t
    → Once m
    → Once (apply_checked t r m)
unfolding imports
apply_checked-Once m (checking state digest) (err message) same h =
    let held : credit m.target ≡ 1 = ap credit same in omega (arith, h, held)
apply_checked-Once m (checking state digest) (ok done) same h =
    let held : credit m.target ≡ 1 = ap credit same in
    omega (arith, imports-append m.outputs (imported state ∷ []), h, held)
apply_checked-Once m idle r same h = h
apply_checked-Once m (applying state digest) r same h = h
apply_checked-Once m accepted r same h = h
apply_checked-Once m stuck r same h = h

give_up-Once : (m : Manager) → Once m → Once (give_up m)
give_up-Once m h = omega (arith, h)

finish_activation-Once :
    (m : Manager) (t : TargetPreparation) (a : Activation) → Once m → Once (finish_activation t a m)
unfolding imports
finish_activation-Once m (applying state digest) a h =
    let opened : Manager = put (publishers_active m ++ activated ∷ []) m in
    let o : Once opened = Once-put m (publishers_active m ++ activated ∷ []) (opened_outputs m) h in
    if_ok-either Once a.imported_ok (give_up m) _ (give_up-Once m h) (
      if_ok-either Once a.activated_ok (give_up (deactivate_application opened)) _
        (give_up-Once (deactivate_application opened) (deactivate-Once opened o))
        (if_ok-either Once a.resumed_ok (give_up (deactivate_application opened))
          (succeed digest opened)
          (give_up-Once (deactivate_application opened) (deactivate-Once opened o)) (won opened o)))
  where
    won : (m' : Manager) → Once m' → Once (succeed digest m')
    won m' k =
        let now : Manager = record m' {
          target = accepted;
          accepted_state_digest = some digest;
          active = true;
          waiting = [];
        } in
        Once-put now (emitted true ∷ acks now m'.waiting) (imports-acks now m'.waiting)
          (omega (arith, k))
finish_activation-Once m (checking state digest) a h = h
finish_activation-Once m idle a h = h
finish_activation-Once m accepted a h = h
finish_activation-Once m stuck a h = h

handle_request-Once :
    (codec : Codec) (exported : Result Json) (body : Body) (message : Message) (m : Manager)
    → Once m
    → Once (handle_request codec exported body message m)
unfolding handle_request imports
handle_request-Once codec exported body message m h =
    if_both Once (is_repeated body message m) _ _ (Once-put m _ refl h) (
      if_both Once (is_given m.source_peer || not m.active) m _ h (
        considered
          (request_of message.process_id (get_handover_id body message) message.response_topic)))
  where
    considered : (o : Option HandoverRequest) → Once (consider codec exported body o m)
    considered none = h
    considered (some r) =
        if_both Once m.stateful _ _
          (if_ok-either Once (check_request codec exported body m) _ _ h
            (if_both Once (is_given m.review) m (record m { review = some r }) h h))
          (accept_request-Once r m h)

join_preparation-Once :
    (codec : Codec) (body : Body) (fin : Message) (t : TargetPreparation) (m : Manager)
    → m.target ≡ t
    → Once m
    → Once (join_preparation codec body fin t m)
join_preparation-Once codec body fin idle m same h = begun (accept_prepared_state codec body m)
  where
    begun : (r : Result (HandoverState × String)) → Once (begin_checking fin r m)
    begun (err message) = h
    begun (ok (state, digest)) =
        let held : credit m.target ≡ 1 = ap credit same in omega (arith, h, held)
join_preparation-Once codec body fin (checking state digest) m same h = h
join_preparation-Once codec body fin (applying state digest) m same h = h
join_preparation-Once codec body fin accepted m same h =
    Once-put m (acks m (fin ∷ [])) (imports-acks m (fin ∷ [])) h
join_preparation-Once codec body fin stuck m same h = h

handle_stateless_fin-Once :
    (body : Body) (message : Message) (m : Manager)
    → Once m
    → Once (handle_stateless_fin body message m)
unfolding handle_stateless_fin imports
handle_stateless_fin-Once body message m h =
    let id = get_handover_id body message in
    let opens : List Output = publishers_active m ++ subscribers_active m in
    let reply : List Output =
      published (
        handover_message m (or_empty message.response_topic) id (some (handover_topic m.topics))
          (handover_payload m "handover_ack" id))
      ∷ [] in
    if_both Once (is_given m.source_peer || not (accepts_handover_response m id)) m
      (put (emitted true ∷ (opens ++ reply)) (record m { active = true })) h
      (Once-put (record m { active = true }) (emitted true ∷ (opens ++ reply))
        (imports_two opens reply
          (imports_two (publishers_active m) (subscribers_active m)
            (imports-map (λ (x : Proxy). publisher_active x.instance_name) (λ x. refl) m.proxies)
            (subscribed_outputs m))
          refl)
        h)

handle_fin-Once :
    (codec : Codec) (body : Body) (message : Message) (m : Manager)
    → Once m
    → Once (handle_fin codec body message m)
unfolding handle_fin handle_stateful_fin
handle_fin-Once codec body message m h =
    if_both Once m.stateful _ _
      (if_both Once
        (is_given m.source_peer
          || not m.requesting
          || not (same_text (get_handover_id body message) m.handover_id)
          || not (same_text message.process_id m.expected_source))
        m _ h
        (if_both Once
          (is_given m.accepted_state_digest
            && not (same_text body.state_digest m.accepted_state_digest))
          m _ h
          (join_preparation-Once codec body message m.target (record m { request_retries = none })
            refl h)))
      (handle_stateless_fin-Once body message m h)

handle_ack-Once :
    (body : Body) (message : Message) (m : Manager) → Once m → Once (handle_ack body message m)
unfolding handle_ack
handle_ack-Once body message m h =
    let id = get_handover_id body message in
    if_both Once (is_stranger message m) m _ h (
      if_both Once (is_other_migration id m) m _ h
        (if_both Once (is_other_state id body.state_digest m) m _ h (begun m.source_exit)))
  where
    begun : (e : SourceExit) → Once (begin_exit e m)
    begun staying = h
    begun draining = h
    begun (exited status) = h

handle_response-Once :
    (codec : Codec) (exported : Result Json) (e : Event) (body : Body) (m : Manager)
    → Once m
    → Once (handle_response codec exported e body m)
unfolding handle_response handle_subscriber
handle_response-Once codec exported e body m h = if_both Once (is_other_protocol body m) m _ h (
    if_both Once (is_refused body e m) m _ h (
      if_both Once (body.kind === "handover_request") _ _
        (handle_request-Once codec exported body e.message m h)
        (if_both Once (body.kind === "handover_subscriber") _ _
          (if_both Once (ignores_subscriber body e.message m) m _ h
            (Once-put m (activate_named body m.proxies) (imports-activate_named body m.proxies) h))
          (if_both Once (body.kind === "handover_fin") _ _
            (handle_fin-Once codec body e.message m h)
            (if_both Once (body.kind === "handover_ack") _ m (handle_ack-Once body e.message m h)
              h)))))

deliver-Once :
    (codec : Codec) (exported : Result Json) (e : Event) (m : Manager)
    → Once m
    → Once (deliver codec exported e m)
unfolding handle_handover
deliver-Once codec exported e m h =
    if_both Once
      ((e.message.topic === handover_topic m.topics) && m.handover_enabled && not (is_own e m)) _ m
      (if_both Once (ltb 1100000 e.size) m _ h (read e.message.body)) h
  where
    read : (o : Option Body) → Once (handle_body codec exported e o m)
    read none = h
    read (some body) = handle_response-Once codec exported e body m h

observe_active-Once : (e : Event) (m : Manager) → Once m → Once (observe_active e m)
unfolding observe_active imports
observe_active-Once e m h = if_both Once e.retain _ _ h (
    if_both Once (m.request_enabled && m.handover_enabled) _ _
      (intended (handover_topic_of e.message.topic))
      (if_both Once m.force_start _ _ (begin_activation-Once (record m { timer = cleared }) h) h))
  where
    asking : Manager
    asking =
        put (emitted m.active ∷ [])
          (record m { timer = cleared; requesting = true; expected_source = e.message.process_id })

    asks : Once asking
    asks =
        Once-put
          (record m { timer = cleared; requesting = true; expected_source = e.message.process_id })
          (emitted m.active ∷ []) refl h

    intended : (topic : Result String) → Once (publish_intent topic asking)
    intended (err message) = asks
    intended (ok topic) =
        Once-put (record asking { asking = some topic; request_pending = true }) _ refl asks

handle_message-Once :
    (codec : Codec) (exported : Result Json) (e : Event) (m : Manager)
    → Once m
    → Once (handle_message codec exported e m)
unfolding handle_message
handle_message-Once codec exported e m h =
    let seen : Once (observe_active e m) = observe_active-Once e m h in
    if_both Once (is_observed e m) _ _
      (if_both Once (is_own e m || not (is_true (parse_active_value e.message.body))) m _ h (
        if_both Once e.retain (observe_active e m) (deliver codec exported e (observe_active e m))
          seen (deliver-Once codec exported e (observe_active e m) seen)))
      (deliver-Once codec exported e m h)

react-Once : (codec : Codec) (i : Input) (m : Manager) → Once m → Once (react codec i m)
unfolding active_timeout request_due request_retry review_done source_prepared fin_retry
    cursors_prepared target_activated source_drained
react-Once codec (arrives e exported) m h = handle_message-Once codec exported e m h
react-Once codec timeout m h = promote-Once m m.timer h
react-Once codec (activation r) m h = activation_done-Once r m h
react-Once codec (due offer) m h = first_request-Once m m.request_pending offer h
react-Once codec (retry offer) m h = repeat_request-Once m m.request_retries offer h
react-Once codec (reviewed answers) m h = finish_review-Once m.review (all_ready answers) m h
react-Once codec (prepared p) m h = finish_preparation-Once codec p m.request m.preparation m h
react-Once codec fin_tick m h = repeat_fin-Once m.fin_retries m.request m h
react-Once codec (cursors r) m h = apply_checked-Once m m.target r refl h
react-Once codec (activates a) m h = finish_activation-Once m m.target a h
react-Once codec (drained end) m h = finish_exit-Once m.source_exit end m h

step-Once : (codec : Codec) (i : Input) (m : Manager) → Once m → Once (step codec i m)
unfolding step
step-Once codec i m h = unless m.source_exit
  where
    unless : (e : SourceExit) → Once (react_unless e codec i m)
    unless (exited status) = h
    unless staying = react-Once codec i m h
    unless draining = react-Once codec i m h

-- What comes of a process under any inputs.
unfoldable pub run_inputs : Codec → List Input → Manager → Manager
unfolding step
run_inputs codec [] m = m
run_inputs codec (i ∷ is) m = run_inputs codec is (step codec i m)

run_inputs-Once :
    (codec : Codec) (is : List Input) (m : Manager) → Once m → Once (run_inputs codec is m)
unfolding run_inputs
run_inputs-Once codec [] m h = h
run_inputs-Once codec (i ∷ is) m h =
    run_inputs-Once codec is (step codec i m) (step-Once codec i m h)

-- From its start, under any inputs, a process imports a handed over state at most once.
pub imports-run_inputs :
    (codec : Codec) (is : List Input) (m : Manager)
    → m.outputs ≡ []
    → m.target ≡ idle
    → imports (run_inputs codec is m).outputs ≤ 1
unfolding imports
imports-run_inputs codec is m silent waiting =
    let no_imports : imports m.outputs ≡ 0 = ap imports silent in
    let one_left : credit m.target ≡ 1 = ap credit waiting in
    let h : Once (run_inputs codec is m) =
      run_inputs-Once codec is m (omega (arith, no_imports, one_left)) in
    omega (arith, h)
