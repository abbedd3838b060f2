-- ===== src/Handover/Handle.antt =====
-- The entry points of the manager: its messages, its timers and the ends of what it awaits.
use uns_kit.Kit.{
  ℕ, ◌+◌, ◌-◌, Bool, true, false, not, ◌&&◌, ◌||◌, Option, none, some, List, [], ◌∷◌, ◌++◌, String,
  ◌===◌, ◌==◌, ltb, if◌then◌else◌, Result, err, ok,
}
use uns_kit.AppState.{Json}
use uns_kit.HandoverState.{Offer, Codec}
use uns_kit.Topics.Builder.{handover_topic}
use uns_kit.Handover.{
  Body, Event, ActiveTimer, cleared, armed, fired, SourceExit, staying, draining, exited,
  TargetPreparation, idle, published, emitted, activated, Manager, put,
}
use uns_kit.Handover.Messages.{
  is_given, same_text, handover_payload, handover_message, get_handover_id, parse_active_value,
  is_process_active_topic, handover_topic_of,
}
use uns_kit.Handover.Source.{
  contract_of, handle_request, review_done, Prepared, source_prepared, fin_retry, handle_ack,
  source_drained,
}
use uns_kit.Handover.Target.{
  publishers_active, subscribers_active, deactivate_application, handle_subscriber, handle_fin,
  cursors_prepared, Activation, target_activated,
}

-- `refresh`
abbrev pub refresh : ActiveTimer → ActiveTimer
refresh cleared = cleared
refresh armed = armed
refresh fired = armed

-- Outputs are prepared for the activation of the application, which runs.
abbrev pub begin_activation : Manager → Manager
begin_activation m =
    put (publishers_active m ++ activated ∷ []) (record m { activations = m.activations + 1 })

-- The timer of the constructor: a reviewed successor never promotes itself.
abbrev pub promote : ActiveTimer → Manager → Manager
promote cleared m = m
promote fired m = m
promote armed m =
    let m' = record m { timer = fired } in
    if m.stateful && is_given m.handover_id then m' else begin_activation m'

unfoldable pub active_timeout : Manager → Manager
active_timeout m = promote m.timer m

abbrev pub end_activation : Result (Unit {0}) → Manager → Manager
end_activation (err message) m = deactivate_application m
end_activation (ok done) m = put (emitted true ∷ subscribers_active m) (record m { active = true })

-- `onActivate` of a timer or of a forced start has ended.
unfoldable pub activation_done : Result (Unit {0}) → Manager → Manager
unfolding deactivate_application
activation_done result m =
    if m.activations == 0
    then m
    else end_activation result (record m { activations = m.activations - 1 })

abbrev pub publish_intent : Result String → Manager → Manager
publish_intent (err message) m = m
publish_intent (ok topic) m =
    put
      (published (handover_message m topic none none (handover_payload m "handover_intent" none))
        ∷ [])
      (record m { asking = some topic; request_pending = true })

-- Another process is active, and this one asks it to hand over.
abbrev pub intend : String → Option String → Manager → Manager
intend topic source m = publish_intent (handover_topic_of topic) (
    put (emitted m.active ∷ [])
      (record m { timer = cleared; requesting = true; expected_source = source }))

abbrev pub is_true : Option Bool → Bool
is_true (some true) = true
is_true _ = false

-- A heartbeat of another process while this one neither is active nor takes part in a handover.
unfoldable pub observe_active : Event → Manager → Manager
unfolding handover_payload handover_message handover_topic_of parse_active_value
observe_active e m =
    if e.retain
    then record m { timer = refresh m.timer }
    else if m.request_enabled && m.handover_enabled
    then intend e.message.topic e.message.process_id m
    else if m.force_start
    then begin_activation (record m { timer = cleared })
    else record m { timer = refresh m.timer }

abbrev pub is_observed : Event → Manager → Bool
is_observed e m =
    is_process_active_topic m e.message.topic
    && not m.requesting
    && not m.active
    && not m.in_progress

-- `protocol === 2`
abbrev pub is_two : Option ℕ → Bool
is_two none = false
is_two (some p) = p == 2

-- No downgrade: both speak the stateful protocol, or neither.
abbrev pub is_other_protocol : Body → Manager → Bool
is_other_protocol body m =
    (is_two body.protocol && not m.stateful) || (not (is_two body.protocol) && m.stateful)

abbrev pub is_refused : Body → Event → Manager → Bool
is_refused body e m = m.stateful && (e.retain || not (is_given (get_handover_id body e.message)))

-- A request, a subscriber message, a fin or an acknowledgement, after the guards that all share.
unfoldable pub handle_response : Codec → Result Json → Event → Body → Manager → Manager
unfolding handle_request handle_subscriber handle_fin handle_ack get_handover_id
handle_response codec exported e body m =
    if is_other_protocol body m
    then m
    else if is_refused body e m
    then m
    else if body.kind === "handover_request"
    then handle_request codec exported body e.message m
    else if body.kind === "handover_subscriber"
    then handle_subscriber body e.message m
    else if body.kind === "handover_fin"
    then handle_fin codec body e.message m
    else if body.kind === "handover_ack"
    then handle_ack body e.message m
    else m

abbrev pub handle_body : Codec → Result Json → Event → Option Body → Manager → Manager
handle_body codec exported e none m = m
handle_body codec exported e (some body) m = handle_response codec exported e body m

-- `handleHandover`
unfoldable pub handle_handover : Codec → Result Json → Event → Manager → Manager
unfolding handle_response
handle_handover codec exported e m =
    if ltb 1100000 e.size then m else handle_body codec exported e e.message.body m

abbrev pub is_own : Event → Manager → Bool
is_own e m = same_text e.message.process_id (some m.process_id)

-- The second part of `handleMqttMessage`.
abbrev pub deliver : Codec → Result Json → Event → Manager → Manager
deliver codec exported e m =
    if (e.message.topic === handover_topic m.topics) && m.handover_enabled && not (is_own e m)
    then handle_handover codec exported e m
    else m

-- `handleMqttMessage`: a heartbeat that is its own, not of an active process or retained ends the handler.
unfoldable pub handle_message : Codec → Result Json → Event → Manager → Manager
unfolding observe_active handle_handover is_process_active_topic parse_active_value
handle_message codec exported e m =
    if is_observed e m
    then if is_own e m || not (is_true (parse_active_value e.message.body))
      then m
      else if e.retain
      then observe_active e m
      else deliver codec exported e (observe_active e m)
    else deliver codec exported e m

abbrev pub is_idle : TargetPreparation → Bool
is_idle idle = true
is_idle _ = false

abbrev pub offer_of : Manager → Result (List Offer) → Result (Option (List Offer))
offer_of m (err message) = if m.stateful then err message else ok none
offer_of m (ok offer) = if m.stateful then ok (some offer) else ok none

abbrev pub send_request : String → Result (Option (List Offer)) → Manager → Manager
send_request topic (err message) m = m
send_request topic (ok offer) m =
    put
      (published (
          handover_message m topic none (some (handover_topic m.topics))
            (record (handover_payload m "handover_request" none) {
              offer = offer;
              application_contract = if m.stateful then contract_of m.application else none;
            }))
        ∷ [])
      m

abbrev pub has_answer : Manager → Bool
has_answer m = not (is_idle m.target) || is_given m.accepted_state_digest

abbrev pub ask : Option String → Result (List Offer) → Manager → Manager
ask none offer m = m
ask (some topic) offer m =
    if has_answer m
    then record m { request_retries = none }
    else send_request topic (offer_of m offer) m

abbrev pub retries_of : Bool → Option ℕ
retries_of true = some 0
retries_of false = none

abbrev pub first_request : Bool → Result (List Offer) → Manager → Manager
first_request false offer m = m
first_request true offer m =
    let m' = ask m.asking offer (record m { in_progress = true; request_pending = false }) in
    record m' { request_retries = retries_of m.stateful }

-- Ten seconds after the intent, with the offers of the proxies.
unfoldable pub request_due : Result (List Offer) → Manager → Manager
unfolding handover_payload handover_message
request_due offer m = first_request m.request_pending offer m

abbrev pub repeat_request : Option ℕ → Result (List Offer) → Manager → Manager
repeat_request none offer m = m
repeat_request (some retries) offer m =
    if ltb 15 (retries + 1) || has_answer m
    then record m { request_retries = none }
    else ask m.asking offer (record m { request_retries = some (retries + 1) })

-- A tick of `requestRetry`.
unfoldable pub request_retry : Result (List Offer) → Manager → Manager
unfolding handover_payload handover_message
request_retry offer m = repeat_request m.request_retries offer m

-- What may happen to a process; a message comes with what the application's `exportState` would give.
pub data Input : Type 0 where
  arrives : Event → Result Json → Input
  timeout : Input
  activation : Result (Unit {0}) → Input
  due : Result (List Offer) → Input
  retry : Result (List Offer) → Input
  reviewed : List (Result Bool) → Input
  prepared : Prepared → Input
  fin_tick : Input
  cursors : Result (Unit {0}) → Input
  activates : Activation → Input
  drained : Option (ℕ × Bool) → Input

abbrev pub react : Codec → Input → Manager → Manager
react codec (arrives e exported) m = handle_message codec exported e m
react codec timeout m = active_timeout m
react codec (activation result) m = activation_done result m
react codec (due offer) m = request_due offer m
react codec (retry offer) m = request_retry offer m
react codec (reviewed answers) m = review_done answers m
react codec (prepared p) m = source_prepared codec p m
react codec fin_tick m = fin_retry m
react codec (cursors result) m = cursors_prepared result m
react codec (activates a) m = target_activated a m
react codec (drained end) m = source_drained end m

abbrev pub react_unless : SourceExit → Codec → Input → Manager → Manager
react_unless (exited status) codec i m = m
react_unless staying codec i m = react codec i m
react_unless draining codec i m = react codec i m

-- A process that has exited gets nothing more.
unfoldable pub step : Codec → Input → Manager → Manager
unfolding handle_message active_timeout activation_done request_due request_retry review_done
    source_prepared fin_retry cursors_prepared target_activated source_drained
step codec i m = react_unless m.source_exit codec i m
