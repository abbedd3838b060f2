-- ===== src/Handover/Source.antt =====
-- The source of a handover: it reviews a request, releases ownership, sends its state and exits when the successor
-- has acknowledged it.
use uns_kit.Kit.{
  ℕ, ◌+◌, Bool, true, false, not, ◌&&◌, ◌||◌, Option, none, some, List, [], ◌∷◌, ◌++◌, map, take,
  all, String, ◌===◌, ◌==◌, ltb, is_empty, length, if◌then◌else◌, Result, err, ok, ◌>>=◌, ◌>>◌,
  throw_if,
}
use uns_kit.AppState.{Json, clone_application_state}
use uns_kit.HandoverState.{ProxyState, ApplicationPart, HandoverState, Offer, Codec}
use uns_kit.HandoverState.Schema.{is_offer, parse_handover_state, handover_state_digest}
use uns_kit.Topics.Builder.{handover_topic}
use uns_kit.Migration.{ShutdownResult, completed, failed_shutdown, timed_out, run_handover_shutdown}
use uns_kit.Handover.{
  Body, Message, Proxy, Application, cleared, HandoverRequest, Preparation, running, finished,
  broken, SourceExit, staying, draining, exited, Output, published, emitted, released, stopped,
  drained_receipt, Manager, put,
}
use uns_kit.Handover.Messages.{
  is_given, same_text, or_empty, handover_payload, handover_message, get_handover_id,
}

abbrev pub contract_of : Option Application → Option String
contract_of none = none
contract_of (some a) = some a.contract

-- `sendPreparedState`, to the topic that the request names.
unfoldable pub state_message : Manager → String → Option String → Message
unfolding handover_payload handover_message
state_message m reply_topic id =
    handover_message m reply_topic id (some (handover_topic m.topics))
      (record (handover_payload m "handover_fin" id) {
        state = m.prepared_state;
        state_digest = m.state_digest;
      })

-- The application's state is exported, copied and validated before the owner is frozen.
abbrev pub check_application : Codec → Option Application → Result Json → Result (Unit {0})
check_application codec none exported = ok tt
check_application codec (some a) exported =
    exported >>= (λ value. clone_application_state codec.json_bytes value >>= a.validate_state)

-- `offer.some(o => …)`
abbrev pub is_offered : List Offer → Proxy → Bool
is_offered [] p = false
is_offered (o ∷ os) p =
    (o.instance_name === p.instance_name && o.compatibility === p.compatibility) || is_offered os p

abbrev pub check_offer : List Proxy → Option (List Offer) → Result (Unit {0})
check_offer proxies none = err "Invalid MQTT handover offer"
check_offer proxies (some offer) =
    throw_if (not (is_offer offer)) "Invalid MQTT handover offer"
    >> throw_if (not (length offer == length proxies) || not (all (is_offered offer) proxies))
        "MQTT source/destination or semantic contract differs; source remains active"

-- What a stateful source checks before it reviews a request.
unfoldable pub check_request : Codec → Result Json → Body → Manager → Result (Unit {0})
check_request codec exported body m =
    throw_if (not (same_text body.application_contract (contract_of m.application)))
      "Application handover contract differs; source remains active"
    >> (check_application codec m.application exported >> check_offer m.proxies body.offer)

-- The source has accepted: it is passive from here on, and preparation runs.
unfoldable pub accept_request : HandoverRequest → Manager → Manager
accept_request r m = put (emitted false ∷ released ∷ []) (record m {
  source_peer = some r.peer;
  accepted_id = r.handover_id;
  in_progress = true;
  timer = cleared;
  request = some r;
  preparation = running;
  active = false;
})

abbrev pub if_ok : Result (Unit {0}) → Manager → Manager → Manager
if_ok (err message) failed m = failed
if_ok (ok checked) failed m = m

-- A stateless source accepts at once; a stateful one checks the request, and reviews one at a time.
abbrev pub consider_request : Codec → Result Json → Body → HandoverRequest → Manager → Manager
consider_request codec exported body r m =
    if m.stateful
    then if_ok (check_request codec exported body m) m
        (if is_given m.review then m else record m { review = some r })
    else accept_request r m

abbrev pub request_of : Option String → Option String → Option String → Option HandoverRequest
request_of none id reply = none
request_of (some peer) id none = none
request_of (some peer) id (some reply_topic) =
    if is_empty peer || is_empty reply_topic
    then none
    else some (record { peer = peer; handover_id = id; reply_topic = reply_topic })

abbrev pub consider : Codec → Result Json → Body → Option HandoverRequest → Manager → Manager
consider codec exported body none m = m
consider codec exported body (some r) m = consider_request codec exported body r m

-- Whether the peer repeats the request whose state is prepared.
abbrev pub is_repeated : Body → Message → Manager → Bool
is_repeated body message m =
    m.stateful
    && same_text m.source_peer message.process_id
    && same_text m.accepted_id (get_handover_id body message)
    && is_given m.prepared_state

-- `handover_request`
unfoldable pub handle_request : Codec → Result Json → Body → Message → Manager → Manager
unfolding state_message check_request accept_request get_handover_id
handle_request codec exported body message m =
    if is_repeated body message m
    then put (published (state_message m (or_empty message.response_topic) m.accepted_id) ∷ []) m
    else if is_given m.source_peer || not m.active
    then m
    else consider codec exported body
        (request_of message.process_id (get_handover_id body message) message.response_topic) m

-- Each proxy's answer to `canPrepareHandoverInput`; the first that is not ready ends the review.
unfoldable pub all_ready : List (Result Bool) → Bool
all_ready [] = true
all_ready (ok true ∷ answers) = all_ready answers
all_ready (ok false ∷ answers) = false
all_ready (err message ∷ answers) = false

abbrev pub finish_review : Option HandoverRequest → Bool → Manager → Manager
finish_review none ready m = m
finish_review (some r) ready m =
    let m' = record m { review = none } in
    if not ready || is_given m.source_peer || not m.active then m' else accept_request r m'

-- The answers to the review of a request have come.
unfoldable pub review_done : List (Result Bool) → Manager → Manager
unfolding all_ready accept_request
review_done answers m = finish_review m.review (all_ready answers) m

-- What a proxy's worker has processed.
pub record Worker : Type 0 where
  pub instance_name : String
  pub batch_size : ℕ
  pub reference_hash : String

-- What the awaited calls of `prepareSourceHandover` give: the release hook, the drained queues, the application's
-- drain, the flush of the outputs, the exported states, and how many messages were sent.
pub record Prepared : Type 0 where
  pub released_ok : Result (Unit {0})
  pub workers : Result (List Worker)
  pub drained : Result (Unit {0})
  pub flushed : Result (Unit {0})
  pub exported : Result Json
  pub snapshots : Result (List ProxyState)
  pub sent : ℕ
  pub sent_ok : Result (Unit {0})

abbrev pub application_part :
    Codec → Option Application → Result Json → Result (Option ApplicationPart)
application_part codec none exported = ok none
application_part codec (some a) exported = exported >>= (λ value.
    clone_application_state codec.json_bytes value >>= (λ copy.
      a.validate_state copy >> ok (some (record { contract = a.contract; data_value = copy }))))

-- The state of a stateful source, with its digest.
unfoldable pub prepare_state : Codec → Prepared → Manager → Result (HandoverState × String)
unfolding parse_handover_state handover_state_digest
prepare_state codec p m =
    p.released_ok
    >> (p.workers >>= (λ workers.
        p.drained
        >> (p.flushed
            >> (application_part codec m.application p.exported >>= (λ application.
                p.snapshots >>= (λ proxies.
                  parse_handover_state codec
                    (record { protocol = 1; application = application; proxies = proxies })
                  >>= (λ state.
                      handover_state_digest codec state >>= (λ digest. ok (state, digest)))))))))

-- `finRetry` runs once the state is sent.
abbrev pub send_state : Result (Unit {0}) → HandoverRequest → Manager → Manager
send_state sent_ok r m =
    let m' = put (published (state_message m r.reply_topic r.handover_id) ∷ []) m in
    if_ok sent_ok (record m' { preparation = broken })
      (record m' { preparation = finished; fin_retries = some 0 })

abbrev pub keep_state :
    Prepared → HandoverRequest → Result (HandoverState × String) → Manager → Manager
keep_state p r (err message) m = record m { preparation = broken }
keep_state p r (ok (state, digest)) m =
    send_state p.sent_ok r (record m { prepared_state = some state; state_digest = some digest })

unfoldable pub subscriber_messages : Manager → HandoverRequest → List Worker → List Output
unfolding handover_payload handover_message
subscriber_messages m r [] = []
subscriber_messages m r (w ∷ ws) =
    let rest = subscriber_messages m r ws in
    if ltb 0 w.batch_size
    then published (
        handover_message m r.reply_topic r.handover_id (some (handover_topic m.topics))
          (record (handover_payload m "handover_subscriber" r.handover_id) {
            batch_size = w.batch_size;
            reference_hash = w.reference_hash;
            instance_name = w.instance_name;
          }))
      ∷ rest
    else rest

abbrev pub fin_message : Manager → HandoverRequest → Message
fin_message m r =
    handover_message m r.reply_topic r.handover_id (some (handover_topic m.topics))
      (handover_payload m "handover_fin" r.handover_id)

-- `process.exit`
abbrev pub exit_source : ℕ → Manager → Manager
exit_source status m = record m { source_exit = exited status }

abbrev pub exit_if_staying : SourceExit → Manager → Manager
exit_if_staying staying m = exit_source 1 m
exit_if_staying draining m = m
exit_if_staying (exited status) m = m

abbrev pub break_source : Manager → Manager
break_source m = exit_if_staying m.source_exit (record m { preparation = broken })

-- A stateless source sends what each worker has processed, and one fin.
abbrev pub send_workers : Prepared → HandoverRequest → Result (List Worker) → Manager → Manager
send_workers p r (err message) m = break_source m
send_workers p r (ok workers) m =
    let messages = subscriber_messages m r workers ++ published (fin_message m r) ∷ [] in
    if_ok p.sent_ok (break_source (put (take p.sent messages) m)) (
      put (messages ++ map (λ (x : Proxy). stopped x.instance_name) m.proxies)
        (record m { preparation = finished }))

abbrev pub finish_preparation :
    Codec → Prepared → Option HandoverRequest → Preparation → Manager → Manager
finish_preparation codec p (some r) running m =
    if m.stateful
    then keep_state p r (prepare_state codec p m) m
    else send_workers p r (p.released_ok >> p.workers) m
finish_preparation codec p r preparation m = m

-- The awaited calls of `prepareSourceHandover` have ended.
unfoldable pub source_prepared : Codec → Prepared → Manager → Manager
unfolding prepare_state state_message subscriber_messages
source_prepared codec p m = finish_preparation codec p m.request m.preparation m

abbrev pub is_staying : SourceExit → Bool
is_staying staying = true
is_staying draining = false
is_staying (exited status) = false

abbrev pub repeat_fin : Option ℕ → Option HandoverRequest → Manager → Manager
repeat_fin (some retries) (some r) m =
    if ltb 30 (retries + 1) || not (is_staying m.source_exit)
    then record m { fin_retries = none }
    else put (published (state_message m r.reply_topic r.handover_id) ∷ [])
        (record m { fin_retries = some (retries + 1) })
repeat_fin retries r m = m

-- A tick of `finRetry`.
unfoldable pub fin_retry : Manager → Manager
unfolding state_message
fin_retry m = repeat_fin m.fin_retries m.request m

-- `sourceExit ??= finishSourceHandover()`
abbrev pub begin_exit : SourceExit → Manager → Manager
begin_exit staying m = record m { fin_retries = none; source_exit = draining }
begin_exit draining m = record m { fin_retries = none }
begin_exit (exited status) m = m

-- No preparation runs, or the message is not the peer's.
abbrev pub is_stranger : Message → Manager → Bool
is_stranger message m =
    not (is_given m.source_peer) || not (same_text message.process_id m.source_peer)

abbrev pub is_other_migration : Option String → Manager → Bool
is_other_migration id m = is_given m.accepted_id && is_given id && not (same_text m.accepted_id id)

abbrev pub is_other_state : Option String → Option String → Manager → Bool
is_other_state id digest m =
    m.stateful
    && (not (same_text id m.accepted_id)
        || not (same_text digest m.state_digest)
        || not (is_given m.state_digest))

-- `handover_ack`
unfoldable pub handle_ack : Body → Message → Manager → Manager
unfolding get_handover_id
handle_ack body message m =
    let id = get_handover_id body message in
    if is_stranger message m
    then m
    else if is_other_migration id m
    then m
    else if is_other_state id body.state_digest m
    then m
    else begin_exit m.source_exit m

-- The work that is left ends after the preparation, and fails when that has failed.
abbrev pub work_end : Preparation → Option (ℕ × Bool) → Option (ℕ × Bool)
work_end broken (some end) = some (end.0, false)
work_end finished end = end
work_end _ end = none

abbrev pub receipt : Manager → List Output
receipt m =
    if m.stateful
    then map (λ (x : Proxy). stopped x.instance_name) m.proxies
      ++ drained_receipt m.accepted_id m.state_digest ∷ []
    else []

abbrev pub leave : ShutdownResult → Manager → Manager
leave completed m =
    put (receipt m) (exit_source 0 (record m { in_progress = false; requesting = false }))
leave failed_shutdown m = exit_source 1 (record m { in_progress = false; requesting = false })
leave timed_out m = exit_source 1 (record m { in_progress = false; requesting = false })

abbrev pub finish_exit : SourceExit → Option (ℕ × Bool) → Manager → Manager
finish_exit draining end m =
    leave (run_handover_shutdown m.timeout_ms (work_end m.preparation end)) m
finish_exit staying end m = m
finish_exit (exited status) end m = m

-- `finishSourceHandover`, given when the remaining work ends and whether it succeeds.
unfoldable pub source_drained : Option (ℕ × Bool) → Manager → Manager
unfolding run_handover_shutdown
source_drained end m = finish_exit m.source_exit end m
