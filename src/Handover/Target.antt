-- ===== src/Handover/Target.antt =====
-- The successor of a handover: it accepts a prepared state once, after checking it, and activates on it.
use uns_kit.Kit.{
  Bool, true, false, not, ◌&&◌, ◌||◌, Option, none, some, List, [], ◌∷◌, ◌++◌, map, all, String,
  ◌===◌, ◌==◌, length, if◌then◌else◌, Result, err, ok, ◌>>=◌, ◌>>◌, throw_if,
}
use uns_kit.HandoverState.{ProxyState, ApplicationPart, HandoverState, Codec}
use uns_kit.HandoverState.Schema.{contains, set_size, parse_handover_state, handover_state_digest}
use uns_kit.Topics.Builder.{handover_topic}
use uns_kit.Handover.{
  Body, Message, Proxy, Application, TargetPreparation, idle, checking, applying, accepted, stuck,
  Output, published, emitted, released, activated, publisher_active, publisher_passive,
  subscriber_active, subscriber_passive, imported, Manager, put,
}
use uns_kit.Handover.Messages.{
  is_given, same_text, or_empty, handover_payload, handover_message, get_handover_id,
  accepts_handover_response,
}
use uns_kit.Handover.Source.{contract_of, if_ok}

abbrev pub publishers_active : Manager → List Output
publishers_active m = map (λ (x : Proxy). publisher_active x.instance_name) m.proxies

abbrev pub subscribers_active : Manager → List Output
subscribers_active m = map (λ (x : Proxy). subscriber_active x.instance_name none) m.proxies

-- `deactivateApplication`
unfoldable pub deactivate_application : Manager → Manager
deactivate_application m =
    put
      (released ∷ map (λ (x : Proxy). subscriber_passive x.instance_name) m.proxies
        ++ map (λ (x : Proxy). publisher_passive x.instance_name) m.proxies)
      (record m { active = false })

-- `setSubscriberActive` on the proxies of the name
unfoldable pub activate_named : Body → List Proxy → List Output
activate_named body [] = []
activate_named body (x ∷ xs) =
    let rest = activate_named body xs in
    if x.instance_name === body.instance_name
    then subscriber_active x.instance_name (some (body.batch_size, body.reference_hash)) ∷ rest
    else rest

abbrev pub ignores_subscriber : Body → Message → Manager → Bool
ignores_subscriber body message m =
    m.stateful
    || is_given m.source_peer
    || not (accepts_handover_response m (get_handover_id body message))

-- `handover_subscriber`
unfoldable pub handle_subscriber : Body → Message → Manager → Manager
unfolding get_handover_id accepts_handover_response activate_named
handle_subscriber body message m =
    if ignores_subscriber body message m then m else put (activate_named body m.proxies) m

abbrev pub validate_application : Option Application → Option ApplicationPart → Result (Unit {0})
validate_application own none = ok tt
validate_application none (some part) = ok tt
validate_application (some a) (some part) = a.validate_state part.data_value

abbrev pub part_contract : Option ApplicationPart → Option String
part_contract none = none
part_contract (some part) = some part.contract

abbrev pub names_of : List Proxy → List String
names_of proxies = map (λ (x : Proxy). x.instance_name) proxies

-- `byName.size !== this.unsMqttProxies.length || …`
abbrev pub is_proxy_set : List Proxy → List ProxyState → Bool
is_proxy_set proxies snapshots =
    set_size (names_of proxies) == length proxies
    && length snapshots == set_size (names_of proxies)
    && all (λ (p : ProxyState). contains p.instance_name (names_of proxies)) snapshots

-- `byName.get(name)!.validateHandoverState(snapshot)`
abbrev pub validate_snapshot : ProxyState → List Proxy → Result (Unit {0})
validate_snapshot snapshot [] = err "MQTT handover proxy set differs"
validate_snapshot snapshot (x ∷ xs) =
    if x.instance_name === snapshot.instance_name
    then x.validate_handover_state snapshot
    else validate_snapshot snapshot xs

abbrev pub validate_snapshots : List Proxy → List ProxyState → Result (Unit {0})
validate_snapshots proxies [] = ok tt
validate_snapshots proxies (s ∷ ss) = validate_snapshot s proxies >> validate_snapshots proxies ss

abbrev pub check_state : String → Body → Manager → HandoverState → Result (HandoverState × String)
check_state digest body m state =
    throw_if (not (same_text (some digest) body.state_digest)) "MQTT handover state digest mismatch"
    >> (throw_if (not (same_text (part_contract state.application) (contract_of m.application)))
          "Application handover contract differs"
        >> (validate_application m.application state.application
            >> (throw_if (not (is_proxy_set m.proxies state.proxies))
                  "MQTT handover proxy set differs"
                >> (validate_snapshots m.proxies state.proxies >> ok (state, digest)))))

-- The checks of `acceptPreparedState` up to its first await.
unfoldable pub accept_prepared_state : Codec → Body → Manager → Result (HandoverState × String)
unfolding parse_handover_state handover_state_digest contains set_size
accept_prepared_state codec body m = elim body.state [
  | none ↦ err "Invalid MQTT handover state"
  | some given ↦ parse_handover_state codec given >>= (λ state.
      handover_state_digest codec state >>= (λ digest. check_state digest body m state))
]

-- The acknowledgement of a fin, with the digest that was accepted.
unfoldable pub ack_message : Manager → Message → Message
unfolding handover_payload handover_message
ack_message m fin =
    handover_message m (or_empty fin.response_topic) m.handover_id none
      (record (handover_payload m "handover_ack" m.handover_id) {
        state_digest = m.accepted_state_digest;
      })

abbrev pub digest_of : Option Body → Option String
digest_of none = none
digest_of (some body) = body.state_digest

-- A fin that awaited the preparation is acknowledged when its digest is the accepted one.
unfoldable pub acks : Manager → List Message → List Output
unfolding ack_message
acks m [] = []
acks m (fin ∷ fins) =
    let rest = acks m fins in
    if same_text (digest_of fin.body) m.accepted_state_digest
    then published (ack_message m fin) ∷ rest
    else rest

abbrev pub begin_checking : Message → Result (HandoverState × String) → Manager → Manager
begin_checking fin (err message) m = m
begin_checking fin (ok (state, digest)) m = record m {
  target = checking state digest;
  waiting = fin ∷ [];
}

-- A first fin starts the preparation, a later one joins it, or is acknowledged again.
abbrev pub join_preparation : Codec → Body → Message → TargetPreparation → Manager → Manager
join_preparation codec body fin idle m = begin_checking fin (accept_prepared_state codec body m) m
join_preparation codec body fin (checking state digest) m = record m {
  waiting = m.waiting ++ fin ∷ [];
}
join_preparation codec body fin (applying state digest) m = record m {
  waiting = m.waiting ++ fin ∷ [];
}
join_preparation codec body fin accepted m = put (acks m (fin ∷ [])) m
join_preparation codec body fin stuck m = m

-- `handover_fin` of a stateful successor
unfoldable pub handle_stateful_fin : Codec → Body → Message → Manager → Manager
unfolding get_handover_id accept_prepared_state acks
handle_stateful_fin codec body message m =
    if is_given m.source_peer
      || not m.requesting
      || not (same_text (get_handover_id body message) m.handover_id)
      || not (same_text message.process_id m.expected_source)
    then m
    else if is_given m.accepted_state_digest
        && not (same_text body.state_digest m.accepted_state_digest)
    then m
    else join_preparation codec body message m.target (record m { request_retries = none })

-- `handover_fin` of a stateless successor: outputs and inputs open, and the source is acknowledged.
unfoldable pub handle_stateless_fin : Body → Message → Manager → Manager
unfolding get_handover_id accepts_handover_response handover_payload handover_message
handle_stateless_fin body message m =
    let id = get_handover_id body message in
    if is_given m.source_peer || not (accepts_handover_response m id)
    then m
    else put
        (emitted true ∷ publishers_active m
          ++ subscribers_active m
          ++ published (
              handover_message m (or_empty message.response_topic) id
                (some (handover_topic m.topics)) (handover_payload m "handover_ack" id))
            ∷ [])
        (record m { active = true })

unfoldable pub handle_fin : Codec → Body → Message → Manager → Manager
unfolding handle_stateful_fin handle_stateless_fin
handle_fin codec body message m =
    if m.stateful
    then handle_stateful_fin codec body message m
    else handle_stateless_fin body message m

abbrev pub apply_if_ok : HandoverState → String → Result (Unit {0}) → Manager → Manager
apply_if_ok state digest (err message) m = record m { target = idle; waiting = [] }
apply_if_ok state digest (ok prepared) m =
    put (imported state ∷ []) (record m { target = applying state digest })

abbrev pub apply_checked : TargetPreparation → Result (Unit {0}) → Manager → Manager
apply_checked (checking state digest) prepared m = apply_if_ok state digest prepared m
apply_checked target prepared m = m

-- Every cursor is prepared, or one is not: only then may the preparation be tried again.
unfoldable pub cursors_prepared : Result (Unit {0}) → Manager → Manager
cursors_prepared prepared m = apply_checked m.target prepared m

-- What the import of the application's state, its activation and that of the inputs give.
pub record Activation : Type 0 where
  pub imported_ok : Result (Unit {0})
  pub activated_ok : Result (Unit {0})
  pub resumed_ok : Result (Unit {0})

abbrev pub give_up : Manager → Manager
give_up m = record m { target = stuck; waiting = [] }

abbrev pub succeed : String → Manager → Manager
succeed digest m =
    let m' = record m {
      target = accepted;
      accepted_state_digest = some digest;
      active = true;
      waiting = [];
    } in
    put (emitted true ∷ acks m' m.waiting) m'

abbrev pub finish_activation : TargetPreparation → Activation → Manager → Manager
finish_activation (applying state digest) a m = if_ok a.imported_ok (give_up m) (
    let opened = put (publishers_active m ++ activated ∷ []) m in
    if_ok a.activated_ok (give_up (deactivate_application opened))
      (if_ok a.resumed_ok (give_up (deactivate_application opened)) (succeed digest opened)))
finish_activation target a m = m

-- The rest of `acceptPreparedState`: only an activation that succeeds makes the process active.
unfoldable pub target_activated : Activation → Manager → Manager
unfolding acks deactivate_application
target_activated a m = finish_activation m.target a m
