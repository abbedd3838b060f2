-- ===== src/Handover/Local/Takes.antt =====
-- A takeover: only a fin starts it, only an activation that succeeds makes the successor the owner.
use uns_kit.Kit.{
  ℕ, ◌≡◌, refl, ap, sym, ◌∙◌, Bool, true, false, not, ◌&&◌, ◌||◌, Option, none, some, [], ◌∷◌, ◌++◌,
  map, String, if_each, if_both, arith, Result, err, ok, inl, inr, ◌⊎◌, All-append, All-weaken,
}
use uns_kit.HandoverState.{HandoverState, Codec}
use uns_kit.Handover.{
  Body, Message, TargetPreparation, idle, checking, applying, accepted, stuck, Output, published,
  emitted, released, activated, publisher_active, publisher_passive, subscriber_active,
  subscriber_passive, imported, stopped, drained_receipt, Manager, put, Proxy,
}
use uns_kit.Handover.Messages.{is_given, same_text, get_handover_id}
use uns_kit.Handover.Target.{
  publishers_active, deactivate_application, acks, accept_prepared_state, begin_checking,
  join_preparation, handle_stateful_fin, apply_if_ok, apply_checked, cursors_prepared, Activation,
  give_up, succeed, finish_activation, target_activated,
}
use uns_kit.Handover.Source.{if_ok}
use uns_kit.Handover.Handle.{Input, is_idle}
use uns_kit.Handover.Local.{
  Local, Safe, SafeBody, Kept, rests, starts, returns, wins, loses, gives, stage, stage_of,
  target_stage, is_open, is_accepted, takes, owns, fails, fin_id, BringsFin, Stage,
}
use uns_kit.Handover.Local.Sends.{
  Rest-put, Rest-same, Rest-Kept, Sent-map, acks-Sent, same_text-eq, Local-put,
}

-- Neither an owner nor who gave away is in a takeover.
stage-alone :
    (peer : Option String) (active : Bool) (t : TargetPreparation)
    → ((is_given peer || active) && is_open t) ≡ false
    → is_open t ≡ true
    → stage_of peer active t ≡ target_stage t
stage-alone none true t h k = absurd (ground arith)
stage-alone none false t h k = refl
stage-alone (some p) active t h k = absurd (ground arith)

open-alone :
    (peer active open_target : Bool)
    → ((peer || active) && open_target) ≡ false
    → open_target ≡ true
    → (peer ≡ false) × (active ≡ false)
open-alone peer active open_target h k = (ground arith, ground arith)

stage-passive :
    (peer : Option String) (active : Bool) (t : TargetPreparation)
    → is_given peer ≡ false
    → active ≡ false
    → stage_of peer active t ≡ target_stage t
stage-passive none true t h k = absurd (cc k)
stage-passive none false t h k = refl
stage-passive (some p) active t h k = absurd (cc h)

apply_if_ok-Kept :
    (i : Input) (m : Manager) (state : HandoverState) (digest : String) (r : Result (Unit {0}))
    → m.target ≡ checking state digest
    → Local m
    → Kept i m (apply_if_ok state digest r m)
apply_if_ok-Kept i m state digest r same (a, b, c, d, e, f, g, q, k, l, sent) =
    let open_target : is_open m.target ≡ true = ap is_open same in
    let (peer, active) =
      open-alone (is_given m.source_peer) m.active (is_open m.target) g open_target in
    let now : stage m ≡ takes =
      stage-passive m.source_peer m.active m.target peer active ∙ ap target_stage same in
    let digest_none : is_given m.accepted_state_digest ≡ false = sym l ∙ ap is_accepted same in
    finish r peer active now digest_none
  where
    finish :
        (r : Result (Unit {0}))
        → is_given m.source_peer ≡ false
        → m.active ≡ false
        → stage m ≡ takes
        → is_given m.accepted_state_digest ≡ false
        → Kept i m (apply_if_ok state digest r m)
    finish (err message) peer active now none_yet = (
      (a, b, c, d, e, f, ground arith, ground arith, k, sym none_yet, sent),
      refl,
      returns now (stage-passive m.source_peer m.active idle peer active),
    )
    finish (ok done) peer active now none_yet = (
      (
        a,
        b,
        c,
        d,
        e,
        f,
        ground arith,
        ground arith,
        k,
        sym none_yet,
        All-append _ m.outputs _ sent (tt, tt),
      ),
      refl,
      rests (stage-passive m.source_peer m.active (applying state digest) peer active ∙ sym now)
          refl,
    )

apply_checked-Kept :
    (i : Input) (m : Manager) (t : TargetPreparation) (r : Result (Unit {0}))
    → m.target ≡ t
    → Local m
    → Kept i m (apply_checked t r m)
apply_checked-Kept i m (checking state digest) r same h = apply_if_ok-Kept i m state digest r same h
apply_checked-Kept i m idle r same h = Rest-Kept i m m (Rest-same m h)
apply_checked-Kept i m (applying state digest) r same h = Rest-Kept i m m (Rest-same m h)
apply_checked-Kept i m accepted r same h = Rest-Kept i m m (Rest-same m h)
apply_checked-Kept i m stuck r same h = Rest-Kept i m m (Rest-same m h)

pub cursors_prepared-Kept :
    (i : Input) (m : Manager) (r : Result (Unit {0})) → Local m → Kept i m (cursors_prepared r m)
unfolding cursors_prepared
cursors_prepared-Kept i m r h = apply_checked-Kept i m m.target r refl h

-- What a successor sent before it accepted a digest stays safe.
Safe-accepted :
    (given : Bool) (fin digest digest' : Option String) (o : Output)
    → is_given digest ≡ false
    → Safe given fin digest o
    → Safe given fin digest' o
Safe-accepted given fin digest digest' (published message) e h =
    SafeBody-accepted given fin digest digest' message message.body e h
  where
    SafeBody-accepted :
        (given : Bool) (fin digest digest' : Option String) (message : Message) (body : Option Body)
        → is_given digest ≡ false
        → SafeBody given fin digest message body
        → SafeBody given fin digest' message body
    SafeBody-accepted given fin digest digest' message none e h = tt
    SafeBody-accepted given fin digest digest' message (some body) e (k, inl h) = (k, inl h)
    SafeBody-accepted given fin digest digest' message (some body) e (k, inr h) =
        absurd (cc (e, h.0))
Safe-accepted given fin digest digest' (emitted a) e h = tt
Safe-accepted given fin digest digest' released e h = tt
Safe-accepted given fin digest digest' activated e h = tt
Safe-accepted given fin digest digest' (publisher_active x) e h = tt
Safe-accepted given fin digest digest' (publisher_passive x) e h = tt
Safe-accepted given fin digest digest' (subscriber_active x y) e h = tt
Safe-accepted given fin digest digest' (subscriber_passive x) e h = tt
Safe-accepted given fin digest digest' (imported x) e h = tt
Safe-accepted given fin digest digest' (stopped x) e h = tt
Safe-accepted given fin digest digest' (drained_receipt x y) e h = tt

-- The successor while its activation runs: in no takeover of another, and nothing accepted yet.
abbrev pub Applying : Manager → Type 0
Applying m =
    Local m
    × (is_given m.source_peer ≡ false)
    × (m.active ≡ false)
    × (is_given m.accepted_state_digest ≡ false)

opened-Applying :
    (m : Manager) → Applying m → Applying (put (publishers_active m ++ activated ∷ []) m)
opened-Applying m (h, p, a, d) = (
  Local-put m (publishers_active m ++ activated ∷ []) h (
      All-append _ (publishers_active m) (activated ∷ [])
        (Sent-map m (λ (x : Proxy). publisher_active x.instance_name) (λ given fin digest x. tt)
          m.proxies)
        (tt, tt)),
  p,
  a,
  d,
)

-- The end of a takeover.
abbrev Ended : Stage → Manager → Manager → Type 0
Ended s m m' = Local m' × (m'.handover_id ≡ m.handover_id) × (stage m' ≡ s)

give_up-Ended : (m : Manager) → Applying m → Ended fails m (give_up m)
give_up-Ended m ((a, b, c, d, e, f, g, q, k, l, sent), peer, active, none_yet) = (
  (a, b, c, d, e, f, ground arith, ground arith, k, sym none_yet, sent),
  refl,
  stage-passive m.source_peer m.active stuck peer active,
)

deactivate-Applying : (m : Manager) → Applying m → Applying (deactivate_application m)
unfolding deactivate_application
deactivate-Applying m ((a, b, c, d, e, f, g, q, k, l, sent), peer, active, none_yet) = (
  (
    a,
    ground (arith, b, active),
    c,
    d,
    e,
    ground arith,
    ground arith,
    ground arith,
    k,
    l,
    All-append _ m.outputs _ sent (
      tt,
      All-append _ (map (λ (x : Proxy). subscriber_passive x.instance_name) m.proxies) _
          (Sent-map m (λ (x : Proxy). subscriber_passive x.instance_name) (λ given fin digest x. tt)
            m.proxies)
          (Sent-map m (λ (x : Proxy). publisher_passive x.instance_name) (λ given fin digest x. tt)
            m.proxies),
    ),
  ),
  peer,
  refl,
  none_yet,
)

succeed-Ended : (m : Manager) (digest : String) → Applying m → Ended owns m (succeed digest m)
succeed-Ended m digest ((a, b, c, d, e, f, g, q, k, l, sent), peer, active, none_yet) = (
  (
    a,
    ground (arith, b, active),
    c,
    d,
    e,
    ground arith,
    ground arith,
    ground arith,
    k,
    refl,
    All-append _ m.outputs _
        (All-weaken _ _
          (λ o.
            Safe-accepted (is_given m.source_peer) (fin_id m) m.accepted_state_digest (some digest)
              o none_yet)
          m.outputs sent)
        (tt, acks-Sent _ m.waiting refl),
  ),
  refl,
  stage-owner m.source_peer accepted peer,
)
  where
    stage-owner :
        (peer : Option String) (t : TargetPreparation)
        → is_given peer ≡ false
        → stage_of peer true t ≡ owns
    stage-owner none t h = refl
    stage-owner (some p) t h = absurd (cc h)

abbrev Outcome : Manager → Manager → Type 0
Outcome m m' = Ended fails m m' ⊎ Ended owns m m'

pub if_ok-either {κ} :
    (P : Manager → Type κ) (r : Result (Unit {0})) (x y : Manager) → P x → P y → P (if_ok r x y)
if_ok-either P (err message) x y p q = p
if_ok-either P (ok done) x y p q = q

abbrev prepared_outputs : Manager → Manager
prepared_outputs m = put (publishers_active m ++ activated ∷ []) m

failed-Ended :
    (m : Manager)
    → Applying m
    → Ended fails m (give_up (deactivate_application (prepared_outputs m)))
unfolding deactivate_application
failed-Ended m h =
    give_up-Ended (deactivate_application (prepared_outputs m))
      (deactivate-Applying (prepared_outputs m) (opened-Applying m h))

finish-Outcome :
    (m : Manager) (state : HandoverState) (digest : String) (act : Activation)
    → Applying m
    → Outcome m (finish_activation (applying state digest) act m)
finish-Outcome m state digest act h =
    if_ok-either (Outcome m) act.imported_ok _ _ (inl (give_up-Ended m h)) (
      if_ok-either (Outcome m) act.activated_ok _ _ (inl (failed-Ended m h)) (
        if_ok-either (Outcome m) act.resumed_ok _ _ (inl (failed-Ended m h))
          (inr (succeed-Ended (prepared_outputs m) digest (opened-Applying m h)))))

Outcome-Kept : (i : Input) (m m' : Manager) → stage m ≡ takes → Outcome m m' → Kept i m m'
Outcome-Kept i m m' now (inl (h, id, s)) = (h, id, loses now s)
Outcome-Kept i m m' now (inr (h, id, s)) = (h, id, wins now s)

pub open-Applying :
    (m : Manager) (t : TargetPreparation)
    → m.target ≡ t
    → is_open t ≡ true
    → is_accepted t ≡ false
    → Local m
    → Applying m × (stage m ≡ target_stage t)
open-Applying m t same is_opened not_accepted h =
    let (peer, active) =
      open-alone (is_given m.source_peer) m.active (is_open m.target) h.6
        (ap is_open same ∙ is_opened) in
    (
      (h, peer, active, sym h.9 ∙ ap is_accepted same ∙ not_accepted),
      stage-passive m.source_peer m.active m.target peer active ∙ ap target_stage same,
    )

finish_activation-Kept :
    (i : Input) (m : Manager) (t : TargetPreparation) (act : Activation)
    → m.target ≡ t
    → Local m
    → Kept i m (finish_activation t act m)
finish_activation-Kept i m (applying state digest) act same h =
    let (ready, now) = open-Applying m (applying state digest) same refl refl h in
    Outcome-Kept i m (finish_activation (applying state digest) act m) now
      (finish-Outcome m state digest act ready)
finish_activation-Kept i m (checking state digest) act same h = Rest-Kept i m m (Rest-same m h)
finish_activation-Kept i m idle act same h = Rest-Kept i m m (Rest-same m h)
finish_activation-Kept i m accepted act same h = Rest-Kept i m m (Rest-same m h)
finish_activation-Kept i m stuck act same h = Rest-Kept i m m (Rest-same m h)

pub target_activated-Kept :
    (i : Input) (m : Manager) (act : Activation) → Local m → Kept i m (target_activated act m)
unfolding target_activated
target_activated-Kept i m act h = finish_activation-Kept i m m.target act refl h

-- A fin for this process, from the input that brings it.
begin_checking-Kept :
    (i : Input) (m : Manager) (fin : Message) (r : Result (HandoverState × String))
    → m.target ≡ idle
    → m.requesting ≡ true
    → is_given m.source_peer ≡ false
    → BringsFin m.handover_id i
    → Local m
    → Kept i m (begin_checking fin r m)
begin_checking-Kept i m fin (err message) same asked alone brings h =
    Rest-Kept i m m (Rest-same m h)
begin_checking-Kept i m fin (ok (state, digest)) same asked alone brings
      (a, b, c, d, e, f, g, q, k, l, sent) =
    let is_idle_now : is_idle m.target ≡ true = ap is_idle same in
    let passive : m.active ≡ false = ground (arith, q, is_idle_now, asked) in
    let none_yet : is_given m.accepted_state_digest ≡ false = sym l ∙ ap is_accepted same in
    (
      (a, b, c, d, e, f, ground arith, ground arith, k, sym none_yet, sent),
      refl,
      starts brings
          (stage-passive m.source_peer m.active m.target alone passive ∙ ap target_stage same)
          (stage-passive m.source_peer m.active (checking state digest) alone passive),
    )

join_preparation-Kept :
    (codec : Codec) (i : Input) (body : Body) (fin : Message) (m : Manager) (t : TargetPreparation)
    → m.target ≡ t
    → m.requesting ≡ true
    → is_given m.source_peer ≡ false
    → BringsFin m.handover_id i
    → Local m
    → Kept i m (join_preparation codec body fin t m)
join_preparation-Kept codec i body fin m idle same asked alone brings h =
    begin_checking-Kept i m fin (accept_prepared_state codec body m) same asked alone brings h
join_preparation-Kept codec i body fin m (checking state digest) same asked alone brings h =
    (h, refl, rests refl refl)
join_preparation-Kept codec i body fin m (applying state digest) same asked alone brings h =
    (h, refl, rests refl refl)
join_preparation-Kept codec i body fin m accepted same asked alone brings h =
    Rest-Kept i m (put (acks m (fin ∷ [])) m)
      (Rest-put m (acks m (fin ∷ [])) h (acks-Sent m (fin ∷ []) (sym h.9 ∙ ap is_accepted same)))
join_preparation-Kept codec i body fin m stuck same asked alone brings h =
    Rest-Kept i m m (Rest-same m h)

-- The retries that a fin ends are no part of what is kept.
Kept-retries :
    (i : Input) (m m' : Manager) (r : Option ℕ)
    → Kept i (record m { request_retries = r }) m'
    → Kept i m m'
Kept-retries i m m' r (h, id, rests a b) = (h, id, rests a b)
Kept-retries i m m' r (h, id, starts a b c) = (h, id, starts a b c)
Kept-retries i m m' r (h, id, returns a b) = (h, id, returns a b)
Kept-retries i m m' r (h, id, wins a b) = (h, id, wins a b)
Kept-retries i m m' r (h, id, loses a b) = (h, id, loses a b)
Kept-retries i m m' r (h, id, gives a b) = (h, id, gives a b)

not-false : (b : Bool) → not b ≡ false → b ≡ true
not-false b h = ground arith

fin_guard :
    (given asked right_id right_peer : Bool)
    → (given || not asked || not right_id || not right_peer) ≡ false
    → (given ≡ false) × (asked ≡ true) × (right_id ≡ true)
fin_guard given asked right_id right_peer h = (ground arith, ground arith, ground arith)

pub handle_stateful_fin-Kept :
    (codec : Codec) (i : Input) (body : Body) (message : Message) (m : Manager)
    → (get_handover_id body message ≡ m.handover_id → BringsFin m.handover_id i)
    → Local m
    → Kept i m (handle_stateful_fin codec body message m)
unfolding handle_stateful_fin
handle_stateful_fin-Kept codec i body message m brings h =
    let m' : Manager = record m { request_retries = none } in
    if_each (Kept i m)
      (is_given m.source_peer
        || not m.requesting
        || not (same_text (get_handover_id body message) m.handover_id)
        || not (same_text message.process_id m.expected_source))
      m _ (λ t. Rest-Kept i m m (Rest-same m h))
      (λ f.
        let (alone, asked, right) =
          fin_guard (is_given m.source_peer) m.requesting
            (same_text (get_handover_id body message) m.handover_id)
            (same_text message.process_id m.expected_source) f in
        let brought : BringsFin m.handover_id i =
          brings (same_text-eq (get_handover_id body message) m.handover_id right) in
        if_both (Kept i m)
          (is_given m.accepted_state_digest
            && not (same_text body.state_digest m.accepted_state_digest))
          m (join_preparation codec body message m.target m') (Rest-Kept i m m (Rest-same m h))
          (Kept-retries i m (join_preparation codec body message m.target m') none
            (join_preparation-Kept codec i body message m' m.target refl asked alone brought h)))
