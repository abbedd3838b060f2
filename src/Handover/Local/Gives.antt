-- ===== src/Handover/Local/Gives.antt =====
-- The source gives its application away once, and then sends only that state and leaves.
use uns_kit.Kit.{
  ℕ, ◌+◌, ◌≡◌, refl, Bool, true, false, not, ◌||◌, Option, none, some, List, [], ◌∷◌, map, String,
  ltb, if_each, if_both, arith, Result, err, ok, inl, inr, ◌>>◌, All, All-append, All-weaken,
}
use uns_kit.HandoverState.{HandoverState, Codec}
use uns_kit.Migration.{ShutdownResult, completed, failed_shutdown, timed_out, run_handover_shutdown}
use uns_kit.Handover.{
  Message, HandoverRequest, Preparation, not_started, running, finished, broken, SourceExit,
  staying, draining, exited, TargetPreparation, Output, published, emitted, released, activated,
  publisher_active, publisher_passive, subscriber_active, subscriber_passive, imported, stopped,
  drained_receipt, Manager, Body, Proxy,
}
use uns_kit.Handover.Messages.{is_given}
use uns_kit.Handover.Source.{
  accept_request, finish_review, review_done, all_ready, Prepared, prepare_state, keep_state,
  send_state, send_workers, finish_preparation, source_prepared, repeat_fin, fin_retry, is_staying,
  receipt, leave, finish_exit, source_drained, work_end,
}
use uns_kit.Handover.Handle.{Input}
use uns_kit.Handover.Local.{
  Local, Sent, Safe, SafeBody, SameRequest, Kept, gives, stage, stage_of, owns, gave, fin_id,
}
use uns_kit.Handover.Local.Sends.{
  Rest, Rest-put, Rest-same, Rest-Kept, Sent-map, state_message-Safe,
}

-- What a process sent before it gave its application away stays safe.
Safe-given :
    (fin fin' digest : Option String) (o : Output)
    → Safe false fin digest o
    → Safe true fin' digest o
Safe-given fin fin' digest (published message) h =
    SafeBody-given fin fin' digest message message.body h
  where
    SafeBody-given :
        (fin fin' digest : Option String) (message : Message) (body : Option Body)
        → SafeBody false fin digest message body
        → SafeBody true fin' digest message body
    SafeBody-given fin fin' digest message none h = tt
    SafeBody-given fin fin' digest message (some body) (inl e, k) = (inl e, k)
    SafeBody-given fin fin' digest message (some body) (inr e, k) = absurd (cc (e.0))
Safe-given fin fin' digest (emitted a) h = tt
Safe-given fin fin' digest released h = tt
Safe-given fin fin' digest activated h = tt
Safe-given fin fin' digest (publisher_active x) h = tt
Safe-given fin fin' digest (publisher_passive x) h = tt
Safe-given fin fin' digest (subscriber_active x y) h = tt
Safe-given fin fin' digest (subscriber_passive x) h = tt
Safe-given fin fin' digest (imported x) h = tt
Safe-given fin fin' digest (stopped x) h = tt
Safe-given fin fin' digest (drained_receipt x y) h = tt

Sent-given :
    (given : Bool) (fin fin' digest : Option String) (os : List Output)
    → given ≡ false
    → All (Safe given fin digest) os
    → All (Safe true fin' digest) os
Sent-given true fin fin' digest os e h = absurd (cc e)
Sent-given false fin fin' digest os e h = All-weaken _ _ (Safe-given fin fin' digest) os h

stage-owns :
    (peer : Option String) (active : Bool) (t : TargetPreparation)
    → is_given peer ≡ false
    → active ≡ true
    → stage_of peer active t ≡ owns
stage-owns none true t h k = refl
stage-owns none false t h k = absurd (cc k)
stage-owns (some p) active t h k = absurd (cc h)

abbrev Given : Manager → Manager → Type 0
Given m m' = Local m' × (m'.handover_id ≡ m.handover_id) × (stage m ≡ owns) × (stage m' ≡ gave)

accept_request-Given :
    (r : HandoverRequest) (m : Manager)
    → is_given m.source_peer ≡ false
    → m.active ≡ true
    → Local m
    → Given m (accept_request r m)
unfolding accept_request
accept_request-Given r m alone active (a, b, c, d, e, f, g, q, k, l, sent) = (
  (
    a,
    ground (arith, b),
    c,
    d,
    refl,
    refl,
    ground arith,
    refl,
    ((refl, refl), ground arith),
    l,
    All-append _ m.outputs (emitted false ∷ released ∷ [])
        (Sent-given (is_given m.source_peer) (fin_id m) _ m.accepted_state_digest m.outputs alone
          sent)
        (tt, (tt, tt)),
  ),
  refl,
  stage-owns m.source_peer m.active m.target alone active,
  refl,
)

pub accept_request-Kept :
    (i : Input) (r : HandoverRequest) (m : Manager)
    → is_given m.source_peer ≡ false
    → m.active ≡ true
    → Local m
    → Kept i m (accept_request r m)
accept_request-Kept i r m alone active h =
    let (a, b, c, d) = accept_request-Given r m alone active h in (a, b, gives c d)

finish_review-Kept :
    (i : Input) (o : Option HandoverRequest) (ready : Bool) (m : Manager)
    → Local m
    → Kept i m (finish_review o ready m)
finish_review-Kept i none ready m h = Rest-Kept i m m (Rest-same m h)
finish_review-Kept i (some r) ready m h =
    if_each (Kept i m) (not ready || is_given m.source_peer || not m.active)
      (record m { review = none }) (accept_request r (record m { review = none }))
      (λ t. Rest-Kept i m (record m { review = none }) (h, refl, refl, refl))
      (λ f.
        let (a, b, c, d) =
          accept_request-Given r (record m { review = none }) (ground arith) (ground arith) h in
        (a, b, gives c d))

pub review_done-Kept :
    (i : Input) (answers : List (Result Bool)) (m : Manager)
    → Local m
    → Kept i m (review_done answers m)
unfolding review_done
review_done-Kept i answers m h = finish_review-Kept i m.review (all_ready answers) m h

send_state-Rest :
    (m : Manager) (sent : Result (Unit {0})) (r : HandoverRequest)
    → Local m
    → SameRequest (some r) m.source_peer m.accepted_id
    → Rest m (send_state sent r m)
send_state-Rest m (err message) r h (given, same) =
    Rest-put m _ h
      (state_message-Safe m r.reply_topic r.handover_id m.accepted_state_digest given same, tt)
send_state-Rest m (ok done) r h (given, same) =
    Rest-put m _ h
      (state_message-Safe m r.reply_topic r.handover_id m.accepted_state_digest given same, tt)

kept_state-Local :
    (m : Manager) (state : HandoverState) (digest : String)
    → Local m
    → is_given m.source_peer ≡ true
    → Local (record m { prepared_state = some state; state_digest = some digest })
kept_state-Local m state digest (a, b, c, d, e, f, g, q, (k, k'), l, sent) given =
    (a, b, c, d, e, f, g, q, (k, ground arith), l, sent)

keep_state-Rest :
    (m : Manager) (p : Prepared) (r : HandoverRequest) (state : Result (HandoverState × String))
    → Local m
    → SameRequest (some r) m.source_peer m.accepted_id
    → Rest m (keep_state p r state m)
keep_state-Rest m p r (err message) h same = (h, refl, refl, refl)
keep_state-Rest m p r (ok (state, digest)) h same =
    send_state-Rest (record m { prepared_state = some state; state_digest = some digest }) p.sent_ok
      r (kept_state-Local m state digest h same.0) same

finish_preparation-Rest :
    (codec : Codec) (m : Manager) (p : Prepared) (o : Option HandoverRequest) (q : Preparation)
    → Local m
    → SameRequest o m.source_peer m.accepted_id
    → Rest m (finish_preparation codec p o q m)
finish_preparation-Rest codec m p none q h same = Rest-same m h
finish_preparation-Rest codec m p (some r) running h same =
    if_each (Rest m) m.stateful (keep_state p r (prepare_state codec p m) m)
      (send_workers p r (p.released_ok >> p.workers) m)
      (λ t. keep_state-Rest m p r (prepare_state codec p m) h same)
      (λ f. absurd (ground (arith, h.0)))
finish_preparation-Rest codec m p (some r) not_started h same = Rest-same m h
finish_preparation-Rest codec m p (some r) finished h same = Rest-same m h
finish_preparation-Rest codec m p (some r) broken h same = Rest-same m h

pub source_prepared-Rest :
    (codec : Codec) (m : Manager) (p : Prepared) → Local m → Rest m (source_prepared codec p m)
unfolding source_prepared
source_prepared-Rest codec m p h = finish_preparation-Rest codec m p m.request m.preparation h h.8.0

repeat_fin-Rest :
    (m : Manager) (retries : Option ℕ) (o : Option HandoverRequest)
    → Local m
    → SameRequest o m.source_peer m.accepted_id
    → Rest m (repeat_fin retries o m)
repeat_fin-Rest m none o h same = Rest-same m h
repeat_fin-Rest m (some n) none h same = Rest-same m h
repeat_fin-Rest m (some n) (some r) h (given, same) =
    if_both (Rest m) (ltb 30 (n + 1) || not (is_staying m.source_exit))
      (record m { fin_retries = none }) _ (h, refl, refl, refl)
      (Rest-put (record m { fin_retries = some (n + 1) }) _ h
        (state_message-Safe m r.reply_topic r.handover_id m.accepted_state_digest given same, tt))

pub fin_retry-Rest : (m : Manager) → Local m → Rest m (fin_retry m)
unfolding fin_retry
fin_retry-Rest m h = repeat_fin-Rest m m.fin_retries m.request h h.8.0

left-Local :
    (m : Manager) (status : ℕ)
    → Local m
    → Local (record m { in_progress = false; requesting = false; source_exit = exited status })
left-Local m status (a, b, c, d, e, f, g, q, k, l, sent) =
    (a, b, c, d, ground arith, f, g, ground arith, k, l, sent)

receipt-Sent : (m : Manager) → Sent m (receipt m)
receipt-Sent m =
    if_both (Sent m) m.stateful _ []
      (All-append _ (map (λ (x : Proxy). stopped x.instance_name) m.proxies) _
        (Sent-map m (λ (x : Proxy). stopped x.instance_name) (λ given fin digest x. tt) m.proxies)
        (tt, tt))
      tt

leave-Rest : (m : Manager) (r : ShutdownResult) → Local m → Rest m (leave r m)
leave-Rest m completed h =
    Rest-put (record m { in_progress = false; requesting = false; source_exit = exited 0 })
      (receipt m) (left-Local m 0 h) (receipt-Sent m)
leave-Rest m failed_shutdown h = (left-Local m 1 h, refl, refl, refl)
leave-Rest m timed_out h = (left-Local m 1 h, refl, refl, refl)

finish_exit-Rest :
    (m : Manager) (e : SourceExit) (end : Option (ℕ × Bool))
    → Local m
    → Rest m (finish_exit e end m)
finish_exit-Rest m staying end h = Rest-same m h
finish_exit-Rest m (exited status) end h = Rest-same m h
finish_exit-Rest m draining end h =
    leave-Rest m (run_handover_shutdown m.timeout_ms (work_end m.preparation end)) h

pub source_drained-Rest :
    (m : Manager) (end : Option (ℕ × Bool)) → Local m → Rest m (source_drained end m)
unfolding source_drained
source_drained-Rest m end h = finish_exit-Rest m m.source_exit end h
