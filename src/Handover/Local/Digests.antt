-- ===== src/Handover/Local/Digests.antt =====
-- The digests of a source and of a successor: set once, by the preparation and by an activation that succeeds.
use uns_kit.Kit.{
  ℕ, ◌+◌, ◌≡◌, refl, ap, sym, inl, Bool, true, false, not, ◌&&◌, ◌||◌, Option, none, some, String,
  ltb, if_each, if_both, arith, Result, err, ok, ◌>>◌,
}
use uns_kit.AppState.{Json}
use uns_kit.HandoverState.{HandoverState, Codec}
use uns_kit.Migration.{ShutdownResult, completed, failed_shutdown, timed_out, run_handover_shutdown}
use uns_kit.Handover.{
  Body, Message, HandoverRequest, Preparation, not_started, running, finished, broken, SourceExit,
  staying, draining, exited, TargetPreparation, idle, checking, applying, accepted, stuck, Manager,
}
use uns_kit.Handover.Messages.{is_given, same_text, get_handover_id}
use uns_kit.Handover.Source.{
  is_staying, consider, check_request, request_of, is_repeated, handle_request, Prepared,
  prepare_state, keep_state, send_workers, finish_preparation, repeat_fin, work_end, leave,
  finish_exit,
}
use uns_kit.Handover.Target.{
  deactivate_application, accept_prepared_state, begin_checking, join_preparation,
  handle_stateful_fin, handle_stateless_fin, handle_fin, apply_checked, Activation,
  finish_activation,
}
use uns_kit.Handover.Handle.{Input}
use uns_kit.Handover.Local.{Local, SameRequest}
use uns_kit.Handover.Local.Takes.{if_ok-either, open-Applying}
use uns_kit.Handover.Local.Exits.{
  is_running, Settled, Grows, Stays-same, Stays-none, still, accept_request-Grows, send_state-Grows,
}

pub finish_preparation-Grows :
    (codec : Codec) (i : Input) (m : Manager) (p : Prepared) (o : Option HandoverRequest)
    (q : Preparation)
    → m.preparation ≡ q
    → m.stateful ≡ true
    → SameRequest o m.source_peer m.accepted_id
    → Settled m
    → Grows i m (finish_preparation codec p o q m)
finish_preparation-Grows codec i m p none q now st same j = still i m j
finish_preparation-Grows codec i m p (some r) not_started now st same j = still i m j
finish_preparation-Grows codec i m p (some r) finished now st same j = still i m j
finish_preparation-Grows codec i m p (some r) broken now st same j = still i m j
finish_preparation-Grows codec i m p (some r) running now st (given, id) (a, b) =
    if_each (Grows i m) m.stateful (keep_state p r (prepare_state codec p m) m)
      (send_workers p r (p.released_ok >> p.workers) m) (λ t. kept (prepare_state codec p m))
      (λ f. absurd (cc (st, f)))
  where
    is_run : is_running m.preparation ≡ true
    is_run = ap is_running now

    kept : (r' : Result (HandoverState × String)) → Grows i m (keep_state p r r' m)
    kept (err message) =
        ((a, ground arith), Stays-same m.accepted_state_digest, Stays-same m.state_digest, inl refl)
    kept (ok (state, digest)) =
        send_state-Grows i m digest p.sent_ok r
          (record m { prepared_state = some state; state_digest = some digest })
          (ground (arith, b, is_run)) given refl (Stays-same m.accepted_state_digest) refl

pub repeat_fin-Grows :
    (i : Input) (m : Manager) (retries : Option ℕ) (o : Option HandoverRequest)
    → Settled m
    → Grows i m (repeat_fin retries o m)
repeat_fin-Grows i m none o j = still i m j
repeat_fin-Grows i m (some n) none j = still i m j
repeat_fin-Grows i m (some n) (some r) j =
    if_both (Grows i m) (ltb 30 (n + 1) || not (is_staying m.source_exit))
      (record m { fin_retries = none }) _ (still i m j) (still i m j)

pub apply_checked-Grows :
    (i : Input) (m : Manager) (t : TargetPreparation) (r : Result (Unit {0}))
    → Settled m
    → Grows i m (apply_checked t r m)
apply_checked-Grows i m (checking state digest) (err message) j = still i m j
apply_checked-Grows i m (checking state digest) (ok done) j = still i m j
apply_checked-Grows i m idle r j = still i m j
apply_checked-Grows i m (applying state digest) r j = still i m j
apply_checked-Grows i m accepted r j = still i m j
apply_checked-Grows i m stuck r j = still i m j

pub finish_activation-Grows :
    (i : Input) (m : Manager) (t : TargetPreparation) (act : Activation)
    → m.target ≡ t
    → Local m
    → Settled m
    → Grows i m (finish_activation t act m)
unfolding deactivate_application
finish_activation-Grows i m (applying state digest) act same h j =
    let (ready, now) = open-Applying m (applying state digest) same refl refl h in
    if_ok-either (Grows i m) act.imported_ok _ _ (still i m j) (
      if_ok-either (Grows i m) act.activated_ok _ _ (still i m j) (
        if_ok-either (Grows i m) act.resumed_ok _ _ (still i m j) (
          j,
          Stays-none m.accepted_state_digest (some digest) ready.3,
          Stays-same m.state_digest,
          inl refl,
        )))
finish_activation-Grows i m (checking state digest) act same h j = still i m j
finish_activation-Grows i m idle act same h j = still i m j
finish_activation-Grows i m accepted act same h j = still i m j
finish_activation-Grows i m stuck act same h j = still i m j

pub leave-Grows :
    (i : Input) (m : Manager) (r : ShutdownResult)
    → m.source_exit ≡ draining
    → Settled m
    → Grows i m (leave r m)
leave-Grows i m completed now j = (
  j,
  Stays-same m.accepted_state_digest,
  Stays-same m.state_digest,
  inl (sym (ap is_staying now)),
)
leave-Grows i m failed_shutdown now j = (
  j,
  Stays-same m.accepted_state_digest,
  Stays-same m.state_digest,
  inl (sym (ap is_staying now)),
)
leave-Grows i m timed_out now j = (
  j,
  Stays-same m.accepted_state_digest,
  Stays-same m.state_digest,
  inl (sym (ap is_staying now)),
)

pub finish_exit-Grows :
    (i : Input) (m : Manager) (e : SourceExit) (end : Option (ℕ × Bool))
    → m.source_exit ≡ e
    → Settled m
    → Grows i m (finish_exit e end m)
finish_exit-Grows i m staying end now j = still i m j
finish_exit-Grows i m (exited status) end now j = still i m j
finish_exit-Grows i m draining end now j =
    leave-Grows i m (run_handover_shutdown m.timeout_ms (work_end m.preparation end)) now j

pub handle_request-Grows :
    (codec : Codec) (exported : Result Json) (i : Input) (body : Body) (message : Message)
    (m : Manager)
    → Settled m
    → Grows i m (handle_request codec exported body message m)
unfolding handle_request
handle_request-Grows codec exported i body message m j =
    if_both (Grows i m) (is_repeated body message m) _ _ (still i m j) (
      if_each (Grows i m) (is_given m.source_peer || not m.active) m _ (λ t. still i m j)
        (λ f.
          considered
            (request_of message.process_id (get_handover_id body message) message.response_topic)
            (ground (arith, f))))
  where
    considered :
        (o : Option HandoverRequest)
        → is_given m.source_peer ≡ false
        → Grows i m (consider codec exported body o m)
    considered none alone = still i m j
    considered (some r) alone =
        if_both (Grows i m) m.stateful _ _
          (if_ok-either (Grows i m) (check_request codec exported body m) _ _ (still i m j) (
            if_both (Grows i m) (is_given m.review) m (record m { review = some r }) (still i m j)
              (still i m j)))
          (accept_request-Grows i r m alone j)

pub join_preparation-Grows :
    (codec : Codec) (i : Input) (body : Body) (fin : Message) (t : TargetPreparation) (m : Manager)
    → Settled m
    → Grows i m (join_preparation codec body fin t m)
join_preparation-Grows codec i body fin idle m j = begun (accept_prepared_state codec body m)
  where
    begun : (r : Result (HandoverState × String)) → Grows i m (begin_checking fin r m)
    begun (err message) = still i m j
    begun (ok (state, digest)) = still i m j
join_preparation-Grows codec i body fin (checking state digest) m j = still i m j
join_preparation-Grows codec i body fin (applying state digest) m j = still i m j
join_preparation-Grows codec i body fin accepted m j = still i m j
join_preparation-Grows codec i body fin stuck m j = still i m j

pub handle_fin-Grows :
    (codec : Codec) (i : Input) (body : Body) (message : Message) (m : Manager)
    → Settled m
    → Grows i m (handle_fin codec body message m)
unfolding handle_fin handle_stateful_fin handle_stateless_fin
handle_fin-Grows codec i body message m j =
    if_both (Grows i m) m.stateful _ _
      (if_both (Grows i m)
        (is_given m.source_peer
          || not m.requesting
          || not (same_text (get_handover_id body message) m.handover_id)
          || not (same_text message.process_id m.expected_source))
        m _ (still i m j)
        (if_both (Grows i m)
          (is_given m.accepted_state_digest
            && not (same_text body.state_digest m.accepted_state_digest))
          m _ (still i m j)
          (join_preparation-Grows codec i body message m.target
            (record m { request_retries = none }) j)))
      (if_both (Grows i m) _ m _ (still i m j) (still i m j))
