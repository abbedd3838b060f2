-- ===== src/Handover/Local/Imports.antt =====
-- Every input leaves the chance of an import, or uses it up.
use uns_kit.Kit.{
  ℕ, ◌+◌, ◌-◌, ◌≡◌, refl, Bool, true, false, not, ◌&&◌, ◌||◌, Option, none, some, List, [], ◌∷◌,
  ◌++◌, map, take, String, ◌==◌, ltb, if_both, Result, err, ok, ◌>>◌,
}
use uns_kit.HandoverState.{HandoverState, Offer, Codec}
use uns_kit.Migration.{ShutdownResult, completed, failed_shutdown, timed_out, run_handover_shutdown}
use uns_kit.Handover.{
  Proxy, ActiveTimer, cleared, armed, fired, HandoverRequest, Preparation, not_started, running,
  finished, broken, SourceExit, staying, draining, exited, Output, published, emitted, released,
  activated, publisher_active, publisher_passive, subscriber_active, subscriber_passive, stopped,
  Manager, put,
}
use uns_kit.Handover.Messages.{is_given}
use uns_kit.Handover.Source.{
  Worker, is_staying, accept_request, finish_review, Prepared, prepare_state, keep_state,
  send_state, send_workers, finish_preparation, repeat_fin, work_end, receipt, leave, finish_exit,
  subscriber_messages, fin_message, exit_if_staying,
}
use uns_kit.Handover.Target.{publishers_active, subscribers_active, deactivate_application}
use uns_kit.Handover.Source.{break_source}
use uns_kit.Handover.Handle.{
  promote, begin_activation, end_activation, activation_done, send_request, offer_of, ask,
  has_answer, first_request, repeat_request,
}
use uns_kit.Handover.Local.Takes.{if_ok-either}
use uns_kit.Handover.Local.Once.{
  imports, Once, imports-map, Once-put, imports_two, imports-subscriber_messages, imports-take,
}

pub opened_outputs : (m : Manager) → imports (publishers_active m ++ activated ∷ []) ≡ 0
unfolding imports
opened_outputs m =
    imports_two (publishers_active m) (activated ∷ [])
      (imports-map (λ (x : Proxy). publisher_active x.instance_name) (λ x. refl) m.proxies) refl

pub subscribed_outputs : (m : Manager) → imports (subscribers_active m) ≡ 0
unfolding imports
subscribed_outputs m =
    imports-map (λ (x : Proxy). subscriber_active x.instance_name none) (λ x. refl) m.proxies

pub begin_activation-Once : (m : Manager) → Once m → Once (begin_activation m)
begin_activation-Once m h =
    Once-put (record m { activations = m.activations + 1 }) (publishers_active m ++ activated ∷ [])
      (opened_outputs m) h

pub promote-Once : (m : Manager) (t : ActiveTimer) → Once m → Once (promote t m)
promote-Once m cleared h = h
promote-Once m fired h = h
promote-Once m armed h =
    if_both Once (m.stateful && is_given m.handover_id) (record m { timer = fired })
      (begin_activation (record m { timer = fired })) h
      (begin_activation-Once (record m { timer = fired }) h)

pub deactivate-Once : (m : Manager) → Once m → Once (deactivate_application m)
unfolding deactivate_application imports
deactivate-Once m h =
    Once-put (record m { active = false }) _
      (imports_two (map (λ (x : Proxy). subscriber_passive x.instance_name) m.proxies) _
        (imports-map (λ (x : Proxy). subscriber_passive x.instance_name) (λ x. refl) m.proxies)
        (imports-map (λ (x : Proxy). publisher_passive x.instance_name) (λ x. refl) m.proxies))
      h

pub end_activation-Once : (r : Result (Unit {0})) (m : Manager) → Once m → Once (end_activation r m)
unfolding imports
end_activation-Once (err message) m h = deactivate-Once m h
end_activation-Once (ok done) m h =
    Once-put (record m { active = true }) (emitted true ∷ subscribers_active m)
      (subscribed_outputs m) h

pub activation_done-Once :
    (r : Result (Unit {0})) (m : Manager) → Once m → Once (activation_done r m)
unfolding activation_done
activation_done-Once r m h =
    if_both Once (m.activations == 0) m _ h
      (end_activation-Once r (record m { activations = m.activations - 1 }) h)

pub ask-Once :
    (m : Manager) (topic : Option String) (offer : Result (List Offer))
    → Once m
    → Once (ask topic offer m)
unfolding imports
ask-Once m none offer h = h
ask-Once m (some topic) offer h =
    if_both Once (has_answer m) (record m { request_retries = none }) _ h (sent (offer_of m offer))
  where
    sent : (o : Result (Option (List Offer))) → Once (send_request topic o m)
    sent (err message) = h
    sent (ok given) = Once-put m _ refl h

pub first_request-Once :
    (m : Manager) (pending : Bool) (offer : Result (List Offer))
    → Once m
    → Once (first_request pending offer m)
first_request-Once m false offer h = h
first_request-Once m true offer h =
    ask-Once (record m { in_progress = true; request_pending = false }) m.asking offer h

pub repeat_request-Once :
    (m : Manager) (n : Option ℕ) (offer : Result (List Offer))
    → Once m
    → Once (repeat_request n offer m)
repeat_request-Once m none offer h = h
repeat_request-Once m (some n) offer h =
    if_both Once (ltb 15 (n + 1) || has_answer m) (record m { request_retries = none }) _ h
      (ask-Once (record m { request_retries = some (n + 1) }) m.asking offer h)

pub accept_request-Once : (r : HandoverRequest) (m : Manager) → Once m → Once (accept_request r m)
unfolding accept_request imports
accept_request-Once r m h = Once-put m (emitted false ∷ released ∷ []) refl h

pub finish_review-Once :
    (o : Option HandoverRequest) (is_ready : Bool) (m : Manager)
    → Once m
    → Once (finish_review o is_ready m)
finish_review-Once none is_ready m h = h
finish_review-Once (some r) is_ready m h =
    if_both Once (not is_ready || is_given m.source_peer || not m.active)
      (record m { review = none }) _ h (accept_request-Once r (record m { review = none }) h)

pub break_source-Once : (m : Manager) → Once m → Once (break_source m)
break_source-Once m h = broke m.source_exit
  where
    broke : (e : SourceExit) → Once (exit_if_staying e (record m { preparation = broken }))
    broke staying = h
    broke draining = h
    broke (exited status) = h

pub send_workers-Once :
    (p : Prepared) (r : HandoverRequest) (w : Result (List Worker)) (m : Manager)
    → Once m
    → Once (send_workers p r w m)
unfolding imports
send_workers-Once p r (err message) m h = break_source-Once m h
send_workers-Once p r (ok workers) m h =
    let messages : List Output =
      subscriber_messages m r workers ++ published (fin_message m r) ∷ [] in
    let none_new : imports messages ≡ 0 =
      imports_two (subscriber_messages m r workers) (published (fin_message m r) ∷ [])
        (imports-subscriber_messages m r workers) refl in
    if_ok-either Once p.sent_ok (break_source (put (take p.sent messages) m))
      (put (messages ++ map (λ (x : Proxy). stopped x.instance_name) m.proxies)
        (record m { preparation = finished }))
      (break_source-Once (put (take p.sent messages) m)
        (Once-put m (take p.sent messages) (imports-take p.sent messages none_new) h))
      (Once-put (record m { preparation = finished })
        (messages ++ map (λ (x : Proxy). stopped x.instance_name) m.proxies)
        (imports_two messages (map (λ (x : Proxy). stopped x.instance_name) m.proxies) none_new
          (imports-map (λ (x : Proxy). stopped x.instance_name) (λ x. refl) m.proxies))
        h)

pub finish_preparation-Once :
    (codec : Codec) (p : Prepared) (o : Option HandoverRequest) (q : Preparation) (m : Manager)
    → Once m
    → Once (finish_preparation codec p o q m)
unfolding imports
finish_preparation-Once codec p none q m h = h
finish_preparation-Once codec p (some r) not_started m h = h
finish_preparation-Once codec p (some r) finished m h = h
finish_preparation-Once codec p (some r) broken m h = h
finish_preparation-Once codec p (some r) running m h =
    if_both Once m.stateful (keep_state p r (prepare_state codec p m) m) _
      (kept (prepare_state codec p m)) (send_workers-Once p r (p.released_ok >> p.workers) m h)
  where
    sent : (s : Result (Unit {0})) (m' : Manager) → Once m' → Once (send_state s r m')
    sent (err message) m' k = Once-put m' _ refl k
    sent (ok done) m' k = Once-put m' _ refl k

    kept : (s : Result (HandoverState × String)) → Once (keep_state p r s m)
    kept (err message) = h
    kept (ok (state, digest)) =
        sent p.sent_ok (record m { prepared_state = some state; state_digest = some digest }) h

pub repeat_fin-Once :
    (n : Option ℕ) (o : Option HandoverRequest) (m : Manager) → Once m → Once (repeat_fin n o m)
unfolding imports
repeat_fin-Once none o m h = h
repeat_fin-Once (some n) none m h = h
repeat_fin-Once (some n) (some r) m h =
    if_both Once (ltb 30 (n + 1) || not (is_staying m.source_exit))
      (record m { fin_retries = none }) _ h
      (Once-put (record m { fin_retries = some (n + 1) }) _ refl h)

receipt-imports : (m : Manager) → imports (receipt m) ≡ 0
unfolding imports
receipt-imports m =
    if_both (λ (os : List Output). imports os ≡ 0) m.stateful _ []
      (imports_two (map (λ (x : Proxy). stopped x.instance_name) m.proxies) _
        (imports-map (λ (x : Proxy). stopped x.instance_name) (λ x. refl) m.proxies) refl)
      refl

pub finish_exit-Once :
    (e : SourceExit) (end : Option (ℕ × Bool)) (m : Manager) → Once m → Once (finish_exit e end m)
finish_exit-Once staying end m h = h
finish_exit-Once (exited status) end m h = h
finish_exit-Once draining end m h =
    left (run_handover_shutdown m.timeout_ms (work_end m.preparation end))
  where
    left : (r : ShutdownResult) → Once (leave r m)
    left completed =
        Once-put (record m { in_progress = false; requesting = false; source_exit = exited 0 })
          (receipt m) (receipt-imports m) h
    left failed_shutdown = h
    left timed_out = h
