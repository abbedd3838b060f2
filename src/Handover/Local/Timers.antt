-- ===== src/Handover/Local/Timers.antt =====
-- The timers of a successor ask for a handover and never make it active.
use uns_kit.Kit.{
  ℕ, ◌+◌, ◌-◌, ◌≡◌, ap, refl, Bool, true, false, ◌&&◌, ◌||◌, Option, none, some, List, String, ◌==◌,
  ltb, if_each, if_both, arith, Result, err, ok, inl,
}
use uns_kit.HandoverState.{Offer}
use uns_kit.Handover.{ActiveTimer, cleared, armed, fired, Manager}
use uns_kit.Handover.Messages.{is_given, handover_payload, handover_message}
use uns_kit.Handover.Handle.{
  promote, active_timeout, begin_activation, activation_done, end_activation, ask, has_answer,
  send_request, offer_of, first_request, request_due, repeat_request, request_retry,
}
use uns_kit.Handover.Local.{Local, is_armed}
use uns_kit.Handover.Local.Sends.{Rest, Rest-put, Rest-same}

fired-Rest : (m : Manager) → Local m → Rest m (record m { timer = fired })
fired-Rest m (a, b, c, d, e, f, g, q, k, l, sent) =
    ((a, ground (arith, b), c, d, e, f, g, q, k, l, sent), refl, refl, refl)

promote-Rest : (m : Manager) (t : ActiveTimer) → m.timer ≡ t → Local m → Rest m (promote t m)
promote-Rest m cleared same h = Rest-same m h
promote-Rest m fired same h = Rest-same m h
promote-Rest m armed same h =
    let is_on : is_armed m.timer ≡ true = ap is_armed same in
    if_each (Rest m) (m.stateful && is_given m.handover_id) (record m { timer = fired })
      (begin_activation (record m { timer = fired })) (λ t. fired-Rest m h)
      (λ f. absurd (ground (arith, h.0, h.1, is_on)))

pub active_timeout-Rest : (m : Manager) → Local m → Rest m (active_timeout m)
unfolding active_timeout
active_timeout-Rest m h = promote-Rest m m.timer refl h

pub activation_done-Rest :
    (m : Manager) (r : Result (Unit {0})) → Local m → Rest m (activation_done r m)
unfolding activation_done
activation_done-Rest m r h =
    if_each (Rest m) (m.activations == 0) m
      (end_activation r (record m { activations = m.activations - 1 })) (λ t. Rest-same m h)
      (λ f. absurd (ground (arith, h.3)))

send_request-Rest :
    (m : Manager) (topic : String) (offer : Result (Option (List Offer)))
    → Local m
    → Rest m (send_request topic offer m)
unfolding handover_message handover_payload
send_request-Rest m topic (err message) h = Rest-same m h
send_request-Rest m topic (ok offer) h = Rest-put m _ h ((inl refl, inl refl), tt)

ask-Rest :
    (m : Manager) (topic : Option String) (offer : Result (List Offer))
    → Local m
    → Rest m (ask topic offer m)
ask-Rest m none offer h = Rest-same m h
ask-Rest m (some topic) offer h =
    if_both (Rest m) (has_answer m) (record m { request_retries = none })
      (send_request topic (offer_of m offer) m) (h, refl, refl, refl)
      (send_request-Rest m topic (offer_of m offer) h)

in_progress-Local :
    (m : Manager) → Local m → Local (record m { in_progress = true; request_pending = false })
in_progress-Local m (a, b, c, d, e, f, g, q, k, l, sent) =
    (a, b, c, d, ground arith, f, g, q, k, l, sent)

first_request-Rest :
    (m : Manager) (due : Bool) (offer : Result (List Offer))
    → Local m
    → Rest m (first_request due offer m)
first_request-Rest m false offer h = Rest-same m h
first_request-Rest m true offer h =
    ask-Rest (record m { in_progress = true; request_pending = false }) m.asking offer
      (in_progress-Local m h)

pub request_due-Rest :
    (m : Manager) (offer : Result (List Offer)) → Local m → Rest m (request_due offer m)
unfolding request_due
request_due-Rest m offer h = first_request-Rest m m.request_pending offer h

repeat_request-Rest :
    (m : Manager) (retries : Option ℕ) (offer : Result (List Offer))
    → Local m
    → Rest m (repeat_request retries offer m)
repeat_request-Rest m none offer h = Rest-same m h
repeat_request-Rest m (some retries) offer h =
    if_both (Rest m) (ltb 15 (retries + 1) || has_answer m) (record m { request_retries = none })
      (ask m.asking offer (record m { request_retries = some (retries + 1) })) (h, refl, refl, refl)
      (ask-Rest (record m { request_retries = some (retries + 1) }) m.asking offer h)

pub request_retry-Rest :
    (m : Manager) (offer : Result (List Offer)) → Local m → Rest m (request_retry offer m)
unfolding request_retry
request_retry-Rest m offer h = repeat_request-Rest m m.request_retries offer h
