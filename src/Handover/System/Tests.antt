-- ===== src/Handover/System/Tests.antt =====
-- A handover between two processes, step by step.
use uns_kit.Kit.{
  ℕ, zero, suc, ◌≡◌, refl, ◌<◌, ◌⊎◌, inl, inr, true, false, none, some, List, [], ◌∷◌, ◌≤◌, ◌==◌,
  arith, ok, err, if◌then◌else◌, if_each, if_both, ==_iff,
}
use uns_kit.Topics.Split.{split, join}
use uns_kit.Topics.Builder.{sanitize_topic_part, handover_topic, extract_base_topic, topic_builder}
use uns_kit.HandoverState.Schema.{is_offer}
use uns_kit.AppState.{number}
use uns_kit.HandoverState.{Codec}
use uns_kit.Handover.{
  Event, Manager, armed, fired, not_started, staying, exited, idle, published, activated, emitted,
}
use uns_kit.Handover.Messages.{blank_body, normalize_handover_id}
use uns_kit.Handover.Source.{Prepared}
use uns_kit.Handover.Handle.{
  Input, arrives, timeout, activation, due, reviewed, prepared, cursors, activates, drained, step,
}
use uns_kit.Handover.Local.{Local, Kept, stage, owns, waits, gave}
use uns_kit.Handover.Local.Steps.{step-Kept}
use uns_kit.Handover.Local.Once.{imports}
use uns_kit.Handover.Local.Baseline.{run_inputs, imports-run_inputs}
use uns_kit.Handover.System.{
  replace, Member, here, there, acts, receives, Start, Reach, begins, later,
}
use uns_kit.Handover.System.Departure.{AcceptedBy, left_accepted}
use uns_kit.Handover.System.Safety.{one_owner}

abbrev test_codec : Codec
test_codec = record {
  is_datetime = λ s. true;
  json_bytes = λ v. 2;
  state_bytes = λ s. 100;
  hash = λ s. "5f";
}

abbrev waiting_process : Manager
waiting_process = record {
  process_name = "meter";
  package_name = "plant";
  process_id = "new";
  topics = record { process_status_topic = "uns-infra/plant/2/meter/" };
  handover_id = some "second";
  stateful = true;
  application = none;
  proxies = [];
  request_enabled = true;
  handover_enabled = true;
  force_start = false;
  timeout_ms = 30000;
  active = false;
  requesting = false;
  in_progress = false;
  timer = armed;
  activations = 0;
  expected_source = none;
  asking = none;
  request_pending = false;
  request_retries = none;
  review = none;
  source_peer = none;
  accepted_id = none;
  request = none;
  preparation = not_started;
  prepared_state = none;
  state_digest = none;
  fin_retries = none;
  source_exit = staying;
  target = idle;
  accepted_state_digest = none;
  waiting = [];
  outputs = [];
}

-- The first process, as it is made, has no identifier; its timer makes it active.
abbrev first_process : Manager
first_process = record waiting_process {
  process_id = "old";
  topics = record { process_status_topic = "uns-infra/plant/1/meter/" };
  handover_id = none;
}

abbrev active_process : Manager
active_process = record first_process {
  active = true;
  timer = fired;
  outputs = activated ∷ emitted true ∷ [];
}

active_reached :
    run_inputs test_codec (timeout ∷ activation (ok tt) ∷ []) first_process ≡ active_process
unfolding run_inputs step
active_reached = refl

abbrev processes : ℕ → Manager
processes p = if p == 0 then active_process else waiting_process

abbrev heartbeat : Event
heartbeat = record {
  message = record {
    topic = "uns-infra/plant/1/meter/active";
    process_id = some "old";
    property_id = none;
    response_topic = none;
    body = some (record (blank_body "") { data_value = some (number true "1") });
  };
  size = 40;
  retain = false;
}

abbrev moves : (ℕ → Manager) → ℕ → Input → ℕ → Manager
moves s p i = replace s p (step test_codec i (s p))

-- The successor has seen a heartbeat and its request is due.
abbrev asked : ℕ → Manager
asked = moves (moves processes 1 (arrives heartbeat (err "none"))) 1 (due (ok []))

asked_test : (asked 1).asking ≡ some "uns-infra/plant/1/meter/handover"
unfolding step split sanitize_topic_part handover_topic extract_base_topic topic_builder join
    normalize_handover_id is_offer
asked_test = refl

abbrev request_event : Event
request_event = record {
  message = record {
    topic = "uns-infra/plant/1/meter/handover";
    process_id = some "new";
    property_id = some "second";
    response_topic = some "uns-infra/plant/2/meter/handover";
    body = some (record (blank_body "handover_request") {
      protocol = some 2;
      handover_id = some "second";
      offer = some [];
    });
  };
  size = 120;
  retain = false;
}

asked_request : Member (published request_event.message) (asked 1).outputs
unfolding step split sanitize_topic_part handover_topic extract_base_topic topic_builder join
    normalize_handover_id is_offer
asked_request = there _ _ _ (there _ _ _ (here _ _))

abbrev nothing_left : Prepared
nothing_left = record {
  released_ok = ok tt;
  workers = ok [];
  drained = ok tt;
  flushed = ok tt;
  exported = err "none";
  snapshots = ok [];
  sent = 1;
  sent_ok = ok tt;
}

-- The source has reviewed the request and sent its state.
abbrev sent : ℕ → Manager
sent =
    moves (moves (moves asked 0 (arrives request_event (err "none"))) 0 (reviewed [])) 0
      (prepared nothing_left)

abbrev fin_event : Event
fin_event = record {
  message = record {
    topic = "uns-infra/plant/2/meter/handover";
    process_id = some "old";
    property_id = some "second";
    response_topic = some "uns-infra/plant/1/meter/handover";
    body = some (record (blank_body "handover_fin") {
      protocol = some 2;
      handover_id = some "second";
      state = some (record { protocol = 1; application = none; proxies = [] });
      state_digest = some "5f";
    });
  };
  size = 200;
  retain = false;
}

sent_fin : Member (published fin_event.message) (sent 0).outputs
unfolding step split sanitize_topic_part handover_topic extract_base_topic topic_builder join
    normalize_handover_id is_offer
sent_fin = there _ _ _ (there _ _ _ (there _ _ _ (there _ _ _ (here _ _))))

-- The successor has taken the state over.
abbrev taken : ℕ → Manager
taken =
    moves (moves (moves sent 1 (arrives fin_event (err "none"))) 1 (cursors (ok tt))) 1
      (activates (record { imported_ok = ok tt; activated_ok = ok tt; resumed_ok = ok tt }))

taken_stages : (stage (taken 0) ≡ gave) × (stage (taken 1) ≡ owns)
unfolding step split sanitize_topic_part handover_topic extract_base_topic topic_builder join
    normalize_handover_id is_offer
taken_stages = (refl, refl)

abbrev ack_event : Event
ack_event = record {
  message = record {
    topic = "uns-infra/plant/1/meter/handover";
    process_id = some "new";
    property_id = some "second";
    response_topic = none;
    body = some (record (blank_body "handover_ack") {
      protocol = some 2;
      handover_id = some "second";
      state_digest = some "5f";
    });
  };
  size = 90;
  retain = false;
}

taken_ack : Member (published ack_event.message) (taken 1).outputs
unfolding step split sanitize_topic_part handover_topic extract_base_topic topic_builder join
    normalize_handover_id is_offer
taken_ack =
    there _ _ _ (there _ _ _ (there _ _ _ (there _ _ _ (there _ _ _ (there _ _ _ (here _ _))))))

-- The source has left.
abbrev left : ℕ → Manager
left = moves (moves taken 0 (arrives ack_event (err "none"))) 0 (drained (some (10, true)))

left_exit : (left 0).source_exit ≡ exited 0
unfolding step split sanitize_topic_part handover_topic extract_base_topic topic_builder join
    normalize_handover_id is_offer
left_exit = refl

taken_reached : Reach test_codec 2 processes taken
unfolding step split sanitize_topic_part handover_topic extract_base_topic topic_builder join
    normalize_handover_id is_offer
taken_reached =
    later
      (later
        (later
          (later
            (later
              (later
                (later
                  (later begins
                    (acts 1 (arrives heartbeat (err "none")) (omega arith) (refl, refl)))
                  (acts 1 (due (ok [])) (omega arith) tt))
                (receives 0 1 request_event (err "none") (omega arith) (omega arith) asked_request))
              (acts 0 (reviewed []) (omega arith) tt))
            (acts 0 (prepared nothing_left) (omega arith) tt))
          (receives 1 0 fin_event (err "none") (omega arith) (omega arith) sent_fin))
        (acts 1 (cursors (ok tt)) (omega arith) tt))
      (acts 1 (activates (record { imported_ok = ok tt; activated_ok = ok tt; resumed_ok = ok tt }))
        (omega arith) tt)

left_reached : Reach test_codec 2 processes left
unfolding step split sanitize_topic_part handover_topic extract_base_topic topic_builder join
    normalize_handover_id is_offer
left_reached =
    later
      (later taken_reached
        (receives 0 1 ack_event (err "none") (omega arith) (omega arith) taken_ack))
      (acts 0 (drained (some (10, true))) (omega arith) tt)

active-Local : Local active_process
active-Local = (refl, refl, refl, refl, refl, refl, refl, refl, (tt, refl), refl, (tt, (tt, tt)))

waiting-Local : Local waiting_process
waiting-Local = (refl, refl, refl, refl, refl, refl, refl, refl, (tt, refl), refl, tt)

processes-Start : Start 2 0 processes
processes-Start = record {
  inside = omega arith;
  local = λ p. if_both Local (p == 0) active_process waiting_process active-Local waiting-Local;
  stays = λ p.
      if_both (λ (m : Manager). m.source_exit ≡ staying) (p == 0) active_process waiting_process
        refl refl;
  unprepared = λ p.
      if_both (λ (m : Manager). m.state_digest ≡ none) (p == 0) active_process waiting_process refl
        refl;
  first = refl;
  others = λ p.
      if_each (λ (m : Manager). (p ≡ 0) ⊎ (stage m ≡ waits)) (p == 0) active_process waiting_process
        (λ t. inl ((==_iff p 0).0 t)) (λ f. inr refl);
}

processes-distinct :
    (p q : ℕ) → p < 2 → q < 2 → (processes p).handover_id ≡ (processes q).handover_id → p ≡ q
processes-distinct zero zero hp hq e = refl
processes-distinct zero (suc zero) hp hq e = cc e
processes-distinct (suc zero) zero hp hq e = cc e
processes-distinct (suc zero) (suc zero) hp hq e = refl
processes-distinct (suc (suc p)) q hp hq e = absurd (omega arith)
processes-distinct zero (suc (suc q)) hp hq e = absurd (omega arith)
processes-distinct (suc zero) (suc (suc q)) hp hq e = absurd (omega arith)

one_owner_example : ◌≡◌ {A = ℕ} 1 1
unfolding step split sanitize_topic_part handover_topic extract_base_topic topic_builder join
    normalize_handover_id is_offer
one_owner_example =
    one_owner {s = processes} {t = taken} processes-Start processes-distinct taken_reached 1 1
      (omega arith) (omega arith) refl refl

-- A source that reviews a request.
abbrev reviewing_process : Manager
reviewing_process = record active_process {
  review = some (record { peer = "new"; handover_id = some "second"; reply_topic = "reply" });
}

step-Kept_example :
    Kept (reviewed []) reviewing_process (step test_codec (reviewed []) reviewing_process)
step-Kept_example = step-Kept test_codec (reviewed []) reviewing_process active-Local

left_accepted_example : AcceptedBy 2 left (some "5f")
unfolding step split sanitize_topic_part handover_topic extract_base_topic topic_builder join
    normalize_handover_id is_offer
left_accepted_example =
    left_accepted {s = processes} {t = left} processes-Start processes-distinct left_reached 0
      (omega arith) refl

-- The fin comes twice, before and after the takeover.
abbrev fin_twice : List Input
fin_twice =
    arrives heartbeat (err "none")
    ∷ due (ok [])
    ∷ arrives fin_event (err "none")
    ∷ cursors (ok tt)
    ∷ activates (record { imported_ok = ok tt; activated_ok = ok tt; resumed_ok = ok tt })
    ∷ arrives fin_event (err "none")
    ∷ []

fin_twice_test : imports (run_inputs test_codec fin_twice waiting_process).outputs ≡ 1
unfolding imports run_inputs step split sanitize_topic_part handover_topic extract_base_topic
    topic_builder join normalize_handover_id is_offer
fin_twice_test = refl

imports-run_inputs_example : imports (run_inputs test_codec fin_twice waiting_process).outputs ≤ 1
imports-run_inputs_example = imports-run_inputs test_codec fin_twice waiting_process refl refl
