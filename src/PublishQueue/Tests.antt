-- ===== src/PublishQueue/Tests.antt =====
-- The output queue at concrete inputs.
use uns_kit.Kit.{ℕ, ◌≡◌, refl, true, false, none, [], ◌∷◌, ◌++◌, String, arith, length, ok}
use uns_kit.PublishQueue.Records.{
  Mode, Config, PublishRecord, check_envelope, validate_output_row, has_nul, has_wildcard,
  utf16_length,
}
use uns_kit.PublishQueue.Store.{Disk, put, head, complete}
use uns_kit.PublishQueue.Queue.{scheduled, Queue, delivered_id, idle_reached, new_record, admission}
use uns_kit.PublishQueue.Delivery.{begin_run, acknowledged, finish_close}
use uns_kit.PublishQueue.Invariant.{Inv}
use uns_kit.PublishQueue.Admission.{new_record-validates, Stopped, finish_close-Stopped}
use uns_kit.PublishQueue.Machine.{
  Event, enqueue, run_starts, acknowledges, step, run_events, all_accepted, all_confirmed,
}
use uns_kit.PublishQueue.Machine.Keeps.{backlog, step-Inv}
use uns_kit.PublishQueue.Machine.Fifo.{run_events_fifo}
use uns_kit.PublishQueue.Machine.Drain.{
  IsLive, IsDrained, acknowledge_times, acknowledge_times-IsDrained,
}

abbrev small : Config
small = record {
  mode = Mode.buffered;
  max_records = 3;
  max_bytes = 1000;
  memory_records = 2;
  memory_bytes = 600;
  max_message_bytes = 400;
  max_disk_bytes = 1000000;
  min_free_bytes = 10;
}

abbrev entry : ℕ → String → PublishRecord
entry n id = record {
  seq = n;
  id = id;
  topic = "a/b";
  message = "x";
  qos = 1;
  retain = false;
  bytes = 260;
}

abbrev roomy : Disk
roomy = record {
  free_bytes = 1000;
  physical_bytes = 0;
  truncated_bytes = 0;
  serialized_bytes = λ r. r.bytes;
}

abbrev full_disk : Disk
full_disk = record roomy { free_bytes = 0 }

-- One record on disk, a later one in memory, and a scheduled run.
abbrev waiting : Queue
waiting = record {
  config = small;
  store = record { pending = entry 3 "r3" ∷ []; final_summary = none };
  memory = entry 4 "r4" ∷ [];
  completions = "r4" ∷ [];
  waiters = 7 ∷ [];
  seq = 4;
  active = true;
  closed = false;
  processing = scheduled;
  retry_timer = false;
  delivered = 0;
  retries = 0;
  last_error = none;
  blocked = none;
  outcomes = [];
}

waiting-Inv : Inv waiting
waiting-Inv = record {
  rows = (tt, tt);
  buffer = (tt, tt);
  apart = ((omega arith, tt), tt);
  rows_below = (omega arith, tt);
  buffer_below = (omega arith, tt);
  counts_open = λ e. refl;
  record_limit = omega arith;
  byte_limit = omega arith;
  first = tt;
}

waiting-IsLive : IsLive waiting
unfolding validate_output_row has_nul has_wildcard utf16_length
waiting-IsLive = record { is_active = refl; is_open = refl; unblocked = refl; intact = (refl, tt) }

abbrev publish : String → Event
publish id = enqueue roomy "a/b" "y" id none

admits_c : admission waiting "a/b" "y" "c" none ≡ ok tt
unfolding admission check_envelope has_nul has_wildcard utf16_length
admits_c = refl

outcomes_in_order :
    (run_events (run_starts ∷ acknowledges ∷ acknowledges ∷ []) waiting).outcomes
    ≡ delivered_id "r4" ∷ idle_reached 7 ∷ []
unfolding run_events step begin_run acknowledged head complete validate_output_row has_nul
    has_wildcard utf16_length
outcomes_in_order = refl

run_events_fifo_example :
    backlog waiting ++ all_accepted (publish "c" ∷ run_starts ∷ acknowledges ∷ []) waiting
    ≡ all_confirmed (publish "c" ∷ run_starts ∷ acknowledges ∷ []) waiting
      ++ backlog (run_events (publish "c" ∷ run_starts ∷ acknowledges ∷ []) waiting)
run_events_fifo_example =
    run_events_fifo (publish "c" ∷ run_starts ∷ acknowledges ∷ []) waiting waiting-Inv

step-Inv_example : Inv (step (publish "c") waiting)
step-Inv_example = step-Inv (publish "c") waiting waiting-Inv

acknowledge_times-IsDrained_example :
    IsDrained (acknowledge_times (length (backlog waiting)) (begin_run waiting))
acknowledge_times-IsDrained_example =
    acknowledge_times-IsDrained waiting waiting-Inv waiting-IsLive refl

closes_waiting : (finish_close (λ _. roomy) waiting).0 ≡ none
unfolding finish_close put
closes_waiting = refl

finish_close-Stopped_example : Stopped waiting (finish_close (λ _. roomy) waiting).1
finish_close-Stopped_example = finish_close-Stopped (λ _. roomy) waiting refl closes_waiting

abbrev durable_queue : Queue
durable_queue = record waiting { config = record small { mode = Mode.durable } }

new_record-validates_example : validate_output_row (new_record waiting "a/b" "y" "c" none) ≡ true
new_record-validates_example =
    new_record-validates waiting "a/b" "y" "c" none admits_c (omega arith)
