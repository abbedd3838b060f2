-- ===== src/Migration/Tests.antt =====
-- Runs and examples of the end of a process.
use uns_kit.Kit.{◌≢◌, refl, true, false, none, some, List, [], ◌∷◌, ok}
use uns_kit.PublishQueue.Records.{Mode}
use uns_kit.PublishQueue.Queue.{State}
use uns_kit.Migration.{
  ProcessWork, work_threw, drain, DrainOutput, DrainRun, drain_mqtt_for_migration,
}
use uns_kit.Migration.Drained.{
  Finished, drain_mqtt_for_migration-Finished, finished, work_events, drain-work_threw,
}

abbrev outputs : List DrainOutput
outputs =
    record { status = none; sealed = false }
    ∷ record {
      status = some (record {
        mode = Mode.durable;
        state = State.idle;
        pending_records = 0;
        pending_bytes = 0;
        memory_records = 0;
        disk_records = 0;
        in_flight = false;
        delivered = 7;
        retries = 1;
        last_error = none;
      });
      sealed = false;
    }
    ∷ []

abbrev run : DrainRun
run = record {
  quiesced = ok tt;
  accepted_finished = ok tt;
  finished_at = 10;
  flushed = ok tt;
  expired = false;
  checked_at = 20;
}

drain_mqtt_for_migration-Finished_example :
    Finished none run outputs (drain_mqtt_for_migration none run outputs).1
unfolding drain_mqtt_for_migration
drain_mqtt_for_migration-Finished_example =
    drain_mqtt_for_migration-Finished none run outputs (record { pending_records = 0; outputs = 2 })
      refl

abbrev work : ProcessWork
work = record { pending = 1 ∷ 2 ∷ []; failed = false; paused = false; active = true }

drain-work_threw_example : drain (work_events (finished 2 ∷ []) (work_threw 1 work)) ≢ ok true
drain-work_threw_example = drain-work_threw (finished 2 ∷ []) 1 work
