-- ===== src/Migration.antt =====
-- The end of a process: `ProcessWork` (packages/uns-core/src/runtime/process-work.ts), the work that a drain waits
-- for, and `drainMqttForMigration` (packages/uns-core/src/runtime/mqtt-drain.ts), which seals the outputs.
pub mod Drained
mod Tests
use uns_kit.Kit.{
  ℕ, zero, suc, ◌+◌, Bool, true, false, not, ◌&&◌, ◌||◌, Option, none, some, List, [], ◌∷◌, String,
  length, ltb, leb, ◌==◌, if◌then◌else◌, Result, ok, err, throw_if, ◌>>◌,
}
use uns_kit.PublishQueue.Queue.{Status, State}

-- A piece of work stands as its number.
pub record ProcessWork : Type 0 where
  pub pending : List ℕ
  pub failed : Bool
  pub paused : Bool
  pub active : Bool

unfoldable pub without_work : ℕ → List ℕ → List ℕ
without_work id [] = []
without_work id (x ∷ xs) = let rest = without_work id xs in if x == id then xs else x ∷ rest

abbrev pub track : ℕ → ProcessWork → ProcessWork
track id w = record w { pending = id ∷ w.pending }

-- Work is admitted only while its owner is active and not paused.
unfoldable pub run_work : ℕ → ProcessWork → ProcessWork
run_work id w = if w.paused || not w.active then w else track id w

unfoldable pub work_done : ℕ → ProcessWork → ProcessWork
unfolding without_work
work_done id w = record w { pending = without_work id w.pending }

unfoldable pub work_threw : ℕ → ProcessWork → ProcessWork
unfolding without_work
work_threw id w = record w { failed = true; pending = without_work id w.pending }

abbrev pub pause : ProcessWork → ProcessWork
pause w = record w { paused = true }

abbrev pub fail_work : ProcessWork → ProcessWork
fail_work w = record w { failed = true }

abbrev pub no_work : List ℕ → Bool
no_work [] = true
no_work (x ∷ xs) = false

-- A turn of `drain`: it waits (`false`) while work is pending, and then throws or is done.
unfoldable pub drain : ProcessWork → Result Bool
drain w =
    if not (no_work w.pending)
    then ok false
    else throw_if w.failed "Accepted application work is unconfirmed" >> ok true

-- An output with its status, if it has a queue, and whether its publishing is sealed.
pub record DrainOutput : Type 0 where
  pub status : Option Status
  pub sealed : Bool

-- What the awaits of the drain bring: errors, and the time since its start in milliseconds.
pub record DrainRun : Type 0 where
  pub quiesced : Result (Unit {0})
  pub accepted_finished : Result (Unit {0})
  pub finished_at : ℕ
  pub flushed : Result (Unit {0})
  pub expired : Bool
  pub checked_at : ℕ

pub record DrainReceipt : Type 0 where
  pub pending_records : ℕ
  pub outputs : ℕ

abbrev pub is_blocked_state : State → Bool
is_blocked_state State.blocked = true
is_blocked_state s = false

abbrev pub is_unconfirmed : Option Status → Bool
is_unconfirmed none = false
is_unconfirmed (some s) =
    ltb 0 s.pending_records
    || ltb 0 s.memory_records
    || ltb 0 s.disk_records
    || s.in_flight
    || is_blocked_state s.state

unfoldable pub check_outputs : List DrainOutput → Result (Unit {0})
check_outputs [] = ok tt
check_outputs (o ∷ os) =
    throw_if (is_unconfirmed o.status)
      "MQTT output is not confirmed empty; migration remains blocked"
    >> check_outputs os

unfoldable pub seal_all : List DrainOutput → List DrainOutput
seal_all [] = []
seal_all (o ∷ os) = record o { sealed = true } ∷ seal_all os

abbrev pub timeout_of : Option ℕ → ℕ
timeout_of none = 30000
timeout_of (some t) = t

-- All that is checked before the outputs are sealed; nothing is awaited between the last check and that.
unfoldable pub drain_checks : Option ℕ → DrainRun → List DrainOutput → Result (Unit {0})
unfolding check_outputs
drain_checks timeout_ms run outputs =
    throw_if
      (ltb (timeout_of timeout_ms) 1
        || ltb 300000 (timeout_of timeout_ms)
        || ltb 64 (length outputs))
      "Invalid bounded MQTT migration drain"
    >> (run.quiesced
        >> (run.accepted_finished
            >> (throw_if (leb (timeout_of timeout_ms) run.finished_at)
                  "MQTT migration drain timed out; retain the original owner"
                >> (run.flushed
                    >> (check_outputs outputs
                        >> throw_if (run.expired || ltb (timeout_of timeout_ms) run.checked_at)
                            "MQTT migration drain expired; outcome must be reconciled")))))

abbrev pub drain_result :
    Result (Unit {0}) → List DrainOutput → Result DrainReceipt × List DrainOutput
drain_result (err problem) outputs = (err problem, outputs)
drain_result (ok checked) outputs =
    (ok (record { pending_records = 0; outputs = length outputs }), seal_all outputs)

unfoldable pub drain_mqtt_for_migration :
    Option ℕ → DrainRun → List DrainOutput → Result DrainReceipt × List DrainOutput
unfolding drain_checks seal_all
drain_mqtt_for_migration timeout_ms run outputs =
    drain_result (drain_checks timeout_ms run outputs) outputs

-- `HandoverShutdownResult` (packages/uns-core/src/uns/handover-shutdown.ts)
pub data ShutdownResult : Type 0 where
  completed : ShutdownResult
  failed_shutdown : ShutdownResult
  timed_out : ShutdownResult

-- `validateHandoverShutdown`, of hooks that are functions.
unfoldable pub validate_shutdown_timeout : Option ℕ → Result (Unit {0})
validate_shutdown_timeout timeout_ms =
    throw_if (ltb (timeout_of timeout_ms) 1 || ltb 300000 (timeout_of timeout_ms))
      "Handover shutdown timeout must be between 1 and 300000 milliseconds."

-- `runHandoverShutdown`, of work that ends at a time, and whether it ends well. The earlier of its end and of
-- the timer counts.
unfoldable pub run_handover_shutdown : ℕ → Option (ℕ × Bool) → ShutdownResult
run_handover_shutdown timeout_ms none = timed_out
run_handover_shutdown timeout_ms (some end) =
    if ltb end.0 timeout_ms then (if end.1 then completed else failed_shutdown) else timed_out
