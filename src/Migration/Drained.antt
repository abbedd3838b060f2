-- ===== src/Migration/Drained.antt =====
-- What a completed drain of mqtt-drain.ts guarantees, and that failed work of process-work.ts stays failed.
use mathlib.Core.Path.{subst}
use uns_kit.PublishQueue.Store.{Store, summary}
use uns_kit.PublishQueue.Queue.{Run, Queue, State, Status, is_idle, snapshot}
use uns_kit.PublishQueue.Machine.Keeps.{backlog}
use uns_kit.PublishQueue.Machine.Drain.{length-backlog}
use uns_kit.Kit.{
  ◌<◌, ap, map, none, some, ℕ, ◌≤◌, ◌≡◌, ◌≢◌, String, ok_injective, refl, Bool, true, false, not,
  ◌||◌, Option, List, [], ◌∷◌, length, ltb, leb, if◌then◌else◌, if_each, arith, All, Result, ok,
  err, throw_if, ◌>>◌,
}
use uns_kit.Migration.{
  ProcessWork, run_work, work_done, work_threw, drain, no_work, pause, fail_work, track,
  DrainOutput, DrainRun, DrainReceipt, is_blocked_state, is_unconfirmed, check_outputs, seal_all,
  timeout_of, drain_checks, drain_result, drain_mqtt_for_migration,
}

-- The status reports nothing pending, in memory, on disk or on its way, and no block.
abbrev pub ReportsEmpty : Option Status → Type 0
ReportsEmpty none = Unit
ReportsEmpty (some s) =
    (s.pending_records ≡ 0)
    × (s.memory_records ≡ 0)
    × (s.disk_records ≡ 0)
    × (s.in_flight ≡ false)
    × (s.state ≢ State.blocked)

-- A queue with an open store owes nothing: no record waits and none is on its way.
abbrev pub OwesNothing : Queue → Type 0
OwesNothing q =
    (q.store.final_summary ≡ none → backlog q ≡ []) × (q.memory ≡ []) × (q.processing ≡ Run.idle)

abbrev pub IsConfirmed : DrainOutput → Type 0
IsConfirmed o = ReportsEmpty o.status × ((q : Queue) → o.status ≡ some (snapshot q) → OwesNothing q)

abbrev seal : DrainOutput → DrainOutput
seal o = record o { sealed = true }

-- The drain was in time and within its bounds, all that it awaited went well, every output was confirmed empty, and
-- every output is sealed and as it was otherwise.
pub record Finished (timeout_ms : Option ℕ) (run : DrainRun) (outputs outputs' : List DrainOutput)
    : Type 0 where
  pub some_time : 1 ≤ timeout_of timeout_ms
  pub bounded_time : timeout_of timeout_ms ≤ 300000
  pub few : length outputs ≤ 64
  pub quiesced : run.quiesced ≡ ok tt
  pub accepted_finished : run.accepted_finished ≡ ok tt
  pub flushed : run.flushed ≡ ok tt
  pub flushed_in_time : run.finished_at < timeout_of timeout_ms
  pub in_time : run.checked_at ≤ timeout_of timeout_ms
  pub unexpired : run.expired ≡ false
  pub confirmed : All IsConfirmed outputs
  pub sealed : outputs' ≡ map seal outputs

not_blocked : (s : State) → is_blocked_state s ≡ false → s ≢ State.blocked
not_blocked s h = λ e. cc (ap is_blocked_state e, h)

is_unconfirmed-ReportsEmpty : (o : Option Status) → is_unconfirmed o ≡ false → ReportsEmpty o
is_unconfirmed-ReportsEmpty none h = tt
is_unconfirmed-ReportsEmpty (some s) h =
    (ground arith, ground arith, ground arith, ground arith, not_blocked s.state (ground arith))

no_length {ℓ} : {A : Type ℓ} (xs : List A) → length xs ≡ 0 → xs ≡ []
no_length [] h = refl
no_length (x ∷ xs) h = absurd (omega (arith, h))

idle_run : (r : Run) → not (is_idle r) ≡ false → r ≡ Run.idle
idle_run Run.idle h = refl
idle_run Run.scheduled h = absurd (cc h)
idle_run (Run.sending source r) h = absurd (cc h)

open_records : (s : Store) → s.final_summary ≡ none → (summary s).records ≡ length s.pending
unfolding summary
open_records s h = rw h refl

snapshot-OwesNothing : (q : Queue) → ReportsEmpty (some (snapshot q)) → OwesNothing q
unfolding snapshot
snapshot-OwesNothing q (pending, memory, disk, on_way, unblocked) = (
  (λ still_open.
      no_length (backlog q)
        (omega (arith, length-backlog q, open_records q.store still_open, disk, memory))),
  no_length q.memory memory,
  idle_run q.processing on_way,
)

is_unconfirmed-IsConfirmed : (o : DrainOutput) → is_unconfirmed o.status ≡ false → IsConfirmed o
is_unconfirmed-IsConfirmed o h =
    let empty : ReportsEmpty o.status = is_unconfirmed-ReportsEmpty o.status h in
    (empty, (λ q same. snapshot-OwesNothing q (subst ReportsEmpty same empty)))

first_ok :
    (m : Result (Unit {0})) (r : Result (Unit {0})) (y : Unit {0})
    → (m >> r) ≡ ok y
    → (m ≡ ok tt) × (r ≡ ok y)
first_ok (ok x) r y h = (refl, h)
first_ok (err problem) r y h = absurd (ground (arith, h))

passed :
    (b : Bool) (r : Result (Unit {0})) (problem : String) (y : Unit {0})
    → (throw_if b problem >> r) ≡ ok y
    → (b ≡ false) × (r ≡ ok y)
passed false r problem y h = (refl, h)
passed true r problem y h = absurd (ground (arith, h))

check_outputs-All :
    (outputs : List DrainOutput) (y : Unit {0})
    → check_outputs outputs ≡ ok y
    → All IsConfirmed outputs
unfolding check_outputs
check_outputs-All [] y h = tt
check_outputs-All (o ∷ os) y h =
    let rest =
      passed (is_unconfirmed o.status) (check_outputs os)
        "MQTT output is not confirmed empty; migration remains blocked" y h in
    (is_unconfirmed-IsConfirmed o rest.0, check_outputs-All os y rest.1)

seal_all-map : (outputs : List DrainOutput) → seal_all outputs ≡ map seal outputs
unfolding seal_all
seal_all-map [] = refl
seal_all-map (o ∷ os) = ap (λ (xs : List DrainOutput). seal o ∷ xs) (seal_all-map os)

last_check : (b : Bool) (problem : String) (y : Unit {0}) → throw_if b problem ≡ ok y → b ≡ false
last_check false problem y h = refl
last_check true problem y h = absurd (ground (arith, h))

drain_checks-Finished :
    (timeout_ms : Option ℕ) (run : DrainRun) (outputs : List DrainOutput) (y : Unit {0})
    → drain_checks timeout_ms run outputs ≡ ok y
    → Finished timeout_ms run outputs (seal_all outputs)
unfolding drain_checks
drain_checks-Finished timeout_ms run outputs y h =
    let a =
      passed
        (ltb (timeout_of timeout_ms) 1
          || ltb 300000 (timeout_of timeout_ms)
          || ltb 64 (length outputs))
        _ _ y h in
    let b = first_ok run.quiesced _ y a.1 in
    let c = first_ok run.accepted_finished _ y b.1 in
    let d = passed (leb (timeout_of timeout_ms) run.finished_at) _ _ y c.1 in
    let e = first_ok run.flushed _ y d.1 in
    let f = first_ok (check_outputs outputs) _ y e.1 in
    let g = last_check (run.expired || ltb (timeout_of timeout_ms) run.checked_at) _ y f.1 in
    record {
      some_time = ground (arith, a.0);
      bounded_time = ground (arith, a.0);
      few = ground (arith, a.0);
      quiesced = b.0;
      accepted_finished = c.0;
      flushed = e.0;
      flushed_in_time = ground (arith, d.0);
      in_time = ground (arith, g);
      unexpired = ground (arith, g);
      confirmed = check_outputs-All outputs tt f.0;
      sealed = seal_all-map outputs;
    }

drain_result-Finished :
    (timeout_ms : Option ℕ) (run : DrainRun) (outputs : List DrainOutput)
    (checks : Result (Unit {0})) (receipt : DrainReceipt)
    → drain_checks timeout_ms run outputs ≡ checks
    → (drain_result checks outputs).0 ≡ ok receipt
    → Finished timeout_ms run outputs (drain_result checks outputs).1
drain_result-Finished timeout_ms run outputs (err problem) receipt e h = absurd (ground (arith, h))
drain_result-Finished timeout_ms run outputs (ok y) receipt e h =
    drain_checks-Finished timeout_ms run outputs y e

-- A migration drain that gives a receipt had a timeout from 1 to 300000 milliseconds, at most 64 outputs, was in time,
-- and all that it awaited went well; every output with a queue reported nothing pending, in memory, on disk or in
-- flight and no block, so that an open queue has no backlog; and every output is sealed.
pub drain_mqtt_for_migration-Finished :
    (timeout_ms : Option ℕ) (run : DrainRun) (outputs : List DrainOutput) (receipt : DrainReceipt)
    → (drain_mqtt_for_migration timeout_ms run outputs).0 ≡ ok receipt
    → Finished timeout_ms run outputs (drain_mqtt_for_migration timeout_ms run outputs).1
unfolding drain_mqtt_for_migration
drain_mqtt_for_migration-Finished timeout_ms run outputs receipt h =
    drain_result-Finished timeout_ms run outputs (drain_checks timeout_ms run outputs) receipt refl
      h

pub data WorkEvent : Type 0 where
  ran : ℕ → WorkEvent
  tracked : ℕ → WorkEvent
  finished : ℕ → WorkEvent
  threw : ℕ → WorkEvent
  paused : WorkEvent
  failed : WorkEvent

unfoldable pub work_step : WorkEvent → ProcessWork → ProcessWork
work_step (ran id) w = run_work id w
work_step (tracked id) w = track id w
work_step (finished id) w = work_done id w
work_step (threw id) w = work_threw id w
work_step paused w = pause w
work_step failed w = fail_work w

unfoldable pub work_events : List WorkEvent → ProcessWork → ProcessWork
unfolding work_step
work_events [] w = w
work_events (e ∷ es) w = work_events es (work_step e w)

failed-work_step :
    (e : WorkEvent) (w : ProcessWork) → w.failed ≡ true → (work_step e w).failed ≡ true
unfolding work_step run_work work_done work_threw
failed-work_step (ran id) w h =
    if_each (λ (z : ProcessWork). z.failed ≡ true) (w.paused || not w.active) w (track id w)
      (λ a. h) (λ b. h)
failed-work_step (tracked id) w h = h
failed-work_step (finished id) w h = h
failed-work_step (threw id) w h = refl
failed-work_step paused w h = h
failed-work_step failed w h = refl

failed-work_events :
    (es : List WorkEvent) (w : ProcessWork) → w.failed ≡ true → (work_events es w).failed ≡ true
unfolding work_events
failed-work_events [] w h = h
failed-work_events (e ∷ es) w h = failed-work_events es (work_step e w) (failed-work_step e w h)

not_drained :
    (busy has_failed : Bool) (problem : String)
    → has_failed ≡ true
    → (if busy then ok false else (throw_if has_failed problem >> ok true)) ≢ ok true
not_drained true has_failed problem h = λ e. ground (arith, ok_injective e)
not_drained false true problem h = λ e. ground (arith, e)
not_drained false false problem h = absurd (ground (arith, h))

drain_failed : (w : ProcessWork) → w.failed ≡ true → drain w ≢ ok true
unfolding drain
drain_failed w h = not_drained (not (no_work w.pending)) w.failed _ h

-- Once a piece of accepted work has thrown, no later event makes the drain succeed.
pub drain-work_threw :
    (es : List WorkEvent) (id : ℕ) (w : ProcessWork)
    → drain (work_events es (work_threw id w)) ≢ ok true
unfolding work_threw
drain-work_threw es id w =
    drain_failed (work_events es (work_threw id w)) (failed-work_events es (work_threw id w) refl)
