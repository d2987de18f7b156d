-- ===== src/Session/Stream/Thread.antt =====
-- The event stream under the worker thread of
-- crates/codebox-session-runtime/src/runtime.rs.
use fanzloud.Base.{
  ℕ, ◌<◌, ◌≡◌, true, false, Option, none, some, arith, u64_max, ok, err, Result, >>-eq-ok, ◌>>◌,
  if◌then◌else◌, Result-cases, inl, inr,
}
use fanzloud.Cloud.Lifecycle.{CloudLifecycle}
use fanzloud.Session.Types.{P0CloudLifecycle, P0RuntimeStopReason, P0SessionEvent}
use fanzloud.Session.State.{
  Inner, RuntimeState, WorkerWork, close_runtime_stopped, reserve_events, append_event,
}
use fanzloud.Session.Lifecycle.{LowerLifecycleError, apply_projected_lifecycle}
use fanzloud.Session.Worker.{
  Round, act, wait, next_work, claim, next_cancel, next_worker_action, monitor_again, admit_start,
  AfterStart, done, cancel_lower, started, stop_started, after_start, handle_start_result,
}
use fanzloud.Session.Monitor.{commit_worker_cancel, handle_cancel_result, handle_start_cancel}
use fanzloud.Session.Stream.Writes.{append_event-seq, append_event-shutdown, reserve_events-room}
use fanzloud.Session.Stream.Methods.{
  apply_projected_lifecycle-Holds, apply_projected_lifecycle-keeps, stop_worker-Holds,
  stop_after_lower_failure-Holds,
}
use fanzloud.Session.Stream.Laws.{
  Quality, Holds, IsKept, append_event-Holds, close_subscribers-Holds,
}

abbrev pub state_of_round : Round → RuntimeState
state_of_round (act action s) = s
state_of_round (wait s) = s

abbrev pub state_after_start : AfterStart → RuntimeState
state_after_start (done s) = s
state_after_start (cancel_lower s) = s

module _ (Q : Quality) (law : (inner : Inner) → IsKept Q inner) where
  next_work-Holds :
      (inner : Inner) (now : ℕ) (s : RuntimeState) (work : Option WorkerWork)
      → Holds Q inner s
      → Holds Q inner (state_of_round (next_work inner now s work))
  unfolding next_work claim
  next_work-Holds inner now s none h = h
  next_work-Holds inner now s (some (WorkerWork.start turn prompt)) h = ground (
    arith,
    stop_worker-Holds Q law inner (record s { work = none }) P0RuntimeStopReason.lower_failure h,
  )
  next_work-Holds inner now s (some (WorkerWork.monitor turn due failures)) h = ground arith

  pub next_worker_action-Holds :
      (inner : Inner) (now : ℕ) (s : RuntimeState)
      → Holds Q inner s
      → Holds Q inner (state_of_round (next_worker_action inner now s))
  unfolding next_worker_action next_cancel
  next_worker_action-Holds inner now s h = ground (
    arith,
    stop_worker-Holds Q law inner s P0RuntimeStopReason.shutdown h,
    next_work-Holds inner now s s.work h,
  )

  pub admit_start-Holds :
      (inner : Inner) (s : RuntimeState) (turn : ℕ)
      → Holds Q inner s
      → Holds Q inner (admit_start inner s turn).0
  unfolding admit_start
  admit_start-Holds inner s turn h = grind (
    arith,
    stop_worker-Holds Q law,
    stop_after_lower_failure-Holds Q law,
    append_event-Holds Q law,
    reserve_events-room,
  )

  pub commit_worker_cancel-Holds :
      (inner : Inner) (s s' : RuntimeState) (turn : ℕ) (lifecycle : CloudLifecycle)
      → commit_worker_cancel inner s turn lifecycle ≡ ok s'
      → Holds Q inner s
      → Holds Q inner s'
  unfolding commit_worker_cancel
  commit_worker_cancel-Holds inner s s' turn lifecycle e h = grind (
    arith,
    append_event-Holds Q law,
    reserve_events-room,
    apply_projected_lifecycle-Holds Q law,
    apply_projected_lifecycle-keeps,
  )

  pub handle_cancel_result-Holds :
      (inner : Inner) (s : RuntimeState) (turn : ℕ)
      (lower : Result LowerLifecycleError CloudLifecycle)
      → Holds Q inner s
      → Holds Q inner (handle_cancel_result inner s turn lower)
  unfolding handle_cancel_result
  handle_cancel_result-Holds inner s turn (err e) h =
      stop_after_lower_failure-Holds Q law inner s turn h
  handle_cancel_result-Holds inner s turn (ok lifecycle) h =
      elim (Result-cases (commit_worker_cancel inner s turn lifecycle)) [
        | inl (s', did) ↦
            rw (did, handle_cancel_result)
              (commit_worker_cancel-Holds inner s s' turn lifecycle did h)
        | inr (why, refused) ↦
            rw (refused, handle_cancel_result) (stop_after_lower_failure-Holds Q law inner s turn h)
      ]

  pub handle_start_cancel-Holds :
      (inner : Inner) (s : RuntimeState) (turn : ℕ)
      (lower : Result LowerLifecycleError CloudLifecycle)
      → Holds Q inner s
      → Holds Q inner (handle_start_cancel inner s turn lower)
  unfolding handle_start_cancel
  handle_start_cancel-Holds inner s turn (err e) h =
      stop_after_lower_failure-Holds Q law inner s turn h
  handle_start_cancel-Holds inner s turn (ok lifecycle) h =
      elim (Result-cases (commit_worker_cancel inner s turn lifecycle)) [
        | inl (s', did) ↦
            rw (did, handle_start_cancel)
              (commit_worker_cancel-Holds inner s s' turn lifecycle did h)
        | inr (why, refused) ↦ rw (refused, handle_start_cancel) h
      ]

  stop_started-Holds :
      (inner : Inner) (s : RuntimeState) (turn : ℕ)
      → s.high_water_seq < u64_max
      → Holds Q inner s
      → Holds Q inner (stop_started inner s turn)
  unfolding stop_started
  stop_started-Holds inner s turn room h =
      close_subscribers-Holds Q law inner _ close_runtime_stopped
        (append_event-Holds Q law inner _ _ _ room h)

  after_start-Holds :
      (inner : Inner) (s : RuntimeState) (turn now : ℕ) (projected : P0CloudLifecycle)
      → (s.shutdown_requested ≡ true → s.high_water_seq < u64_max)
      → Holds Q inner s
      → Holds Q inner (state_after_start (after_start inner s turn now projected))
  unfolding after_start monitor_again
  after_start-Holds inner s turn now projected room h =
      ground (arith, stop_started-Holds inner s turn, room)

  started-Holds :
      (inner : Inner) (s : RuntimeState) (turn now : ℕ) (projected : P0CloudLifecycle)
      → Holds Q inner s
      → Holds Q inner (state_after_start (started inner s turn now projected))
  unfolding started
  started-Holds inner s turn now projected h =
      let n : ℕ = if s.shutdown_requested then 2 else 1 in
      elim (Result-cases (reserve_events s n >> apply_projected_lifecycle s turn projected false)) [
        | inl (applied, did) ↦
            let (reserved, at) = >>-eq-ok (reserve_events s n) _ did in
            let kept = apply_projected_lifecycle-keeps s applied turn projected false at in
            let changed = P0SessionEvent.lifecycle_changed projected in
            let room = reserve_events-room s n reserved in
            let written = append_event inner applied (some turn) changed in
            rw (did, started)
              (after_start-Holds inner written turn now projected
                (λ down. ground (
                  arith,
                  kept,
                  room,
                  append_event-seq inner applied (some turn) changed,
                  append_event-shutdown inner applied (some turn) changed,
                ))
                (append_event-Holds Q law inner applied (some turn) changed
                  (ground (arith, kept, room))
                  (apply_projected_lifecycle-Holds Q law inner s applied turn projected false at
                    h)))
        | inr (why, refused) ↦
            rw (refused, started) (stop_after_lower_failure-Holds Q law inner s turn h)
      ]

  pub handle_start_result-Holds :
      (inner : Inner) (s : RuntimeState) (turn now : ℕ)
      (lower : Result LowerLifecycleError CloudLifecycle)
      → Holds Q inner s
      → Holds Q inner (state_after_start (handle_start_result inner s turn now lower))
  unfolding handle_start_result
  handle_start_result-Holds inner s turn now (err e) h =
      stop_after_lower_failure-Holds Q law inner s turn h
  handle_start_result-Holds inner s turn now (ok lifecycle) h = grind (arith, started-Holds)
