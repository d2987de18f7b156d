-- ===== src/Session/Worker.antt =====
-- The worker thread of crates/codebox-session-runtime/src/runtime.rs, from `worker_loop` to
-- `commit_worker_cancel`: what it does under the lock; the answers of lower calls are arguments.
use fanzloud.Base.{
  ℕ, ◌+◌, Bool, true, false, not, ◌&&◌, Option, none, some, Result, ok, err, ◌>>◌, String, ltb,
  ◌==◌, if◌then◌else◌, option_map, is_some_and,
}
use fanzloud.Cloud.Lifecycle.{CloudLifecycle}
use fanzloud.Session.Types.{
  P0SessionState, P0CloudLifecycle, P0TurnProjection, P0RuntimeStopReason, P0SessionEvent,
  from_cloud, is_pending, is_unknown,
}
use fanzloud.Session.State.{
  Inner, RuntimeState, TurnRecord, WorkerWork, close_runtime_stopped, reserve_events, append_event,
  close_subscribers, projection_cancel_requested,
}
use fanzloud.Session.Lifecycle.{
  LowerLifecycleError, turn_named, update_named, apply_projected_lifecycle, stop_worker,
  stop_after_lower_failure,
}

pub data WorkerAction : Type 0 where
  -- turn_id, prompt
  start : ℕ → String → WorkerAction
  -- turn_id, failures
  monitor : ℕ → ℕ → WorkerAction
  -- turn_id
  cancel : ℕ → WorkerAction
  stop : WorkerAction

-- One round of `next_worker_action`: it acts, or it waits on the condition variable.
pub data Round : Type 0 where
  act : WorkerAction → RuntimeState → Round
  wait : RuntimeState → Round

abbrev pub cancels_now : P0TurnProjection → Bool
cancels_now (P0TurnProjection.cloud (P0CloudLifecycle.pending op task) requested) = true
cancels_now (P0TurnProjection.monitoring_degraded op last requested) = true
cancels_now _ = false

abbrev pub wants_cancel : TurnRecord → Bool
wants_cancel turn =
    projection_cancel_requested turn.projection
    && not turn.cancel_in_progress
    && not turn.cancel_completed
    && cancels_now turn.projection

unfoldable pub claim : Inner → RuntimeState → Option TurnRecord → ℕ → String → Round
claim inner s none turn_id prompt = act stop (stop_worker inner s P0RuntimeStopReason.lower_failure)
claim inner s (some turn) turn_id prompt = act (start turn_id prompt) (record s {
  current_turn =
      some (record turn {
        projection = P0TurnProjection.starting false;
        lower_start_admitted = false;
      });
})

unfoldable pub next_work : Inner → ℕ → RuntimeState → Option WorkerWork → Round
next_work inner now s none = wait s
next_work inner now s (some (WorkerWork.start turn_id prompt)) =
    claim inner (record s { work = none }) (turn_named s turn_id) turn_id prompt
next_work inner now s (some (WorkerWork.monitor turn_id due failures)) =
    if ltb now due then wait s else act (monitor turn_id failures) (record s { work = none })

unfoldable pub next_cancel : Inner → ℕ → RuntimeState → Option TurnRecord → Round
next_cancel inner now s none = next_work inner now s s.work
next_cancel inner now s (some turn) =
    if wants_cancel turn
    then act (cancel turn.turn_id)
        (record s { current_turn = some (record turn { cancel_in_progress = true }); work = none })
    else next_work inner now s s.work

unfoldable pub next_worker_action : Inner → ℕ → RuntimeState → Round
next_worker_action inner now s =
    if s.shutdown_requested
    then act stop (stop_worker inner s P0RuntimeStopReason.shutdown)
    else next_cancel inner now s s.current_turn

abbrev admit_named : Inner → RuntimeState → ℕ → Option TurnRecord → RuntimeState × Bool
admit_named inner s turn_id none = (stop_after_lower_failure inner s turn_id, false)
admit_named inner s turn_id (some turn) =
    (record s { current_turn = some (record turn { lower_start_admitted = true }) }, true)

abbrev admit_canceled : Inner → RuntimeState → ℕ → RuntimeState
admit_canceled inner s turn_id = elim (reserve_events s 1) [
  | err e ↦ stop_after_lower_failure inner s turn_id
  | ok u ↦
      append_event inner
        (record s {
          session_state = P0SessionState.ready;
          current_turn =
              update_named turn_id
                (λ turn. record turn {
                  projection = P0TurnProjection.canceled_before_cloud_start;
                  cancel_in_progress = false;
                  cancel_completed = true;
                })
                s.current_turn;
        })
        (some turn_id) P0SessionEvent.turn_canceled_before_cloud_start
]

unfoldable pub admit_start : Inner → RuntimeState → ℕ → RuntimeState × Bool
admit_start inner s turn_id =
    if s.shutdown_requested
    then (stop_worker inner s P0RuntimeStopReason.shutdown, false)
    else if is_some_and (turn_named s turn_id) (λ turn. projection_cancel_requested turn.projection)
    then (admit_canceled inner s turn_id, false)
    else admit_named inner s turn_id (turn_named s turn_id)

-- After a start the worker is done, or calls the lower `cancel` for the turn.
pub data AfterStart : Type 0 where
  done : RuntimeState → AfterStart
  cancel_lower : RuntimeState → AfterStart

abbrev pub should_cancel : ℕ → P0CloudLifecycle → TurnRecord → Bool
should_cancel turn_id projected turn =
    turn.turn_id == turn_id
    && projection_cancel_requested turn.projection
    && not turn.cancel_in_progress
    && not turn.cancel_completed
    && is_pending projected

unfoldable pub stop_started : Inner → RuntimeState → ℕ → RuntimeState
stop_started inner s turn_id =
    close_subscribers
      (append_event inner
        (record s { session_state = P0SessionState.stopped; worker_stopped = true }) (some turn_id)
        (P0SessionEvent.runtime_stopped P0RuntimeStopReason.shutdown))
      close_runtime_stopped

unfoldable pub monitor_again : Inner → RuntimeState → ℕ → ℕ → P0CloudLifecycle → RuntimeState
monitor_again inner s turn_id now projected =
    if is_pending projected
    then record s { work = some (WorkerWork.monitor turn_id (now + inner.config.poll_interval) 0) }
    else s

unfoldable pub after_start : Inner → RuntimeState → ℕ → ℕ → P0CloudLifecycle → AfterStart
after_start inner s turn_id now projected =
    if s.shutdown_requested
    then done (stop_started inner s turn_id)
    else if is_some_and s.current_turn (should_cancel turn_id projected)
    then cancel_lower (record s {
      current_turn =
          option_map (λ (turn : TurnRecord). record turn { cancel_in_progress = true })
            s.current_turn;
    })
    else done (monitor_again inner s turn_id now projected)

unfoldable pub started : Inner → RuntimeState → ℕ → ℕ → P0CloudLifecycle → AfterStart
started inner s turn_id now projected =
    elim (reserve_events s (if s.shutdown_requested then 2 else 1)
      >> apply_projected_lifecycle s turn_id projected false) [
        | err e ↦ done (stop_after_lower_failure inner s turn_id)
        | ok applied ↦
            after_start inner
              (append_event inner applied (some turn_id)
                (P0SessionEvent.lifecycle_changed projected))
              turn_id now projected
      ]

abbrev pub note_unknown : P0CloudLifecycle → RuntimeState → RuntimeState
note_unknown projected s =
    if is_unknown projected
    then record s { session_state = P0SessionState.recovery_required }
    else s

unfoldable pub handle_start_result :
    Inner → RuntimeState → ℕ → ℕ → Result LowerLifecycleError CloudLifecycle → AfterStart
handle_start_result inner s turn_id now (err e) = done (stop_after_lower_failure inner s turn_id)
handle_start_result inner s turn_id now (ok lifecycle) =
    let projected = from_cloud lifecycle in
    started inner (note_unknown projected s) turn_id now projected
