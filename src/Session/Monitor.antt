-- ===== src/Session/Monitor.antt =====
-- `handle_monitor_result`, `commit_worker_cancel` and the answers of the worker's own `cancel` in
-- crates/codebox-session-runtime/src/runtime.rs.
use fanzloud.Base.{
  ℕ, ◌+◌, ◌%◌, ◌^◌, Bool, true, false, Option, none, some, Result, ok, err, ◌>>=◌, ◌>>◌,
  if◌then◌else◌, option_map, and_then, is_some_and, option_filter, min, u32_max,
}
use fanzloud.Cloud.Lifecycle.{CloudLifecycle, CloudLifecycleErrorCategory}
use fanzloud.Session.Error.{P0SessionError}
use fanzloud.Session.Types.{
  P0SessionState, P0CloudLifecycle, P0TurnProjection, P0RuntimeStopReason, P0SessionEvent,
  from_cloud, operation_id, is_pending, is_terminal, state_eq,
}
use fanzloud.Session.State.{
  Inner, RuntimeState, TurnRecord, WorkerWork, reserve_events, append_event, reserve_change,
  append_change, projection_lifecycle, projection_cancel_requested,
}
use fanzloud.Session.Lifecycle.{
  LowerLifecycleError, apply_projected_lifecycle, backoff, stop_worker, stop_after_lower_failure,
}
use fanzloud.Session.Cancel.{changes, finish_cancel}
use fanzloud.Session.Worker.{monitor_again}

abbrev pub lifecycle_of : RuntimeState → Option P0CloudLifecycle
lifecycle_of s = and_then s.current_turn λ turn. projection_lifecycle turn.projection

-- A lifecycle that comes back while the runtime shuts down is kept if there is room for it.
unfoldable pub keep_last :
    Inner → RuntimeState → ℕ → Result LowerLifecycleError CloudLifecycle → RuntimeState
keep_last inner s turn_id (err e) = s
keep_last inner s turn_id (ok lifecycle) =
    elim (reserve_events s 2 >> apply_projected_lifecycle s turn_id (from_cloud lifecycle) false) [
      | err e ↦ s
      | ok applied ↦
          append_event inner applied (some turn_id)
            (P0SessionEvent.lifecycle_changed (from_cloud lifecycle))
    ]

abbrev pub is_changed : RuntimeState → P0CloudLifecycle → Bool
is_changed s projected = elim s.current_turn [ none ↦ true | some turn ↦ changes projected turn ]

unfoldable pub monitored : Inner → RuntimeState → ℕ → ℕ → P0CloudLifecycle → RuntimeState
monitored inner s turn_id now projected =
    elim (reserve_change s (is_changed s projected)
      >> apply_projected_lifecycle s turn_id projected false) [
        | err e ↦ stop_after_lower_failure inner s turn_id
        | ok applied ↦
            monitor_again inner
              (append_change inner applied turn_id (is_changed s projected) projected) turn_id now
              projected
      ]

-- A failed read keeps the last known pending lifecycle, and the next read waits longer.
unfoldable pub degrade : Inner → RuntimeState → ℕ → ℕ → ℕ → P0CloudLifecycle → RuntimeState
degrade inner s turn_id failures now last = record s {
  session_state = P0SessionState.monitoring_degraded;
  current_turn =
      option_map
        (λ (turn : TurnRecord). record turn {
          projection =
              P0TurnProjection.monitoring_degraded (operation_id last) last
                (projection_cancel_requested turn.projection);
        })
        s.current_turn;
  work = some (
      WorkerWork.monitor turn_id
        (now + backoff inner.config.poll_interval ((failures + 1) % 2 ^ 32))
        (min (failures + 1) u32_max));
}

abbrev pub is_degraded : RuntimeState → Bool
is_degraded s = state_eq s.session_state P0SessionState.monitoring_degraded

unfoldable pub read_failed :
    Inner → RuntimeState → ℕ → ℕ → ℕ → Option P0CloudLifecycle → RuntimeState
read_failed inner s turn_id failures now none = stop_after_lower_failure inner s turn_id
read_failed inner s turn_id failures now (some last) =
    if is_degraded s then degrade inner s turn_id failures now last else elim (reserve_events s 1) [
      | err e ↦ stop_after_lower_failure inner s turn_id
      | ok u ↦
          append_event inner (degrade inner s turn_id failures now last) (some turn_id)
            P0SessionEvent.monitoring_degraded
    ]

abbrev is_provider_read : CloudLifecycleErrorCategory → Bool
is_provider_read CloudLifecycleErrorCategory.provider_read = true
is_provider_read _ = false

unfoldable pub observed :
    Inner → RuntimeState → ℕ → ℕ → ℕ → Result LowerLifecycleError CloudLifecycle → RuntimeState
observed inner s turn_id failures now (ok lifecycle) =
    monitored inner s turn_id now (from_cloud lifecycle)
observed inner s turn_id failures now (err e) =
    if is_provider_read e.category
    then read_failed inner s turn_id failures now (option_filter is_pending (lifecycle_of s))
    else stop_after_lower_failure inner s turn_id

unfoldable pub handle_monitor_result :
    Inner → RuntimeState → ℕ → ℕ → ℕ → Result LowerLifecycleError CloudLifecycle → RuntimeState
handle_monitor_result inner s turn_id failures now lower =
    if is_some_and (lifecycle_of s) is_terminal
    then record s { work = none }
    else if s.shutdown_requested
    then stop_worker inner (keep_last inner s turn_id lower) P0RuntimeStopReason.shutdown
    else observed inner s turn_id failures now lower

unfoldable pub commit_worker_cancel :
    Inner → RuntimeState → ℕ → CloudLifecycle → Result P0SessionError RuntimeState
commit_worker_cancel inner s turn_id lifecycle = do
  let projected = from_cloud lifecycle
  reserve_events s 1
  applied ← apply_projected_lifecycle s turn_id projected true
  ok (
      append_event inner (finish_cancel applied) (some turn_id)
        (P0SessionEvent.lifecycle_changed projected))

-- The answer of the `cancel` that `next_worker_action` asked for.
unfoldable pub handle_cancel_result :
    Inner → RuntimeState → ℕ → Result LowerLifecycleError CloudLifecycle → RuntimeState
handle_cancel_result inner s turn_id (err e) = stop_after_lower_failure inner s turn_id
handle_cancel_result inner s turn_id (ok lifecycle) =
    elim (commit_worker_cancel inner s turn_id lifecycle) [
      | ok s' ↦ s'
      | err e ↦ stop_after_lower_failure inner s turn_id
    ]

-- The answer of the `cancel` that `handle_start_result` makes: a failed commit is dropped.
unfoldable pub handle_start_cancel :
    Inner → RuntimeState → ℕ → Result LowerLifecycleError CloudLifecycle → RuntimeState
handle_start_cancel inner s turn_id (err e) = stop_after_lower_failure inner s turn_id
handle_start_cancel inner s turn_id (ok lifecycle) =
    elim (commit_worker_cancel inner s turn_id lifecycle) [ ok s' ↦ s' | err e ↦ s ]
