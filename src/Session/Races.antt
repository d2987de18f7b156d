-- ===== src/Session/Races.antt =====
-- Two interleavings of the worker and a caller in
-- crates/codebox-session-runtime/src/runtime.rs.
use fanzloud.Base.{ℕ, ◌≡◌, ◌≢◌, ap, Bool, true, false, none, some, ok, arith, ==_refl, option_map}
use fanzloud.Cloud.Lifecycle.{CloudLifecycle}
use fanzloud.Session.Types.{
  P0SessionState, P0TurnProjection, P0RuntimeStopReason, P0SessionSnapshot, from_cloud,
  operation_id,
}
use fanzloud.Session.State.{
  Inner, RuntimeState, TurnRecord, append_event, close_subscribers, append_change,
}
use fanzloud.Session.Lifecycle.{apply_projected_lifecycle, stop_worker, stop_after_lower_failure}
use fanzloud.Session.Cancel.{commit_cancel_result}
use fanzloud.Session.Worker
use fanzloud.Session.Worker.{AfterStart, done, handle_start_result}
use fanzloud.Session.Monitor.{handle_monitor_result, observed, monitored}

-- A worker that stops has no work left, whatever the reason.
stop_worker-stops :
    (inner : Inner) (s : RuntimeState) (reason : P0RuntimeStopReason)
    → s.worker_stopped ≡ false
    → ((stop_worker inner s reason).worker_stopped ≡ true)
      × ((stop_worker inner s reason).session_state ≡ P0SessionState.stopped)
      × ((stop_worker inner s reason).work ≡ none)
unfolding stop_worker append_event close_subscribers
stop_worker-stops inner s reason h = ground arith

stop_after_lower_failure-stops :
    (inner : Inner) (s : RuntimeState) (turn : ℕ)
    → s.worker_stopped ≡ false
    → ((stop_after_lower_failure inner s turn).worker_stopped ≡ true)
      × ((stop_after_lower_failure inner s turn).session_state ≡ P0SessionState.stopped)
      × ((stop_after_lower_failure inner s turn).work ≡ none)
unfolding stop_after_lower_failure
stop_after_lower_failure-stops inner s turn h =
    stop_worker-stops inner _ P0RuntimeStopReason.lower_failure h

-- When the result of a read comes for a turn that is no longer the current one, and the current turn
-- is queued in a running session that is not shutting down: whatever lifecycle the read returned,
-- the session stops and the queued turn's work is dropped.
pub handle_monitor_result_stale :
    (inner : Inner) (s : RuntimeState) (turn failures now : ℕ) (r : TurnRecord)
    (lifecycle : CloudLifecycle)
    → s.current_turn ≡ some r
    → r.turn_id ≢ turn
    → r.projection ≡ P0TurnProjection.queued
    → s.worker_stopped ≡ false
    → s.shutdown_requested ≡ false
    → let s' = handle_monitor_result inner s turn failures now (ok lifecycle) in
      (s'.worker_stopped ≡ true) × (s'.session_state ≡ P0SessionState.stopped) × (s'.work ≡ none)
unfolding handle_monitor_result observed monitored apply_projected_lifecycle
handle_monitor_result_stale inner s turn failures now r lifecycle at other queued up running =
    ground (arith, stop_after_lower_failure-stops inner s turn up)

commit_cancel_result_adopts :
    (inner : Inner) (s s' : RuntimeState) (r : TurnRecord) (requested : Bool)
    (earlier : CloudLifecycle) (snapshot : P0SessionSnapshot)
    → s.current_turn ≡ some r
    → r.projection ≡ P0TurnProjection.starting requested
    → commit_cancel_result inner s r.turn_id earlier ≡ ok (s', snapshot)
    → s'.current_turn
      ≡ some (record r {
        projection = P0TurnProjection.cloud (from_cloud earlier) requested;
        cancel_in_progress = false;
        cancel_completed = true;
      })
unfolding commit_cancel_result apply_projected_lifecycle append_change append_event
commit_cancel_result_adopts inner s s' r requested earlier snapshot at starting e =
    ground (arith, ==_refl r.turn_id)

start_after_cancel :
    (inner : Inner) (s : RuntimeState) (r : TurnRecord) (requested : Bool) (now : ℕ)
    (earlier started : CloudLifecycle)
    → s.current_turn
      ≡ some (record r {
        projection = P0TurnProjection.cloud (from_cloud earlier) requested;
        cancel_in_progress = false;
        cancel_completed = true;
      })
    → operation_id (from_cloud started) ≢ operation_id (from_cloud earlier)
    → s.worker_stopped ≡ false
    → (t : RuntimeState) → handle_start_result inner s r.turn_id now (ok started) ≡ done t
    → (t.worker_stopped ≡ true) × (t.session_state ≡ P0SessionState.stopped)
unfolding handle_start_result Worker.started apply_projected_lifecycle
start_after_cancel inner s r requested now earlier started at other up t e =
    let at_result = Worker.note_unknown (from_cloud started) s in
    ground (arith, ==_refl r.turn_id, stop_after_lower_failure-stops inner at_result r.turn_id)

commit_cancel_result-running :
    (inner : Inner) (s s' : RuntimeState) (turn : ℕ) (lifecycle : CloudLifecycle)
    (snapshot : P0SessionSnapshot)
    → commit_cancel_result inner s turn lifecycle ≡ ok (s', snapshot)
    → s'.worker_stopped ≡ false
unfolding commit_cancel_result apply_projected_lifecycle append_change append_event
commit_cancel_result-running inner s s' turn lifecycle snapshot e = ground arith

-- When a cancellation of a turn whose start is under way commits the lifecycle that the lower
-- `cancel` returned, the turn takes it for its own; and when the start then returns a lifecycle of
-- another operation and the worker makes no further call, the session is stopped.
pub cancel_adopts_earlier :
    (inner : Inner) (s s' t : RuntimeState) (r : TurnRecord) (requested : Bool) (now : ℕ)
    (earlier started : CloudLifecycle) (snapshot : P0SessionSnapshot)
    → s.current_turn ≡ some r
    → r.projection ≡ P0TurnProjection.starting requested
    → operation_id (from_cloud started) ≢ operation_id (from_cloud earlier)
    → commit_cancel_result inner s r.turn_id earlier ≡ ok (s', snapshot)
    → handle_start_result inner s' r.turn_id now (ok started) ≡ done t
    → (option_map (λ (turn : TurnRecord). turn.projection) s'.current_turn
        ≡ some (P0TurnProjection.cloud (from_cloud earlier) requested))
      × (t.worker_stopped ≡ true)
      × (t.session_state ≡ P0SessionState.stopped)
cancel_adopts_earlier inner s s' t r requested now earlier started snapshot at starting other e e' =
    let taken = commit_cancel_result_adopts inner s s' r requested earlier snapshot at starting e in
    let up = commit_cancel_result-running inner s s' r.turn_id earlier snapshot e in
    let stops = start_after_cancel inner s' r requested now earlier started taken other up t e' in
    (ap (option_map (λ (turn : TurnRecord). turn.projection)) taken, stops.0, stops.1)
