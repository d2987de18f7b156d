-- ===== src/Session/Examples/Races.antt =====
-- Late results in one session of crates/codebox-session-runtime/src/runtime.rs, and the theorems at
-- them.
use fanzloud.Base.{◌≡◌, refl, true, false, none, some, [], ◌∷◌, ok, arith, option_map}
use fanzloud.Cloud.Lifecycle.{CloudLifecycle}
use fanzloud.Session.Types.{
  P0SessionState, P0CloudLifecycle, P0TurnProjection, P0SessionEvent, from_cloud, operation_id,
  lifecycle_eq,
}
use fanzloud.Session.State.{
  RuntimeState, TurnRecord, append_event, append_change, reserve_events, reserve_change, evict,
  snapshot_from, envelope,
}
use fanzloud.Session.Lifecycle.{
  apply_projected_lifecycle, lifecycle_transition_allowed, state_for_lifecycle,
  stop_after_lower_failure,
}
use fanzloud.Session.Cancel.{commit_cancel_result}
use fanzloud.Session.Worker
use fanzloud.Session.Worker.{
  WorkerAction, Round, act, next_worker_action, admit_start, done, handle_start_result,
}
use fanzloud.Session.Monitor.{handle_monitor_result}
use fanzloud.Session.Projection.{Named, Later, apply_projected_lifecycle-Later}
use fanzloud.Session.Races.{handle_monitor_result_stale, cancel_adopts_earlier}
use fanzloud.Session.Examples.{inner, queued_turn, queued}

-- Turn 4 was being monitored when it was cancelled and turn 5 was queued.
handle_monitor_result_stale_example :
    ((handle_monitor_result inner queued 4 0 9
        (ok (CloudLifecycle.pending 21 "task_a"))).worker_stopped
      ≡ true)
    × ((handle_monitor_result inner queued 4 0 9
          (ok (CloudLifecycle.pending 21 "task_a"))).session_state
        ≡ P0SessionState.stopped)
    × ((handle_monitor_result inner queued 4 0 9 (ok (CloudLifecycle.pending 21 "task_a"))).work
        ≡ none)
handle_monitor_result_stale_example =
    handle_monitor_result_stale inner queued 4 0 9 queued_turn (CloudLifecycle.pending 21 "task_a")
      refl (omega arith) refl refl refl

abbrev pending : P0CloudLifecycle
pending = P0CloudLifecycle.pending 21 "task_a"

abbrev monitored : RuntimeState
monitored = record queued {
  current_turn = some (record queued_turn { projection = P0TurnProjection.cloud pending false });
  work = none;
}

abbrev finished : RuntimeState
finished = record monitored {
  session_state = P0SessionState.ready;
  current_turn = some (record queued_turn {
    projection = P0TurnProjection.cloud (P0CloudLifecycle.ready 21 "task_a") false;
  });
}

apply_projected_lifecycle-Later_example :
    Named 5 (P0CloudLifecycle.ready 21 "task_a") finished
    × (operation_id (P0CloudLifecycle.ready 21 "task_a") ≡ operation_id pending)
    × Later pending (P0CloudLifecycle.ready 21 "task_a")
unfolding apply_projected_lifecycle lifecycle_transition_allowed lifecycle_eq operation_id
    state_for_lifecycle
apply_projected_lifecycle-Later_example =
    apply_projected_lifecycle-Later monitored finished 5 pending
      (P0CloudLifecycle.ready 21 "task_a") false refl refl

-- Turn 5 is being started when it is cancelled; the lower ledger still has operation 20.
abbrev starting_turn : TurnRecord
starting_turn = record queued_turn {
  projection = P0TurnProjection.starting true;
  lower_start_admitted = true;
  cancel_in_progress = true;
}

abbrev starting : RuntimeState
starting = record queued { current_turn = some starting_turn; work = none }

abbrev earlier : CloudLifecycle
earlier = CloudLifecycle.ready 20 "task_z"

abbrev adopted : RuntimeState
adopted = record starting {
  session_state = P0SessionState.ready;
  current_turn = some (record starting_turn {
    projection = P0TurnProjection.cloud (P0CloudLifecycle.ready 20 "task_z") true;
    cancel_in_progress = false;
    cancel_completed = true;
  });
  high_water_seq = 2;
  history =
      envelope inner 1 (some 5) P0SessionEvent.turn_accepted
      ∷ envelope inner 2 (some 5)
          (P0SessionEvent.lifecycle_changed (P0CloudLifecycle.ready 20 "task_z"))
      ∷ [];
}

cancel_adopts_earlier_example :
    (option_map (λ (turn : TurnRecord). turn.projection) adopted.current_turn
      ≡ some (P0TurnProjection.cloud (P0CloudLifecycle.ready 20 "task_z") true))
    × ((stop_after_lower_failure inner adopted 5).worker_stopped ≡ true)
    × ((stop_after_lower_failure inner adopted 5).session_state ≡ P0SessionState.stopped)
unfolding commit_cancel_result apply_projected_lifecycle append_change append_event reserve_change
    reserve_events evict from_cloud operation_id lifecycle_eq handle_start_result Worker.started
    state_for_lifecycle
cancel_adopts_earlier_example =
    cancel_adopts_earlier inner starting adopted (stop_after_lower_failure inner adopted 5)
      starting_turn true 9 earlier (CloudLifecycle.pending 21 "task_a")
      (snapshot_from inner adopted) refl refl (omega arith) refl refl
