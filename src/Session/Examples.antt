-- ===== src/Session/Examples.antt =====
-- One session of crates/codebox-session-runtime/src/runtime.rs, and the theorems at it.
mod Races
use fanzloud.Base.{
  ◌+◌, ◌*◌, ◌^◌, min, ◌≤◌, ◌-◌, ◌≡◌, refl, true, false, none, some, [], ◌∷◌, ◌++◌, Result, ok, err,
  arith, length, option_map,
}
use fanzloud.Cloud.Lifecycle.{CloudLifecycle, CloudLifecycleErrorCategory}
use fanzloud.Session.Config.{
  default, max_backoff, try_new, InBounds, try_new-InBounds, try_new_accepts,
}
use fanzloud.Session.Types.{
  P0Actor, P0SessionState, P0CloudLifecycle, P0TurnProjection, P0TurnReceipt, P0RuntimeStopReason,
  P0SessionEvent, from_cloud, operation_id, lifecycle_eq, state_eq,
}
use fanzloud.Session.State.{
  Inner, RuntimeState, TurnRecord, WorkerWork, append_event, append_change, reserve_events,
  reserve_change, evict, close_subscribers, snapshot_from, envelope, subscriber_count,
}
use fanzloud.Session.Lifecycle.{
  LowerLifecycleError, apply_projected_lifecycle, lifecycle_transition_allowed, state_for_lifecycle,
  backoff, stop_worker, stop_after_lower_failure,
}
use fanzloud.Session.Calls.{initial_state, start_turn, initial}
use fanzloud.Session.Subscribe.{
  P0SessionSubscription, after, opened, subscribe, shutdown, stop_queued,
}
use fanzloud.Session.Cancel.{commit_cancel_result}
use fanzloud.Session.Worker
use fanzloud.Session.Worker.{
  WorkerAction, Round, act, next_worker_action, admit_start, done, handle_start_result,
}
use fanzloud.Session.Monitor.{handle_monitor_result}
use fanzloud.Session.Stream.{HasStream, Ends}
use fanzloud.Session.Stream.Writes.{append_event-HasStream}
use fanzloud.Session.Stream.Readers.{subscribe_exact}
use fanzloud.Session.System.{here, next, starts, idle, session-HasStream}
use fanzloud.Session.Projection.{
  backoff_exact, backoff_mono, Named, Later, apply_projected_lifecycle-Later,
}
use fanzloud.Session.Races.{handle_monitor_result_stale, cancel_adopts_earlier}
use fanzloud.Session.Admission.{
  accepted, start_turn_accepts, start_turn_once, admit_start_exact, shutdown_stops,
  shutdown_before_start,
}

abbrev pub inner : Inner
inner = record { config = default; identity = record { session_id = 11; instance_id = 12 } }

default-InBounds : InBounds default
default-InBounds = omega arith

-- Before the first turn, with one turn queued, and with it claimed by the worker.
abbrev pub ready : RuntimeState
ready = initial P0SessionState.ready none none

abbrev pub queued_turn : TurnRecord
queued_turn = record {
  turn_id = 5;
  projection = P0TurnProjection.queued;
  lower_start_admitted = false;
  cancel_in_progress = false;
  cancel_completed = false;
}

abbrev pub queued : RuntimeState
queued = record ready {
  session_state = P0SessionState.running;
  current_turn = some queued_turn;
  high_water_seq = 1;
  history = envelope inner 1 (some 5) P0SessionEvent.turn_accepted ∷ [];
  work = some (WorkerWork.start 5 "fix it");
}

abbrev receipt : P0TurnReceipt
receipt = record { turn_id = 5; high_water_seq = 1 }

start_queued : start_turn inner ready 5 "fix it" ≡ ok (queued, receipt)
unfolding start_turn append_event evict reserve_events state_eq
start_queued = refl

abbrev no_operation : Result LowerLifecycleError CloudLifecycle
no_operation =
    err
      (record { category = CloudLifecycleErrorCategory.no_current_operation; operation_id = none })

initial_ready : initial_state inner.config 4 0 no_operation ≡ ok ready
unfolding initial_state
initial_ready = refl

session-HasStream_example : HasStream inner queued
session-HasStream_example =
    session-HasStream inner 4 0 no_operation ready (record { state = queued; phase = idle })
      initial_ready (next here (starts 5 "fix it" receipt start_queued refl))

pub queued-HasStream : HasStream inner queued
queued-HasStream =
    session-HasStream inner 4 0 no_operation ready (record { state = queued; phase = idle })
      initial_ready (next here (starts 5 "fix it" receipt start_queued refl))

start_turn_accepts_example : accepted (start_turn inner ready 5 "fix it") ≡ true
unfolding state_eq
start_turn_accepts_example = start_turn_accepts inner ready 5 "fix it"

start_turn_once_example :
    (queued.work ≡ some (WorkerWork.start 5 "fix it"))
    × (receipt.high_water_seq ≡ ready.high_water_seq + 1)
    × (queued.high_water_seq ≡ receipt.high_water_seq)
    × (accepted (start_turn inner queued 6 "again") ≡ false)
start_turn_once_example =
    start_turn_once inner ready queued 5 6 "fix it" "again" receipt start_queued

abbrev pub subscription : P0SessionSubscription
subscription = record {
  replay = envelope inner 1 (some 5) P0SessionEvent.turn_accepted ∷ [];
  snapshot = snapshot_from inner queued;
  live = 1;
}

abbrev pub subscribed : RuntimeState
subscribed = record queued { next_subscriber_id = 2; subscribers = opened 1 ∷ [] }

pub queued-subscribed : subscribe inner queued 11 0 ≡ ok (subscribed, subscription)
unfolding subscribe after subscriber_count
queued-subscribed = refl

subscribe_exact_example :
    (0 ≤ 1)
    × Ends 1 subscription.replay
    × (length subscription.replay ≡ 1 - 0)
    × (subscribed.subscribers ≡ queued.subscribers ++ opened 1 ∷ [])
    × (subscribed.high_water_seq ≡ subscription.snapshot.high_water_seq)
subscribe_exact_example =
    subscribe_exact inner queued subscribed 11 0 subscription queued-HasStream (omega arith)
      queued-subscribed

abbrev stopped : RuntimeState
stopped = record queued {
  session_state = P0SessionState.stopped;
  current_turn =
      some (record queued_turn { projection = P0TurnProjection.stopped_before_cloud_start });
  high_water_seq = 2;
  history =
      envelope inner 1 (some 5) P0SessionEvent.turn_accepted
      ∷ envelope inner 2 (some 5) (P0SessionEvent.runtime_stopped P0RuntimeStopReason.shutdown)
      ∷ [];
  work = none;
  shutdown_requested = true;
  worker_stopped = true;
}
