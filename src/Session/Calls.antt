-- ===== src/Session/Calls.antt =====
-- The methods of `P0SessionRuntime` in crates/codebox-session-runtime/src/runtime.rs, each as what
-- it does under the lock; what a lower call returns is an argument. Cancellation is in Cancel.
use fanzloud.Base.{
  ℕ, ◌+◌, Bool, true, false, Option, none, some, [], Result, ok, err, ◌>>=◌, ◌>>◌, ensure, map_err,
  String, ◌==◌, if◌then◌else◌, option_map, is_some_and,
}
use fanzloud.Cloud.Lifecycle.{
  CloudLifecycle, CloudLifecycleErrorCategory, UnknownSubmitDecision, adopt_listed_task,
  abandon_after_reconciliation,
}
use fanzloud.Session.Config.{P0SessionConfig}
use fanzloud.Session.Error.Category.{P0SessionErrorCategory, CloudDiffReadErrorCategory}
use fanzloud.Session.Error.{P0SessionError, new, for_turn, for_operation, from_cloud_diff}
use fanzloud.Session.Types.{
  P0Actor, P0SessionState, P0CloudLifecycle, P0TurnProjection, P0TurnReceipt, P0SessionSnapshot,
  P0RecoveryCandidates, P0RecoveryDecisionKind, P0SessionEvent, from_cloud, operation_id,
  is_pending, is_submitting, state_eq,
}
use fanzloud.Session.State.{
  Inner, RuntimeState, TurnRecord, WorkerWork, reserve_events, append_event, snapshot_from,
  require_running_worker, current_operation, require_current_operation,
}
use fanzloud.Session.Lifecycle.{
  LowerLifecycleError, map_lower_error, apply_projected_lifecycle, state_for_lifecycle,
}

abbrev pub initial_turn : ℕ → P0CloudLifecycle → TurnRecord
initial_turn turn_id lifecycle = record {
  turn_id = turn_id;
  projection = P0TurnProjection.cloud lifecycle false;
  lower_start_admitted = false;
  cancel_in_progress = false;
  cancel_completed = false;
}

abbrev pub initial : P0SessionState → Option TurnRecord → Option WorkerWork → RuntimeState
initial session_state turn work = record {
  session_state = session_state;
  current_turn = turn;
  high_water_seq = 0;
  history = [];
  subscribers = [];
  next_subscriber_id = 1;
  work = work;
  shutdown_requested = false;
  worker_stopped = false;
}

-- What `initial_state` makes of an error of `inspect`.
abbrev initial_error :
    ℕ → CloudLifecycleErrorCategory → Option ℕ → Result P0SessionError RuntimeState
initial_error turn_id CloudLifecycleErrorCategory.no_current_operation op =
    ok (initial P0SessionState.ready none none)
initial_error turn_id CloudLifecycleErrorCategory.outcome_unknown (some op) = ok (
    initial P0SessionState.recovery_required
      (some (initial_turn turn_id (P0CloudLifecycle.outcome_unknown op))) none)
initial_error turn_id category op =
    err (map_lower_error (record { category = category; operation_id = op }))

-- `from_cloud` with `initial_state`: `turn_id` is the fresh identifier, `now` the time.
unfoldable pub initial_state :
    P0SessionConfig
    → ℕ
    → ℕ
    → Result LowerLifecycleError CloudLifecycle
    → Result P0SessionError RuntimeState
unfolding from_cloud
initial_state config turn_id now (ok lifecycle) =
    let projected = from_cloud lifecycle in
    if is_submitting projected
    then err (for_operation P0SessionErrorCategory.lower_conflict (operation_id projected))
    else ok (
        initial (state_for_lifecycle projected) (some (initial_turn turn_id projected)) (
          if is_pending projected
          then some (WorkerWork.monitor turn_id (now + config.poll_interval) 0)
          else none))
initial_state config turn_id now (err e) = initial_error turn_id e.category e.operation_id

abbrev already_running : Option TurnRecord → P0SessionError
already_running none = new P0SessionErrorCategory.turn_already_running
already_running (some turn) = for_turn P0SessionErrorCategory.turn_already_running turn.turn_id

-- `turn_id` is the fresh identifier of the new turn.
unfoldable pub start_turn :
    Inner → RuntimeState → ℕ → String → Result P0SessionError (RuntimeState × P0TurnReceipt)
start_turn inner s turn_id prompt = do
  require_running_worker s
  ensure (state_eq s.session_state P0SessionState.ready) (already_running s.current_turn)
  reserve_events s 1
  let s' =
      append_event inner
        (record s {
          session_state = P0SessionState.running;
          current_turn = some (record {
            turn_id = turn_id;
            projection = P0TurnProjection.queued;
            lower_start_admitted = false;
            cancel_in_progress = false;
            cancel_completed = false;
          });
          work = some (WorkerWork.start turn_id prompt);
        })
        (some turn_id) P0SessionEvent.turn_accepted
  ok (s', record { turn_id = turn_id; high_water_seq = s'.high_water_seq })

abbrev pub turn_id_of : RuntimeState → Option ℕ
turn_id_of s = option_map (λ (turn : TurnRecord). turn.turn_id) s.current_turn

abbrev pub ok_or {ℓ} : {A : Type ℓ} → Option A → P0SessionError → Result P0SessionError A
ok_or none e = err e
ok_or (some a) e = ok a

-- The check before the lower call: the operation that is to be reconciled.
unfoldable pub reconcile_begin : RuntimeState → Result P0SessionError ℕ
reconcile_begin s = do
  require_running_worker s
  ensure (state_eq s.session_state P0SessionState.recovery_required)
      (new P0SessionErrorCategory.wrong_state)
  ok_or (current_operation s) (new P0SessionErrorCategory.wrong_operation)

-- What follows the lower call, with the state as it is then.
unfoldable pub reconcile_finish :
    Inner
    → P0Actor
    → ℕ
    → Result LowerLifecycleError P0RecoveryCandidates
    → RuntimeState
    → Result P0SessionError (RuntimeState × P0RecoveryCandidates)
reconcile_finish inner actor expected lower s = do
  candidates ← map_err map_lower_error lower
  ensure (candidates.operation_id == expected)
      (for_operation P0SessionErrorCategory.lower_conflict candidates.operation_id)
  require_current_operation s expected
  reserve_events s 1
  ok (
    append_event inner s (turn_id_of s)
        (P0SessionEvent.recovery_observed actor expected candidates.task_ids candidates.complete),
    candidates,
  )

abbrev decision_kind : UnknownSubmitDecision → P0RecoveryDecisionKind
decision_kind (adopt_listed_task task) = P0RecoveryDecisionKind.adopt
decision_kind (abandon_after_reconciliation op) = P0RecoveryDecisionKind.abandon

unfoldable pub resolve_begin : ℕ → RuntimeState → Result P0SessionError (Unit {0})
resolve_begin op s = do
  require_running_worker s
  ensure (state_eq s.session_state P0SessionState.recovery_required)
      (for_operation P0SessionErrorCategory.wrong_state op)
  require_current_operation s op

-- The two events of a resolution, and the monitoring of an adopted task.
unfoldable pub resolve_commit :
    Inner
    → P0Actor
    → ℕ
    → UnknownSubmitDecision
    → ℕ
    → P0CloudLifecycle
    → ℕ
    → RuntimeState
    → RuntimeState
resolve_commit inner actor op decision now projected turn_id applied =
    let resolved =
      append_event inner applied (some turn_id)
        (P0SessionEvent.recovery_resolved actor op (decision_kind decision)) in
    let changed =
      append_event inner resolved (some turn_id) (P0SessionEvent.lifecycle_changed projected) in
    if is_pending projected
    then record changed {
      work = some (WorkerWork.monitor turn_id (now + inner.config.poll_interval) 0);
    }
    else changed

unfoldable pub resolve_finish :
    Inner
    → P0Actor
    → ℕ
    → UnknownSubmitDecision
    → ℕ
    → Result LowerLifecycleError CloudLifecycle
    → RuntimeState
    → Result P0SessionError (RuntimeState × P0SessionSnapshot)
unfolding from_cloud
resolve_finish inner actor op decision now lower s = do
  lifecycle ← map_err map_lower_error lower
  let projected = from_cloud lifecycle
  ensure (operation_id projected == op)
      (for_operation P0SessionErrorCategory.lower_conflict (operation_id projected))
  require_current_operation s op
  require_running_worker s
  reserve_events s 2
  turn_id ← ok_or (turn_id_of s) (new P0SessionErrorCategory.no_current_turn)
  applied ← apply_projected_lifecycle s turn_id projected false
  let monitored = resolve_commit inner actor op decision now projected turn_id applied
  ok (monitored, snapshot_from inner monitored)

abbrev has_diff : P0TurnProjection → Bool
has_diff (P0TurnProjection.cloud (P0CloudLifecycle.ready op task) requested) = true
has_diff (P0TurnProjection.cloud (P0CloudLifecycle.applied op task) requested) = true
has_diff _ = false

-- `D` is the diff that the lower reader returns.
unfoldable pub read_diff {ℓ} :
    {D : Type ℓ} → RuntimeState → Result CloudDiffReadErrorCategory D → Result P0SessionError D
read_diff s lower = do
  require_running_worker s
  ensure (is_some_and s.current_turn λ turn. has_diff turn.projection)
      (new P0SessionErrorCategory.wrong_state)
  map_err from_cloud_diff lower
