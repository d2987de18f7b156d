-- ===== src/Session/Cancel.antt =====
-- `cancel_turn` and `commit_cancel_result` of crates/codebox-session-runtime/src/runtime.rs. The
-- method takes the lock several times: `cancel_begin` is its first section, `cancel_resume` what it
-- does with one answer of the lower `cancel`.
use fanzloud.Base.{
  ℕ, Bool, true, false, not, ◌&&◌, ◌||◌, Option, none, some, Result, ok, err, ◌>>=◌, ◌>>◌, ensure,
  ◌==◌, if◌then◌else◌, option_map, is_some_and,
}
use fanzloud.Cloud.Lifecycle.{CloudLifecycle, CloudLifecycleErrorCategory}
use fanzloud.Session.Error.Category.{P0SessionErrorCategory}
use fanzloud.Session.Error.{P0SessionError, new, for_operation}
use fanzloud.Session.Types.{
  P0Actor, P0SessionState, P0CloudLifecycle, P0TurnProjection, P0SessionSnapshot, P0SessionEvent,
  from_cloud, operation_id, lifecycle_eq, state_eq,
}
use fanzloud.Session.State.{
  Inner, RuntimeState, TurnRecord, reserve_events, append_event, reserve_change, append_change,
  snapshot_from, require_running_worker, current_operation, projection_operation,
  projection_lifecycle, projection_cancel_requested, set_projection_cancel_requested,
}
use fanzloud.Session.Lifecycle.{
  LowerLifecycleError, map_lower_error, turn_named, update_named, apply_projected_lifecycle,
}
use fanzloud.Session.Subscribe.{projection_is_queued}

-- How the first section ends: with a snapshot, with one that the caller takes in a later section, or
-- with a lower call for a turn that may not have been admitted yet.
pub data CancelPlan : Type 0 where
  answered : P0SessionSnapshot → CancelPlan
  take_snapshot : CancelPlan
  -- turn_id, admission_may_be_pending
  call_lower : ℕ → Bool → CancelPlan

abbrev pub wrong_state_for : Option ℕ → P0SessionError
wrong_state_for none = new P0SessionErrorCategory.wrong_state
wrong_state_for (some op) = for_operation P0SessionErrorCategory.wrong_state op

abbrev pub is_starting : P0TurnProjection → Bool
is_starting (P0TurnProjection.starting requested) = true
is_starting _ = false

unfoldable pub cancel_queued :
    Inner → RuntimeState → TurnRecord → Result P0SessionError (RuntimeState × CancelPlan)
cancel_queued inner s turn = do
  reserve_events s 1
  let s' =
      append_event inner
        (record s {
          work = none;
          session_state = P0SessionState.ready;
          current_turn = some (record turn {
            projection = P0TurnProjection.canceled_before_cloud_start;
            cancel_completed = true;
          });
        })
        (some turn.turn_id) P0SessionEvent.turn_canceled_before_cloud_start
  ok (s', answered (snapshot_from inner s'))

-- The request is recorded once.
unfoldable pub record_request :
    Inner → P0Actor → RuntimeState → TurnRecord → Result P0SessionError (RuntimeState × TurnRecord)
record_request inner actor s turn =
    if projection_cancel_requested turn.projection then ok (s, turn) else do
      reserve_events s 1
      let turn' = record turn { projection = set_projection_cancel_requested turn.projection }
      ok (
        append_event inner (record s { current_turn = some turn' }) (some turn.turn_id)
            (P0SessionEvent.cancel_requested actor),
        turn',
      )

unfoldable pub cancel_plan : Inner → RuntimeState × TurnRecord → RuntimeState × CancelPlan
cancel_plan inner (s, turn) =
    if turn.cancel_completed
    then (s, answered (snapshot_from inner s))
    else if turn.cancel_in_progress
    then (s, take_snapshot)
    else if is_starting turn.projection
    then (
      record s { current_turn = some (record turn { cancel_in_progress = true }) },
      call_lower turn.turn_id true,
    )
    else (
      record s { current_turn = some (record turn { cancel_in_progress = true }); work = none },
      call_lower turn.turn_id false,
    )

unfoldable pub cancel_named :
    Inner
    → P0Actor
    → RuntimeState
    → Option TurnRecord
    → Result P0SessionError (RuntimeState × CancelPlan)
cancel_named inner actor s none = err (new P0SessionErrorCategory.no_current_turn)
cancel_named inner actor s (some turn) =
    if projection_is_queued turn.projection
    then cancel_queued inner s turn
    else do requested ← record_request inner actor s turn; ok (cancel_plan inner requested)

unfoldable pub cancel_begin :
    Inner → P0Actor → RuntimeState → Result P0SessionError (RuntimeState × CancelPlan)
cancel_begin inner actor s = do
  require_running_worker s
  ensure (not (state_eq s.session_state P0SessionState.recovery_required))
      (wrong_state_for (current_operation s))
  ensure
      (state_eq s.session_state P0SessionState.running
        || state_eq s.session_state P0SessionState.monitoring_degraded)
      (new P0SessionErrorCategory.wrong_state)
  cancel_named inner actor s s.current_turn

abbrev pub ok_or_wrong_state : Option TurnRecord → Result P0SessionError TurnRecord
ok_or_wrong_state none = err (new P0SessionErrorCategory.wrong_state)
ok_or_wrong_state (some turn) = ok turn

abbrev pub differs_from : P0CloudLifecycle → Option P0CloudLifecycle → Bool
differs_from projected none = true
differs_from projected (some current) = not (lifecycle_eq current projected)

abbrev pub changes : P0CloudLifecycle → TurnRecord → Bool
changes projected turn = differs_from projected (projection_lifecycle turn.projection)

abbrev pub finish_cancel : RuntimeState → RuntimeState
finish_cancel s = record s {
  current_turn =
      option_map
        (λ (turn : TurnRecord). record turn { cancel_in_progress = false; cancel_completed = true })
        s.current_turn;
}

unfoldable pub commit_cancel_result :
    Inner
    → RuntimeState
    → ℕ
    → CloudLifecycle
    → Result P0SessionError (RuntimeState × P0SessionSnapshot)
commit_cancel_result inner s turn_id lifecycle = do
  let projected = from_cloud lifecycle
  ensure (not s.worker_stopped) (new P0SessionErrorCategory.runtime_stopped)
  turn ← ok_or_wrong_state (turn_named s turn_id)
  ensure
      (not (
        is_some_and (projection_operation turn.projection)
          λ op. not (op == operation_id projected)))
      (for_operation P0SessionErrorCategory.lower_conflict (operation_id projected))
  reserve_change s (changes projected turn)
  applied ← apply_projected_lifecycle s turn_id projected true
  let s' = append_change inner (finish_cancel applied) turn_id (changes projected turn) projected
  ok (s', snapshot_from inner s')

abbrev is_no_current_operation : CloudLifecycleErrorCategory → Bool
is_no_current_operation CloudLifecycleErrorCategory.no_current_operation = true
is_no_current_operation _ = false

pub data CancelStep : Type 0 where
  retry : CancelStep
  returned : Result P0SessionError P0SessionSnapshot → CancelStep

abbrev pub cancel_abandoned : RuntimeState → ℕ → RuntimeState
cancel_abandoned s turn_id = record s {
  current_turn =
      update_named turn_id (λ turn. record turn { cancel_in_progress = false }) s.current_turn;
}

abbrev pub committed :
    RuntimeState
    → Result P0SessionError (RuntimeState × P0SessionSnapshot)
    → RuntimeState × CancelStep
committed s (ok (s', snapshot)) = (s', returned (ok snapshot))
committed s (err e) = (s, returned (err e))

-- `in_time`: the deadline for the admission has not passed.
unfoldable pub cancel_resume :
    Inner
    → RuntimeState
    → ℕ
    → Bool
    → Bool
    → Result LowerLifecycleError CloudLifecycle
    → RuntimeState × CancelStep
cancel_resume inner s turn_id admission_may_be_pending in_time (ok lifecycle) =
    committed s (commit_cancel_result inner s turn_id lifecycle)
cancel_resume inner s turn_id admission_may_be_pending in_time (err e) =
    if admission_may_be_pending && is_no_current_operation e.category
    then if in_time
      then if is_some_and (turn_named s turn_id) (λ turn. turn.cancel_completed)
        then (s, returned (ok (snapshot_from inner s)))
        else (s, retry)
      else (
        cancel_abandoned s turn_id,
        returned (ok (snapshot_from inner (cancel_abandoned s turn_id))),
      )
    else (cancel_abandoned s turn_id, returned (err (map_lower_error e)))
