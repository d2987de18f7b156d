-- ===== src/Session/Lifecycle.antt =====
-- How a lower lifecycle is projected into the session, for the functions from
-- `apply_projected_lifecycle` to `stop_worker` of crates/codebox-session-runtime/src/runtime.rs.
use fanzloud.Base.{
  ℕ, ◌+◌, ◌*◌, ◌^◌, min, Bool, true, false, not, ◌&&◌, ◌||◌, Option, none, some, Result, ok, err,
  ltb, leb, ◌==◌, if◌then◌else◌, option_map, and_then, is_some_and, option_filter, u32_max, u64_max,
}
use fanzloud.Cloud.Lifecycle.{CloudLifecycleErrorCategory}
use fanzloud.Session.Config.{max_backoff}
use fanzloud.Session.Error.Category.{P0SessionErrorCategory}
use fanzloud.Session.Error.{P0SessionError, new, for_operation, from_cloud_lifecycle}
use fanzloud.Session.Types.{
  P0SessionState, P0CloudLifecycle, P0TurnProjection, P0RuntimeStopReason, P0SessionEvent,
  operation_id, is_pending, is_unknown, is_submitting, task_id, task_eq, lifecycle_eq,
}
use fanzloud.Session.State.{
  RuntimeState, TurnRecord, Inner, close_runtime_stopped, reserve_events, append_event,
  close_subscribers, projection_lifecycle, projection_cancel_requested,
}

pub record LowerLifecycleError : Type 0 where
  pub category : CloudLifecycleErrorCategory
  pub operation_id : Option ℕ

abbrev pub map_lower_error : LowerLifecycleError → P0SessionError
map_lower_error e = from_cloud_lifecycle e.category e.operation_id

abbrev pub follows_submitting : P0CloudLifecycle → Bool
follows_submitting (P0CloudLifecycle.failed_before_submit op) = true
follows_submitting (P0CloudLifecycle.outcome_unknown op) = true
follows_submitting (P0CloudLifecycle.pending op task) = true
follows_submitting _ = false

abbrev pub follows_unknown : P0CloudLifecycle → Bool
follows_unknown (P0CloudLifecycle.pending op task) = true
follows_unknown (P0CloudLifecycle.ready op task) = true
follows_unknown (P0CloudLifecycle.applied op task) = true
follows_unknown (P0CloudLifecycle.provider_error op task) = true
follows_unknown (P0CloudLifecycle.abandoned_unknown op) = true
follows_unknown _ = false

abbrev pub follows_pending : P0CloudLifecycle → Bool
follows_pending (P0CloudLifecycle.pending op task) = true
follows_pending (P0CloudLifecycle.ready op task) = true
follows_pending (P0CloudLifecycle.applied op task) = true
follows_pending (P0CloudLifecycle.provider_error op task) = true
follows_pending (P0CloudLifecycle.canceled_locally op task may_continue) = true
follows_pending _ = false

abbrev pub differs_allowed : P0CloudLifecycle → P0CloudLifecycle → Bool
differs_allowed (P0CloudLifecycle.submitting op) next = follows_submitting next
differs_allowed (P0CloudLifecycle.outcome_unknown op) next = follows_unknown next
differs_allowed (P0CloudLifecycle.pending op task) next =
    task_eq (some task) (task_id next) && follows_pending next
differs_allowed _ next = false

unfoldable pub lifecycle_transition_allowed : P0CloudLifecycle → P0CloudLifecycle → Bool
lifecycle_transition_allowed current next =
    if lifecycle_eq current next then true else differs_allowed current next

unfoldable pub state_for_lifecycle : P0CloudLifecycle → P0SessionState
state_for_lifecycle lifecycle =
    if is_unknown lifecycle
    then P0SessionState.recovery_required
    else if is_pending lifecycle || is_submitting lifecycle
    then P0SessionState.running
    else P0SessionState.ready

-- `state.current_turn.as_ref().filter(|turn| turn.turn_id == turn_id)`.
abbrev pub turn_named : RuntimeState → ℕ → Option TurnRecord
turn_named s turn_id = option_filter (λ turn. turn.turn_id == turn_id) s.current_turn

abbrev pub conflicts : P0CloudLifecycle → P0CloudLifecycle → Bool
conflicts projected current =
    not (operation_id current == operation_id projected)
    || not (lifecycle_transition_allowed current projected)

abbrev pub clear_work_unless_pending : P0CloudLifecycle → RuntimeState → RuntimeState
clear_work_unless_pending projected s = if is_pending projected then s else record s { work = none }

abbrev pub project : RuntimeState → TurnRecord → P0CloudLifecycle → Bool → RuntimeState
project s turn projected cancel_completed = clear_work_unless_pending projected (record s {
  session_state = state_for_lifecycle projected;
  current_turn = some (record turn {
    projection = P0TurnProjection.cloud projected (projection_cancel_requested turn.projection);
    cancel_completed = turn.cancel_completed || cancel_completed;
  });
})

abbrev pub project_named :
    RuntimeState → Option TurnRecord → P0CloudLifecycle → Bool → Result P0SessionError RuntimeState
project_named s none projected cancel_completed = err (new P0SessionErrorCategory.wrong_state)
project_named s (some turn) projected cancel_completed =
    ok (project s turn projected cancel_completed)

unfoldable pub apply_projected_lifecycle :
    RuntimeState → ℕ → P0CloudLifecycle → Bool → Result P0SessionError RuntimeState
apply_projected_lifecycle s turn_id projected cancel_completed =
    if is_some_and (and_then (turn_named s turn_id) λ turn. projection_lifecycle turn.projection)
      (conflicts projected)
    then err (for_operation P0SessionErrorCategory.lower_conflict (operation_id projected))
    else project_named s (turn_named s turn_id) projected cancel_completed

-- The largest `Duration`, in nanoseconds.
abbrev pub duration_max : ℕ
duration_max = u64_max * 10 ^ 9 + 999999999

-- `1_u32.checked_shl(exponent).unwrap_or(u32::MAX)`.
abbrev multiplier : ℕ → ℕ
multiplier exponent = if ltb exponent 32 then 2 ^ exponent else u32_max

unfoldable pub backoff : ℕ → ℕ → ℕ
backoff base failures =
    let product = base * multiplier (min failures 8) in
    min (if leb product duration_max then product else max_backoff) max_backoff

abbrev is_waiting : P0TurnProjection → Bool
is_waiting P0TurnProjection.queued = true
is_waiting (P0TurnProjection.starting requested) = true
is_waiting _ = false

abbrev pub start_not_admitted : TurnRecord → Bool
start_not_admitted turn = is_waiting turn.projection && not turn.lower_start_admitted

abbrev pub stopped_before_start : P0RuntimeStopReason → TurnRecord → TurnRecord
stopped_before_start P0RuntimeStopReason.shutdown turn =
    if start_not_admitted turn
    then record turn { projection = P0TurnProjection.stopped_before_cloud_start }
    else turn
stopped_before_start P0RuntimeStopReason.lower_failure turn = turn

-- The last event is written if there is a sequence number for it.
abbrev announce_stop : Inner → RuntimeState → P0RuntimeStopReason → RuntimeState
announce_stop inner s reason = elim (reserve_events s 1) [
  | ok u ↦
      append_event inner s (option_map (λ turn. turn.turn_id) s.current_turn)
        (P0SessionEvent.runtime_stopped reason)
  | err e ↦ s
]

unfoldable pub stop_worker : Inner → RuntimeState → P0RuntimeStopReason → RuntimeState
stop_worker inner s reason =
    if s.worker_stopped
    then s
    else close_subscribers
        (announce_stop inner
          (record s {
            current_turn = option_map (stopped_before_start reason) s.current_turn;
            work = none;
            session_state = P0SessionState.stopped;
            worker_stopped = true;
          })
          reason)
        close_runtime_stopped

-- `if let Some(turn) = state.current_turn.as_mut().filter(|turn| turn.turn_id == turn_id)`.
abbrev pub update_named : ℕ → (TurnRecord → TurnRecord) → Option TurnRecord → Option TurnRecord
update_named turn_id f none = none
update_named turn_id f (some turn) = some (if turn.turn_id == turn_id then f turn else turn)

unfoldable pub stop_after_lower_failure : Inner → RuntimeState → ℕ → RuntimeState
stop_after_lower_failure inner s turn_id =
    stop_worker inner
      (record s {
        current_turn =
            update_named turn_id
              (λ turn. record turn { projection = P0TurnProjection.stopped_after_lower_failure })
              s.current_turn;
      })
      P0RuntimeStopReason.lower_failure
