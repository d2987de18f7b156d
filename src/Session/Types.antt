-- ===== src/Session/Types.antt =====
-- crates/codebox-session-runtime/src/types.rs: lifecycles, projections, snapshots and events.
use fanzloud.Base.{ℕ, Bool, true, false, ◌&&◌, Option, none, some, List, String, str_eq, ◌==◌}
use fanzloud.Cloud.Lifecycle.{CloudLifecycle}

pub data P0Actor : Type 0 where
  operator : P0Actor

pub record P0SessionIdentity : Type 0 where
  pub session_id : ℕ
  pub instance_id : ℕ

pub data P0SessionState : Type 0 where
  ready running recovery_required monitoring_degraded stopped : P0SessionState

abbrev pub discriminant : P0SessionState → ℕ
discriminant P0SessionState.ready = 0
discriminant P0SessionState.running = 1
discriminant P0SessionState.recovery_required = 2
discriminant P0SessionState.monitoring_degraded = 3
discriminant P0SessionState.stopped = 4

-- The derived `PartialEq`.
unfoldable pub state_eq : P0SessionState → P0SessionState → Bool
state_eq a b = discriminant a == discriminant b

-- A `P0CloudTaskId` is its text.
pub data P0CloudLifecycle : Type 0 where
  submitting failed_before_submit outcome_unknown : ℕ → P0CloudLifecycle
  pending ready applied provider_error : ℕ → String → P0CloudLifecycle
  canceled_locally : ℕ → Option String → Bool → P0CloudLifecycle
  abandoned_unknown : ℕ → P0CloudLifecycle

unfoldable pub from_cloud : CloudLifecycle → P0CloudLifecycle
from_cloud (CloudLifecycle.submitting op) = P0CloudLifecycle.submitting op
from_cloud (CloudLifecycle.failed_before_submit op) = P0CloudLifecycle.failed_before_submit op
from_cloud (CloudLifecycle.outcome_unknown op) = P0CloudLifecycle.outcome_unknown op
from_cloud (CloudLifecycle.pending op task) = P0CloudLifecycle.pending op task
from_cloud (CloudLifecycle.ready op task) = P0CloudLifecycle.ready op task
from_cloud (CloudLifecycle.applied op task) = P0CloudLifecycle.applied op task
from_cloud (CloudLifecycle.provider_error op task) = P0CloudLifecycle.provider_error op task
from_cloud (CloudLifecycle.canceled_locally op task may_continue) =
    P0CloudLifecycle.canceled_locally op task may_continue
from_cloud (CloudLifecycle.abandoned_unknown op) = P0CloudLifecycle.abandoned_unknown op

unfoldable pub operation_id : P0CloudLifecycle → ℕ
operation_id (P0CloudLifecycle.submitting op) = op
operation_id (P0CloudLifecycle.failed_before_submit op) = op
operation_id (P0CloudLifecycle.outcome_unknown op) = op
operation_id (P0CloudLifecycle.pending op task) = op
operation_id (P0CloudLifecycle.ready op task) = op
operation_id (P0CloudLifecycle.applied op task) = op
operation_id (P0CloudLifecycle.provider_error op task) = op
operation_id (P0CloudLifecycle.canceled_locally op task may_continue) = op
operation_id (P0CloudLifecycle.abandoned_unknown op) = op

abbrev pub is_pending : P0CloudLifecycle → Bool
is_pending (P0CloudLifecycle.pending op task) = true
is_pending _ = false

abbrev pub is_unknown : P0CloudLifecycle → Bool
is_unknown (P0CloudLifecycle.outcome_unknown op) = true
is_unknown _ = false

abbrev pub is_submitting : P0CloudLifecycle → Bool
is_submitting (P0CloudLifecycle.submitting op) = true
is_submitting _ = false

abbrev pub is_terminal : P0CloudLifecycle → Bool
is_terminal (P0CloudLifecycle.submitting op) = false
is_terminal (P0CloudLifecycle.outcome_unknown op) = false
is_terminal (P0CloudLifecycle.pending op task) = false
is_terminal _ = true

abbrev pub task_id : P0CloudLifecycle → Option String
task_id (P0CloudLifecycle.pending op task) = some task
task_id (P0CloudLifecycle.ready op task) = some task
task_id (P0CloudLifecycle.applied op task) = some task
task_id (P0CloudLifecycle.provider_error op task) = some task
task_id (P0CloudLifecycle.canceled_locally op task may_continue) = task
task_id _ = none

abbrev pub task_eq : Option String → Option String → Bool
task_eq none none = true
task_eq (some a) (some b) = str_eq a b
task_eq _ _ = false

abbrev pub bool_eq : Bool → Bool → Bool
bool_eq true true = true
bool_eq false false = true
bool_eq _ _ = false

-- The derived `PartialEq`.
unfoldable pub lifecycle_eq : P0CloudLifecycle → P0CloudLifecycle → Bool
lifecycle_eq (P0CloudLifecycle.submitting a) (P0CloudLifecycle.submitting b) = a == b
lifecycle_eq (P0CloudLifecycle.failed_before_submit a) (P0CloudLifecycle.failed_before_submit b) =
    a == b
lifecycle_eq (P0CloudLifecycle.outcome_unknown a) (P0CloudLifecycle.outcome_unknown b) = a == b
lifecycle_eq (P0CloudLifecycle.pending a s) (P0CloudLifecycle.pending b t) = a == b && str_eq s t
lifecycle_eq (P0CloudLifecycle.ready a s) (P0CloudLifecycle.ready b t) = a == b && str_eq s t
lifecycle_eq (P0CloudLifecycle.applied a s) (P0CloudLifecycle.applied b t) = a == b && str_eq s t
lifecycle_eq (P0CloudLifecycle.provider_error a s) (P0CloudLifecycle.provider_error b t) =
    a == b && str_eq s t
lifecycle_eq (P0CloudLifecycle.canceled_locally a s p) (P0CloudLifecycle.canceled_locally b t q) =
    a == b && task_eq s t && bool_eq p q
lifecycle_eq (P0CloudLifecycle.abandoned_unknown a) (P0CloudLifecycle.abandoned_unknown b) = a == b
lifecycle_eq _ _ = false

pub data P0TurnProjection : Type 0 where
  queued : P0TurnProjection
  -- cancel_requested
  starting : Bool → P0TurnProjection
  -- lifecycle, cancel_requested
  cloud : P0CloudLifecycle → Bool → P0TurnProjection
  -- operation_id, last_known_pending, cancel_requested
  monitoring_degraded : ℕ → P0CloudLifecycle → Bool → P0TurnProjection
  canceled_before_cloud_start stopped_before_cloud_start : P0TurnProjection
  stopped_after_lower_failure : P0TurnProjection

pub record P0TurnSnapshot : Type 0 where
  pub turn_id : ℕ
  pub projection : P0TurnProjection

pub record P0SessionSnapshot : Type 0 where
  pub identity : P0SessionIdentity
  pub state : P0SessionState
  pub current_turn : Option P0TurnSnapshot
  pub high_water_seq : ℕ

pub record P0TurnReceipt : Type 0 where
  pub turn_id : ℕ
  pub high_water_seq : ℕ

pub data P0RecoveryDecisionKind : Type 0 where
  adopt abandon : P0RecoveryDecisionKind

pub data P0RuntimeStopReason : Type 0 where
  shutdown lower_failure : P0RuntimeStopReason

pub record P0RecoveryCandidates : Type 0 where
  pub operation_id : ℕ
  pub task_ids : List String
  pub complete : Bool

pub data P0SessionEvent : Type 0 where
  turn_accepted turn_canceled_before_cloud_start : P0SessionEvent
  lifecycle_changed : P0CloudLifecycle → P0SessionEvent
  cancel_requested : P0Actor → P0SessionEvent
  monitoring_degraded : P0SessionEvent
  -- actor, operation_id, task_ids, complete
  recovery_observed : P0Actor → ℕ → List String → Bool → P0SessionEvent
  recovery_resolved : P0Actor → ℕ → P0RecoveryDecisionKind → P0SessionEvent
  runtime_stopped : P0RuntimeStopReason → P0SessionEvent

pub record P0SessionEventEnvelope : Type 0 where
  pub schema_version : ℕ
  pub session_id : ℕ
  pub seq : ℕ
  pub turn_id : Option ℕ
  pub payload : P0SessionEvent
