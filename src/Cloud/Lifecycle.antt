-- ===== src/Cloud/Lifecycle.antt =====
-- crates/codebox-agent-codex/src/cloud_lifecycle_types.rs: the durable projection of one operation.
-- An operation identifier is the number of its UUID; a task identifier is its text.
use fanzloud.Base.{ℕ, Bool, Option, none, some, String}

pub data CloudLifecycle : Type 0 where
  submitting failed_before_submit outcome_unknown : ℕ → CloudLifecycle
  pending ready applied provider_error : ℕ → String → CloudLifecycle
  canceled_locally : ℕ → Option String → Bool → CloudLifecycle
  abandoned_unknown : ℕ → CloudLifecycle

unfoldable pub operation_id : CloudLifecycle → ℕ
operation_id (CloudLifecycle.submitting op) = op
operation_id (CloudLifecycle.failed_before_submit op) = op
operation_id (CloudLifecycle.outcome_unknown op) = op
operation_id (CloudLifecycle.pending op task) = op
operation_id (CloudLifecycle.ready op task) = op
operation_id (CloudLifecycle.applied op task) = op
operation_id (CloudLifecycle.provider_error op task) = op
operation_id (CloudLifecycle.canceled_locally op task may_continue) = op
operation_id (CloudLifecycle.abandoned_unknown op) = op

unfoldable pub task_id : CloudLifecycle → Option String
task_id (CloudLifecycle.pending op task) = some task
task_id (CloudLifecycle.ready op task) = some task
task_id (CloudLifecycle.applied op task) = some task
task_id (CloudLifecycle.provider_error op task) = some task
task_id (CloudLifecycle.canceled_locally op task may_continue) = task
task_id _ = none

-- The acknowledgement is that of one operation.
pub data UnknownSubmitDecision : Type 0 where
  adopt_listed_task : String → UnknownSubmitDecision
  abandon_after_reconciliation : ℕ → UnknownSubmitDecision

pub data CloudLifecycleErrorCategory : Type 0 where
  scope busy turn_already_running no_current_operation wrong_state : CloudLifecycleErrorCategory
  stale_decision task_not_listed acknowledgement_required lower_runner provider_read :
      CloudLifecycleErrorCategory
  operation_conflict outcome_unknown ledger_invalid ledger_unavailable recovery_required :
      CloudLifecycleErrorCategory

pub record CloudLifecycleError : Type 0 where
  pub category : CloudLifecycleErrorCategory
  pub operation_id : Option ℕ
