-- ===== src/Cloud/Ledger.antt =====
-- The durable record of the current operation, crates/codebox-agent-codex/src/cloud_lifecycle_ledger.rs:
-- its phases and how they follow one another. A method that changes the record returns the record,
-- or an error, which leaves it unchanged. Reading and writing the file is left out.
mod Check
mod Validity
mod Transitions
mod Projected
mod Accepted
mod Examples
use fanzloud.Base.{
  ℕ, suc, ◌+◌, Bool, true, false, not, ◌&&◌, ◌||◌, Option, none, some, List, [], ◌∷◌, ◌++◌, Result,
  ok, err, ◌>>=◌, ◌>>◌, ensure, map_err, String, length, leb, ltb, ◌==◌, if◌then◌else◌, str_eq,
  u64_max, is_some_and,
}
use fanzloud.Cloud.Lifecycle.{CloudLifecycle, CloudLifecycleError, CloudLifecycleErrorCategory}
use fanzloud.Cloud.TaskId.{try_new}

abbrev pub cloud_lifecycle_schema_version : ℕ
cloud_lifecycle_schema_version = 1

abbrev pub max_lifecycle_history : ℕ
max_lifecycle_history = 32

abbrev pub max_reconciliation_candidates : ℕ
max_reconciliation_candidates = 100

abbrev pub invalid_ledger : CloudLifecycleError
invalid_ledger = record {
  category = CloudLifecycleErrorCategory.ledger_invalid;
  operation_id = none;
}

pub data CloudTaskStatus : Type 0 where
  pending ready applied error : CloudTaskStatus

pub data CloudLifecyclePhase : Type 0 where
  submitting failed_before_submit outcome_unknown pending ready applied : CloudLifecyclePhase
  provider_error : CloudLifecyclePhase
  -- provider_may_continue
  canceled_locally : Bool → CloudLifecyclePhase
  abandoned_unknown : CloudLifecyclePhase

abbrev pub is_terminal : CloudLifecyclePhase → Bool
is_terminal CloudLifecyclePhase.submitting = false
is_terminal CloudLifecyclePhase.outcome_unknown = false
is_terminal CloudLifecyclePhase.pending = false
is_terminal _ = true

-- A number for each phase, for the derived equality.
abbrev pub discriminant : CloudLifecyclePhase → ℕ
discriminant CloudLifecyclePhase.submitting = 0
discriminant CloudLifecyclePhase.failed_before_submit = 1
discriminant CloudLifecyclePhase.outcome_unknown = 2
discriminant CloudLifecyclePhase.pending = 3
discriminant CloudLifecyclePhase.ready = 4
discriminant CloudLifecyclePhase.applied = 5
discriminant CloudLifecyclePhase.provider_error = 6
discriminant (CloudLifecyclePhase.canceled_locally false) = 7
discriminant (CloudLifecyclePhase.canceled_locally true) = 8
discriminant CloudLifecyclePhase.abandoned_unknown = 9

abbrev pub phase_eq : CloudLifecyclePhase → CloudLifecyclePhase → Bool
phase_eq a b = discriminant a == discriminant b

pub record CloudLifecycleLedger : Type 0 where
  pub schema_version : ℕ
  pub operation_id : ℕ
  pub phase : CloudLifecyclePhase
  pub task_id : Option String
  pub reconciliation_generation : ℕ
  pub candidate_task_ids : List String
  pub reconciliation_complete : Option Bool
  pub history : List CloudLifecyclePhase

abbrev pub submitting_ledger : ℕ → CloudLifecycleLedger
submitting_ledger op = record {
  schema_version = cloud_lifecycle_schema_version;
  operation_id = op;
  phase = CloudLifecyclePhase.submitting;
  task_id = none;
  reconciliation_generation = 0;
  candidate_task_ids = [];
  reconciliation_complete = none;
  history = CloudLifecyclePhase.submitting ∷ [];
}

unfoldable pub valid_transition : CloudLifecyclePhase → CloudLifecyclePhase → Bool
valid_transition CloudLifecyclePhase.submitting CloudLifecyclePhase.failed_before_submit = true
valid_transition CloudLifecyclePhase.submitting CloudLifecyclePhase.pending = true
valid_transition CloudLifecyclePhase.submitting CloudLifecyclePhase.outcome_unknown = true
valid_transition CloudLifecyclePhase.submitting (CloudLifecyclePhase.canceled_locally false) = true
valid_transition CloudLifecyclePhase.pending CloudLifecyclePhase.pending = true
valid_transition CloudLifecyclePhase.pending CloudLifecyclePhase.ready = true
valid_transition CloudLifecyclePhase.pending CloudLifecyclePhase.applied = true
valid_transition CloudLifecyclePhase.pending CloudLifecyclePhase.provider_error = true
valid_transition CloudLifecyclePhase.pending (CloudLifecyclePhase.canceled_locally true) = true
valid_transition CloudLifecyclePhase.outcome_unknown CloudLifecyclePhase.outcome_unknown = true
valid_transition CloudLifecyclePhase.outcome_unknown CloudLifecyclePhase.pending = true
valid_transition CloudLifecyclePhase.outcome_unknown CloudLifecyclePhase.ready = true
valid_transition CloudLifecyclePhase.outcome_unknown CloudLifecyclePhase.applied = true
valid_transition CloudLifecyclePhase.outcome_unknown CloudLifecyclePhase.provider_error = true
valid_transition CloudLifecyclePhase.outcome_unknown CloudLifecyclePhase.abandoned_unknown = true
valid_transition _ _ = false

abbrev pub phase_for_status : CloudTaskStatus → CloudLifecyclePhase
phase_for_status CloudTaskStatus.pending = CloudLifecyclePhase.pending
phase_for_status CloudTaskStatus.ready = CloudLifecyclePhase.ready
phase_for_status CloudTaskStatus.applied = CloudLifecyclePhase.applied
phase_for_status CloudTaskStatus.error = CloudLifecyclePhase.provider_error

unfoldable pub append :
    CloudLifecycleLedger → CloudLifecyclePhase → Result CloudLifecycleError CloudLifecycleLedger
append l phase = do
  ensure (ltb (length l.history) max_lifecycle_history && valid_transition l.phase phase)
      invalid_ledger
  ok (record l { history = l.history ++ phase ∷ []; phase = phase })

-- `self.task_id.as_deref() == Some(task)`.
abbrev pub names_task : Option String → String → Bool
names_task none task = false
names_task (some current) task = str_eq current task

abbrev pub is_some {ℓ} : {A : Type ℓ} → Option A → Bool
is_some none = false
is_some (some a) = true

unfoldable pub record_failed_before_submit :
    CloudLifecycleLedger → Result CloudLifecycleError CloudLifecycleLedger
record_failed_before_submit l = append l CloudLifecyclePhase.failed_before_submit

unfoldable pub record_outcome_unknown :
    CloudLifecycleLedger → Result CloudLifecycleError CloudLifecycleLedger
record_outcome_unknown l = append l CloudLifecyclePhase.outcome_unknown

abbrev pub still_pending : CloudLifecycleLedger → String → CloudLifecyclePhase → Bool
still_pending l task phase =
    phase_eq l.phase CloudLifecyclePhase.pending
    && phase_eq phase CloudLifecyclePhase.pending
    && names_task l.task_id task

unfoldable pub record_status :
    CloudLifecycleLedger
    → String
    → CloudTaskStatus
    → Result CloudLifecycleError CloudLifecycleLedger
record_status l task status = do
  ensure (not (is_some_and l.task_id λ current. not (str_eq current task))) invalid_ledger
  let phase = phase_for_status status
  if still_pending l task phase
      then ok l
      else do appended ← append l phase; ok (record appended { task_id = some task })

unfoldable pub record_canceled_without_task :
    CloudLifecycleLedger → Result CloudLifecycleError CloudLifecycleLedger
record_canceled_without_task l = do
  ensure (not (is_some l.task_id)) invalid_ledger
  append l (CloudLifecyclePhase.canceled_locally false)

unfoldable pub record_canceled_with_task :
    CloudLifecycleLedger → Result CloudLifecycleError CloudLifecycleLedger
record_canceled_with_task l = do
  ensure (is_some l.task_id) invalid_ledger
  append l (CloudLifecyclePhase.canceled_locally true)

unfoldable pub record_abandoned_unknown :
    CloudLifecycleLedger → Result CloudLifecycleError CloudLifecycleLedger
record_abandoned_unknown l = append l CloudLifecyclePhase.abandoned_unknown

abbrev pub contains : List String → String → Bool
contains [] task = false
contains (seen ∷ rest) task = str_eq seen task || contains rest task

-- Whether an identifier is repeated, or is in `seen`.
unfoldable pub repeats : List String → List String → Bool
repeats seen [] = false
repeats seen (task ∷ tasks) = contains seen task || repeats (task ∷ seen) tasks

unfoldable pub record_reconciliation :
    CloudLifecycleLedger → List String → Bool → Result CloudLifecycleError CloudLifecycleLedger
record_reconciliation l tasks complete = do
  ensure
      (phase_eq l.phase CloudLifecyclePhase.outcome_unknown
        && leb (length tasks) max_reconciliation_candidates)
      invalid_ledger
  ensure (not (repeats [] tasks)) invalid_ledger
  ensure (leb (l.reconciliation_generation + 1) u64_max) invalid_ledger
  ok (record l {
    reconciliation_generation = l.reconciliation_generation + 1;
    candidate_task_ids = tasks;
    reconciliation_complete = some complete;
  })
