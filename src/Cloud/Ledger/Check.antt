-- ===== src/Cloud/Ledger/Check.antt =====
-- What crates/codebox-agent-codex/src/cloud_lifecycle_ledger.rs checks of a record that it reads or
-- writes (`validate`), and the lifecycle that a record stands for (`lifecycle`).
use fanzloud.Base.{
  ℕ, Bool, true, false, not, ◌&&◌, ◌||◌, Option, none, some, List, [], ◌∷◌, Result, ok, err, ◌>>=◌,
  ◌>>◌, ensure, String, length, leb, ◌==◌, if◌then◌else◌,
}
use fanzloud.Cloud.Lifecycle.{CloudLifecycle, CloudLifecycleError}
use fanzloud.Cloud.TaskId.{CloudAdapterError, try_new}
use fanzloud.Cloud.Ledger.{
  CloudLifecyclePhase, phase_eq, CloudLifecycleLedger, cloud_lifecycle_schema_version,
  max_lifecycle_history, max_reconciliation_candidates, invalid_ledger, valid_transition, contains,
  is_some,
}

abbrev pub opens : List CloudLifecyclePhase → Bool
opens [] = false
opens (phase ∷ phases) = phase_eq phase CloudLifecyclePhase.submitting

unfoldable pub ends_in : CloudLifecyclePhase → List CloudLifecyclePhase → Bool
ends_in last [] = false
ends_in last (phase ∷ []) = phase_eq phase last
ends_in last (phase ∷ next ∷ phases) = ends_in last (next ∷ phases)

unfoldable pub linked : List CloudLifecyclePhase → Bool
linked [] = true
linked (phase ∷ []) = true
linked (phase ∷ next ∷ phases) = valid_transition phase next && linked (next ∷ phases)

unfoldable pub history_contains : CloudLifecyclePhase → List CloudLifecyclePhase → Bool
history_contains wanted [] = false
history_contains wanted (phase ∷ phases) = phase_eq phase wanted || history_contains wanted phases

abbrev pub is_id : Result CloudAdapterError String → Bool
is_id (ok task) = true
is_id (err e) = false

-- `task_id` of the record: an identifier that is not of the right form is an invalid record.
abbrev pub checked_task : Option String → Result CloudLifecycleError (Option String)
checked_task none = ok none
checked_task (some value) = elim (try_new value) [
  | ok task ↦ ok (some task)
  | err e ↦ err invalid_ledger
]

abbrev pub requires_task : CloudLifecyclePhase → Bool
requires_task CloudLifecyclePhase.pending = true
requires_task CloudLifecyclePhase.ready = true
requires_task CloudLifecyclePhase.applied = true
requires_task CloudLifecyclePhase.provider_error = true
requires_task (CloudLifecyclePhase.canceled_locally may_continue) = may_continue
requires_task _ = false

abbrev pub same : Bool → Bool → Bool
same true b = b
same false b = not b

unfoldable pub has_history : CloudLifecycleLedger → Bool
has_history l =
    l.schema_version == cloud_lifecycle_schema_version
    && not (l.operation_id == 0)
    && not (length l.history == 0)
    && leb (length l.history) max_lifecycle_history
    && opens l.history
    && ends_in l.phase l.history
    && linked l.history

-- The candidates are identifiers, each there once.
unfoldable pub are_candidates : List String → List String → Bool
are_candidates seen [] = true
are_candidates seen (task ∷ tasks) =
    is_id (try_new task) && not (contains seen task) && are_candidates (task ∷ seen) tasks

abbrev pub has_reconciliation : CloudLifecycleLedger → Bool
has_reconciliation l =
    if l.reconciliation_generation == 0
    then not (is_some l.reconciliation_complete) && length l.candidate_task_ids == 0
    else is_some l.reconciliation_complete
      && history_contains CloudLifecyclePhase.outcome_unknown l.history

unfoldable pub validate : CloudLifecycleLedger → Result CloudLifecycleError (Unit {0})
validate l = do
  ensure (has_history l) invalid_ledger
  task ← checked_task l.task_id
  ensure (same (requires_task l.phase) (is_some task)) invalid_ledger
  ensure (leb (length l.candidate_task_ids) max_reconciliation_candidates) invalid_ledger
  ensure (are_candidates [] l.candidate_task_ids) invalid_ledger
  ensure (has_reconciliation l) invalid_ledger

abbrev with_task :
    Option String → (String → CloudLifecycle) → Result CloudLifecycleError CloudLifecycle
with_task none make = err invalid_ledger
with_task (some task) make = ok (make task)

unfoldable pub lifecycle_of :
    ℕ → CloudLifecyclePhase → Option String → Result CloudLifecycleError CloudLifecycle
lifecycle_of op CloudLifecyclePhase.submitting task = ok (CloudLifecycle.submitting op)
lifecycle_of op CloudLifecyclePhase.failed_before_submit task =
    ok (CloudLifecycle.failed_before_submit op)
lifecycle_of op CloudLifecyclePhase.outcome_unknown task = ok (CloudLifecycle.outcome_unknown op)
lifecycle_of op CloudLifecyclePhase.pending task = with_task task (CloudLifecycle.pending op)
lifecycle_of op CloudLifecyclePhase.ready task = with_task task (CloudLifecycle.ready op)
lifecycle_of op CloudLifecyclePhase.applied task = with_task task (CloudLifecycle.applied op)
lifecycle_of op CloudLifecyclePhase.provider_error task =
    with_task task (CloudLifecycle.provider_error op)
lifecycle_of op (CloudLifecyclePhase.canceled_locally may_continue) task =
    ok (CloudLifecycle.canceled_locally op task may_continue)
lifecycle_of op CloudLifecyclePhase.abandoned_unknown task =
    ok (CloudLifecycle.abandoned_unknown op)

unfoldable pub lifecycle : CloudLifecycleLedger → Result CloudLifecycleError CloudLifecycle
lifecycle l = do task ← checked_task l.task_id; lifecycle_of l.operation_id l.phase task
