-- ===== src/Cloud/Ledger/Projected.antt =====
-- What the record of crates/codebox-agent-codex/src/cloud_lifecycle_ledger.rs stands for, and its
-- final phases.
use fanzloud.Base.{
  ℕ, ◌≡◌, refl, Bool, true, false, Option, none, some, List, ok, err, arith, String, inl, inr,
  Bool-cases,
}
use fanzloud.Cloud.Ledger.{
  CloudLifecyclePhase, CloudTaskStatus, CloudLifecycleLedger, invalid_ledger, valid_transition,
  is_some, append, record_failed_before_submit, record_outcome_unknown, record_status,
  record_canceled_without_task, record_canceled_with_task, record_abandoned_unknown,
  record_reconciliation, still_pending, phase_for_status,
}
use fanzloud.Cloud.Ledger.Check.{requires_task, same, validate}
use fanzloud.Cloud.Lifecycle.{CloudLifecycle, operation_id, task_id}
use fanzloud.Cloud.Ledger.{is_terminal}
use fanzloud.Cloud.Ledger.Check.{lifecycle_of, lifecycle}
use fanzloud.Cloud.Ledger.Validity.{validate-IsValid}

lifecycle_of-total :
    (op : ℕ) (phase : CloudLifecyclePhase) (task : Option String)
    → same (requires_task phase) (is_some task) ≡ true
    → (c : CloudLifecycle) × (lifecycle_of op phase task ≡ ok c)
      × (operation_id c ≡ op)
      × (task_id c ≡ task)
unfolding lifecycle_of operation_id task_id
lifecycle_of-total op CloudLifecyclePhase.submitting none fits =
    (CloudLifecycle.submitting op, refl, refl, refl)
lifecycle_of-total op CloudLifecyclePhase.failed_before_submit none fits =
    (CloudLifecycle.failed_before_submit op, refl, refl, refl)
lifecycle_of-total op CloudLifecyclePhase.outcome_unknown none fits =
    (CloudLifecycle.outcome_unknown op, refl, refl, refl)
lifecycle_of-total op CloudLifecyclePhase.abandoned_unknown none fits =
    (CloudLifecycle.abandoned_unknown op, refl, refl, refl)
lifecycle_of-total op CloudLifecyclePhase.pending (some task) fits =
    (CloudLifecycle.pending op task, refl, refl, refl)
lifecycle_of-total op CloudLifecyclePhase.ready (some task) fits =
    (CloudLifecycle.ready op task, refl, refl, refl)
lifecycle_of-total op CloudLifecyclePhase.applied (some task) fits =
    (CloudLifecycle.applied op task, refl, refl, refl)
lifecycle_of-total op CloudLifecyclePhase.provider_error (some task) fits =
    (CloudLifecycle.provider_error op task, refl, refl, refl)
lifecycle_of-total op (CloudLifecyclePhase.canceled_locally may_continue) task fits =
    (CloudLifecycle.canceled_locally op task may_continue, refl, refl, refl)
lifecycle_of-total op _ _ fits = absurd (ground arith)

-- A record that `validate` accepts stands for a lifecycle, of its operation and with its task.
pub lifecycle_total :
    (l : CloudLifecycleLedger)
    → validate l ≡ ok tt
    → (c : CloudLifecycle) × (lifecycle l ≡ ok c)
      × (operation_id c ≡ l.operation_id)
      × (task_id c ≡ l.task_id)
unfolding lifecycle
lifecycle_total l h =
    let v = validate-IsValid l h in
    let (c, is, op, task) = lifecycle_of-total l.operation_id l.phase l.task_id v.fits in
    (c, rw v.identified is, op, task)

terminal-append :
    (l : CloudLifecycleLedger) (phase : CloudLifecyclePhase)
    → is_terminal l.phase ≡ true
    → append l phase ≡ err invalid_ledger
unfolding append valid_transition
terminal-append l phase final = ground arith

terminal-record_status :
    (l : CloudLifecycleLedger) (task : String) (status : CloudTaskStatus)
    → is_terminal l.phase ≡ true
    → record_status l task status ≡ err invalid_ledger
unfolding record_status
terminal-record_status l task status final =
    let refused = terminal-append l (phase_for_status status) final in
    elim (Bool-cases (still_pending l task (phase_for_status status))) [
      | inl still ↦ ground arith
      | inr moves ↦ grind arith
    ]

-- When the phase is final, every method that would change the record refuses.
pub terminal_refuses :
    (l : CloudLifecycleLedger) (task : String) (status : CloudTaskStatus) (tasks : List String)
    (complete : Bool)
    → is_terminal l.phase ≡ true
    → (record_failed_before_submit l ≡ err invalid_ledger)
      × (record_outcome_unknown l ≡ err invalid_ledger)
      × (record_status l task status ≡ err invalid_ledger)
      × (record_canceled_without_task l ≡ err invalid_ledger)
      × (record_canceled_with_task l ≡ err invalid_ledger)
      × (record_abandoned_unknown l ≡ err invalid_ledger)
      × (record_reconciliation l tasks complete ≡ err invalid_ledger)
unfolding record_failed_before_submit record_outcome_unknown record_abandoned_unknown
    record_canceled_without_task record_canceled_with_task record_status record_reconciliation
terminal_refuses l task status tasks complete final = (
  terminal-append l _ final,
  terminal-append l _ final,
  terminal-record_status l task status final,
  ground (arith, terminal-append l (CloudLifecyclePhase.canceled_locally false) final),
  ground (arith, terminal-append l (CloudLifecyclePhase.canceled_locally true) final),
  terminal-append l _ final,
  ground arith,
)
