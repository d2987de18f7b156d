-- ===== src/Cloud/Ledger/Examples.antt =====
-- A record of crates/codebox-agent-codex/src/cloud_lifecycle_ledger.rs from its submit to its task, and
-- the theorems at it.
use fanzloud.Base.{◌≡◌, refl, true, some, [], ◌∷◌, ok, err, arith}
use fanzloud.Cloud.Lifecycle.{CloudLifecycle}
use fanzloud.Cloud.TaskId.{try_new, all_id_codes}
use fanzloud.Cloud.Ledger.{
  CloudLifecyclePhase, CloudTaskStatus, CloudLifecycleLedger, submitting_ledger, append,
  valid_transition, record_outcome_unknown, record_status, record_reconciliation, repeats,
  record_failed_before_submit, record_canceled_without_task, record_canceled_with_task,
  record_abandoned_unknown, invalid_ledger,
}
use fanzloud.Cloud.Ledger.Check.{
  ends_in, linked, history_contains, has_history, are_candidates, validate, lifecycle, lifecycle_of,
}
use fanzloud.Cloud.Ledger.Transitions.{Step, Reach, start, after, ledger_validates}
use fanzloud.Cloud.Ledger.Projected.{terminal_refuses}
use fanzloud.Cloud.Ledger.Accepted.{step_allowed}
use fanzloud.Session.Types.{from_cloud}
use fanzloud.Session.Lifecycle.{lifecycle_transition_allowed}

abbrev unknown : CloudLifecycleLedger
unknown = record (submitting_ledger 5) {
  phase = CloudLifecyclePhase.outcome_unknown;
  history = CloudLifecyclePhase.submitting ∷ CloudLifecyclePhase.outcome_unknown ∷ [];
}

abbrev listed : CloudLifecycleLedger
listed = record unknown {
  reconciliation_generation = 1;
  candidate_task_ids = "task_a" ∷ [];
  reconciliation_complete = some true;
}

abbrev finished : CloudLifecycleLedger
finished = record listed {
  phase = CloudLifecyclePhase.ready;
  task_id = some "task_a";
  history =
      CloudLifecyclePhase.submitting ∷ CloudLifecyclePhase.outcome_unknown
      ∷ CloudLifecyclePhase.ready ∷ [];
}

task_a : try_new "task_a" ≡ ok "task_a"
unfolding try_new all_id_codes
task_a = refl

submit_unknown : record_outcome_unknown (submitting_ledger 5) ≡ ok unknown
unfolding record_outcome_unknown append valid_transition
submit_unknown = refl

reconciled_once : record_reconciliation unknown ("task_a" ∷ []) true ≡ ok listed
unfolding record_reconciliation repeats
reconciled_once = refl

task_ready : record_status listed "task_a" CloudTaskStatus.ready ≡ ok finished
unfolding record_status append valid_transition
task_ready = refl

reached : Reach (submitting_ledger 5) finished
reached =
    after
      (after (after start (Step.is_unknown submit_unknown))
        (Step.reconciles ("task_a" ∷ []) true (task_a, tt) reconciled_once))
      (Step.has_status "task_a" CloudTaskStatus.ready task_a task_ready)

ledger_validates_example : validate finished ≡ ok tt
ledger_validates_example = ledger_validates 5 finished (omega arith) reached

terminal_refuses_example :
    (record_failed_before_submit finished ≡ err invalid_ledger)
    × (record_outcome_unknown finished ≡ err invalid_ledger)
    × (record_status finished "task_b" CloudTaskStatus.pending ≡ err invalid_ledger)
    × (record_canceled_without_task finished ≡ err invalid_ledger)
    × (record_canceled_with_task finished ≡ err invalid_ledger)
    × (record_abandoned_unknown finished ≡ err invalid_ledger)
    × (record_reconciliation finished [] true ≡ err invalid_ledger)
terminal_refuses_example = terminal_refuses finished "task_b" CloudTaskStatus.pending [] true refl

listed-validate : validate listed ≡ ok tt
unfolding validate has_history ends_in linked valid_transition are_candidates try_new all_id_codes
    history_contains
listed-validate = refl

listed-lifecycle : lifecycle listed ≡ ok (CloudLifecycle.outcome_unknown 5)
unfolding lifecycle lifecycle_of
listed-lifecycle = refl

finished-lifecycle : lifecycle finished ≡ ok (CloudLifecycle.ready 5 "task_a")
unfolding lifecycle lifecycle_of try_new all_id_codes
finished-lifecycle = refl

step_allowed_example :
    lifecycle_transition_allowed
      (from_cloud (CloudLifecycle.outcome_unknown 5))
      (from_cloud (CloudLifecycle.ready 5 "task_a"))
    ≡ true
step_allowed_example =
    step_allowed listed finished (CloudLifecycle.outcome_unknown 5)
      (CloudLifecycle.ready 5 "task_a") listed-validate
      (Step.has_status "task_a" CloudTaskStatus.ready task_a task_ready) (λ same. ground arith)
      listed-lifecycle finished-lifecycle
