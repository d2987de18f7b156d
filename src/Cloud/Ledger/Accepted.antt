-- ===== src/Cloud/Ledger/Accepted.antt =====
-- The changes of the record of crates/codebox-agent-codex/src/cloud_lifecycle_ledger.rs, seen by
-- crates/codebox-session-runtime/src/runtime.rs.
use fanzloud.Base.{
  ℕ, ◌≡◌, ◌≢◌, refl, sym, Bool, true, false, not, Option, none, some, ok, arith, String, ==_refl,
  inl, inr, ensure, >>-eq-ok, eq_iff, Option-cases, subst, ◌∙◌,
}
use fanzloud.Cloud.Ledger.{
  CloudLifecyclePhase, CloudTaskStatus, CloudLifecycleLedger, invalid_ledger, valid_transition,
  is_some, append, record_failed_before_submit, record_outcome_unknown, record_status,
  record_canceled_without_task, record_canceled_with_task, record_abandoned_unknown,
  record_reconciliation,
}
use fanzloud.Cloud.Ledger.Check.{validate}
use fanzloud.Cloud.Lifecycle.{CloudLifecycle}
use fanzloud.Session.Types.{P0CloudLifecycle, from_cloud, lifecycle_eq, task_eq, bool_eq}
use fanzloud.Session.Lifecycle.{lifecycle_transition_allowed}
use fanzloud.Cloud.Ledger.Check.{lifecycle_of, lifecycle}
use fanzloud.Base.{◌⊎◌}
use text.Mathlib.TextPositions.{eq_refl}
use fanzloud.Cloud.Ledger.Validity.{IsValid, validate-IsValid}
use fanzloud.Cloud.Ledger.Transitions.{Step, Step-IsValid}

-- A change keeps the operation; the phase and the task stay, or the phase moves along an edge and a
-- task that is known is kept.
abbrev pub Follows : CloudLifecycleLedger → CloudLifecycleLedger → Type 0
Follows l l' =
    (l'.operation_id ≡ l.operation_id)
    × (((l'.phase ≡ l.phase) × (l'.task_id ≡ l.task_id))
        ⊎ ((valid_transition l.phase l'.phase ≡ true)
            × ((l'.task_id ≡ l.task_id) ⊎ (l.task_id ≡ none))))

append-Follows :
    (l l' : CloudLifecycleLedger) (phase : CloudLifecyclePhase)
    → append l phase ≡ ok l'
    → Follows l l'
unfolding append
append-Follows l l' phase e = ground arith

record_status-Follows :
    (l l' : CloudLifecycleLedger) (task : String) (status : CloudTaskStatus)
    → record_status l task status ≡ ok l'
    → Follows l l'
unfolding record_status append
record_status-Follows l l' task status e = elim (Option-cases l.task_id) [
  | inl absent ↦ ground arith
  | inr (current, at) ↦ ground (arith, eq_iff current task)
]

Step-Follows : (l l' : CloudLifecycleLedger) → Step l l' → Follows l l'
unfolding record_failed_before_submit record_outcome_unknown record_abandoned_unknown
    record_canceled_without_task record_canceled_with_task record_reconciliation
Step-Follows l l' (Step.fails_before_submit e) = append-Follows l l' _ e
Step-Follows l l' (Step.is_unknown e) = append-Follows l l' _ e
Step-Follows l l' (Step.has_status task status known e) = record_status-Follows l l' task status e
Step-Follows l l' (Step.cancels_without_task e) =
    append-Follows l l' _ (>>-eq-ok (ensure (not (is_some l.task_id)) invalid_ledger) _ e).1
Step-Follows l l' (Step.cancels_with_task e) =
    append-Follows l l' _ (>>-eq-ok (ensure (is_some l.task_id) invalid_ledger) _ e).1
Step-Follows l l' (Step.abandons e) = append-Follows l l' _ e
Step-Follows l l' (Step.reconciles tasks complete known e) = ground arith

task_eq_refl : (o : Option String) → task_eq o o ≡ true
task_eq_refl none = refl
task_eq_refl (some task) = eq_refl task

bool_eq_refl : (b : Bool) → bool_eq b b ≡ true
bool_eq_refl true = refl
bool_eq_refl false = refl

lifecycle_eq_refl : (c : P0CloudLifecycle) → lifecycle_eq c c ≡ true
unfolding lifecycle_eq
lifecycle_eq_refl (P0CloudLifecycle.pending op task) = ground (arith, ==_refl op, eq_refl task)
lifecycle_eq_refl (P0CloudLifecycle.ready op task) = ground (arith, ==_refl op, eq_refl task)
lifecycle_eq_refl (P0CloudLifecycle.applied op task) = ground (arith, ==_refl op, eq_refl task)
lifecycle_eq_refl (P0CloudLifecycle.provider_error op task) =
    ground (arith, ==_refl op, eq_refl task)
lifecycle_eq_refl (P0CloudLifecycle.canceled_locally op task may_continue) =
    grind (arith, ==_refl op, task_eq_refl task, bool_eq_refl may_continue)
lifecycle_eq_refl (P0CloudLifecycle.submitting op) = ==_refl op
lifecycle_eq_refl (P0CloudLifecycle.failed_before_submit op) = ==_refl op
lifecycle_eq_refl (P0CloudLifecycle.outcome_unknown op) = ==_refl op
lifecycle_eq_refl (P0CloudLifecycle.abandoned_unknown op) = ==_refl op

same-allowed : (c : P0CloudLifecycle) → lifecycle_transition_allowed c c ≡ true
unfolding lifecycle_transition_allowed
same-allowed c = rw (lifecycle_eq_refl c) refl

-- Along an edge, but not from the submit that is under way, the runtime allows the transition.
edge-allowed :
    (op : ℕ) (from to : CloudLifecyclePhase) (task task' : Option String) (c c' : CloudLifecycle)
    → valid_transition from to ≡ true
    → from ≢ CloudLifecyclePhase.submitting
    → (task' ≡ task) ⊎ (task ≡ none)
    → lifecycle_of op from task ≡ ok c
    → lifecycle_of op to task' ≡ ok c'
    → lifecycle_transition_allowed (from_cloud c) (from_cloud c') ≡ true
unfolding valid_transition lifecycle_of lifecycle_transition_allowed from_cloud lifecycle_eq
edge-allowed op CloudLifecyclePhase.submitting to task task' c c' allowed later kept is is' =
    absurd (later refl)
edge-allowed op CloudLifecyclePhase.pending _ none task' c c' allowed later kept is is' =
    ground arith
edge-allowed op CloudLifecyclePhase.pending _ (some t) task' c c' allowed later kept is is' =
    ground (arith, eq_refl t)
edge-allowed op CloudLifecyclePhase.outcome_unknown _ task task' c c' allowed later kept is is' =
    ground arith
edge-allowed op _ _ task task' c c' allowed later kept is is' = ground arith

lifecycle-as_of :
    (l : CloudLifecycleLedger)
    → IsValid l
    → lifecycle l ≡ lifecycle_of l.operation_id l.phase l.task_id
unfolding lifecycle
lifecycle-as_of l v = rw v.identified refl

kept-allowed :
    (op op' : ℕ) (phase phase' : CloudLifecyclePhase) (task task' : Option String)
    (c c' : CloudLifecycle)
    → op' ≡ op
    → phase' ≡ phase
    → task' ≡ task
    → lifecycle_of op phase task ≡ ok c
    → lifecycle_of op' phase' task' ≡ ok c'
    → lifecycle_transition_allowed (from_cloud c) (from_cloud c') ≡ true
kept-allowed op op' phase phase' task task' c c' o p t is is' =
    let one : c' ≡ c = cc in rw one (same-allowed (from_cloud c))

-- When a valid record, not one whose submit is under way, is changed, the runtime allows the
-- transition from the lifecycle that it stood for to the new one.
pub step_allowed :
    (l l' : CloudLifecycleLedger) (c c' : CloudLifecycle)
    → validate l ≡ ok tt
    → Step l l'
    → l.phase ≢ CloudLifecyclePhase.submitting
    → lifecycle l ≡ ok c
    → lifecycle l' ≡ ok c'
    → lifecycle_transition_allowed (from_cloud c) (from_cloud c') ≡ true
step_allowed l l' c c' h step later is is' =
    let v = validate-IsValid l h in
    let at = sym (lifecycle-as_of l v) ∙ is in
    let at' = sym (lifecycle-as_of l' (Step-IsValid l l' step v)) ∙ is' in
    let (op, way) = Step-Follows l l' step in
    elim way [
      | inl (phase, task) ↦
          kept-allowed l.operation_id l'.operation_id l.phase l'.phase l.task_id l'.task_id c c' op
            phase task at at'
      | inr (allowed, kept) ↦
          edge-allowed l.operation_id l.phase l'.phase l.task_id l'.task_id c c' allowed later kept
            at (subst (λ o. lifecycle_of o l'.phase l'.task_id ≡ ok c') op at')
    ]
