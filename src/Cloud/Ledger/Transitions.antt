-- ===== src/Cloud/Ledger/Transitions.antt =====
-- The records that the methods of crates/codebox-agent-codex/src/cloud_lifecycle_ledger.rs lead to.
use fanzloud.Base.{
  ℕ, ◌+◌, ◌≡◌, ◌≢◌, All, refl, sym, Bool, true, false, not, ◌&&◌, some, List, [], ◌∷◌, ◌++◌, ok,
  arith, String, length, leb, inl, inr, Bool-cases, >>=-eq-ok, ensure, >>-eq-ok, is_some_and, ◌>>=◌,
  str_eq, subst, ap, ◌∙◌,
}
use fanzloud.Cloud.TaskId.{try_new}
use fanzloud.Cloud.Ledger.{
  CloudLifecyclePhase, CloudTaskStatus, phase_eq, CloudLifecycleLedger,
  max_reconciliation_candidates, invalid_ledger, is_some, append, submitting_ledger,
  record_failed_before_submit, record_outcome_unknown, record_status, record_canceled_without_task,
  record_canceled_with_task, record_abandoned_unknown, record_reconciliation, repeats,
  still_pending, phase_for_status,
}
use fanzloud.Cloud.Ledger.Check.{
  ends_in, linked, history_contains, checked_task, requires_task, has_history, are_candidates,
  validate,
}
use fanzloud.Cloud.Ledger.Validity.{
  IsValid, IsValid-validate, append-IsValid, quiet-IsValid, history_contains-last,
  append-has_history,
}

abbrev IsId : String → Type 0
IsId task = try_new task ≡ ok task

status-requires_task : (status : CloudTaskStatus) → requires_task (phase_for_status status) ≡ true
status-requires_task CloudTaskStatus.pending = refl
status-requires_task CloudTaskStatus.ready = refl
status-requires_task CloudTaskStatus.applied = refl
status-requires_task CloudTaskStatus.error = refl

append_task-IsValid :
    (l l' : CloudLifecycleLedger) (task : String) (status : CloudTaskStatus)
    → IsId task
    → IsValid l
    → (append l (phase_for_status status) >>= λ m. ok (record m { task_id = some task })) ≡ ok l'
    → IsValid l'
append_task-IsValid l l' task status known v e =
    let phase = phase_for_status status in
    let (m, did, e') = >>=-eq-ok (append l phase) _ e in
    let (made, _, _) = append-has_history l m phase v.history did in
    let final : record m { task_id = some task } ≡ l' = ground arith in
    let at : record l { history = l.history ++ phase ∷ []; phase = phase; task_id = some task }
        ≡ l' =
      ap (λ (x : CloudLifecycleLedger). record x { task_id = some task }) (sym made) ∙ final in
    subst IsValid at (
      append-IsValid l m phase (some task) v did (rw (known, checked_task) refl)
        (rw (status-requires_task status) refl))

record_status-IsValid :
    (l l' : CloudLifecycleLedger) (task : String) (status : CloudTaskStatus)
    → IsId task
    → IsValid l
    → record_status l task status ≡ ok l'
    → IsValid l'
unfolding record_status
record_status-IsValid l l' task status known v e =
    let (_, e') =
      >>-eq-ok
        (ensure (not (is_some_and l.task_id λ current. not (str_eq current task))) invalid_ledger) _
        e in
    elim (Bool-cases (still_pending l task (phase_for_status status))) [
      | inl still ↦ subst IsValid (ground arith) v
      | inr moves ↦ append_task-IsValid l l' task status known v (ground arith)
    ]

ids-are_candidates :
    (seen tasks : List String)
    → All IsId tasks
    → repeats seen tasks ≡ false
    → are_candidates seen tasks ≡ true
unfolding repeats are_candidates
ids-are_candidates seen [] known once = refl
ids-are_candidates seen (task ∷ tasks) known once =
    grind (arith, ids-are_candidates (task ∷ seen) tasks)

record_reconciliation-IsValid :
    (l l' : CloudLifecycleLedger) (tasks : List String) (complete : Bool)
    → All IsId tasks
    → IsValid l
    → record_reconciliation l tasks complete ≡ ok l'
    → IsValid l'
unfolding record_reconciliation has_history
record_reconciliation-IsValid l l' tasks complete known v e =
    let last : ends_in l.phase l.history ≡ true = ground (arith, v.history) in
    let (phase, _) =
      >>-eq-ok
        (ensure
          (phase_eq l.phase CloudLifecyclePhase.outcome_unknown
            && leb (length tasks) max_reconciliation_candidates)
          invalid_ledger)
        _ e in
    let at : l.phase ≡ CloudLifecyclePhase.outcome_unknown = ground arith in
    let unknown : history_contains CloudLifecyclePhase.outcome_unknown l.history ≡ true =
      history_contains-last _ l.history (subst (λ p. ends_in p l.history ≡ true) at last) in
    let made : record l {
      reconciliation_generation = l.reconciliation_generation + 1;
      candidate_task_ids = tasks;
      reconciliation_complete = some complete;
    }
        ≡ l' =
      ground arith in
    subst IsValid made (record {
      history = v.history;
      identified = v.identified;
      fits = v.fits;
      few = ground arith;
      candidates = ids-are_candidates [] tasks known (ground arith);
      reconciled = ground arith;
    })

-- One change of the record, by a caller that has parsed the identifiers.
pub data Step (l : CloudLifecycleLedger) (l' : CloudLifecycleLedger) : Type 0 where
  fails_before_submit : record_failed_before_submit l ≡ ok l' → Step l l'
  is_unknown : record_outcome_unknown l ≡ ok l' → Step l l'
  has_status :
      (task : String) (status : CloudTaskStatus)
      → IsId task
      → record_status l task status ≡ ok l'
      → Step l l'
  cancels_without_task : record_canceled_without_task l ≡ ok l' → Step l l'
  cancels_with_task : record_canceled_with_task l ≡ ok l' → Step l l'
  abandons : record_abandoned_unknown l ≡ ok l' → Step l l'
  reconciles :
      (tasks : List String) (complete : Bool)
      → All IsId tasks
      → record_reconciliation l tasks complete ≡ ok l'
      → Step l l'

pub data Reach (l : CloudLifecycleLedger) : CloudLifecycleLedger → Type 0 where
  start : Reach l l
  after : {k m : CloudLifecycleLedger} → Reach l k → Step k m → Reach l m

pub Step-IsValid : (l l' : CloudLifecycleLedger) → Step l l' → IsValid l → IsValid l'
unfolding record_failed_before_submit record_outcome_unknown record_abandoned_unknown
    record_canceled_without_task record_canceled_with_task
Step-IsValid l l' (fails_before_submit e) v = quiet-IsValid l l' _ v refl e
Step-IsValid l l' (is_unknown e) v = quiet-IsValid l l' _ v refl e
Step-IsValid l l' (has_status task status known e) v =
    record_status-IsValid l l' task status known v e
Step-IsValid l l' (cancels_without_task e) v =
    quiet-IsValid l l' _ v refl (>>-eq-ok (ensure (not (is_some l.task_id)) invalid_ledger) _ e).1
Step-IsValid l l' (cancels_with_task e) v =
    quiet-IsValid l l' _ v refl (>>-eq-ok (ensure (is_some l.task_id) invalid_ledger) _ e).1
Step-IsValid l l' (abandons e) v = quiet-IsValid l l' _ v refl e
Step-IsValid l l' (reconciles tasks complete known e) v =
    record_reconciliation-IsValid l l' tasks complete known v e

Reach-IsValid : (l m : CloudLifecycleLedger) → IsValid l → Reach l m → IsValid m
Reach-IsValid l m v start = v
Reach-IsValid l _ v (after {k = k} {m = m} reached step) =
    Step-IsValid k m step (Reach-IsValid l k v reached)

submitting-IsValid : (op : ℕ) → op ≢ 0 → IsValid (submitting_ledger op)
unfolding has_history ends_in linked are_candidates
submitting-IsValid op some_id = record {
  history = ground arith;
  identified = refl;
  fits = refl;
  few = omega arith;
  candidates = refl;
  reconciled = refl;
}

-- From the record of a new operation with an identifier that is not nil, every sequence of changes
-- with parsed task identifiers gives a record that `validate` accepts, so that it can be written and
-- read again.
pub ledger_validates :
    (op : ℕ) (l : CloudLifecycleLedger)
    → op ≢ 0
    → Reach (submitting_ledger op) l
    → validate l ≡ ok tt
ledger_validates op l some_id reached =
    IsValid-validate l
      (Reach-IsValid (submitting_ledger op) l (submitting-IsValid op some_id) reached)
