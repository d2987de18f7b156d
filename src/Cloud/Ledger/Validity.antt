-- ===== src/Cloud/Ledger/Validity.antt =====
-- The validity of the record of crates/codebox-agent-codex/src/cloud_lifecycle_ledger.rs under
-- `append`.
use fanzloud.Base.{
  ◌≡◌, ◌≤◌, refl, Bool, true, false, Option, none, some, List, [], ◌∷◌, ◌++◌, ok, arith, String,
  length, length-append, ==_iff, ==_refl, >>=-eq-ok, ensure, >>-eq-ok, subst, ap, ◌∙◌,
}
use fanzloud.Cloud.TaskId.{try_new}
use fanzloud.Cloud.Ledger.{
  CloudLifecyclePhase, discriminant, CloudLifecycleLedger, max_reconciliation_candidates,
  invalid_ledger, valid_transition, is_some, append,
}
use fanzloud.Cloud.Ledger.Check.{
  opens, ends_in, linked, history_contains, checked_task, requires_task, same, has_history,
  are_candidates, has_reconciliation, validate,
}

pub record IsValid (l : CloudLifecycleLedger) : Type 0 where
  pub history : has_history l ≡ true
  pub identified : checked_task l.task_id ≡ ok l.task_id
  pub fits : same (requires_task l.phase) (is_some l.task_id) ≡ true
  pub few : length l.candidate_task_ids ≤ max_reconciliation_candidates
  pub candidates : are_candidates [] l.candidate_task_ids ≡ true
  pub reconciled : has_reconciliation l ≡ true

checked_task-keeps : (o o' : Option String) → checked_task o ≡ ok o' → o' ≡ o
unfolding try_new
checked_task-keeps none o' h = ground arith
checked_task-keeps (some value) o' h = ground arith

pub validate-IsValid : (l : CloudLifecycleLedger) → validate l ≡ ok tt → IsValid l
unfolding validate
validate-IsValid l h =
    let (first, h₁) = >>-eq-ok (ensure (has_history l) invalid_ledger) _ h in
    let (task, at, h₂) = >>=-eq-ok (checked_task l.task_id) _ h₁ in
    let kept = checked_task-keeps l.task_id task at in
    record {
      history = ground arith;
      identified = at ∙ ap ok kept;
      fits = ground arith;
      few = ground arith;
      candidates = ground arith;
      reconciled = ground arith;
    }

pub IsValid-validate : (l : CloudLifecycleLedger) → IsValid l → validate l ≡ ok tt
unfolding validate
IsValid-validate l v =
    rw (v.history, v.identified, v.fits) (ground (arith, v.few, v.candidates, v.reconciled))

ends_in-append :
    (last : CloudLifecyclePhase) (phases : List CloudLifecyclePhase)
    → ends_in last (phases ++ last ∷ []) ≡ true
unfolding ends_in
ends_in-append last [] = ==_refl (discriminant last)
ends_in-append last (phase ∷ []) = ==_refl (discriminant last)
ends_in-append last (phase ∷ next ∷ phases) = ends_in-append last (next ∷ phases)

discriminant-injective : (a b : CloudLifecyclePhase) → discriminant a ≡ discriminant b → a ≡ b
discriminant-injective CloudLifecyclePhase.submitting CloudLifecyclePhase.submitting h = refl
discriminant-injective CloudLifecyclePhase.failed_before_submit
      CloudLifecyclePhase.failed_before_submit h =
    refl
discriminant-injective CloudLifecyclePhase.outcome_unknown CloudLifecyclePhase.outcome_unknown h =
    refl
discriminant-injective CloudLifecyclePhase.pending CloudLifecyclePhase.pending h = refl
discriminant-injective CloudLifecyclePhase.ready CloudLifecyclePhase.ready h = refl
discriminant-injective CloudLifecyclePhase.applied CloudLifecyclePhase.applied h = refl
discriminant-injective CloudLifecyclePhase.provider_error CloudLifecyclePhase.provider_error h =
    refl
discriminant-injective (CloudLifecyclePhase.canceled_locally false)
      (CloudLifecyclePhase.canceled_locally false) h =
    refl
discriminant-injective (CloudLifecyclePhase.canceled_locally true)
      (CloudLifecyclePhase.canceled_locally true) h =
    refl
discriminant-injective CloudLifecyclePhase.abandoned_unknown CloudLifecyclePhase.abandoned_unknown
      h =
    refl
discriminant-injective _ _ h = ground arith

linked-append :
    (last next : CloudLifecyclePhase) (phases : List CloudLifecyclePhase)
    → linked phases ≡ true
    → ends_in last phases ≡ true
    → valid_transition last next ≡ true
    → linked (phases ++ next ∷ []) ≡ true
unfolding linked ends_in
linked-append last next [] h e t = refl
linked-append last next (phase ∷ []) h e t =
    let at = discriminant-injective phase last ((==_iff _ _).0 e) in rw at (ground arith)
linked-append last next (phase ∷ second ∷ phases) h e t =
    ground (arith, linked-append last next (second ∷ phases))

history_contains-append :
    (wanted next : CloudLifecyclePhase) (phases : List CloudLifecyclePhase)
    → history_contains wanted phases ≡ true
    → history_contains wanted (phases ++ next ∷ []) ≡ true
unfolding history_contains
history_contains-append wanted next [] h = ground arith
history_contains-append wanted next (phase ∷ phases) h =
    ground (arith, history_contains-append wanted next phases)

pub history_contains-last :
    (last : CloudLifecyclePhase) (phases : List CloudLifecyclePhase)
    → ends_in last phases ≡ true
    → history_contains last phases ≡ true
unfolding history_contains ends_in
history_contains-last last [] h = ground arith
history_contains-last last (phase ∷ []) h = ground arith
history_contains-last last (phase ∷ next ∷ phases) h =
    ground (arith, history_contains-last last (next ∷ phases))

-- The phases that a status of the provider leads to.
abbrev pub is_status : CloudLifecyclePhase → Bool
is_status CloudLifecyclePhase.pending = true
is_status CloudLifecyclePhase.ready = true
is_status CloudLifecyclePhase.applied = true
is_status CloudLifecyclePhase.provider_error = true
is_status _ = false

transition-fits :
    (from to : CloudLifecyclePhase) (has_task : Bool)
    → valid_transition from to ≡ true
    → is_status to ≡ false
    → same (requires_task from) has_task ≡ true
    → same (requires_task to) has_task ≡ true
unfolding valid_transition
transition-fits _ _ has_task allowed quiet fits = ground arith

opens-append :
    (phases : List CloudLifecyclePhase) (next : CloudLifecyclePhase)
    → opens phases ≡ true
    → opens (phases ++ next ∷ []) ≡ true
opens-append [] next h = ground arith
opens-append (phase ∷ phases) next h = h

pub append-has_history :
    (l l' : CloudLifecycleLedger) (phase : CloudLifecyclePhase)
    → has_history l ≡ true
    → append l phase ≡ ok l'
    → (l' ≡ record l { history = l.history ++ phase ∷ []; phase = phase })
      × (has_history l' ≡ true)
      × (valid_transition l.phase phase ≡ true)
unfolding append has_history
append-has_history l l' phase h e = grind (
  arith,
  length-append l.history (phase ∷ []),
  ends_in-append phase l.history,
  linked-append l.phase phase l.history,
  opens-append l.history phase,
)

pub append-IsValid :
    (l l' : CloudLifecycleLedger) (phase : CloudLifecyclePhase) (task : Option String)
    → IsValid l
    → append l phase ≡ ok l'
    → checked_task task ≡ ok task
    → same (requires_task phase) (is_some task) ≡ true
    → IsValid (record l { history = l.history ++ phase ∷ []; phase = phase; task_id = task })
unfolding has_history
append-IsValid l l' phase task v e known fits =
    let (made, kept, _) = append-has_history l l' phase v.history e in
    let kept' = subst (λ x. has_history x ≡ true) made kept in
    record {
      history = kept';
      identified = known;
      fits = fits;
      few = v.few;
      candidates = v.candidates;
      reconciled = ground (
        arith,
        v.reconciled,
        history_contains-append CloudLifecyclePhase.outcome_unknown phase l.history,
      );
    }

-- A phase that brings no task keeps the record valid.
pub quiet-IsValid :
    (l l' : CloudLifecycleLedger) (phase : CloudLifecyclePhase)
    → IsValid l
    → is_status phase ≡ false
    → append l phase ≡ ok l'
    → IsValid l'
quiet-IsValid l l' phase v quiet e =
    let (made, _, allowed) = append-has_history l l' phase v.history e in
    rw made (
      append-IsValid l l' phase l.task_id v e v.identified
        (transition-fits l.phase phase (is_some l.task_id) allowed quiet v.fits))
