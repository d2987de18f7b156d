-- ===== src/Control/Routes/Executed.antt =====
-- When the handlers of apps/control-plane/src/routes.rs change something.
use fanzloud.Base.{
  ℕ, ◌^◌, ◌≤◌, ◌≡◌, refl, ap, sym, ◌∙◌, subst, Bool, true, false, some, Result, ok, err, arith, inl,
  inr, Bool-cases, option_map,
}
use fanzloud.Control.Request.{
  identity_eq, idempotency_conflict, ApiError, CachedResponse, saturating_add,
  response_storage_bytes,
}
use fanzloud.Control.Entries.{CacheDisposition, Entry, retain, complete_with, find}
use fanzloud.Control.Registry.{
  Registry, WaitState, new_entry, completed, complete, take_response, drop_waiter, left,
}
use fanzloud.Control.Registry.Retained.{retained-find, retained_answers}
use fanzloud.Control.Registry.Survival.{release-Prunes}
use fanzloud.Control.Entries.Lookup.{Distinct, find-update}
use fanzloud.Control.Transport.{error_response}
use fanzloud.Control.Registry as Idempotency
use fanzloud.Control.Registry.Invariant.{IsValid}
use fanzloud.Control.Registry.Admission.{admit_owner}
use fanzloud.Control.Registry.Operations.{admit-IsValid, complete-IsValid, drop_waiter-IsValid}
use fanzloud.Control.Registry.Completion.{complete-find}
use fanzloud.Control.AppSessions.{AppSessionLease, release_app_session}
use fanzloud.Control.Mutation.{Ports, execute_mutation}
use fanzloud.Control.Routes.{Shared, PreparedMutation, drop_admission, drop_lease}
use fanzloud.Control.Routes.Run.{respond, execute, run_admitted, run_prepared}

module _ {W : Type 0} (ports : Ports W) where
  respond-ready :
      (s : Shared) (w : W) (lease : AppSessionLease) (taken : Registry × WaitState)
      (response : CachedResponse)
      → taken.1 ≡ WaitState.ready response
      → (respond ports s w lease taken).2 ≡ some response
  respond-ready s w lease (r, WaitState.pending) response e = cc
  respond-ready s w lease (r, WaitState.ready given) response e = ground arith
  respond-ready s w lease (r, WaitState.missing) response e = cc

  take-ready :
      (r : Registry) (key : ℕ) (e : Entry) (response : CachedResponse)
      (disposition : CacheDisposition)
      → find key r.entries ≡ some e
      → e.state ≡ complete_with response disposition
      → (take_response r key).1 ≡ WaitState.ready response
  unfolding take_response
  take-ready r key e response disposition at done = ground (arith, at, done)

  -- A request that owns its key is answered with the response of its own mutation, in one go: when the
  -- registry is valid and the response takes at most 4 GiB, neither the completion nor the eviction
  -- that it may cause loses the response before it is taken.
  pub run_prepared_answers :
      (w : W) (s : Shared) (p : PreparedMutation) (r : Registry)
      → IsValid s.idempotency
      → Idempotency.admit s.idempotency p.key p.identity p.admitted_at ≡ (r, ok true)
      → let answer = (execute_mutation ports s.app_sessions w p.mutation p.admitted_at).2 in
        response_storage_bytes answer.0 ≤ 2 ^ 32
        → (run_prepared ports w (s, ok p)).2 ≡ some answer.0
  unfolding run_prepared
  run_prepared_answers w s p r valid owner fits =
      let answer = (execute_mutation ports s.app_sessions w p.mutation p.admitted_at).2 in
      let (at, few, small) =
        admit_owner s.idempotency r p.key p.identity p.admitted_at valid owner in
      let sound : IsValid r =
        subst IsValid (ap (λ (x : Registry × Result ApiError Bool). x.0) owner)
          (admit-IsValid s.idempotency p.key p.identity p.admitted_at valid) in
      let kept =
        complete-find r p.key answer.0 answer.1 (new_entry p.identity) sound (omega arith) at in
      let ready =
        take-ready (complete r p.key answer.0 answer.1) p.key
          (completed answer.0 answer.1 (saturating_add r.completion_seq 1) (new_entry p.identity))
          answer.0 answer.1 kept refl in
      let done = execute ports (record s { idempotency = r }) w p in
      ap (λ (x : Registry × Result ApiError Bool). (run_admitted ports s w p x).2) owner
      ∙ respond-ready done.0 done.1 p.lease (take_response done.0.idempotency p.key) answer.0 ready

  took :
      (r : Registry) (key : ℕ) (e : Entry) (response : CachedResponse)
      → find key r.entries ≡ some e
      → e.state ≡ complete_with response retain
      → take_response r key ≡ (drop_waiter r key, WaitState.ready response)
  unfolding take_response drop_waiter
  took r key e response at done = rw (at, done) refl

  -- The end of a session, with the last of its requests, takes no response that is retained.
  kept-drop :
      (s : Shared) (lease : AppSessionLease) (key : ℕ) (e : Entry) (response : CachedResponse)
      → IsValid s.idempotency
      → find key s.idempotency.entries ≡ some e
      → e.state ≡ complete_with response retain
      → let s' = drop_admission s lease in
        Distinct s'.idempotency.entries × (find key s'.idempotency.entries ≡ some e)
  unfolding drop_admission drop_lease
  kept-drop s lease key e response valid at done =
      let seq = lease.issuance_seq in
      elim (Bool-cases (release_app_session s.app_sessions seq).1) [
        | inl ended ↦ rw ended (
          (release-Prunes s.idempotency seq valid).valid.distinct,
          (retained-find s.idempotency key 0 seq e response valid.distinct at done).1,
        )
        | inr opened ↦ rw opened (valid.distinct, at)
      ]

  kept-respond :
      (s : Shared) (w : W) (lease : AppSessionLease) (r : Registry) (key : ℕ) (e : Entry)
      (response : CachedResponse)
      → IsValid r
      → find key r.entries ≡ some e
      → e.state ≡ complete_with response retain
      → let s' = (respond ports s w lease (take_response r key)).0 in
        Distinct s'.idempotency.entries × (find key s'.idempotency.entries ≡ some (left e))
  unfolding drop_waiter
  kept-respond s w lease r key e response valid at done = rw (took r key e response at done) (
      kept-drop (record s { idempotency = drop_waiter r key }) lease key (left e) response
        (drop_waiter-IsValid r key valid) (find-update key left r.entries ∙ ap (option_map left) at)
        done)

  respond-world :
      (s : Shared) (w : W) (lease : AppSessionLease) (taken : Registry × WaitState)
      → (respond ports s w lease taken).1 ≡ w
  respond-world s w lease (r, WaitState.pending) = refl
  respond-world s w lease (r, WaitState.ready response) = refl
  respond-world s w lease (r, WaitState.missing) = refl

  joined-answer :
      (s : Shared) (w : W) (q : PreparedMutation) (given : Registry × Result ApiError Bool)
      (response : CachedResponse)
      → given.1 ≡ ok false
      → (take_response given.0 q.key).1 ≡ WaitState.ready response
      → let served = run_admitted ports s w q given in (served.1 ≡ w) × (served.2 ≡ some response)
  joined-answer s w q (r, ok false) response waits ready =
      let s' = record s { idempotency = r } in
      (
        respond-world s' w q.lease (take_response r q.key),
        respond-ready s' w q.lease (take_response r q.key) response ready,
      )
  joined-answer s w q (r, ok true) response waits ready = absurd (ground arith)
  joined-answer s w q (r, err error) response waits ready = cc

  refused-answer :
      (s : Shared) (w : W) (q : PreparedMutation) (given : Registry × Result ApiError Bool)
      (error : ApiError)
      → given.1 ≡ err error
      → let served = run_admitted ports s w q given in
        (served.1 ≡ w) × (served.2 ≡ some (error_response ports.error_to_vec error))
  refused-answer s w q (r, err e) error refused = (refl, ground arith)
  refused-answer s w q (r, ok owns) error refused = cc

  -- A request whose response is retained is answered with it, and executes nothing.
  run-retained :
      (w : W) (t : Shared) (q : PreparedMutation) (e : Entry) (response : CachedResponse)
      → Distinct t.idempotency.entries
      → find q.key t.idempotency.entries ≡ some e
      → e.state ≡ complete_with response retain
      → let served = run_prepared ports w (t, ok q) in
        (served.1 ≡ w)
        × (identity_eq e.identity q.identity ≡ true → served.2 ≡ some response)
        × (identity_eq e.identity q.identity ≡ false
            → served.2 ≡ some (error_response ports.error_to_vec idempotency_conflict))
  unfolding run_prepared
  run-retained w t q e response distinct at done =
      let (same, differs) =
        retained_answers t.idempotency q.key q.identity q.admitted_at e response distinct at done in
      let given = Idempotency.admit t.idempotency q.key q.identity q.admitted_at in
      elim (Bool-cases (identity_eq e.identity q.identity)) [
        | inl equal ↦
            let (waits, ready) = same equal in
            let (world, answer) = joined-answer t w q given response waits ready in
            (world, λ x. answer, λ x. absurd (ground (arith, equal)))
        | inr other ↦
            let (world, answer) = refused-answer t w q given idempotency_conflict (differs other) in
            (world, λ x. absurd (ground (arith, other)), λ x. answer)
      ]

  -- A request that owned its key on a valid registry, and whose response is retained and takes at most
  -- 4 GiB, is not executed again: when a request comes with its key to the registry that it has left,
  -- whatever else of the state has changed, what is behind the ports stays as it is; the same request
  -- is answered with the same response, though it was completed, evicted around and taken before, and
  -- its session may have ended; and a different request is refused as a conflict.
  pub run_prepared_again :
      (w w' : W) (s t : Shared) (p q : PreparedMutation) (r : Registry)
      → IsValid s.idempotency
      → Idempotency.admit s.idempotency p.key p.identity p.admitted_at ≡ (r, ok true)
      → q.key ≡ p.key
      → t.idempotency ≡ (run_prepared ports w (s, ok p)).0.idempotency
      → let answer = (execute_mutation ports s.app_sessions w p.mutation p.admitted_at).2 in
        answer.1 ≡ retain
        → response_storage_bytes answer.0 ≤ 2 ^ 32
        → let served = run_prepared ports w' (t, ok q) in
          (served.1 ≡ w')
          × (identity_eq p.identity q.identity ≡ true → served.2 ≡ some answer.0)
          × (identity_eq p.identity q.identity ≡ false
              → served.2 ≡ some (error_response ports.error_to_vec idempotency_conflict))
  unfolding run_prepared
  run_prepared_again w w' s t p q r valid owner key same retained fits =
      let answer = (execute_mutation ports s.app_sessions w p.mutation p.admitted_at).2 in
      let (at, few, small) =
        admit_owner s.idempotency r p.key p.identity p.admitted_at valid owner in
      let sound : IsValid r =
        subst IsValid (ap (λ (x : Registry × Result ApiError Bool). x.0) owner)
          (admit-IsValid s.idempotency p.key p.identity p.admitted_at valid) in
      let e =
        completed answer.0 answer.1 (saturating_add r.completion_seq 1) (new_entry p.identity) in
      let done = execute ports (record s { idempotency = r }) w p in
      let (distinct, kept) =
        kept-respond done.0 done.1 p.lease (complete r p.key answer.0 answer.1) p.key e answer.0
          (complete-IsValid r p.key answer.0 answer.1 sound (omega arith))
          (complete-find r p.key answer.0 answer.1 (new_entry p.identity) sound (omega arith) at)
          (ap (complete_with answer.0) retained) in
      let ended =
        (respond ports done.0 done.1 p.lease (take_response done.0.idempotency p.key)).0 in
      let left_over : t.idempotency ≡ ended.idempotency =
        same
        ∙ ap (λ (x : Registry × Result ApiError Bool). (run_admitted ports s w p x).0.idempotency)
            owner in
      run-retained w' t q (left e) answer.0
        (subst (λ (x : Registry). Distinct x.entries) (sym left_over) distinct)
        (ap (λ (x : Registry). find q.key x.entries) left_over
          ∙ ap (λ k. find k ended.idempotency.entries) key
          ∙ kept)
        (ap (complete_with answer.0) retained)
