-- ===== src/Session/Stream/Methods.antt =====
-- The event stream under the methods of `P0SessionRuntime` in
-- crates/codebox-session-runtime/src/runtime.rs.
use fanzloud.Base.{
  ℕ, ◌+◌, ◌≤◌, ◌≡◌, Bool, true, Option, none, some, String, arith, u64_max, ok, err, Result,
  Result-cases, inl, inr,
}
use fanzloud.Cloud.Lifecycle.{CloudLifecycle, UnknownSubmitDecision}
use fanzloud.Session.Types.{
  P0Actor, P0CloudLifecycle, P0TurnReceipt, P0SessionSnapshot, P0RecoveryCandidates,
  P0RuntimeStopReason,
}
use fanzloud.Session.State.{Inner, RuntimeState, TurnRecord, close_runtime_stopped, reserve_events}
use fanzloud.Session.Lifecycle.{
  LowerLifecycleError, apply_projected_lifecycle, stop_worker, stop_after_lower_failure,
}
use fanzloud.Session.Calls.{start_turn, reconcile_finish, resolve_commit, resolve_finish}
use fanzloud.Session.Subscribe.{stop_queued, shutdown}
use fanzloud.Session.Cancel.{
  CancelPlan, cancel_queued, record_request, cancel_plan, cancel_named, cancel_begin,
  commit_cancel_result, cancel_resume,
}
use fanzloud.Session.Stream.Writes.{append_event-seq, reserve_events-room}
use fanzloud.Session.Stream.Laws.{
  Quality, Holds, IsKept, append_event-Holds, close_subscribers-Holds, append_change-Holds,
}

-- The projection of a lower lifecycle leaves the stream, the stop and the shutdown as they are.
pub apply_projected_lifecycle-keeps :
    (s s' : RuntimeState) (turn : ℕ) (projected : P0CloudLifecycle) (completed : Bool)
    → apply_projected_lifecycle s turn projected completed ≡ ok s'
    → (s'.high_water_seq ≡ s.high_water_seq)
      × (s'.history ≡ s.history)
      × (s'.subscribers ≡ s.subscribers)
      × (s'.next_subscriber_id ≡ s.next_subscriber_id)
      × (s'.shutdown_requested ≡ s.shutdown_requested)
      × (s'.worker_stopped ≡ s.worker_stopped)
unfolding apply_projected_lifecycle
apply_projected_lifecycle-keeps s s' turn projected completed h = ground arith

module _ (Q : Quality) (law : (inner : Inner) → IsKept Q inner) where
  pub start_turn-Holds :
      (inner : Inner) (s s' : RuntimeState) (turn : ℕ) (prompt : String) (receipt : P0TurnReceipt)
      → start_turn inner s turn prompt ≡ ok (s', receipt)
      → Holds Q inner s
      → Holds Q inner s'
  unfolding start_turn reserve_events
  start_turn-Holds inner s s' turn prompt receipt e h = grind (arith, append_event-Holds Q law)

  pub stop_worker-Holds :
      (inner : Inner) (s : RuntimeState) (reason : P0RuntimeStopReason)
      → Holds Q inner s
      → Holds Q inner (stop_worker inner s reason)
  unfolding stop_worker reserve_events
  stop_worker-Holds inner s reason h =
      grind (arith, append_event-Holds Q law, close_subscribers-Holds Q law inner)

  pub stop_after_lower_failure-Holds :
      (inner : Inner) (s : RuntimeState) (turn : ℕ)
      → Holds Q inner s
      → Holds Q inner (stop_after_lower_failure inner s turn)
  unfolding stop_after_lower_failure
  stop_after_lower_failure-Holds inner s turn h =
      stop_worker-Holds inner _ P0RuntimeStopReason.lower_failure h

  pub apply_projected_lifecycle-Holds :
      (inner : Inner) (s s' : RuntimeState) (turn : ℕ) (projected : P0CloudLifecycle)
      (completed : Bool)
      → apply_projected_lifecycle s turn projected completed ≡ ok s'
      → Holds Q inner s
      → Holds Q inner s'
  unfolding apply_projected_lifecycle
  apply_projected_lifecycle-Holds inner s s' turn projected completed e h = ground arith

  pub reconcile_finish-Holds :
      (inner : Inner) (actor : P0Actor) (op : ℕ)
      (lower : Result LowerLifecycleError P0RecoveryCandidates) (s s' : RuntimeState)
      (found : P0RecoveryCandidates)
      → reconcile_finish inner actor op lower s ≡ ok (s', found)
      → Holds Q inner s
      → Holds Q inner s'
  unfolding reconcile_finish reserve_events
  reconcile_finish-Holds inner actor op lower s s' found e h =
      grind (arith, append_event-Holds Q law)

  resolve_commit-Holds :
      (inner : Inner) (actor : P0Actor) (op : ℕ) (decision : UnknownSubmitDecision) (now : ℕ)
      (projected : P0CloudLifecycle) (turn : ℕ) (s : RuntimeState)
      → s.high_water_seq + 2 ≤ u64_max
      → Holds Q inner s
      → Holds Q inner (resolve_commit inner actor op decision now projected turn s)
  unfolding resolve_commit
  resolve_commit-Holds inner actor op decision now projected turn s room h =
      grind (arith, append_event-Holds Q law, append_event-seq)

  pub resolve_finish-Holds :
      (inner : Inner) (actor : P0Actor) (op : ℕ) (decision : UnknownSubmitDecision) (now : ℕ)
      (lower : Result LowerLifecycleError CloudLifecycle) (s s' : RuntimeState)
      (snapshot : P0SessionSnapshot)
      → resolve_finish inner actor op decision now lower s ≡ ok (s', snapshot)
      → Holds Q inner s
      → Holds Q inner s'
  unfolding resolve_finish
  resolve_finish-Holds inner actor op decision now lower s s' snapshot e h = grind (
    arith, resolve_commit-Holds, reserve_events-room, apply_projected_lifecycle-Holds,
    apply_projected_lifecycle-keeps,
  )

  cancel_queued-Holds :
      (inner : Inner) (s s' : RuntimeState) (turn : TurnRecord) (plan : CancelPlan)
      → cancel_queued inner s turn ≡ ok (s', plan)
      → Holds Q inner s
      → Holds Q inner s'
  unfolding cancel_queued reserve_events
  cancel_queued-Holds inner s s' turn plan e h = grind (arith, append_event-Holds Q law)

  record_request-Holds :
      (inner : Inner) (actor : P0Actor) (s s' : RuntimeState) (turn turn' : TurnRecord)
      → record_request inner actor s turn ≡ ok (s', turn')
      → Holds Q inner s
      → Holds Q inner s'
  unfolding record_request reserve_events
  record_request-Holds inner actor s s' turn turn' e h = grind (arith, append_event-Holds Q law)

  cancel_plan-Holds :
      (inner : Inner) (s : RuntimeState) (turn : TurnRecord)
      → Holds Q inner s
      → Holds Q inner (cancel_plan inner (s, turn)).0
  unfolding cancel_plan
  cancel_plan-Holds inner s turn h = ground arith

  cancel_named-Holds :
      (inner : Inner) (actor : P0Actor) (s s' : RuntimeState) (turn : Option TurnRecord)
      (plan : CancelPlan)
      → cancel_named inner actor s turn ≡ ok (s', plan)
      → Holds Q inner s
      → Holds Q inner s'
  unfolding cancel_named
  cancel_named-Holds inner actor s s' none plan e h = cc
  cancel_named-Holds inner actor s s' (some turn) plan e h =
      elim (Result-cases (record_request inner actor s turn)) [
        | inl ((s₁, turn₁), done) ↦
            let requested = record_request-Holds inner actor s s₁ turn turn₁ done h in
            let planned = cancel_plan-Holds inner s₁ turn₁ requested in
            ground (arith, planned, cancel_queued-Holds inner s s' turn plan)
        | inr (why, refused) ↦ ground (arith, cancel_queued-Holds inner s s' turn plan)
      ]

  pub cancel_begin-Holds :
      (inner : Inner) (actor : P0Actor) (s s' : RuntimeState) (plan : CancelPlan)
      → cancel_begin inner actor s ≡ ok (s', plan)
      → Holds Q inner s
      → Holds Q inner s'
  unfolding cancel_begin
  cancel_begin-Holds inner actor s s' plan e h =
      ground (arith, cancel_named-Holds inner actor s s' s.current_turn plan)

  pub commit_cancel_result-Holds :
      (inner : Inner) (s s' : RuntimeState) (turn : ℕ) (lifecycle : CloudLifecycle)
      (snapshot : P0SessionSnapshot)
      → commit_cancel_result inner s turn lifecycle ≡ ok (s', snapshot)
      → Holds Q inner s
      → Holds Q inner s'
  unfolding commit_cancel_result
  commit_cancel_result-Holds inner s s' turn lifecycle snapshot e h = grind (
    arith,
    append_change-Holds Q law,
    apply_projected_lifecycle-Holds,
    apply_projected_lifecycle-keeps,
  )

  pub cancel_resume-Holds :
      (inner : Inner) (s : RuntimeState) (turn : ℕ) (pending in_time : Bool)
      (lower : Result LowerLifecycleError CloudLifecycle)
      → Holds Q inner s
      → Holds Q inner (cancel_resume inner s turn pending in_time lower).0
  unfolding cancel_resume
  cancel_resume-Holds inner s turn pending in_time (ok lifecycle) h =
      elim (Result-cases (commit_cancel_result inner s turn lifecycle)) [
        | inl ((s', snapshot), done) ↦
            rw (done, cancel_resume)
              (commit_cancel_result-Holds inner s s' turn lifecycle snapshot done h)
        | inr (why, refused) ↦ rw (refused, cancel_resume) h
      ]
  cancel_resume-Holds inner s turn pending in_time (err e) h = ground arith

  stop_queued-Holds :
      (inner : Inner) (s : RuntimeState)
      → reserve_events s 1 ≡ ok tt
      → Holds Q inner s
      → Holds Q inner (stop_queued inner s)
  unfolding stop_queued
  stop_queued-Holds inner s room h =
      close_subscribers-Holds Q law inner _ close_runtime_stopped
        (append_event-Holds Q law inner _ _ _ (omega (arith, reserve_events-room s 1 room)) h)

  pub shutdown-Holds :
      (inner : Inner) (s : RuntimeState) → Holds Q inner s → Holds Q inner (shutdown inner s).0
  unfolding shutdown
  shutdown-Holds inner s h =
      ground (arith, stop_queued-Holds inner (record s { shutdown_requested = true }))
