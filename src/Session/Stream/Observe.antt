-- ===== src/Session/Stream/Observe.antt =====
-- The event stream under the handling of a monitor result in
-- crates/codebox-session-runtime/src/runtime.rs.
use fanzloud.Base.{
  ℕ, false, Option, arith, ok, err, Result, >>-eq-ok, ◌>>◌, option_filter, Result-cases, inl, inr,
}
use fanzloud.Cloud.Lifecycle.{CloudLifecycle}
use fanzloud.Session.Types.{P0CloudLifecycle, P0RuntimeStopReason, from_cloud, is_pending}
use fanzloud.Session.State.{Inner, RuntimeState, reserve_events, reserve_change}
use fanzloud.Session.Lifecycle.{LowerLifecycleError, apply_projected_lifecycle}
use fanzloud.Session.Worker.{monitor_again}
use fanzloud.Session.Monitor.{
  lifecycle_of, is_changed, monitored, degrade, read_failed, keep_last, observed,
  handle_monitor_result,
}
use fanzloud.Session.Stream.Writes.{reserve_events-room}
use fanzloud.Session.Stream.Methods.{
  apply_projected_lifecycle-Holds, apply_projected_lifecycle-keeps, stop_worker-Holds,
  stop_after_lower_failure-Holds,
}
use fanzloud.Session.Stream.Laws.{Quality, Holds, IsKept, append_event-Holds, append_change-Holds}

module _ (Q : Quality) (law : (inner : Inner) → IsKept Q inner) where
  monitored-Holds :
      (inner : Inner) (s : RuntimeState) (turn now : ℕ) (projected : P0CloudLifecycle)
      → Holds Q inner s
      → Holds Q inner (monitored inner s turn now projected)
  unfolding monitored monitor_again
  monitored-Holds inner s turn now projected h =
      let changed = is_changed s projected in
      elim (Result-cases
        (reserve_change s changed >> apply_projected_lifecycle s turn projected false)) [
          | inl (applied, did) ↦
              let (reserved, at) = >>-eq-ok (reserve_change s changed) _ did in
              let kept = apply_projected_lifecycle-keeps s applied turn projected false at in
              let written =
                append_change-Holds Q law inner s applied turn changed projected reserved kept.0 (
                  apply_projected_lifecycle-Holds Q law inner s applied turn projected false at
                    h) in
              rw (did, monitored) (ground (arith, written))
          | inr (why, refused) ↦
              rw (refused, monitored) (stop_after_lower_failure-Holds Q law inner s turn h)
        ]

  read_failed-Holds :
      (inner : Inner) (s : RuntimeState) (turn failures now : ℕ) (last : Option P0CloudLifecycle)
      → Holds Q inner s
      → Holds Q inner (read_failed inner s turn failures now last)
  unfolding read_failed degrade
  read_failed-Holds inner s turn failures now last h =
      grind
        (arith, stop_after_lower_failure-Holds Q law, append_event-Holds Q law, reserve_events-room)

  keep_last-Holds :
      (inner : Inner) (s : RuntimeState) (turn : ℕ)
      (lower : Result LowerLifecycleError CloudLifecycle)
      → Holds Q inner s
      → Holds Q inner (keep_last inner s turn lower)
  unfolding keep_last
  keep_last-Holds inner s turn (err e) h = h
  keep_last-Holds inner s turn (ok lifecycle) h =
      let projected = from_cloud lifecycle in
      elim (Result-cases (reserve_events s 2 >> apply_projected_lifecycle s turn projected false)) [
        | inl (applied, did) ↦
            let (reserved, at) = >>-eq-ok (reserve_events s 2) _ did in
            let kept = apply_projected_lifecycle-keeps s applied turn projected false at in
            rw (did, keep_last)
              (append_event-Holds Q law inner applied _ _
                (omega (arith, reserve_events-room s 2 reserved, kept.0))
                (apply_projected_lifecycle-Holds Q law inner s applied turn projected false at h))
        | inr (why, refused) ↦ rw (refused, keep_last) h
      ]

  observed-Holds :
      (inner : Inner) (s : RuntimeState) (turn failures now : ℕ)
      (lower : Result LowerLifecycleError CloudLifecycle)
      → Holds Q inner s
      → Holds Q inner (observed inner s turn failures now lower)
  unfolding observed
  observed-Holds inner s turn failures now (ok lifecycle) h =
      monitored-Holds inner s turn now (from_cloud lifecycle) h
  observed-Holds inner s turn failures now (err e) h =
      let read =
        read_failed-Holds inner s turn failures now (option_filter is_pending (lifecycle_of s)) h in
      let stopped = stop_after_lower_failure-Holds Q law inner s turn h in
      ground (arith, read, stopped)

  pub handle_monitor_result-Holds :
      (inner : Inner) (s : RuntimeState) (turn failures now : ℕ)
      (lower : Result LowerLifecycleError CloudLifecycle)
      → Holds Q inner s
      → Holds Q inner (handle_monitor_result inner s turn failures now lower)
  unfolding handle_monitor_result
  handle_monitor_result-Holds inner s turn failures now lower h = ground (
    arith,
    stop_worker-Holds Q law inner (keep_last inner s turn lower) P0RuntimeStopReason.shutdown,
    keep_last-Holds inner s turn lower h,
    observed-Holds inner s turn failures now lower h,
  )
