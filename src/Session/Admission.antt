-- ===== src/Session/Admission.antt =====
-- Which turns are accepted, started and read, for crates/codebox-session-runtime/src/runtime.rs.
use fanzloud.Base.{
  ℕ, ◌+◌, ◌≡◌, Bool, true, false, not, ◌&&◌, none, some, ok, err, Result, arith, leb, u64_max,
  is_some_and, String,
}
use fanzloud.Session.Types.{
  P0SessionState, P0TurnProjection, P0TurnReceipt, P0RuntimeStopReason, state_eq,
}
use fanzloud.Session.State.{
  Inner, RuntimeState, TurnRecord, WorkerWork, reserve_events, append_event, close_subscribers,
  projection_cancel_requested, subscriber_count,
}
use fanzloud.Session.Lifecycle.{turn_named, stop_worker}
use fanzloud.Session.Calls.{start_turn}
use fanzloud.Session.Subscribe.{shutdown, stop_queued}
use fanzloud.Session.Stream.Writes.{subscriber_count-close}
use fanzloud.Session.Worker.{WorkerAction, act, next_worker_action, admit_start}

abbrev pub accepted {ℓ κ} : {E : Type ℓ} {A : Type κ} → Result E A → Bool
accepted (ok a) = true
accepted (err e) = false

-- A turn is accepted exactly when the worker runs, the session is ready, and there is a sequence
-- number for the event.
pub start_turn_accepts :
    (inner : Inner) (s : RuntimeState) (turn : ℕ) (prompt : String)
    → accepted (start_turn inner s turn prompt) ≡ (
        not s.worker_stopped
        && not s.shutdown_requested
        && state_eq s.session_state P0SessionState.ready
        && leb (s.high_water_seq + 1) u64_max)
unfolding start_turn reserve_events
start_turn_accepts inner s turn prompt = ground arith

-- After a turn is accepted its start is the worker's work, the receipt's high water is the next
-- sequence number and the state's, and no second turn is accepted.
pub start_turn_once :
    (inner : Inner) (s s' : RuntimeState) (turn other : ℕ) (prompt again : String)
    (receipt : P0TurnReceipt)
    → start_turn inner s turn prompt ≡ ok (s', receipt)
    → (s'.work ≡ some (WorkerWork.start turn prompt))
      × (receipt.high_water_seq ≡ s.high_water_seq + 1)
      × (s'.high_water_seq ≡ receipt.high_water_seq)
      × (accepted (start_turn inner s' other again) ≡ false)
unfolding start_turn append_event state_eq
start_turn_once inner s s' turn other prompt again receipt e = ground arith

-- The lower start is called exactly when the runtime does not shut down and the claimed turn is
-- still the current one with no cancellation requested.
pub admit_start_exact :
    (inner : Inner) (s : RuntimeState) (turn : ℕ)
    → (admit_start inner s turn).1 ≡ (
        not s.shutdown_requested
        && is_some_and
            (turn_named s turn)
            (λ (r : TurnRecord). not (projection_cancel_requested r.projection)))
unfolding admit_start reserve_events
admit_start_exact inner s turn = ground arith

-- After a shutdown, whether or not it reports an error, the worker's next action is to stop.
pub shutdown_stops :
    (inner : Inner) (s : RuntimeState) (now : ℕ)
    → let s' = (shutdown inner s).0 in
      next_worker_action inner now s'
      ≡ act WorkerAction.stop (stop_worker inner s' P0RuntimeStopReason.shutdown)
unfolding shutdown stop_queued append_event close_subscribers next_worker_action
shutdown_stops inner s now = ground arith

-- A first shutdown that succeeds while a turn is queued stops the session at once: the turn is
-- marked as never started, its work is dropped and nobody stays subscribed.
pub shutdown_before_start :
    (inner : Inner) (s s' : RuntimeState) (r : TurnRecord)
    → s.shutdown_requested ≡ false
    → s.current_turn ≡ some r
    → r.projection ≡ P0TurnProjection.queued
    → shutdown inner s ≡ (s', ok tt)
    → (s'.current_turn
        ≡ some (record r { projection = P0TurnProjection.stopped_before_cloud_start }))
      × (s'.work ≡ none)
      × (s'.session_state ≡ P0SessionState.stopped)
      × (s'.worker_stopped ≡ true)
      × (subscriber_count s'.subscribers ≡ 0)
unfolding shutdown stop_queued append_event close_subscribers
shutdown_before_start inner s s' r asked at queued e = grind (arith, subscriber_count-close)
