-- ===== src/Session/Stream/Sound.antt =====
-- The sound stream of crates/codebox-session-runtime/src/runtime.rs: where it begins, and who keeps it.
use fanzloud.Base.{ℕ, ◌≡◌, Result, ok, err, arith}
use fanzloud.Cloud.Lifecycle.{CloudLifecycle}
use fanzloud.Session.State.{Inner, RuntimeState, subscriber_count}
use fanzloud.Session.Lifecycle.{LowerLifecycleError}
use fanzloud.Session.Calls.{initial_state}
use fanzloud.Session.Stream.{IsStream, HasStream}
use fanzloud.Session.Stream.Laws.{IsKept}
use fanzloud.Session.Stream.Writes.{append_event-HasStream, close_subscribers-HasStream}

pub initial_state-HasStream :
    (inner : Inner) (turn now : ℕ) (lower : Result LowerLifecycleError CloudLifecycle)
    (s : RuntimeState)
    → initial_state inner.config turn now lower ≡ ok s
    → HasStream inner s
unfolding initial_state subscriber_count
initial_state-HasStream inner turn now (ok lifecycle) s h = ground arith
initial_state-HasStream inner turn now (err e) s h = ground arith

pub IsStream-IsKept : (inner : Inner) → IsKept IsStream inner
IsStream-IsKept inner = record {
  appended = append_event-HasStream inner;
  closed = close_subscribers-HasStream inner;
}
