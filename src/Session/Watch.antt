-- ===== src/Session/Watch.antt =====
-- One receiver of the session of crates/codebox-session-runtime/src/runtime.rs, in any interleaving of
-- what it does with the sections of the worker and of the other callers.
use fanzloud.Base.{ℕ, ◌≢◌}
use fanzloud.Session.State.{Inner}
use fanzloud.Session.Stream.Methods.{
  start_turn-Holds, reconcile_finish-Holds, resolve_finish-Holds, cancel_begin-Holds,
  cancel_resume-Holds, shutdown-Holds,
}
use fanzloud.Session.Stream.Thread.{
  next_worker_action-Holds, admit_start-Holds, handle_start_result-Holds,
  handle_cancel_result-Holds, handle_start_cancel-Holds,
}
use fanzloud.Session.Stream.Observe.{handle_monitor_result-Holds}
use fanzloud.Session.Stream.Laws.{Holds}
use fanzloud.Session.Stream.Backlog.{Backlog, Backlog-IsKept, subscribe-Backlog}
use fanzloud.Session.Stream.Turns.{receive_other-Backlog, drop_other-Backlog}
use fanzloud.Session.System.{
  System, Step, round, admits, start_returns, inspect_returns, cancel_returns, start_cancel_returns,
  starts, cancels, cancel_answers, reconciles, resolves, subscribes, receives, drops, shuts_down,
}

-- A step that is none of the receiver's own.
abbrev pub Apart : (inner : Inner) → ℕ → (t u : System) → Step inner t u → Type 0
Apart inner id t u (receives other e p) = other ≢ id
Apart inner id t u (drops other e p) = other ≢ id
Apart inner id t u _ = Unit {0}

pub Step-Backlog :
    (inner : Inner) (id got : ℕ) (t u : System) (step : Step inner t u)
    → Apart inner id t u step
    → Holds (Backlog id got) inner t.state
    → Holds (Backlog id got) inner u.state
Step-Backlog inner id got t u (round now at e p) apart h =
    rw e (next_worker_action-Holds (Backlog id got) (Backlog-IsKept id got) inner now t.state h)
Step-Backlog inner id got t u (admits turn prompt at e p) apart h =
    rw e (admit_start-Holds (Backlog id got) (Backlog-IsKept id got) inner t.state turn h)
Step-Backlog inner id got t u (start_returns turn now lower at e p) apart h = rw e (
    handle_start_result-Holds (Backlog id got) (Backlog-IsKept id got) inner t.state turn now lower
      h)
Step-Backlog inner id got t u (inspect_returns turn failures now lower at e p) apart h = rw e (
    handle_monitor_result-Holds (Backlog id got) (Backlog-IsKept id got) inner t.state turn failures
      now lower h)
Step-Backlog inner id got t u (cancel_returns turn lower at e p) apart h =
    rw e (
      handle_cancel_result-Holds (Backlog id got) (Backlog-IsKept id got) inner t.state turn lower
        h)
Step-Backlog inner id got t u (start_cancel_returns turn lower at e p) apart h =
    rw e (
      handle_start_cancel-Holds (Backlog id got) (Backlog-IsKept id got) inner t.state turn lower h)
Step-Backlog inner id got t u (starts turn prompt receipt e p) apart h =
    start_turn-Holds (Backlog id got) (Backlog-IsKept id got) inner t.state u.state turn prompt
      receipt e h
Step-Backlog inner id got t u (cancels actor plan e p) apart h =
    cancel_begin-Holds (Backlog id got) (Backlog-IsKept id got) inner actor t.state u.state plan e h
Step-Backlog inner id got t u (cancel_answers turn pending in_time lower e p) apart h = rw e (
    cancel_resume-Holds (Backlog id got) (Backlog-IsKept id got) inner t.state turn pending in_time
      lower h)
Step-Backlog inner id got t u (reconciles actor op lower found e p) apart h =
    reconcile_finish-Holds (Backlog id got) (Backlog-IsKept id got) inner actor op lower t.state
      u.state found e h
Step-Backlog inner id got t u (resolves actor op decision now lower snapshot e p) apart h =
    resolve_finish-Holds (Backlog id got) (Backlog-IsKept id got) inner actor op decision now lower
      t.state u.state snapshot e h
Step-Backlog inner id got t u (subscribes session cursor sub e p) apart h =
    subscribe-Backlog id got inner t.state u.state session cursor sub e h
Step-Backlog inner id got t u (receives other e p) apart h =
    rw e (receive_other-Backlog id got other inner t.state apart h)
Step-Backlog inner id got t u (drops other e p) apart h =
    rw e (drop_other-Backlog id got other inner t.state apart h)
Step-Backlog inner id got t u (shuts_down e p) apart h =
    rw e (shutdown-Holds (Backlog id got) (Backlog-IsKept id got) inner t.state h)
