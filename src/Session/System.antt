-- ===== src/Session/System.antt =====
-- The whole session of crates/codebox-session-runtime/src/runtime.rs as a step relation: each step
-- is one section under the lock, by the worker thread or by a caller, in any order. What the lower
-- calls return and the times are free. A caller's later sections may come at any time and with any
-- identifier, which allows more than the callers do.
use fanzloud.Base.{ℕ, ◌≡◌, Bool, Result, ok, String, if◌then◌else◌}
use fanzloud.Cloud.Lifecycle.{CloudLifecycle, UnknownSubmitDecision}
use fanzloud.Session.Types.{P0Actor, P0TurnReceipt, P0SessionSnapshot, P0RecoveryCandidates}
use fanzloud.Session.State.{Inner, RuntimeState}
use fanzloud.Session.Lifecycle.{LowerLifecycleError}
use fanzloud.Session.Calls.{initial_state, start_turn, reconcile_finish, resolve_finish}
use fanzloud.Session.Subscribe.{P0SessionSubscription, subscribe, receive, drop_live, shutdown}
use fanzloud.Session.Cancel.{CancelPlan, cancel_begin, cancel_resume}
use fanzloud.Session.Worker.{
  WorkerAction, Round, act, wait, next_worker_action, admit_start, AfterStart, done, cancel_lower,
  handle_start_result,
}
use fanzloud.Session.Monitor.{handle_monitor_result, handle_cancel_result, handle_start_cancel}
use fanzloud.Session.Stream.{IsStream, HasStream}
use fanzloud.Session.Stream.Sound.{initial_state-HasStream, IsStream-IsKept}
use fanzloud.Session.Stream.Readers.{subscribe-HasStream, receive-HasStream, drop_live-HasStream}
use fanzloud.Session.Stream.Methods.{
  start_turn-Holds, reconcile_finish-Holds, resolve_finish-Holds, cancel_begin-Holds,
  cancel_resume-Holds, shutdown-Holds,
}
use fanzloud.Session.Stream.Thread.{
  state_of_round, state_after_start, next_worker_action-Holds, admit_start-Holds,
  handle_start_result-Holds, handle_cancel_result-Holds, handle_start_cancel-Holds,
}
use fanzloud.Session.Stream.Observe.{handle_monitor_result-Holds}

-- Where `worker_loop` is between two sections under the lock.
pub data Phase : Type 0 where
  idle : Phase
  -- turn_id, prompt
  claimed : ℕ → String → Phase
  calling_start : ℕ → Phase
  -- turn_id, failures
  calling_inspect : ℕ → ℕ → Phase
  calling_cancel calling_start_cancel : ℕ → Phase
  exited : Phase

abbrev pub phase_of_action : WorkerAction → Phase
phase_of_action (WorkerAction.start turn prompt) = claimed turn prompt
phase_of_action (WorkerAction.monitor turn failures) = calling_inspect turn failures
phase_of_action (WorkerAction.cancel turn) = calling_cancel turn
phase_of_action WorkerAction.stop = exited

abbrev pub phase_of_round : Round → Phase
phase_of_round (act action s) = phase_of_action action
phase_of_round (wait s) = idle

abbrev pub phase_after_start : ℕ → AfterStart → Phase
phase_after_start turn (done s) = idle
phase_after_start turn (cancel_lower s) = calling_start_cancel turn

pub record System : Type 0 where
  pub state : RuntimeState
  pub phase : Phase

pub data Step (inner : Inner) (t : System) (u : System) : Type 0 where
  round :
      (now : ℕ)
      → t.phase ≡ idle
      → u.state ≡ state_of_round (next_worker_action inner now t.state)
      → u.phase ≡ phase_of_round (next_worker_action inner now t.state)
      → Step inner t u
  admits :
      (turn : ℕ) (prompt : String)
      → t.phase ≡ claimed turn prompt
      → u.state ≡ (admit_start inner t.state turn).0
      → u.phase ≡ (if (admit_start inner t.state turn).1 then calling_start turn else idle)
      → Step inner t u
  start_returns :
      (turn now : ℕ) (lower : Result LowerLifecycleError CloudLifecycle)
      → t.phase ≡ calling_start turn
      → u.state ≡ state_after_start (handle_start_result inner t.state turn now lower)
      → u.phase ≡ phase_after_start turn (handle_start_result inner t.state turn now lower)
      → Step inner t u
  inspect_returns :
      (turn failures now : ℕ) (lower : Result LowerLifecycleError CloudLifecycle)
      → t.phase ≡ calling_inspect turn failures
      → u.state ≡ handle_monitor_result inner t.state turn failures now lower
      → u.phase ≡ idle
      → Step inner t u
  cancel_returns :
      (turn : ℕ) (lower : Result LowerLifecycleError CloudLifecycle)
      → t.phase ≡ calling_cancel turn
      → u.state ≡ handle_cancel_result inner t.state turn lower
      → u.phase ≡ idle
      → Step inner t u
  start_cancel_returns :
      (turn : ℕ) (lower : Result LowerLifecycleError CloudLifecycle)
      → t.phase ≡ calling_start_cancel turn
      → u.state ≡ handle_start_cancel inner t.state turn lower
      → u.phase ≡ idle
      → Step inner t u
  starts :
      (turn : ℕ) (prompt : String) (receipt : P0TurnReceipt)
      → start_turn inner t.state turn prompt ≡ ok (u.state, receipt)
      → u.phase ≡ t.phase
      → Step inner t u
  cancels :
      (actor : P0Actor) (plan : CancelPlan)
      → cancel_begin inner actor t.state ≡ ok (u.state, plan)
      → u.phase ≡ t.phase
      → Step inner t u
  cancel_answers :
      (turn : ℕ) (pending in_time : Bool) (lower : Result LowerLifecycleError CloudLifecycle)
      → u.state ≡ (cancel_resume inner t.state turn pending in_time lower).0
      → u.phase ≡ t.phase
      → Step inner t u
  reconciles :
      (actor : P0Actor) (op : ℕ) (lower : Result LowerLifecycleError P0RecoveryCandidates)
      (found : P0RecoveryCandidates)
      → reconcile_finish inner actor op lower t.state ≡ ok (u.state, found)
      → u.phase ≡ t.phase
      → Step inner t u
  resolves :
      (actor : P0Actor) (op : ℕ) (decision : UnknownSubmitDecision) (now : ℕ)
      (lower : Result LowerLifecycleError CloudLifecycle) (snapshot : P0SessionSnapshot)
      → resolve_finish inner actor op decision now lower t.state ≡ ok (u.state, snapshot)
      → u.phase ≡ t.phase
      → Step inner t u
  subscribes :
      (session cursor : ℕ) (sub : P0SessionSubscription)
      → subscribe inner t.state session cursor ≡ ok (u.state, sub)
      → u.phase ≡ t.phase
      → Step inner t u
  receives : (id : ℕ) → u.state ≡ receive t.state id → u.phase ≡ t.phase → Step inner t u
  drops : (id : ℕ) → u.state ≡ drop_live t.state id → u.phase ≡ t.phase → Step inner t u
  shuts_down : u.state ≡ (shutdown inner t.state).0 → u.phase ≡ t.phase → Step inner t u

pub data Reach (inner : Inner) (s : System) : System → Type 0 where
  here : Reach inner s s
  next : {t u : System} → Reach inner s t → Step inner t u → Reach inner s u

Step-HasStream :
    (inner : Inner) (t u : System)
    → Step inner t u
    → HasStream inner t.state
    → HasStream inner u.state
Step-HasStream inner t u (round now at e p) h =
    rw e (next_worker_action-Holds IsStream IsStream-IsKept inner now t.state h)
Step-HasStream inner t u (admits turn prompt at e p) h =
    rw e (admit_start-Holds IsStream IsStream-IsKept inner t.state turn h)
Step-HasStream inner t u (start_returns turn now lower at e p) h =
    rw e (handle_start_result-Holds IsStream IsStream-IsKept inner t.state turn now lower h)
Step-HasStream inner t u (inspect_returns turn failures now lower at e p) h =
    rw e
      (handle_monitor_result-Holds IsStream IsStream-IsKept inner t.state turn failures now lower h)
Step-HasStream inner t u (cancel_returns turn lower at e p) h =
    rw e (handle_cancel_result-Holds IsStream IsStream-IsKept inner t.state turn lower h)
Step-HasStream inner t u (start_cancel_returns turn lower at e p) h =
    rw e (handle_start_cancel-Holds IsStream IsStream-IsKept inner t.state turn lower h)
Step-HasStream inner t u (starts turn prompt receipt e p) h =
    start_turn-Holds IsStream IsStream-IsKept inner t.state u.state turn prompt receipt e h
Step-HasStream inner t u (cancels actor plan e p) h =
    cancel_begin-Holds IsStream IsStream-IsKept inner actor t.state u.state plan e h
Step-HasStream inner t u (cancel_answers turn pending in_time lower e p) h =
    rw e (cancel_resume-Holds IsStream IsStream-IsKept inner t.state turn pending in_time lower h)
Step-HasStream inner t u (reconciles actor op lower found e p) h =
    reconcile_finish-Holds IsStream IsStream-IsKept inner actor op lower t.state u.state found e h
Step-HasStream inner t u (resolves actor op decision now lower snapshot e p) h =
    resolve_finish-Holds IsStream IsStream-IsKept inner actor op decision now lower t.state u.state
      snapshot e h
Step-HasStream inner t u (subscribes session cursor sub e p) h =
    subscribe-HasStream inner t.state u.state session cursor sub e h
Step-HasStream inner t u (receives id e p) h = rw e (receive-HasStream inner t.state id h)
Step-HasStream inner t u (drops id e p) h = rw e (drop_live-HasStream inner t.state id h)
Step-HasStream inner t u (shuts_down e p) h =
    rw e (shutdown-Holds IsStream IsStream-IsKept inner t.state h)

Reach-HasStream :
    (inner : Inner) {s t : System}
    → HasStream inner s.state
    → Reach inner s t
    → HasStream inner t.state
Reach-HasStream inner h here = h
Reach-HasStream inner h (next {t} {u} r step) =
    Step-HasStream inner t u step (Reach-HasStream inner h r)

-- From a state that the constructor builds, in every interleaving of the worker's and the callers'
-- sections, the event stream is sound: the high water fits a `u64`; the history holds the latest
-- events without a gap up to the high water, as many as there were or the capacity; each carries the
-- session's identifier and the schema version; the queue of a registered subscriber ends at the high
-- water without a gap, that of a removed one has no gap; no queue is longer than the live capacity;
-- identifiers of subscribers are below the next one; and no more than the limit are registered.
pub session-HasStream :
    (inner : Inner) (turn now : ℕ) (lower : Result LowerLifecycleError CloudLifecycle)
    (s : RuntimeState) (t : System)
    → initial_state inner.config turn now lower ≡ ok s
    → Reach inner (record { state = s; phase = idle }) t
    → HasStream inner t.state
session-HasStream inner turn now lower s t started reach =
    Reach-HasStream inner (initial_state-HasStream inner turn now lower s started) reach
