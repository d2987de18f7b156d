-- ===== src/Control/Lifecycle.antt =====
-- `Lifecycle`, `ActiveOperation` and the shutdown of apps/control-plane/src/state.rs. A method runs
-- under the lock; a caller of `begin_shutdown` that waits for `changed` is a value of `Caller`, which
-- says whether it was notified since it began to wait, and looks again when it wakes. A poisoned
-- lock is left out.
pub mod Counts
pub mod Phases
pub mod Orderly
pub mod Heard
pub mod Moves
pub mod Ended
pub mod Drained
mod Examples
use fanzloud.Base.{
  ℕ, zero, suc, ◌+◌, ◌-◌, Bool, true, false, not, List, [], ◌∷◌, ◌++◌, Result, ok, err, ◌==◌,
  if◌then◌else◌,
}
use fanzloud.Control.Request.{ApiError, saturating_add}
use fanzloud.Control.ApiErrors.{service_unavailable}

pub data P0HttpShutdownErrorCategory : Type 0 where
  session login worker : P0HttpShutdownErrorCategory

abbrev pub ShutdownResult : Type 0
ShutdownResult = Result P0HttpShutdownErrorCategory (Unit {0})

pub data ShutdownPhase : Type 0 where
  running draining : ShutdownPhase
  complete : ShutdownResult → ShutdownPhase

pub record LifecycleState : Type 0 where
  pub phase : ShutdownPhase
  pub active : ℕ

abbrev is_running_phase : ShutdownPhase → Bool
is_running_phase running = true
is_running_phase _ = false

unfoldable pub is_running : LifecycleState → Bool
is_running s = is_running_phase s.phase

unfoldable pub admit : LifecycleState → LifecycleState × Result ApiError (Unit {0})
admit s =
    if not (is_running_phase s.phase)
    then (s, err service_unavailable)
    else (record s { active = saturating_add s.active 1 }, ok tt)

-- What `Drop` of an `ActiveOperation` does to the state; `drop_active` is all of it.
unfoldable pub drop_operation : LifecycleState → LifecycleState
drop_operation s = record s { active = s.active - 1 }

unfoldable pub force_complete : LifecycleState → ShutdownResult → LifecycleState
force_complete s result = record s { phase = complete result }

-- A caller of `shutdown_blocking`: it waits for the operations to end, it is the leader and cleans up,
-- it waits for another's cleanup, or it has returned. One that waits is notified or not.
pub data Caller : Type 0 where
  awaiting_drain : Bool → Caller
  leading : Caller
  following : Bool → Caller
  returned : ShutdownResult → Caller

-- `while state.active != 0`.
abbrev pub drained : LifecycleState → Caller
drained s = if s.active == 0 then leading else awaiting_drain false

abbrev enter : LifecycleState → ShutdownPhase → LifecycleState × Caller
enter s running = (record s { phase = draining }, drained s)
enter s draining = (s, following false)
enter s (complete result) = (s, returned result)

-- `begin_shutdown` up to its first wait.
unfoldable pub begin_shutdown : LifecycleState → LifecycleState × Caller
begin_shutdown s = enter s s.phase

abbrev pub follow : ShutdownPhase → Caller
follow (complete result) = returned result
follow _ = following false

-- A caller that wakes up.
unfoldable pub wake : LifecycleState → Caller → Caller
wake s (awaiting_drain heard) = drained s
wake s (following heard) = follow s.phase
wake s caller = caller

abbrev pub is_notified : Caller → Bool
is_notified (awaiting_drain heard) = heard
is_notified (following heard) = heard
is_notified _ = false

-- A caller that wakes up because it was notified.
abbrev pub wake_notified : LifecycleState → Caller → Caller
wake_notified s caller = if is_notified caller then wake s caller else caller

abbrev pub notified : Caller → Caller
notified (awaiting_drain heard) = awaiting_drain true
notified (following heard) = following true
notified caller = caller

unfoldable pub notify_all : List Caller → List Caller
notify_all [] = []
notify_all (c ∷ callers) = notified c ∷ notify_all callers

-- The result of the cleanup, from those of the session and of the login.
abbrev pub cleanup_result : ShutdownResult → ShutdownResult → ShutdownResult
cleanup_result (err e) login_result = err session
cleanup_result (ok u) (err e) = err login
cleanup_result (ok u) (ok v) = ok tt

-- The control plane's lifecycle, who has called for its shutdown, and how often the lower runtimes were
-- cleaned up.
pub record Plane : Type 0 where
  pub state : LifecycleState
  pub callers : List Caller
  pub cleanups : ℕ

abbrev pub started : Plane
started = record { state = record { phase = running; active = 0 }; callers = []; cleanups = 0 }

pub data Event : Type 0 where
  admitted dropped began : Event
  -- the place of the caller, which wakes since it was notified, or of itself
  woke woke_spuriously : ℕ → Event
  -- the results of the session and of the login
  cleaned : ℕ → ShutdownResult → ShutdownResult → Event
  -- the cleanup panics, and `shutdown` completes it
  panicked : ℕ → Event

unfoldable pub at_caller : ℕ → (Caller → Caller) → List Caller → List Caller
at_caller i f [] = []
at_caller zero f (c ∷ callers) = f c ∷ callers
at_caller (suc i) f (c ∷ callers) = c ∷ at_caller i f callers

abbrev is_leading : Caller → Bool
is_leading leading = true
is_leading _ = false

unfoldable pub leads : ℕ → List Caller → Bool
leads i [] = false
leads zero (c ∷ callers) = is_leading c
leads (suc i) (c ∷ callers) = leads i callers

-- `Drop` of an `ActiveOperation`.
unfoldable pub drop_active : Plane → Plane
drop_active p = record p { state = drop_operation p.state; callers = notify_all p.callers }

-- `force_complete` of the leader, which notifies the others.
abbrev pub end_cleanup : Plane → ℕ → ShutdownResult → Plane
end_cleanup p i result =
    if leads i p.callers
    then record {
      state = force_complete p.state result;
      callers = notify_all (at_caller i (λ c. returned result) p.callers);
      cleanups = p.cleanups + 1;
    }
    else p

unfoldable pub step : Plane → Event → Plane
step p admitted = record p { state = (admit p.state).0 }
step p dropped = drop_active p
step p began = record p {
  state = (begin_shutdown p.state).0;
  callers = p.callers ++ (begin_shutdown p.state).1 ∷ [];
}
step p (woke i) = record p { callers = at_caller i (wake_notified p.state) p.callers }
step p (woke_spuriously i) = record p { callers = at_caller i (wake p.state) p.callers }
step p (cleaned i session_result login_result) =
    end_cleanup p i (cleanup_result session_result login_result)
step p (panicked i) = end_cleanup p i (err worker)

unfoldable pub run : Plane → List Event → Plane
run p [] = p
run p (e ∷ events) = run (step p e) events
