-- ===== src/Control/Lifecycle/Phases.antt =====
-- What each phase of a shutdown of apps/control-plane/src/state.rs says of its callers.
use fanzloud.Base.{ℕ, zero, suc, ◌<◌, ◌≡◌, refl, ◌==◌, inl, inr, List, [], ◌∷◌, All, Bool-cases}
use fanzloud.Control.Lifecycle.{
  ShutdownResult, ShutdownPhase, running, draining, complete, LifecycleState, Caller,
  awaiting_drain, leading, following, returned, Plane, drained, wake, at_caller, notified,
  notify_all,
}
use fanzloud.Control.Lifecycle.Counts.{leaders, cleaners}

abbrev pub HasReturned : ShutdownResult → Caller → Type 0
HasReturned result (returned r) = r ≡ result
HasReturned result _ = Unit {0}

abbrev pub IsWaiting : Caller → Type 0
IsWaiting (returned r) = ⊥
IsWaiting _ = Unit {0}

abbrev pub IsPhase : ShutdownPhase → ℕ → List Caller → ℕ → Type 0
IsPhase running active callers cleanups =
    (leaders callers ≡ 0) × All IsWaiting callers × (cleanups ≡ 0)
IsPhase draining active callers cleanups =
    (leaders callers ≡ 1)
    × All IsWaiting callers
    × (cleanups ≡ 0)
    × (0 < cleaners callers → active ≡ 0)
IsPhase (complete result) active callers cleanups =
    (leaders callers ≡ 0) × All (HasReturned result) callers × (cleanups ≡ 1) × (active ≡ 0)

abbrev pub IsOrderly : Plane → Type 0
IsOrderly p = IsPhase p.state.phase p.state.active p.callers p.cleanups

pub waiting-returned : (c : Caller) (result : ShutdownResult) → IsWaiting c → HasReturned result c
waiting-returned (awaiting_drain heard) result h = tt
waiting-returned leading result h = tt
waiting-returned (following heard) result h = tt
waiting-returned (returned r) result h = absurd h

pub waiting-All :
    (xs : List Caller) (result : ShutdownResult) → All IsWaiting xs → All (HasReturned result) xs
waiting-All [] result h = tt
waiting-All (c ∷ xs) result h = (waiting-returned c result h.0, waiting-All xs result h.1)

pub returned-All :
    (i : ℕ) (xs : List Caller) (result : ShutdownResult)
    → All IsWaiting xs
    → All (HasReturned result) (at_caller i (λ c. returned result) xs)
unfolding at_caller
returned-All i [] result h = tt
returned-All zero (c ∷ xs) result h = (refl, waiting-All xs result h.1)
returned-All (suc i) (c ∷ xs) result h =
    (waiting-returned c result h.0, returned-All i xs result h.1)

pub at_caller-All :
    (P : Caller → Type 0) (f : Caller → Caller)
    → ((c : Caller) → P c → P (f c))
    → (i : ℕ) (xs : List Caller) → All P xs
    → All P (at_caller i f xs)
unfolding at_caller
at_caller-All P f keep i [] h = tt
at_caller-All P f keep zero (c ∷ xs) h = (keep c h.0, h.1)
at_caller-All P f keep (suc i) (c ∷ xs) h = (h.0, at_caller-All P f keep i xs h.1)

abbrev pub at_phase : ShutdownPhase → ℕ → LifecycleState
at_phase phase active = record { phase = phase; active = active }

pub drained-IsWaiting : (s : LifecycleState) → IsWaiting (drained s)
drained-IsWaiting s = elim (Bool-cases (s.active == 0)) [
  | inl none_left ↦ rw none_left tt
  | inr some_left ↦ rw some_left tt
]

pub drained-HasReturned :
    (s : LifecycleState) (result : ShutdownResult) → HasReturned result (drained s)
drained-HasReturned s result = elim (Bool-cases (s.active == 0)) [
  | inl none_left ↦ rw none_left tt
  | inr some_left ↦ rw some_left tt
]

pub wake-IsWaiting :
    (phase : ShutdownPhase) (active : ℕ)
    → ((result : ShutdownResult) → phase ≡ complete result → ⊥)
    → (c : Caller) → IsWaiting c
    → IsWaiting (wake (at_phase phase active) c)
unfolding wake
wake-IsWaiting phase active open_phase (awaiting_drain heard) h =
    drained-IsWaiting (at_phase phase active)
wake-IsWaiting phase active open_phase leading h = tt
wake-IsWaiting running active open_phase (following heard) h = tt
wake-IsWaiting draining active open_phase (following heard) h = tt
wake-IsWaiting (complete result) active open_phase (following heard) h = open_phase result refl
wake-IsWaiting phase active open_phase (returned r) h = h

pub wake-HasReturned :
    (result : ShutdownResult) (active : ℕ) (c : Caller)
    → HasReturned result c
    → HasReturned result (wake (at_phase (complete result) active) c)
unfolding wake
wake-HasReturned result active (awaiting_drain heard) h =
    drained-HasReturned (at_phase (complete result) active) result
wake-HasReturned result active leading h = tt
wake-HasReturned result active (following heard) h = refl
wake-HasReturned result active (returned r) h = h

abbrev pub plane : ShutdownPhase → ℕ → List Caller → ℕ → Plane
plane phase active callers cleanups = record {
  state = at_phase phase active;
  callers = callers;
  cleanups = cleanups;
}

pub notify-All :
    (P : Caller → Type 0) (xs : List Caller)
    → ((c : Caller) → P c → P (notified c))
    → All P xs
    → All P (notify_all xs)
unfolding notify_all
notify-All P [] keep h = tt
notify-All P (c ∷ xs) keep h = (keep c h.0, notify-All P xs keep h.1)

pub notified-IsWaiting : (c : Caller) → IsWaiting c → IsWaiting (notified c)
notified-IsWaiting (awaiting_drain heard) h = tt
notified-IsWaiting leading h = tt
notified-IsWaiting (following heard) h = tt
notified-IsWaiting (returned r) h = h

pub notified-HasReturned :
    (result : ShutdownResult) (c : Caller) → HasReturned result c → HasReturned result (notified c)
notified-HasReturned result (awaiting_drain heard) h = tt
notified-HasReturned result leading h = tt
notified-HasReturned result (following heard) h = tt
notified-HasReturned result (returned r) h = h
