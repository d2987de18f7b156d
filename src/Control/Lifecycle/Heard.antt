-- ===== src/Control/Lifecycle/Heard.antt =====
-- Who of those that wait in the shutdown of apps/control-plane/src/state.rs has been notified.
use fanzloud.Base.{
  ℕ, ◌≡◌, ◌≢◌, refl, sym, subst, Bool, true, false, inl, inr, List, [], ◌∷◌, err, ◌==◌, All,
  All-map, All-append, arith, Bool-cases,
}
use fanzloud.Control.Request.{saturating_add}
use fanzloud.Control.Lifecycle.{
  ShutdownResult, ShutdownPhase, running, draining, complete, LifecycleState, Caller,
  awaiting_drain, leading, following, returned, worker, Plane, Event, admitted, dropped, began,
  woke, woke_spuriously, cleaned, panicked, admit, drop_operation, drop_active, force_complete,
  begin_shutdown, drained, wake, notified, notify_all, cleanup_result, at_caller, leads,
  end_cleanup, step, run,
}
use fanzloud.Control.Lifecycle.Counts.{notified-wakes}
use fanzloud.Control.Lifecycle.Phases.{at_phase, plane, at_caller-All}

abbrev is_over : ShutdownPhase → Bool
is_over (complete result) = true
is_over _ = false

-- One that waits without a notification has still something to wait for.
abbrev pub IsHeard : LifecycleState → Caller → Type 0
IsHeard s (awaiting_drain false) = s.active ≢ 0
IsHeard s (following false) = is_over s.phase ≡ false
IsHeard s _ = Unit {0}

abbrev pub NoneLost : Plane → Type 0
NoneLost p = All (IsHeard p.state) p.callers

IsHeard-still :
    (s s' : LifecycleState)
    → (s.active ≢ 0 → s'.active ≢ 0)
    → (is_over s.phase ≡ false → is_over s'.phase ≡ false)
    → (c : Caller) → IsHeard s c
    → IsHeard s' c
IsHeard-still s s' active phase (awaiting_drain true) h = tt
IsHeard-still s s' active phase (awaiting_drain false) h = active h
IsHeard-still s s' active phase leading h = tt
IsHeard-still s s' active phase (following true) h = tt
IsHeard-still s s' active phase (following false) h = phase h
IsHeard-still s s' active phase (returned r) h = tt

notified-IsHeard : (s : LifecycleState) (c : Caller) → IsHeard s (notified c)
notified-IsHeard s (awaiting_drain heard) = tt
notified-IsHeard s leading = tt
notified-IsHeard s (following heard) = tt
notified-IsHeard s (returned r) = tt

notify-IsHeard : (s : LifecycleState) (xs : List Caller) → All (IsHeard s) (notify_all xs)
unfolding notify_all
notify-IsHeard s [] = tt
notify-IsHeard s (c ∷ xs) = (notified-IsHeard s c, notify-IsHeard s xs)

drained-IsHeard : (s t : LifecycleState) → t.active ≡ s.active → IsHeard t (drained s)
drained-IsHeard s t same = elim (Bool-cases (s.active == 0)) [
  | inl none_left ↦ rw none_left tt
  | inr some_left ↦ rw some_left (λ empty. ground (arith, some_left))
]

follow-IsHeard :
    (phase : ShutdownPhase) (active : ℕ) (heard : Bool)
    → IsHeard (at_phase phase active) (wake (at_phase phase active) (following heard))
unfolding wake
follow-IsHeard running active heard = refl
follow-IsHeard draining active heard = refl
follow-IsHeard (complete result) active heard = tt

wake-IsHeard :
    (phase : ShutdownPhase) (active : ℕ) (c : Caller)
    → IsHeard (at_phase phase active) c
    → IsHeard (at_phase phase active) (wake (at_phase phase active) c)
unfolding wake
wake-IsHeard phase active (awaiting_drain heard) h =
    drained-IsHeard (at_phase phase active) (at_phase phase active) refl
wake-IsHeard phase active leading h = tt
wake-IsHeard phase active (following heard) h = follow-IsHeard phase active heard
wake-IsHeard phase active (returned r) h = tt

end-NoneLost :
    (p : Plane) (i : ℕ) (result : ShutdownResult) → NoneLost p → NoneLost (end_cleanup p i result)
end-NoneLost p i result h = elim (Bool-cases (leads i p.callers)) [
  | inl it_does ↦ rw it_does (
      notify-IsHeard (force_complete p.state result) (at_caller i (λ c. returned result) p.callers))
  | inr it_does_not ↦ rw it_does_not h
]

step-NoneLost :
    (phase : ShutdownPhase) (active : ℕ) (callers : List Caller) (cleanups : ℕ) (e : Event)
    → NoneLost (plane phase active callers cleanups)
    → NoneLost (step (plane phase active callers cleanups) e)
unfolding step admit drop_active begin_shutdown
step-NoneLost running active callers cleanups admitted h =
    All-map
      (IsHeard-still (at_phase running active) (at_phase running (saturating_add active 1))
        (λ some_left empty. some_left (ground arith)) (λ e. e))
      callers h
step-NoneLost draining active callers cleanups admitted h = h
step-NoneLost (complete result) active callers cleanups admitted h = h
step-NoneLost phase active callers cleanups dropped h =
    notify-IsHeard (drop_operation (at_phase phase active)) callers
step-NoneLost running active callers cleanups began h =
    All-append (IsHeard (at_phase draining active)) callers (drained (at_phase running active) ∷ [])
      (All-map
        (IsHeard-still (at_phase running active) (at_phase draining active) (λ some_left. some_left)
          (λ e. refl))
        callers h)
      (drained-IsHeard (at_phase running active) (at_phase draining active) refl, tt)
step-NoneLost draining active callers cleanups began h =
    All-append (IsHeard (at_phase draining active)) callers (following false ∷ []) h (refl, tt)
step-NoneLost (complete result) active callers cleanups began h =
    All-append (IsHeard (at_phase (complete result) active)) callers (returned result ∷ []) h
      (tt, tt)
step-NoneLost phase active callers cleanups (woke_spuriously i) h =
    at_caller-All (IsHeard (at_phase phase active)) (wake (at_phase phase active))
      (wake-IsHeard phase active) i callers h
step-NoneLost phase active callers cleanups (woke i) h =
    elim (notified-wakes (at_phase phase active) i callers) [
      | inl does ↦
          subst (λ cs. All (IsHeard (at_phase phase active)) cs) (sym does)
            (at_caller-All (IsHeard (at_phase phase active)) (wake (at_phase phase active))
              (wake-IsHeard phase active) i callers h)
      | inr does_not ↦ subst (λ cs. All (IsHeard (at_phase phase active)) cs) (sym does_not) h
    ]
step-NoneLost phase active callers cleanups (cleaned i a b) h =
    end-NoneLost (plane phase active callers cleanups) i (cleanup_result a b) h
step-NoneLost phase active callers cleanups (panicked i) h =
    end-NoneLost (plane phase active callers cleanups) i (err worker) h

pub run-NoneLost : (p : Plane) (events : List Event) → NoneLost p → NoneLost (run p events)
unfolding run
run-NoneLost p [] h = h
run-NoneLost p (e ∷ events) h =
    run-NoneLost (step p e) events
      (step-NoneLost p.state.phase p.state.active p.callers p.cleanups e h)
