-- ===== src/Control/Lifecycle/Examples.antt =====
-- One shutdown of apps/control-plane/src/state.rs, and the theorems at it.
use fanzloud.Base.{◌≤◌, ◌<◌, ◌≡◌, refl, true, false, ◌⊎◌, length, List, [], ◌∷◌, ok, err, All}
use fanzloud.Control.Lifecycle.{
  ShutdownResult, draining, complete, login, Event, admitted, dropped, began, woke, woke_spuriously,
  cleaned, panicked, started, is_running, admit, begin_shutdown, drop_active, drop_operation,
  notify_all, at_caller, leads, wake, force_complete, step, run,
}
use fanzloud.Control.Lifecycle.Orderly.{run_safe}
use fanzloud.Control.Lifecycle.Phases.{HasReturned, IsWaiting}
use fanzloud.Control.Lifecycle.Counts.{cleaners}
use fanzloud.Control.ApiErrors.{service_unavailable}
use fanzloud.Control.Lifecycle.Drained.{admit_after_shutdown}
use fanzloud.Control.Lifecycle.Moves.{notified_at, moves, AllMove, bound}
use fanzloud.Control.Lifecycle.Ended.{HasEnded, shutdown_ends}

-- Two callers, while an operation is active; the login's cleanup fails.
abbrev events : List Event
events =
    admitted
    ∷ began
    ∷ began
    ∷ woke 0
    ∷ dropped
    ∷ woke 0
    ∷ cleaned 0 (ok tt) (err login)
    ∷ panicked 1
    ∷ woke 1
    ∷ []

run_safe_example :
    ((run started events).cleanups ≤ 1)
    × (cleaners (run started events).callers ≤ 1)
    × (0 < cleaners (run started events).callers
        → ((run started events).state.phase ≡ draining) × ((run started events).state.active ≡ 0))
    × (((run started events).cleanups ≡ 0 → All IsWaiting (run started events).callers)
        × ((result : ShutdownResult)
            → (run started events).state.phase ≡ complete result
            → All (HasReturned result) (run started events).callers))
run_safe_example = run_safe events

-- Once more, up to the drop of the operation, and from there on.
abbrev asked : List Event
asked = admitted ∷ began ∷ began ∷ woke_spuriously 0 ∷ []

abbrev to_the_end : List Event
to_the_end = dropped ∷ woke 0 ∷ cleaned 0 (ok tt) (err login) ∷ woke 1 ∷ []

is_asked : is_running (run started asked).state ≡ false
unfolding is_running run step admit begin_shutdown
is_asked = refl

all_move : AllMove (run started asked) to_the_end
unfolding run step admit begin_shutdown drop_active drop_operation notify_all at_caller leads wake
    force_complete moves notified_at
all_move = (refl, (refl, (refl, (refl, tt))))

shutdown_ends_example :
    (length to_the_end ≤ bound (run started asked))
    × (((e : Event) × (moves (run (run started asked) to_the_end) e ≡ true))
        ⊎ HasEnded
            (run (run started asked) to_the_end).state.phase
            (run (run started asked) to_the_end).callers)
shutdown_ends_example = shutdown_ends asked to_the_end is_asked all_move

admit_after_shutdown_example :
    admit (run (step started began) events).state
    ≡ ((run (step started began) events).state, err service_unavailable)
admit_after_shutdown_example = admit_after_shutdown started events
