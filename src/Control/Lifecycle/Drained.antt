-- ===== src/Control/Lifecycle/Drained.antt =====
-- What the shutdown of apps/control-plane/src/state.rs closes.
use fanzloud.Base.{◌≡◌, false, List, [], ◌∷◌, err, arith}
use fanzloud.Control.ApiErrors.{service_unavailable}
use fanzloud.Control.Lifecycle.{
  LifecycleState, Plane, Event, admitted, dropped, began, woke, woke_spuriously, cleaned, panicked,
  is_running, admit, drop_operation, drop_active, force_complete, begin_shutdown, step, run,
}

began-closed : (p : Plane) → is_running (step p began).state ≡ false
unfolding is_running step begin_shutdown
began-closed p = ground arith

step-closed :
    (p : Plane) (e : Event) → is_running p.state ≡ false → is_running (step p e).state ≡ false
unfolding is_running step admit drop_active drop_operation begin_shutdown force_complete
step-closed p admitted h = ground arith
step-closed p dropped h = h
step-closed p began h = ground arith
step-closed p (woke i) h = h
step-closed p (woke_spuriously i) h = h
step-closed p (cleaned i a b) h = ground arith
step-closed p (panicked i) h = ground arith

pub run-closed :
    (p : Plane) (events : List Event)
    → is_running p.state ≡ false
    → is_running (run p events).state ≡ false
unfolding run
run-closed p [] h = h
run-closed p (e ∷ events) h = run-closed (step p e) events (step-closed p e h)

admit_closed : (s : LifecycleState) → is_running s ≡ false → admit s ≡ (s, err service_unavailable)
unfolding admit is_running
admit_closed s h = ground arith

-- Once a shutdown has been called for, no request is admitted any more, whatever happens: each is told
-- that the service is unavailable, and changes nothing.
pub admit_after_shutdown :
    (p : Plane) (events : List Event)
    → admit (run (step p began) events).state
      ≡ ((run (step p began) events).state, err service_unavailable)
admit_after_shutdown p events =
    admit_closed (run (step p began) events).state
      (run-closed (step p began) events (began-closed p))
