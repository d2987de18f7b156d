-- ===== src/Control/Lifecycle/Orderly.antt =====
-- The shutdown of apps/control-plane/src/state.rs whatever its callers and the operations do.
use fanzloud.Base.{
  ℕ, ◌+◌, ◌≤◌, ◌<◌, ◌≡◌, refl, sym, ◌∙◌, subst, inl, inr, true, false, List, [], ◌∷◌, err, All,
  All-append, arith, Bool-cases,
}
use fanzloud.Control.Lifecycle.{
  ShutdownResult, ShutdownPhase, running, draining, complete, Caller, following, returned, worker,
  Plane, Event, admitted, dropped, began, woke, woke_spuriously, cleaned, panicked, started, admit,
  drop_operation, force_complete, begin_shutdown, drained, wake, notify_all, drop_active,
  cleanup_result, at_caller, leads, end_cleanup, step, run,
}
use fanzloud.Control.Lifecycle.Counts.{
  no_leaders, leaders, cleaners, leaders-append, cleaners-append, cleaners-le-leaders, leads-counts,
  leaders-wake, cleaners-wake, one_following, none_cleans, none_lead, leaders-notify,
  cleaners-notify, notified-wakes, drained-leads, drained-cleans,
}
use fanzloud.Control.Lifecycle.Phases.{
  HasReturned, IsWaiting, IsPhase, IsOrderly, returned-All, at_caller-All, at_phase,
  drained-IsWaiting, wake-IsWaiting, wake-HasReturned, plane, notify-All, notified-IsWaiting,
  notified-HasReturned,
}

end_idle :
    (p : Plane) (i : ℕ) (result : ShutdownResult)
    → leads i p.callers ≡ false
    → end_cleanup p i result ≡ p
end_idle p i result idle = rw idle

end_done :
    (active : ℕ) (callers : List Caller) (cleanups i : ℕ) (result : ShutdownResult)
    → leads i callers ≡ true
    → end_cleanup (plane draining active callers cleanups) i result
      ≡ plane
          (complete result)
          active
          (notify_all (at_caller i (λ c. returned result) callers))
          (cleanups + 1)
unfolding force_complete
end_done active callers cleanups i result it_does = rw it_does

-- Nobody leads before the shutdown begins or after it is complete.
end-no_leader :
    (p : Plane) (i : ℕ) (result : ShutdownResult)
    → leaders p.callers ≡ 0
    → IsOrderly p
    → IsOrderly (end_cleanup p i result)
end-no_leader p i result none_leads h = elim (Bool-cases (leads i p.callers)) [
  | inl it_does ↦ absurd (omega (arith, leads-counts i p.callers result it_does))
  | inr it_does_not ↦ subst IsOrderly (sym (end_idle p i result it_does_not)) h
]

end-IsOrderly :
    (active : ℕ) (callers : List Caller) (cleanups i : ℕ) (result : ShutdownResult)
    → IsPhase draining active callers cleanups
    → IsOrderly (end_cleanup (plane draining active callers cleanups) i result)
end-IsOrderly active callers cleanups i result (one, waiting, none_yet, idle) =
    elim (Bool-cases (leads i callers)) [
      | inl it_does ↦
          let (cleans, fewer) = leads-counts i callers result it_does in
          subst IsOrderly (sym (end_done active callers cleanups i result it_does)) (
            omega (arith, leaders-notify (at_caller i (λ c. returned result) callers)),
            notify-All (HasReturned result) _ (notified-HasReturned result)
                (returned-All i callers result waiting),
            omega arith,
            idle cleans,
          )
      | inr it_does_not ↦
          subst IsOrderly
            (sym (end_idle (plane draining active callers cleanups) i result it_does_not))
            (one, waiting, none_yet, idle)
    ]

woken-IsPhase :
    (phase : ShutdownPhase) (active : ℕ) (callers : List Caller) (cleanups i : ℕ)
    → IsPhase phase active callers cleanups
    → IsPhase phase active (at_caller i (wake (at_phase phase active)) callers) cleanups
woken-IsPhase running active callers cleanups i (none_leads, waiting, none_yet) = (
  omega (arith, leaders-wake (at_phase running active) i callers),
  at_caller-All IsWaiting (wake (at_phase running active))
      (wake-IsWaiting running active (λ result e. cc)) i callers waiting,
  none_yet,
)
woken-IsPhase draining active callers cleanups i (one, waiting, none_yet, idle) = (
  omega (arith, leaders-wake (at_phase draining active) i callers),
  at_caller-All IsWaiting (wake (at_phase draining active))
      (wake-IsWaiting draining active (λ result e. cc)) i callers waiting,
  none_yet,
  λ cleans. elim (cleaners-wake (at_phase draining active) i callers cleans) [
    | inl before ↦ idle before
    | inr empty ↦ empty
  ],
)
woken-IsPhase (complete result) active callers cleanups i (none_leads, told, once, idle) = (
  omega (arith, leaders-wake (at_phase (complete result) active) i callers),
  at_caller-All (HasReturned result) (wake (at_phase (complete result) active))
      (wake-HasReturned result active) i callers told,
  once,
  idle,
)

phase_step :
    (phase : ShutdownPhase) (active : ℕ) (callers : List Caller) (cleanups : ℕ) (e : Event)
    → IsPhase phase active callers cleanups
    → IsOrderly (step (plane phase active callers cleanups) e)
unfolding step admit drop_operation drop_active begin_shutdown
phase_step running active callers cleanups admitted h = h
phase_step draining active callers cleanups admitted h = h
phase_step (complete result) active callers cleanups admitted h = h
phase_step running active callers cleanups dropped (none_leads, waiting, none_yet) = (
  leaders-notify callers ∙ none_leads,
  notify-All IsWaiting callers notified-IsWaiting waiting,
  none_yet,
)
phase_step draining active callers cleanups dropped (one, waiting, none_yet, idle) = (
  leaders-notify callers ∙ one,
  notify-All IsWaiting callers notified-IsWaiting waiting,
  none_yet,
  λ cleans. omega (arith, idle (omega (arith, cleaners-notify callers))),
)
phase_step (complete result) active callers cleanups dropped (none_leads, told, once, idle) = (
  leaders-notify callers ∙ none_leads,
  notify-All (HasReturned result) callers (notified-HasReturned result) told,
  once,
  omega arith,
)
phase_step running active callers cleanups began (none_leads, waiting, none_yet) = (
  omega (
    arith,
    leaders-append callers (drained (at_phase running active) ∷ []),
    drained-leads (at_phase running active),
  ),
  All-append IsWaiting callers (drained (at_phase running active) ∷ []) waiting
      (drained-IsWaiting (at_phase running active), tt),
  none_yet,
  λ cleans. drained-cleans (at_phase running active) (
      omega (
        arith,
        cleaners-append callers (drained (at_phase running active) ∷ []),
        cleaners-le-leaders callers,
      )),
)
phase_step draining active callers cleanups began (one, waiting, none_yet, idle) = (
  omega (arith, leaders-append callers (following false ∷ []), one_following),
  All-append IsWaiting callers (following false ∷ []) waiting (tt, tt),
  none_yet,
  λ cleans. idle (omega (arith, cleaners-append callers (following false ∷ []), none_cleans)),
)
phase_step (complete result) active callers cleanups began (none_leads, told, once, idle) = (
  omega (arith, leaders-append callers (returned result ∷ []), none_lead result),
  All-append (HasReturned result) callers (returned result ∷ []) told (refl, tt),
  once,
  idle,
)
phase_step phase active callers cleanups (woke_spuriously i) h =
    woken-IsPhase phase active callers cleanups i h
phase_step phase active callers cleanups (woke i) h =
    elim (notified-wakes (at_phase phase active) i callers) [
      | inl does ↦
          subst (λ cs. IsPhase phase active cs cleanups) (sym does)
            (woken-IsPhase phase active callers cleanups i h)
      | inr does_not ↦ subst (λ cs. IsPhase phase active cs cleanups) (sym does_not) h
    ]
phase_step running active callers cleanups (cleaned i a b) h =
    end-no_leader (plane running active callers cleanups) i (cleanup_result a b) h.0 h
phase_step draining active callers cleanups (cleaned i a b) h =
    end-IsOrderly active callers cleanups i (cleanup_result a b) h
phase_step (complete result) active callers cleanups (cleaned i a b) h =
    end-no_leader (plane (complete result) active callers cleanups) i (cleanup_result a b) h.0 h
phase_step running active callers cleanups (panicked i) h =
    end-no_leader (plane running active callers cleanups) i (err worker) h.0 h
phase_step draining active callers cleanups (panicked i) h =
    end-IsOrderly active callers cleanups i (err worker) h
phase_step (complete result) active callers cleanups (panicked i) h =
    end-no_leader (plane (complete result) active callers cleanups) i (err worker) h.0 h

pub run-IsOrderly : (p : Plane) (events : List Event) → IsOrderly p → IsOrderly (run p events)
unfolding run
run-IsOrderly p [] h = h
run-IsOrderly p (e ∷ events) h =
    run-IsOrderly (step p e) events
      (phase_step p.state.phase p.state.active p.callers p.cleanups e h)

pub started-IsOrderly : IsOrderly started
started-IsOrderly = (no_leaders, tt, refl)

safe :
    (phase : ShutdownPhase) (active : ℕ) (callers : List Caller) (cleanups : ℕ)
    → IsPhase phase active callers cleanups
    → (cleanups ≤ 1)
      × (cleaners callers ≤ 1)
      × (0 < cleaners callers → (phase ≡ draining) × (active ≡ 0))
      × ((cleanups ≡ 0 → All IsWaiting callers)
          × ((result : ShutdownResult)
              → phase ≡ complete result
              → All (HasReturned result) callers))
safe running active callers cleanups (none_leads, waiting, none_yet) = (
  omega arith,
  omega (arith, cleaners-le-leaders callers),
  λ cleans. absurd (omega (arith, cleaners-le-leaders callers)),
  (λ e. waiting, λ result e. cc),
)
safe draining active callers cleanups (one, waiting, none_yet, idle) = (
  omega arith,
  omega (arith, cleaners-le-leaders callers),
  λ cleans. (refl, idle cleans),
  (λ e. waiting, λ result e. cc),
)
safe (complete r) active callers cleanups (none_leads, told, once, idle) = (
  omega arith,
  omega (arith, cleaners-le-leaders callers),
  λ cleans. absurd (omega (arith, cleaners-le-leaders callers)),
  (
    λ e. absurd (omega arith),
    λ result e. subst (λ q. All (HasReturned q) callers) (ground arith) told,
  ),
)

-- In whatever order operations are admitted and dropped, shutdowns are called for, callers wake and
-- cleanups end or panic: the lower runtimes are cleaned up once at most; one caller at most cleans up
-- at a time, only after the shutdown has begun and when no admitted operation is left; nobody has
-- returned before a cleanup has ended; and from then on every caller that has returned has the one
-- result that it had.
pub run_safe :
    (events : List Event)
    → ((run started events).cleanups ≤ 1)
      × (cleaners (run started events).callers ≤ 1)
      × (0 < cleaners (run started events).callers
          → ((run started events).state.phase ≡ draining) × ((run started events).state.active ≡ 0))
      × (((run started events).cleanups ≡ 0 → All IsWaiting (run started events).callers)
          × ((result : ShutdownResult)
              → (run started events).state.phase ≡ complete result
              → All (HasReturned result) (run started events).callers))
run_safe events =
    let p = run started events in
    safe p.state.phase p.state.active p.callers p.cleanups
      (run-IsOrderly started events started-IsOrderly)
