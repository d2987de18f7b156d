-- ===== src/Control/Lifecycle/Moves.antt =====
-- The steps that bring the shutdown of apps/control-plane/src/state.rs to its end.
use native.Mathlib.Nat.{suc-mul}
use fanzloud.Base.{
  ℕ, zero, suc, ◌+◌, ◌*◌, ◌-◌, ◌≤◌, ◌<◌, ◌≡◌, refl, sym, ap, ◌∙◌, Bool, true, false, not, inl, inr,
  List, [], ◌∷◌, err, ◌==◌, length, arith,
}
use fanzloud.Control.Lifecycle.{
  ShutdownResult, ShutdownPhase, running, draining, complete, LifecycleState, Caller,
  awaiting_drain, leading, following, returned, worker, Plane, Event, admitted, dropped, began,
  woke, woke_spuriously, cleaned, panicked, drop_operation, drop_active, force_complete, follow,
  wake, wake_notified, is_notified, notify_all, cleanup_result, at_caller, leads, end_cleanup, step,
}
use fanzloud.Control.Lifecycle.Counts.{
  leaders, leaders-wake, leaders-notify, leads-counts, notified-wakes,
}

unfoldable pub notified_at : ℕ → List Caller → Bool
notified_at i [] = false
notified_at zero (c ∷ callers) = is_notified c
notified_at (suc i) (c ∷ callers) = notified_at i callers

-- What the operations and the callers that are there can do next: drop an operation that is active,
-- wake on a notification, end the cleanup of the leader.
unfoldable pub moves : Plane → Event → Bool
moves p dropped = not (p.state.active == 0)
moves p (woke i) = notified_at i p.callers
moves p (cleaned i a b) = leads i p.callers
moves p (panicked i) = leads i p.callers
moves p _ = false

abbrev pub AllMove : Plane → List Event → Type 0
AllMove p [] = Unit {0}
AllMove p (e ∷ events) = (moves p e ≡ true) × AllMove (step p e) events

weight : Caller → ℕ
weight (awaiting_drain true) = 1
weight (following true) = 1
weight _ = 0

notifieds : List Caller → ℕ
notifieds [] = 0
notifieds (c ∷ callers) = weight c + notifieds callers

pub bound : Plane → ℕ
bound p = (p.state.active + leaders p.callers) * suc (length p.callers) + notifieds p.callers

fewer_turns :
    (k k' n n' c c' : ℕ) → k ≡ suc k' → n' ≡ n → c' ≤ n' → k' * suc n' + c' < k * suc n + c
fewer_turns k k' n n' c c' less same few =
    rw (less, sym same) (omega (arith, few, suc-mul k' (suc n')))

length-notify : (xs : List Caller) → length (notify_all xs) ≡ length xs
unfolding notify_all
length-notify [] = refl
length-notify (c ∷ xs) = ap suc (length-notify xs)

length-at_caller :
    (i : ℕ) (f : Caller → Caller) (xs : List Caller) → length (at_caller i f xs) ≡ length xs
unfolding at_caller
length-at_caller i f [] = refl
length-at_caller zero f (c ∷ xs) = refl
length-at_caller (suc i) f (c ∷ xs) = ap suc (length-at_caller i f xs)

weight-le-one : (c : Caller) → weight c ≤ 1
unfolding weight
weight-le-one (awaiting_drain true) = omega arith
weight-le-one (awaiting_drain false) = omega arith
weight-le-one leading = omega arith
weight-le-one (following true) = omega arith
weight-le-one (following false) = omega arith
weight-le-one (returned r) = omega arith

notifieds-le-length : (xs : List Caller) → notifieds xs ≤ length xs
unfolding notifieds
notifieds-le-length [] = omega arith
notifieds-le-length (c ∷ xs) = omega (arith, weight-le-one c, notifieds-le-length xs)

follow-weight : (phase : ShutdownPhase) → weight (follow phase) ≡ 0
unfolding weight
follow-weight running = refl
follow-weight draining = refl
follow-weight (complete result) = refl

woken-weight :
    (s : LifecycleState) (c : Caller)
    → is_notified c ≡ true
    → weight (wake_notified s c) + 1 ≡ weight c
unfolding weight wake
woken-weight s (awaiting_drain true) h = ground arith
woken-weight s (awaiting_drain false) h = cc
woken-weight s leading h = cc
woken-weight s (following true) h = omega (arith, follow-weight s.phase)
woken-weight s (following false) h = cc
woken-weight s (returned r) h = cc

woken-notifieds :
    (s : LifecycleState) (i : ℕ) (xs : List Caller)
    → notified_at i xs ≡ true
    → notifieds (at_caller i (wake_notified s) xs) + 1 ≡ notifieds xs
unfolding notified_at notifieds at_caller
woken-notifieds s i [] h = cc
woken-notifieds s zero (c ∷ xs) h = omega (arith, woken-weight s c h)
woken-notifieds s (suc i) (c ∷ xs) h = omega (arith, woken-notifieds s i xs h)

leaders-woken :
    (s : LifecycleState) (i : ℕ) (xs : List Caller)
    → leaders (at_caller i (wake_notified s) xs) ≡ leaders xs
leaders-woken s i xs = elim (notified-wakes s i xs) [
  | inl does ↦ ap leaders does ∙ leaders-wake s i xs
  | inr does_not ↦ ap leaders does_not
]

end-bound :
    (p : Plane) (i : ℕ) (result : ShutdownResult)
    → leads i p.callers ≡ true
    → bound (end_cleanup p i result) < bound p
unfolding bound force_complete
end-bound p i result it_does =
    let told = at_caller i (λ c. returned result) p.callers in
    let (cleans, fewer) = leads-counts i p.callers result it_does in
    rw it_does (
      fewer_turns (p.state.active + leaders p.callers) (p.state.active + leaders (notify_all told))
        (length p.callers) (length (notify_all told)) (notifieds p.callers)
        (notifieds (notify_all told)) (omega (arith, leaders-notify told))
        (length-notify told ∙ length-at_caller i (λ c. returned result) p.callers)
        (notifieds-le-length (notify_all told)))

step-bound : (p : Plane) (e : Event) → moves p e ≡ true → bound (step p e) < bound p
unfolding bound moves step drop_active drop_operation
step-bound p admitted h = cc
step-bound p dropped h =
    fewer_turns (p.state.active + leaders p.callers)
      (p.state.active - 1 + leaders (notify_all p.callers)) (length p.callers)
      (length (notify_all p.callers)) (notifieds p.callers) (notifieds (notify_all p.callers))
      (ground (arith, leaders-notify p.callers)) (length-notify p.callers)
      (notifieds-le-length (notify_all p.callers))
step-bound p began h = cc
step-bound p (woke i) h =
    rw (leaders-woken p.state i p.callers, length-at_caller i (wake_notified p.state) p.callers)
      (omega (arith, woken-notifieds p.state i p.callers h))
step-bound p (woke_spuriously i) h = cc
step-bound p (cleaned i a b) h = end-bound p i (cleanup_result a b) h
step-bound p (panicked i) h = end-bound p i (err worker) h

pub run-bound : (p : Plane) (events : List Event) → AllMove p events → length events ≤ bound p
run-bound p [] h = omega arith
run-bound p (e ∷ events) h = omega (arith, step-bound p e h.0, run-bound (step p e) events h.1)
