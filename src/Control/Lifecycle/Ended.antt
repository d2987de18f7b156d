-- ===== src/Control/Lifecycle/Ended.antt =====
-- That the shutdown of apps/control-plane/src/state.rs ends.
use fanzloud.Base.{
  ℕ, suc, ◌≤◌, ◌≡◌, refl, ap, subst, true, false, not, ◌⊎◌, inl, inr, List, [], ◌∷◌, ◌==◌, All,
  length, arith, Bool-cases,
}
use fanzloud.Control.Lifecycle.{
  ShutdownResult, ShutdownPhase, running, draining, complete, Caller, awaiting_drain, leading,
  following, returned, Plane, Event, dropped, woke, panicked, started, is_running, is_notified,
  leads, run,
}
use fanzloud.Control.Lifecycle.Counts.{leaders, cleaners}
use fanzloud.Control.Lifecycle.Phases.{HasReturned, IsPhase, IsOrderly, at_phase, plane}
use fanzloud.Control.Lifecycle.Orderly.{run-IsOrderly, started-IsOrderly}
use fanzloud.Control.Lifecycle.Heard.{IsHeard, NoneLost, run-NoneLost}
use fanzloud.Control.Lifecycle.Moves.{notified_at, moves, AllMove, bound, run-bound}
use fanzloud.Control.Lifecycle.Drained.{run-closed}

find_notified :
    (xs : List Caller) → ((i : ℕ) × (notified_at i xs ≡ true)) ⊎ All (λ c. is_notified c ≡ false) xs
unfolding notified_at
find_notified [] = inr tt
find_notified (c ∷ xs) = elim (Bool-cases (is_notified c)) [
  | inl heard ↦ inl (0, heard)
  | inr unheard ↦ elim (find_notified xs) [
    | inl (i, heard) ↦ inl (suc i, heard)
    | inr rest ↦ inr (unheard, rest)
  ]
]

find_leading : (xs : List Caller) → ((i : ℕ) × (leads i xs ≡ true)) ⊎ (cleaners xs ≡ 0)
unfolding leads cleaners
find_leading [] = inr refl
find_leading (leading ∷ xs) = inl (0, refl)
find_leading (awaiting_drain heard ∷ xs) = elim (find_leading xs) [
  | inl (i, it_does) ↦ inl (suc i, it_does)
  | inr none ↦ inr none
]
find_leading (following heard ∷ xs) = elim (find_leading xs) [
  | inl (i, it_does) ↦ inl (suc i, it_does)
  | inr none ↦ inr none
]
find_leading (returned r ∷ xs) = elim (find_leading xs) [
  | inl (i, it_does) ↦ inl (suc i, it_does)
  | inr none ↦ inr none
]

-- The shutdown is complete, and everyone who called for it has its result.
abbrev pub HasEnded : ShutdownPhase → List Caller → Type 0
HasEnded (complete result) callers = All (λ c. c ≡ returned result) callers
HasEnded _ callers = ⊥

quiet-leaders :
    (phase : ShutdownPhase) (xs : List Caller)
    → cleaners xs ≡ 0
    → All (IsHeard (at_phase phase 0)) xs
    → All (λ c. is_notified c ≡ false) xs
    → leaders xs ≡ 0
unfolding cleaners leaders
quiet-leaders phase [] none heard quiet = refl
quiet-leaders phase (leading ∷ xs) none heard quiet = absurd (omega arith)
quiet-leaders phase (awaiting_drain true ∷ xs) none heard quiet = absurd (ground (arith, quiet.0))
quiet-leaders phase (awaiting_drain false ∷ xs) none heard quiet = absurd (heard.0 refl)
quiet-leaders phase (following asked ∷ xs) none heard quiet =
    quiet-leaders phase xs none heard.1 quiet.1
quiet-leaders phase (returned r ∷ xs) none heard quiet = quiet-leaders phase xs none heard.1 quiet.1

quiet-HasEnded :
    (result : ShutdownResult) (active : ℕ) (xs : List Caller)
    → leaders xs ≡ 0
    → All (HasReturned result) xs
    → All (IsHeard (at_phase (complete result) active)) xs
    → All (λ c. is_notified c ≡ false) xs
    → HasEnded (complete result) xs
unfolding leaders
quiet-HasEnded result active [] none told heard quiet = tt
quiet-HasEnded result active (leading ∷ xs) none told heard quiet = absurd (omega arith)
quiet-HasEnded result active (awaiting_drain asked ∷ xs) none told heard quiet =
    absurd (omega arith)
quiet-HasEnded result active (following true ∷ xs) none told heard quiet =
    absurd (ground (arith, quiet.0))
quiet-HasEnded result active (following false ∷ xs) none told heard quiet =
    absurd (ground (arith, heard.0))
quiet-HasEnded result active (returned r ∷ xs) none told heard quiet =
    (ap returned told.0, quiet-HasEnded result active xs none told.1 heard.1 quiet.1)

quiet_ended :
    (phase : ShutdownPhase) (active : ℕ) (callers : List Caller) (cleanups : ℕ)
    → is_running (at_phase phase active) ≡ false
    → IsPhase phase active callers cleanups
    → NoneLost (plane phase active callers cleanups)
    → active ≡ 0
    → All (λ c. is_notified c ≡ false) callers
    → cleaners callers ≡ 0
    → HasEnded phase callers
unfolding is_running
quiet_ended running active callers cleanups stops orderly heard empty quiet none = cc
quiet_ended draining active callers cleanups stops orderly heard empty quiet none =
    let none_lead =
      quiet-leaders draining callers none
        (subst (λ n. NoneLost (plane draining n callers cleanups)) empty heard) quiet in
    absurd (omega (arith, orderly.0))
quiet_ended (complete result) active callers cleanups stops orderly heard empty quiet none =
    quiet-HasEnded result active callers orderly.0 orderly.1 heard quiet

moves_or_ended :
    (p : Plane)
    → is_running p.state ≡ false
    → IsOrderly p
    → NoneLost p
    → ((e : Event) × (moves p e ≡ true)) ⊎ HasEnded p.state.phase p.callers
unfolding moves
moves_or_ended p stops orderly heard = elim (Bool-cases (p.state.active == 0)) [
  | inr some_left ↦ inl (dropped, ap not some_left)
  | inl none_left ↦ elim (find_notified p.callers) [
    | inl (i, asked) ↦ inl (woke i, asked)
    | inr quiet ↦ elim (find_leading p.callers) [
      | inl (i, it_does) ↦ inl (panicked i, it_does)
      | inr none ↦ inr (
          quiet_ended p.state.phase p.state.active p.callers p.cleanups stops orderly heard
            (ground (arith, none_left)) quiet none)
    ]
  ]
]

-- A shutdown that was called for ends. From whatever the events have come to by then, let the active
-- operations be dropped, the callers wake where they have been notified, and the leader's cleanup end
-- or panic, in any order and with no new caller: there are at most `bound` of these steps, and as long
-- as the lifecycle is not complete with every caller returned with its result, one of them can be
-- taken. A caller that nobody notifies does not wake in them.
pub shutdown_ends :
    (before after : List Event)
    → is_running (run started before).state ≡ false
    → AllMove (run started before) after
    → let p = run started before in
      let q = run p after in
      (length after ≤ bound p)
      × (((e : Event) × (moves q e ≡ true)) ⊎ HasEnded q.state.phase q.callers)
shutdown_ends before after stops moving =
    let p = run started before in
    let q = run p after in
    (
      run-bound p after moving,
      moves_or_ended q (run-closed p after stops)
          (run-IsOrderly p after (run-IsOrderly started before started-IsOrderly))
          (run-NoneLost p after (run-NoneLost started before tt)),
    )
