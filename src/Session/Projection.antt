-- ===== src/Session/Projection.antt =====
-- How a turn's lifecycle may change, for `apply_projected_lifecycle` and its helpers in
-- crates/codebox-session-runtime/src/runtime.rs.
use fanzloud.Base.{
  ℕ, ◌*◌, ◌^◌, min, ◌≤◌, ◌<◌, ◌≡◌, refl, sym, ap, ◌⊎◌, inl, inr, Bool, true, Option, none, some, ok,
  arith, String, eq_iff, Bool-cases, and_then,
}
use native.Mathlib.Nat.{one-le-pow, pow-le-pow_right}
use fanzloud.Session.Config.{max_backoff}
use fanzloud.Session.Types.{P0CloudLifecycle, lifecycle_eq, task_eq, operation_id, task_id}
use fanzloud.Session.State.{RuntimeState, projection_lifecycle}
use fanzloud.Session.Lifecycle.{
  apply_projected_lifecycle, differs_allowed, lifecycle_transition_allowed, turn_named, backoff,
}

task_eq→≡ : (a b : Option String) → task_eq a b ≡ true → a ≡ b
task_eq→≡ none none h = refl
task_eq→≡ none (some b) h = cc
task_eq→≡ (some a) none h = cc
task_eq→≡ (some a) (some b) h = ap some ((eq_iff a b).0 h)

pub lifecycle_eq→≡ : (a b : P0CloudLifecycle) → lifecycle_eq a b ≡ true → a ≡ b
unfolding lifecycle_eq
lifecycle_eq→≡ (P0CloudLifecycle.pending a s) (P0CloudLifecycle.pending b t) h =
    ground (arith, eq_iff s t)
lifecycle_eq→≡ (P0CloudLifecycle.ready a s) (P0CloudLifecycle.ready b t) h =
    ground (arith, eq_iff s t)
lifecycle_eq→≡ (P0CloudLifecycle.applied a s) (P0CloudLifecycle.applied b t) h =
    ground (arith, eq_iff s t)
lifecycle_eq→≡ (P0CloudLifecycle.provider_error a s) (P0CloudLifecycle.provider_error b t) h =
    ground (arith, eq_iff s t)
lifecycle_eq→≡ (P0CloudLifecycle.canceled_locally a s p) (P0CloudLifecycle.canceled_locally b t q)
      h =
    ground (arith, task_eq→≡ s t)
lifecycle_eq→≡ _ _ h = ground arith

-- The code's checks for overflow change nothing: the wait is the interval doubled for each failure,
-- eight times at most, up to the limit.
pub backoff_exact :
    (base failures : ℕ) → backoff base failures ≡ min (base * 2 ^ min failures 8) max_backoff
unfolding backoff
backoff_exact base failures = ground arith

-- For an interval up to the limit, the wait does not shrink when there are more failures, and lies
-- between the interval and the limit.
pub backoff_mono :
    (base m n : ℕ)
    → base ≤ max_backoff
    → m ≤ n
    → (base ≤ backoff base m) × (backoff base m ≤ backoff base n) × (backoff base n ≤ max_backoff)
backoff_mono base m n h le =
    let small = pow-le-pow_right {n = 2} (omega arith) {i = min m 8} {j = min n 8} (omega arith) in
    let one : 1 ≤ 2 ^ min m 8 = one-le-pow (min m 8) 2 (omega arith) in
    let grow : base * 2 ^ min m 8 ≤ base * 2 ^ min n 8 = grind arith in
    let keep : base ≤ base * 2 ^ min m 8 = grind arith in
    omega (arith, backoff_exact base m, backoff_exact base n)

-- What may follow a lifecycle, with the operation and a known task kept.
abbrev pub rank : P0CloudLifecycle → ℕ
rank (P0CloudLifecycle.submitting op) = 0
rank (P0CloudLifecycle.outcome_unknown op) = 1
rank (P0CloudLifecycle.pending op task) = 2
rank _ = 3

-- The turn of that identifier is the current one and has that lifecycle.
abbrev pub Named : ℕ → P0CloudLifecycle → RuntimeState → Type 0
Named turn lifecycle s =
    and_then (turn_named s turn) (λ r. projection_lifecycle r.projection) ≡ some lifecycle

abbrev pub Later : P0CloudLifecycle → P0CloudLifecycle → Type 0
Later current next =
    ((next ≡ current) ⊎ (rank current < rank next))
    × ((task_id current ≡ none) ⊎ (task_id next ≡ task_id current))

differs-Later :
    (a b : P0CloudLifecycle)
    → differs_allowed a b ≡ true
    → operation_id a ≡ operation_id b
    → Later a b
unfolding operation_id
differs-Later (P0CloudLifecycle.pending a s) (P0CloudLifecycle.pending b t) h e =
    ground (arith, eq_iff s t)
differs-Later (P0CloudLifecycle.pending a s) (P0CloudLifecycle.ready b t) h e =
    ground (arith, eq_iff s t)
differs-Later (P0CloudLifecycle.pending a s) (P0CloudLifecycle.applied b t) h e =
    ground (arith, eq_iff s t)
differs-Later (P0CloudLifecycle.pending a s) (P0CloudLifecycle.provider_error b t) h e =
    ground (arith, eq_iff s t)
differs-Later (P0CloudLifecycle.pending a s) (P0CloudLifecycle.canceled_locally b (some t) p) h e =
    ground (arith, eq_iff s t)
differs-Later (P0CloudLifecycle.pending a s) _ h e = ground arith
differs-Later _ _ h e = ground arith

transition-Later :
    (a b : P0CloudLifecycle)
    → lifecycle_transition_allowed a b ≡ true
    → operation_id a ≡ operation_id b
    → Later a b
unfolding lifecycle_transition_allowed
transition-Later a b h e = elim (Bool-cases (lifecycle_eq a b)) [
  | inl eq ↦ let at = lifecycle_eq→≡ a b eq in (inl (sym at), inr (ap task_id (sym at)))
  | inr ne ↦ ground (arith, differs-Later a b)
]

-- When the current turn has a lifecycle and a projection is accepted for it, the new lifecycle is
-- the turn's, is of the same operation, keeps a task that is known, and either is the current one or
-- stands later in the order submitting, unknown, pending, terminal.
pub apply_projected_lifecycle-Later :
    (s s' : RuntimeState) (turn : ℕ) (current projected : P0CloudLifecycle) (completed : Bool)
    → Named turn current s
    → apply_projected_lifecycle s turn projected completed ≡ ok s'
    → Named turn projected s'
      × (operation_id projected ≡ operation_id current)
      × Later current projected
unfolding apply_projected_lifecycle
apply_projected_lifecycle-Later s s' turn current projected completed named h =
    ground (arith, transition-Later current projected)
