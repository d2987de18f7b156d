-- ===== src/Control/Lifecycle/Counts.antt =====
-- How many callers of the shutdown of apps/control-plane/src/state.rs are to clean up.
use fanzloud.Base.{
  ℕ, zero, suc, ◌+◌, ◌≤◌, ◌<◌, ◌≡◌, refl, ◌⊎◌, inl, inr, ap, Bool-cases, true, false, List, [], ◌∷◌,
  ◌++◌, arith,
}
use fanzloud.Control.Lifecycle.{
  ShutdownResult, ShutdownPhase, running, draining, complete, LifecycleState, Caller,
  awaiting_drain, leading, following, returned, drained, follow, wake, at_caller, leads,
  is_notified, wake_notified, notify_all, is_notified, wake_notified, notify_all,
}

-- How many callers are to clean up, and how many do.
unfoldable pub leaders : List Caller → ℕ
leaders [] = 0
leaders (awaiting_drain heard ∷ callers) = suc (leaders callers)
leaders (leading ∷ callers) = suc (leaders callers)
leaders (following heard ∷ callers) = leaders callers
leaders (returned result ∷ callers) = leaders callers

unfoldable pub cleaners : List Caller → ℕ
cleaners [] = 0
cleaners (leading ∷ callers) = suc (cleaners callers)
cleaners (awaiting_drain heard ∷ callers) = cleaners callers
cleaners (following heard ∷ callers) = cleaners callers
cleaners (returned result ∷ callers) = cleaners callers

pub leaders-append : (xs ys : List Caller) → leaders (xs ++ ys) ≡ leaders xs + leaders ys
unfolding leaders
leaders-append [] ys = omega arith
leaders-append (awaiting_drain heard ∷ xs) ys = omega (arith, leaders-append xs ys)
leaders-append (leading ∷ xs) ys = omega (arith, leaders-append xs ys)
leaders-append (following heard ∷ xs) ys = leaders-append xs ys
leaders-append (returned r ∷ xs) ys = leaders-append xs ys

pub cleaners-append : (xs ys : List Caller) → cleaners (xs ++ ys) ≡ cleaners xs + cleaners ys
unfolding cleaners
cleaners-append [] ys = omega arith
cleaners-append (leading ∷ xs) ys = omega (arith, cleaners-append xs ys)
cleaners-append (awaiting_drain heard ∷ xs) ys = cleaners-append xs ys
cleaners-append (following heard ∷ xs) ys = cleaners-append xs ys
cleaners-append (returned r ∷ xs) ys = cleaners-append xs ys

pub cleaners-le-leaders : (xs : List Caller) → cleaners xs ≤ leaders xs
unfolding cleaners leaders
cleaners-le-leaders [] = omega arith
cleaners-le-leaders (leading ∷ xs) = omega (arith, cleaners-le-leaders xs)
cleaners-le-leaders (awaiting_drain heard ∷ xs) = omega (arith, cleaners-le-leaders xs)
cleaners-le-leaders (following heard ∷ xs) = cleaners-le-leaders xs
cleaners-le-leaders (returned r ∷ xs) = cleaners-le-leaders xs

-- The one that leads is counted, and no longer when it has returned.
pub leads-counts :
    (i : ℕ) (xs : List Caller) (result : ShutdownResult)
    → leads i xs ≡ true
    → (0 < cleaners xs) × (leaders (at_caller i (λ c. returned result) xs) + 1 ≡ leaders xs)
unfolding leads at_caller leaders cleaners
leads-counts i [] result e = cc
leads-counts zero (leading ∷ xs) result e = omega arith
leads-counts zero (awaiting_drain heard ∷ xs) result e = cc
leads-counts zero (following heard ∷ xs) result e = cc
leads-counts zero (returned r ∷ xs) result e = cc
leads-counts (suc i) (leading ∷ xs) result e = omega (arith, leads-counts i xs result e)
leads-counts (suc i) (awaiting_drain heard ∷ xs) result e =
    omega (arith, leads-counts i xs result e)
leads-counts (suc i) (following heard ∷ xs) result e = leads-counts i xs result e
leads-counts (suc i) (returned r ∷ xs) result e = leads-counts i xs result e

pub follow-leaders :
    (phase : ShutdownPhase) (xs : List Caller) → leaders (follow phase ∷ xs) ≡ leaders xs
unfolding leaders
follow-leaders running xs = refl
follow-leaders draining xs = refl
follow-leaders (complete result) xs = refl

pub follow-cleaners :
    (phase : ShutdownPhase) (xs : List Caller) → 0 < cleaners (follow phase ∷ xs) → 0 < cleaners xs
unfolding cleaners
follow-cleaners running xs h = h
follow-cleaners draining xs h = h
follow-cleaners (complete result) xs h = h

pub leaders-wake :
    (s : LifecycleState) (i : ℕ) (xs : List Caller) → leaders (at_caller i (wake s) xs) ≡ leaders xs
unfolding at_caller leaders wake
leaders-wake s i [] = refl
leaders-wake s zero (awaiting_drain heard ∷ xs) = ground arith
leaders-wake s zero (leading ∷ xs) = refl
leaders-wake s zero (following heard ∷ xs) = follow-leaders s.phase xs
leaders-wake s zero (returned r ∷ xs) = refl
leaders-wake s (suc i) (awaiting_drain heard ∷ xs) = omega (arith, leaders-wake s i xs)
leaders-wake s (suc i) (leading ∷ xs) = omega (arith, leaders-wake s i xs)
leaders-wake s (suc i) (following heard ∷ xs) = leaders-wake s i xs
leaders-wake s (suc i) (returned r ∷ xs) = leaders-wake s i xs

pub cleaners-wake :
    (s : LifecycleState) (i : ℕ) (xs : List Caller)
    → 0 < cleaners (at_caller i (wake s) xs)
    → (0 < cleaners xs) ⊎ (s.active ≡ 0)
unfolding at_caller cleaners wake
cleaners-wake s i [] h = absurd (omega arith)
cleaners-wake s zero (awaiting_drain heard ∷ xs) h = ground arith
cleaners-wake s zero (leading ∷ xs) h = inl (omega arith)
cleaners-wake s zero (following heard ∷ xs) h = inl (follow-cleaners s.phase xs h)
cleaners-wake s zero (returned r ∷ xs) h = inl h
cleaners-wake s (suc i) (leading ∷ xs) h = inl (omega arith)
cleaners-wake s (suc i) (awaiting_drain heard ∷ xs) h = cleaners-wake s i xs h
cleaners-wake s (suc i) (following heard ∷ xs) h = cleaners-wake s i xs h
cleaners-wake s (suc i) (returned r ∷ xs) h = cleaners-wake s i xs h

pub one_following : leaders (following false ∷ []) ≡ 0
unfolding leaders
one_following = refl

pub none_cleans : cleaners (following false ∷ []) ≡ 0
unfolding cleaners
none_cleans = refl

pub none_lead : (result : ShutdownResult) → leaders (returned result ∷ []) ≡ 0
unfolding leaders
none_lead result = refl

pub drained-leads : (s : LifecycleState) → leaders (drained s ∷ []) ≡ 1
unfolding leaders
drained-leads s = ground arith

pub drained-cleans : (s : LifecycleState) → 0 < cleaners (drained s ∷ []) → s.active ≡ 0
unfolding cleaners
drained-cleans s h = ground arith

pub no_leaders : leaders [] ≡ 0
unfolding leaders
no_leaders = refl

pub leaders-notify : (xs : List Caller) → leaders (notify_all xs) ≡ leaders xs
unfolding leaders notify_all
leaders-notify [] = refl
leaders-notify (awaiting_drain heard ∷ xs) = omega (arith, leaders-notify xs)
leaders-notify (leading ∷ xs) = omega (arith, leaders-notify xs)
leaders-notify (following heard ∷ xs) = leaders-notify xs
leaders-notify (returned r ∷ xs) = leaders-notify xs

pub cleaners-notify : (xs : List Caller) → cleaners (notify_all xs) ≡ cleaners xs
unfolding cleaners notify_all
cleaners-notify [] = refl
cleaners-notify (leading ∷ xs) = omega (arith, cleaners-notify xs)
cleaners-notify (awaiting_drain heard ∷ xs) = cleaners-notify xs
cleaners-notify (following heard ∷ xs) = cleaners-notify xs
cleaners-notify (returned r ∷ xs) = cleaners-notify xs

wakes_or_not :
    (s : LifecycleState) (c : Caller) → (wake_notified s c ≡ wake s c) ⊎ (wake_notified s c ≡ c)
wakes_or_not s c = elim (Bool-cases (is_notified c)) [
  | inl heard ↦ inl (rw heard refl)
  | inr unheard ↦ inr (rw unheard refl)
]

-- A wake-up on notification is any wake-up, or nothing.
pub notified-wakes :
    (s : LifecycleState) (i : ℕ) (xs : List Caller)
    → (at_caller i (wake_notified s) xs ≡ at_caller i (wake s) xs)
      ⊎ (at_caller i (wake_notified s) xs ≡ xs)
unfolding at_caller
notified-wakes s i [] = inl refl
notified-wakes s zero (c ∷ xs) = elim (wakes_or_not s c) [
  | inl does ↦ inl (ap (λ x. x ∷ xs) does)
  | inr does_not ↦ inr (ap (λ x. x ∷ xs) does_not)
]
notified-wakes s (suc i) (c ∷ xs) = elim (notified-wakes s i xs) [
  | inl does ↦ inl (ap (λ ys. c ∷ ys) does)
  | inr does_not ↦ inr (ap (λ ys. c ∷ ys) does_not)
]
