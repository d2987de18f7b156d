-- ===== src/Control/AppSessions/Pruned.antt =====
-- Which of the operator's sessions of apps/control-plane/src/state.rs `prune_expired` leaves valid.
use fanzloud.Base.{
  ℕ, ◌<◌, ◌≡◌, sym, subst, ◌⊎◌, ◌↔◌, inl, inr, Bool, true, false, List, [], ◌∷◌, arith, Bool-cases,
}
use fanzloud.Control.AppSessions.{
  AppSession, AppSessionRegistry, expire, is_retained, expire_all, retain_all, prune_expired,
}
use fanzloud.Control.AppSessions.Sound.{IsSound}
use fanzloud.Control.AppSessions.Methods.{prune_expired-sessions}

-- The session with this token and number, which is valid at `now`.
pub record Opens (token : List ℕ) (now seq : ℕ) (s : AppSession) : Type 0 where
  pub same_token : s.token ≡ token
  pub same_seq : s.issuance_seq ≡ seq
  pub valid : s.invalidated ≡ false
  pub unexpired : now < s.expires_at

abbrev pub Any : (AppSession → Type 0) → List AppSession → Type 0
Any P [] = ⊥
Any P (s ∷ ss) = P s ⊎ Any P ss

pub clash : (b : Bool) → b ≡ true → b ≡ false → ⊥
clash b e f = cc

module _ (token : List ℕ) (now seq : ℕ) where
  pub opens_expired : (s : AppSession) → Opens token now seq (expire now s) ↔ Opens token now seq s
  opens_expired s = (
    λ o. record {
      same_token = ground (arith, o.same_token);
      same_seq = ground (arith, o.same_seq);
      valid = ground (arith, o.valid);
      unexpired = ground (arith, o.valid);
    },
    λ o. record {
      same_token = ground (arith, o.same_token);
      same_seq = ground (arith, o.same_seq);
      valid = ground (arith, o.valid, o.unexpired);
      unexpired = ground (arith, o.valid, o.unexpired);
    },
  )

  pub opens_retained : (s : AppSession) → Opens token now seq s → is_retained s ≡ true
  opens_retained s o = ground (arith, o.valid)

  abbrev pub Found : List AppSession → Type 0
  Found ss = Any (Opens token now seq) ss

  pub Found-cons :
      {s t : AppSession} (ss ts : List AppSession)
      → Opens token now seq s ↔ Opens token now seq t
      → Found ss ↔ Found ts
      → Found (s ∷ ss) ↔ Found (t ∷ ts)
  Found-cons ss ts e k = (
    λ h. elim h [ inl o ↦ inl (e.0 o) | inr o ↦ inr (k.0 o) ],
    λ h. elim h [ inl o ↦ inl (e.1 o) | inr o ↦ inr (k.1 o) ],
  )

  pub Found-nil : Found (retain_all []) ↔ Found []
  unfolding retain_all
  Found-nil = (λ h. h, λ h. h)

  pub retain_kept :
      (s : AppSession) (ss : List AppSession)
      → is_retained s ≡ true
      → s ∷ retain_all ss ≡ retain_all (s ∷ ss)
  unfolding retain_all
  retain_kept s ss kept = ground arith

  pub retain_gone :
      (s : AppSession) (ss : List AppSession)
      → is_retained s ≡ false
      → retain_all ss ≡ retain_all (s ∷ ss)
  unfolding retain_all
  retain_gone s ss gone = ground arith

  pub Found-retain : (ss : List AppSession) → Found (retain_all ss) ↔ Found ss
  Found-retain [] = Found-nil
  Found-retain (s ∷ ss) = elim (Bool-cases (is_retained s)) [
    | inl kept ↦
        subst (λ ts. Found ts ↔ Found (s ∷ ss)) (retain_kept s ss kept)
          (Found-cons (retain_all ss) ss (λ o. o, λ o. o) (Found-retain ss))
    | inr gone ↦
        subst (λ ts. Found ts ↔ Found (s ∷ ss)) (retain_gone s ss gone)
          (
            λ h. inr ((Found-retain ss).0 h),
            λ h. elim h [
              | inl o ↦ absurd (clash (is_retained s) (opens_retained s o) gone)
              | inr o ↦ (Found-retain ss).1 o
            ],
          )
  ]

  pub Found-expire : (ss : List AppSession) → Found (expire_all now ss) ↔ Found ss
  unfolding expire_all
  Found-expire [] = (λ h. h, λ h. h)
  Found-expire (s ∷ ss) = Found-cons (expire_all now ss) ss (opens_expired s) (Found-expire ss)

  -- Pruning keeps what opens.
  pub Found-prune :
      (r : AppSessionRegistry) → IsSound r → Found (prune_expired r now).sessions ↔ Found r.sessions
  Found-prune r h =
      subst (λ ts. Found ts ↔ Found r.sessions) (sym (prune_expired-sessions r h now))
        (
          λ o. (Found-expire r.sessions).0 ((Found-retain (expire_all now r.sessions)).0 o),
          λ o. (Found-retain (expire_all now r.sessions)).1 ((Found-expire r.sessions).1 o),
        )
