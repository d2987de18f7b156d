-- ===== src/Control/AppSessions/Access.antt =====
-- Whom `authenticate_cookie` of apps/control-plane/src/state.rs lets in.
use fanzloud.Base.{
  ℕ, ◌+◌, ◌≡◌, refl, sym, subst, ◌∙◌, ◌⊎◌, ◌↔◌, inl, inr, Bool, true, Option, none, some, List, [],
  ◌∷◌, ok, length, All, arith, Bool-cases, if◌then◌else◌,
}
use fanzloud.Control.Bytes.{fixed_token_compare_exact}
use fanzloud.Control.Cookie.{Headers, parse_cookie}
use fanzloud.Control.Cookie.Parsed.{parse_cookie-size}
use fanzloud.Control.AppSessions.{
  AppSession, AppSessionRegistry, AppSessionLease, prune_expired, is_match, matched_from,
  lease_matched, authenticate_cookie,
}
use fanzloud.Control.AppSessions.Sound.{IsFree, IsDistinct, IsSized, IsSound}
use fanzloud.Control.AppSessions.Methods.{prune_expired-IsSound}
use fanzloud.Control.AppSessions.Pruned.{Opens, Any, Found-prune}

at_own_seq :
    {token : List ℕ} {now seq : ℕ} (s : AppSession)
    → Opens token now seq s
    → Opens token now s.issuance_seq s
at_own_seq s o = record {
  same_token = o.same_token;
  same_seq = refl;
  valid = o.valid;
  unexpired = o.unexpired;
}

module _ (token : List ℕ) (valid : Bool) (now : ℕ) (size : length token ≡ 43) where
  abbrev test : AppSession → Bool
  test = is_match token valid now

  match_opens :
      (s : AppSession)
      → IsSized s
      → (test s ≡ true) ↔ ((valid ≡ true) × Opens token now s.issuance_seq s)
  match_opens s sized =
      let exact = (fixed_token_compare_exact s.token token (sized ∙ sym size)).0 in
      (
        λ e. (
          ground (arith, e),
          record {
            same_token = exact.0 (ground (arith, e));
            same_seq = refl;
            valid = ground (arith, e);
            unexpired = ground (arith, e);
          },
        ),
        λ h.
            let (valid_now, o) = h in
            ground (arith, exact.1 o.same_token, o.valid, o.unexpired, valid_now),
      )

  abbrev Matched : List AppSession → AppSession → Type 0
  Matched ss s = (valid ≡ true) × (s.token ≡ token) × Any (Opens token now s.issuance_seq) ss

  -- What is found is the session found so far, or one of the list that matches.
  Matched-sound :
      (index : ℕ) (found : Option (ℕ × AppSession)) (ss : List AppSession) (at : ℕ) (s : AppSession)
      → All IsSized ss
      → matched_from test index found ss ≡ some (at, s)
      → (found ≡ some (at, s)) ⊎ Matched ss s
  unfolding matched_from
  Matched-sound index found [] at s sized e = inl e
  Matched-sound index found (x ∷ ss) at s sized e = elim (Bool-cases (test x)) [
    | inl hit ↦ elim (Matched-sound (index + 1) (some (index, x)) ss at s sized.1 (ground arith)) [
      | inl this ↦
          let same : x ≡ s = ground arith in
          let (valid_now, o) = (match_opens x sized.0).0 hit in
          inr (subst (Matched (x ∷ ss)) same (valid_now, o.same_token, inl o))
      | inr (valid_now, given, rest) ↦ inr (valid_now, given, inr rest)
    ]
    | inr miss ↦ elim (Matched-sound (index + 1) found ss at s sized.1 (ground arith)) [
      | inl this ↦ inl this
      | inr (valid_now, given, rest) ↦ inr (valid_now, given, inr rest)
    ]
  ]

  matched_free :
      (index : ℕ) (found : Option (ℕ × AppSession)) (ss : List AppSession)
      → All IsSized ss
      → All (IsFree token) ss
      → matched_from test index found ss ≡ found
  unfolding matched_from
  matched_free index found [] sized free = refl
  matched_free index found (x ∷ ss) sized free = elim (Bool-cases (test x)) [
    | inl hit ↦ absurd (free.0 ((match_opens x sized.0).0 hit).1.same_token)
    | inr miss ↦ ground (arith, matched_free (index + 1) found ss sized.1 free.1)
  ]

  matched_complete :
      (index seq : ℕ) (found : Option (ℕ × AppSession)) (ss : List AppSession)
      → valid ≡ true
      → All IsSized ss
      → IsDistinct ss
      → Any (Opens token now seq) ss
      → (at : ℕ) × (s : AppSession) × (matched_from test index found ss ≡ some (at, s))
        × (s.issuance_seq ≡ seq)
        × (s.token ≡ token)
  unfolding matched_from
  matched_complete index seq found [] valid_now sized apart h = absurd h
  matched_complete index seq found (x ∷ ss) valid_now sized apart (inr later) =
      matched_complete (index + 1) seq (if test x then some (index, x) else found) ss valid_now
        sized.1 apart.1 later
  matched_complete index seq found (x ∷ ss) valid_now sized apart (inl o) =
      let hit = (match_opens x sized.0).1 (valid_now, at_own_seq x o) in
      let rest = subst (λ t. All (IsFree t) ss) o.same_token apart.0 in
      (
        index,
        x,
        rw hit (matched_free (index + 1) (some (index, x)) ss sized.1 rest),
        o.same_seq,
        o.same_token,
      )

lease_lem :
    (p : AppSessionRegistry) (found : Option (ℕ × AppSession)) (lease : AppSessionLease)
    → ((lease_matched p found).1 ≡ ok lease) ↔ (
        (at : ℕ) × (s : AppSession) × (found ≡ some (at, s))
        × (s.issuance_seq ≡ lease.issuance_seq)
        × (s.token ≡ lease.token))
lease_lem p none lease = (λ e. cc, λ h. cc (h.2))
lease_lem p (some (at, s)) lease =
    (λ e. (at, s, refl, ground arith, ground arith), λ h. ground (arith, h.2, h.3, h.4))

-- On a sound registry a request is let in exactly when its cookie header is well formed and some
-- session that is neither invalidated nor expired has the cookie's token; the lease is for that
-- session and carries that token.
pub authenticate_cookie_exact :
    (r : AppSessionRegistry) (headers : Headers) (now : ℕ) (lease : AppSessionLease)
    → IsSound r
    → ((authenticate_cookie r headers now).1 ≡ ok lease) ↔ (
        ((parse_cookie headers).1 ≡ true)
        × (lease.token ≡ (parse_cookie headers).0)
        × Any (Opens (parse_cookie headers).0 now lease.issuance_seq) r.sessions)
unfolding authenticate_cookie
authenticate_cookie_exact r headers now lease h =
    let token = (parse_cookie headers).0 in
    let valid = (parse_cookie headers).1 in
    let size = parse_cookie-size headers in
    let p = prune_expired r now in
    let sound = prune_expired-IsSound r h now in
    let found = matched_from (is_match token valid now) 0 none p.sessions in
    let leased = lease_lem p found lease in
    (
      λ e.
          let (at, s, hit, seq, same) = leased.0 e in
          elim (Matched-sound token valid now size 0 none p.sessions at s sound.sized hit) [
            | inl never ↦ cc
            | inr (valid_now, given, any) ↦ (
              valid_now,
              sym same ∙ given,
              (Found-prune token now lease.issuance_seq r h).0
                  (subst (λ n. Any (Opens token now n) p.sessions) seq any),
            )
          ],
      λ k.
          let (valid_now, given, any) = k in
          let (at, s, hit, seq, same) =
            matched_complete token valid now size 0 lease.issuance_seq none p.sessions valid_now
              sound.sized sound.distinct ((Found-prune token now lease.issuance_seq r h).1 any) in
          leased.1 (at, s, hit, seq, same ∙ sym given),
    )
