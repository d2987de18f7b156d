-- ===== src/Control/AppSessions/Grant.antt =====
-- A session of apps/control-plane/src/state.rs from its issue to its removal.
use fanzloud.Base.{
  ℕ, ◌+◌, ◌/◌, ◌↔◌, ◌≤◌, ◌<◌, ◌≡◌, ◌≢◌, refl, sym, ap, subst, ◌==◌, inl, inr, Bool, true, Option,
  none, some, List, [], ◌∷◌, ◌++◌, Result, ok, err, All, arith, Bool-cases, u64_max,
}
use fanzloud.Session.Types.{P0SessionIdentity}
use fanzloud.Control.Request.{ApiError, CachedResponse}
use fanzloud.Control.Transport.{common_headers, json, bootstrap}
use fanzloud.Control.HttpConfig.{nanos_per_sec}
use fanzloud.Control.Bytes.{codes}
use fanzloud.Control.Cookie.Parsed.{IsPlain, own_pair, parse_cookie-own}
use fanzloud.Control.AppSessions.{
  AppSession, AppSessionRegistry, prune_expired, authenticate_cookie, release_first,
  release_app_session, left, is_finished,
}
use fanzloud.Control.AppSessions.Issue.{
  Codec, Entropy, new_session, draw_token, checked_add, session_response, cookie_text, issue,
  issue_drawn, create_app_session,
}
use fanzloud.Control.AppSessions.Sound.{Ascending, IsSound}
use fanzloud.Control.AppSessions.Calls.{
  Outcome, create, draw_token-fresh, call-Changes, Changes-IsSound,
}
use fanzloud.Control.AppSessions.Access.{authenticate_cookie_exact}
use fanzloud.Control.AppSessions.Pruned.{Any, Opens}

module _ (codec : Codec) (identity : P0SessionIdentity) (session_lifetime : ℕ) where
  issue-Issued :
      (now : ℕ) (p q : AppSessionRegistry) (token : List ℕ) (response : CachedResponse)
      → issue codec identity session_lifetime now p token ≡ (q, ok response)
      → (q.sessions ≡ p.sessions ++ new_session token (now + session_lifetime) q.issuance_seq ∷ [])
        × (session_response codec identity session_lifetime token ≡ ok response)
  unfolding issue checked_add
  issue-Issued now p q token response e = ground arith

  drawn_token :
      (now : ℕ) (p q : AppSessionRegistry) (drawn : Result ApiError (Option (List ℕ)))
      (response : CachedResponse)
      → issue_drawn codec identity session_lifetime now p drawn ≡ (q, ok response)
      → (token : List ℕ) × (drawn ≡ ok (some token))
        × (q.sessions
            ≡ p.sessions ++ new_session token (now + session_lifetime) q.issuance_seq ∷ [])
        × (session_response codec identity session_lifetime token ≡ ok response)
  drawn_token now p q (err error) response e = cc
  drawn_token now p q (ok none) response e = cc
  drawn_token now p q (ok (some token)) response e =
      let (all, answered) = issue-Issued now p q token response e in (token, refl, all, answered)

  created :
      (entropy : Entropy) (now : ℕ) (r q : AppSessionRegistry) (response : CachedResponse)
      → create_app_session codec identity session_lifetime entropy now r ≡ (q, ok response)
      → issue_drawn codec identity session_lifetime now
          (prune_expired r now)
          (draw_token codec.base64 entropy (prune_expired r now).sessions 8 0)
        ≡ (q, ok response)
  unfolding create_app_session
  created entropy now r q response e = ground arith

  answered_cookie :
      (token : List ℕ) (response : CachedResponse)
      → session_response codec identity session_lifetime token ≡ ok response
      → (lead : List (List ℕ × List ℕ)) × (response.headers
          ≡ lead ++ (codes "set-cookie", cookie_text token (session_lifetime / nanos_per_sec)) ∷ [])
  unfolding session_response bootstrap json
  answered_cookie token response e =
      (common_headers (some (codes "application/json")), ground arith)

  Any-last :
      (P : AppSession → Type 0) (ss : List AppSession) (s : AppSession) → P s → Any P (ss ++ s ∷ [])
  Any-last P [] s h = inl h
  Any-last P (t ∷ ss) s h = inr (Any-last P ss s h)

  -- A session that was created lets its holder in: where the encoding gives no space and no
  -- semicolon, the response sets a cookie with a token of its own, and a request that sends this
  -- cookie back is let in, under the number that was issued last, as long as the lifetime has not
  -- passed.
  pub create_app_session-authenticates :
      (entropy : Entropy) (now later : ℕ) (r q : AppSessionRegistry) (response : CachedResponse)
      → ((random : List ℕ) → All IsPlain (codec.base64 random))
      → IsSound r
      → r.issuance_seq < u64_max
      → create_app_session codec identity session_lifetime entropy now r ≡ (q, ok response)
      → later < now + session_lifetime
      → (token : List ℕ) × ((lead : List (List ℕ × List ℕ)) × (response.headers
            ≡ lead
              ++ (codes "set-cookie", cookie_text token (session_lifetime / nanos_per_sec)) ∷ []))
        × ((authenticate_cookie q ((codes "cookie", own_pair token) ∷ []) later).1
            ≡ ok (record { token = token; issuance_seq = q.issuance_seq }))
  create_app_session-authenticates entropy now later r q response plain h room e within =
      let p = prune_expired r now in
      let drawn = draw_token codec.base64 entropy p.sessions 8 0 in
      let (token, given, all, answered) =
        drawn_token now p q drawn response (created entropy now r q response e) in
      let (size, fresh, (attempt, random, chosen, coded)) =
        draw_token-fresh codec.base64 entropy p.sessions 8 0 token given in
      let changed = call-Changes codec identity session_lifetime r (create entropy now) h room in
      let sound : IsSound q =
        subst IsSound (ap (λ (x : Outcome). x.0) e)
          (Changes-IsSound codec identity session_lifetime changed h).0 in
      let read = parse_cookie-own token (subst (All IsPlain) coded (plain random)) size in
      let opens =
        Any-last (Opens token later q.issuance_seq) p.sessions
          (new_session token (now + session_lifetime) q.issuance_seq)
          (record { same_token = refl; same_seq = refl; valid = refl; unexpired = within }) in
      (
        token,
        answered_cookie token response answered,
        (authenticate_cookie_exact q ((codes "cookie", own_pair token) ∷ []) later
              (record { token = token; issuance_seq = q.issuance_seq }) sound).1
            (
              ap (λ (x : List ℕ × Bool). x.1) read,
              sym (ap (λ (x : List ℕ × Bool). x.0) read),
              subst (λ t. Any (Opens t later q.issuance_seq) q.sessions)
                  (sym (ap (λ (x : List ℕ × Bool). x.0) read))
                  (subst (Any (Opens token later q.issuance_seq)) (sym all) opens),
            ),
      )

abbrev pub IsOther : ℕ → AppSession → Type 0
IsOther seq s = s.issuance_seq ≢ seq

Ascending-others :
    (low seq : ℕ) (ss : List AppSession) → Ascending low ss → seq ≤ low → All (IsOther seq) ss
Ascending-others low seq [] h le = tt
Ascending-others low seq (s ∷ ss) h le =
    (omega arith, Ascending-others s.issuance_seq seq ss h.1 (omega arith))

release_first-exact :
    (low seq : ℕ) (ss : List AppSession)
    → Ascending low ss
    → ((release_first seq ss).1 ≡ true) ↔ All (IsOther seq) (release_first seq ss).0
unfolding release_first
release_first-exact low seq [] h = (λ e. tt, λ k. refl)
release_first-exact low seq (s ∷ ss) h = elim (Bool-cases (s.issuance_seq == seq)) [
  | inr elsewhere ↦
      let later = release_first-exact s.issuance_seq seq ss h.1 in
      rw elsewhere (λ e. (ground (arith, elsewhere), later.0 e), λ k. later.1 k.1)
  | inl here ↦ elim (Bool-cases (is_finished (left s))) [
    | inl done ↦
        rw (here, done)
          (λ e. Ascending-others s.issuance_seq seq ss h.1 (ground (arith, here)), λ k. refl)
    | inr not_yet ↦ rw (here, not_yet) (λ e. cc, λ k. absurd (k.0 (ground (arith, here))))
  ]
]

-- On a sound registry, the end of a request has the idempotency entries of its session released
-- exactly when no session with its number is left.
pub release_app_session_exact :
    (r : AppSessionRegistry) (seq : ℕ)
    → IsSound r
    → ((release_app_session r seq).1 ≡ true)
      ↔ All (IsOther seq) (release_app_session r seq).0.sessions
unfolding release_app_session
release_app_session_exact r seq h = release_first-exact 0 seq r.sessions h.ascending
