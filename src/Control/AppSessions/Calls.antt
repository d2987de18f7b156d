-- ===== src/Control/AppSessions/Calls.antt =====
-- Sequences of calls of the methods of apps/control-plane/src/state.rs on the operator's sessions.
use fanzloud.Base.{
  ℕ, zero, suc, ◌+◌, ◌≤◌, ◌<◌, ◌≡◌, refl, subst, sym, false, Option, none, some, List, [], ◌∷◌,
  ◌++◌, Result, ok, err, length, arith, Bool-cases, Option-cases, inl, inr, u64_max, leb,
}
use fanzloud.Session.Types.{P0SessionIdentity}
use fanzloud.Control.Request.{ApiError, CachedResponse}
use fanzloud.Control.Cookie.{Headers, parse_cookie}
use fanzloud.Control.AppSessions.{
  AppSession, AppSessionRegistry, prune_expired, live_count, any_token, matched_from, is_match,
  authenticate_cookie, lease_matched, invalidate_cookie, release_app_session, app_session_is_valid,
}
use fanzloud.Control.AppSessions.Issue.{
  Codec, Entropy, new_session, draw_token, checked_add, issue, issue_drawn, create_app_session,
}
use fanzloud.Control.AppSessions.Sound.{
  AreSound, IsSound, Thins, AreSound-Thins, AreSound-later, Thins-trans,
}
use fanzloud.Control.AppSessions.Methods.{
  prune_expired-Thins, at_index-Thins, invalidate_first-Thins, release_first-Thins, issued-AreSound,
}

abbrev pub IsDrawn : (List ℕ → List ℕ) → Entropy → List ℕ → Type 0
IsDrawn encode entropy token =
    (attempt : ℕ) × (random : List ℕ) × (entropy attempt ≡ some random) × (encode random ≡ token)

pub draw_token-fresh :
    (encode : List ℕ → List ℕ) (entropy : Entropy) (ss : List AppSession) (draws attempt : ℕ)
    (token : List ℕ)
    → draw_token encode entropy ss draws attempt ≡ ok (some token)
    → (length token ≡ 43) × (any_token token ss ≡ false) × IsDrawn encode entropy token
unfolding draw_token
draw_token-fresh encode entropy ss zero attempt token e = cc
draw_token-fresh encode entropy ss (suc draws) attempt token e =
    elim (Option-cases (entropy attempt)) [
      | inl failed ↦ absurd (ground arith)
      | inr (random, given) ↦ elim (Bool-cases (any_token (encode random) ss)) [
        | inl taken ↦ draw_token-fresh encode entropy ss draws (attempt + 1) token (ground arith)
        | inr free ↦ (ground arith, ground arith, (attempt, random, given, ground arith))
      ]
    ]

abbrev pub Outcome : Type 0
Outcome = AppSessionRegistry × Result ApiError CachedResponse

-- The sessions are thinned, and numbers are only used up; or one session more is issued, with a token
-- that may be drawn.
pub data Changes (Drawn : List ℕ → Type 0) (r : AppSessionRegistry)
    : AppSessionRegistry → Type 0 where
  thinned :
      {q : AppSessionRegistry}
      → Thins q.sessions r.sessions
      → r.issuance_seq ≤ q.issuance_seq
      → q.issuance_seq ≤ r.issuance_seq + 1
      → Changes Drawn r q
  issued :
      {q : AppSessionRegistry} (kept : List AppSession) (token : List ℕ) (expires_at : ℕ)
      → Thins kept r.sessions
      → live_count kept < 4
      → length token ≡ 43
      → any_token token kept ≡ false
      → Drawn token
      → q.sessions ≡ kept ++ new_session token expires_at (r.issuance_seq + 1) ∷ []
      → q.issuance_seq ≡ r.issuance_seq + 1
      → Changes Drawn r q

pub data Call : Type 0 where
  create : Entropy → ℕ → Call
  authenticate : Headers → ℕ → Call
  invalidate : List ℕ → ℕ → Call
  release : ℕ → Call
  check : ℕ → ℕ → Call

pub prune_expired-seq :
    (r : AppSessionRegistry) (now : ℕ) → (prune_expired r now).issuance_seq ≡ r.issuance_seq
unfolding prune_expired
prune_expired-seq r now = refl

lease-Changes :
    (Drawn : List ℕ → Type 0) (r p : AppSessionRegistry) (found : Option (ℕ × AppSession))
    → Thins p.sessions r.sessions
    → p.issuance_seq ≡ r.issuance_seq
    → Changes Drawn r (lease_matched p found).0
lease-Changes Drawn r p none k same = thinned k (omega arith) (omega arith)
lease-Changes Drawn r p (some (index, s)) k same =
    thinned (Thins-trans (at_index-Thins index p.sessions) k) (omega arith) (omega arith)

module _ (codec : Codec) (identity : P0SessionIdentity) (session_lifetime : ℕ) where
  abbrev pub call : AppSessionRegistry → Call → AppSessionRegistry
  call r (create entropy now) = (create_app_session codec identity session_lifetime entropy now r).0
  call r (authenticate headers now) = (authenticate_cookie r headers now).0
  call r (invalidate cookie seq) = invalidate_cookie r cookie seq
  call r (release seq) = (release_app_session r seq).0
  call r (check seq now) = (app_session_is_valid r seq now).0

  -- The tokens that a call may give out.
  abbrev pub Draws : Call → List ℕ → Type 0
  Draws (create entropy now) token = IsDrawn codec.base64 entropy token
  Draws _ token = ⊥

  unfoldable pub run : AppSessionRegistry → List Call → AppSessionRegistry
  run r [] = r
  run r (c ∷ calls) = run (call r c) calls

  module _ (Drawn : List ℕ → Type 0) (r p : AppSessionRegistry) (k : Thins p.sessions r.sessions)
      (same : p.issuance_seq ≡ r.issuance_seq) (room : r.issuance_seq < u64_max) where
    issue-Changes :
        (now : ℕ) (token : List ℕ)
        → live_count p.sessions < 4
        → length token ≡ 43
        → any_token token p.sessions ≡ false
        → Drawn token
        → Changes Drawn r (issue codec identity session_lifetime now p token).0
    unfolding issue
    issue-Changes now token few size fresh drawn =
        elim (Option-cases (checked_add now session_lifetime)) [
          | inl late ↦ rw (late, issue) (thinned k (omega arith) (omega arith))
          | inr (expires_at, sum) ↦
              rw (sum, issue)
                (issued p.sessions token expires_at k few size fresh drawn (ground arith)
                  (omega arith))
        ]

    issue_drawn-Changes :
        (now : ℕ) (drawn : Result ApiError (Option (List ℕ)))
        → live_count p.sessions < 4
        → ((token : List ℕ)
            → drawn ≡ ok (some token)
            → (length token ≡ 43) × (any_token token p.sessions ≡ false) × Drawn token)
        → Changes Drawn r (issue_drawn codec identity session_lifetime now p drawn).0
    issue_drawn-Changes now (err error) few fresh = thinned k (omega arith) (omega arith)
    issue_drawn-Changes now (ok none) few fresh = thinned k (omega arith) (omega arith)
    issue_drawn-Changes now (ok (some token)) few fresh =
        let (size, free, drawn) = fresh token refl in issue-Changes now token few size free drawn

  create-Changes :
      (r : AppSessionRegistry) (entropy : Entropy) (now : ℕ)
      → IsSound r
      → r.issuance_seq < u64_max
      → Changes
          (Draws (create entropy now))
          r
          (create_app_session codec identity session_lifetime entropy now r).0
  unfolding create_app_session
  create-Changes r entropy now h room =
      let p = prune_expired r now in
      elim (Bool-cases (leb 4 (live_count p.sessions))) [
        | inl full ↦ rw full (
            thinned (prune_expired-Thins r h now) (omega (arith, prune_expired-seq r now))
              (omega (arith, prune_expired-seq r now)))
        | inr few ↦ rw few (
            issue_drawn-Changes (Draws (create entropy now)) r p (prune_expired-Thins r h now)
              (prune_expired-seq r now) room now (draw_token codec.base64 entropy p.sessions 8 0)
              (ground arith) (draw_token-fresh codec.base64 entropy p.sessions 8 0))
      ]

  pub call-Changes :
      (r : AppSessionRegistry) (c : Call)
      → IsSound r
      → r.issuance_seq < u64_max
      → Changes (Draws c) r (call r c)
  unfolding authenticate_cookie invalidate_cookie release_app_session app_session_is_valid
  call-Changes r (create entropy now) h room = create-Changes r entropy now h room
  call-Changes r (authenticate headers now) h room =
      lease-Changes (Draws (authenticate headers now)) r (prune_expired r now)
        (matched_from (is_match (parse_cookie headers).0 (parse_cookie headers).1 now) 0 none
          (prune_expired r now).sessions)
        (prune_expired-Thins r h now) (prune_expired-seq r now)
  call-Changes r (invalidate cookie seq) h room =
      thinned (invalidate_first-Thins cookie seq r.sessions) (omega arith) (omega arith)
  call-Changes r (release seq) h room =
      thinned (release_first-Thins seq r.sessions) (omega arith) (omega arith)
  call-Changes r (check seq now) h room =
      thinned (prune_expired-Thins r h now) (omega (arith, prune_expired-seq r now))
        (omega (arith, prune_expired-seq r now))

  pub Changes-IsSound :
      {Drawn : List ℕ → Type 0} {r q : AppSessionRegistry}
      → Changes Drawn r q
      → IsSound r
      → IsSound q × (q.issuance_seq ≤ r.issuance_seq + 1)
  Changes-IsSound {r} {q} (thinned k le room) h = (AreSound-later (AreSound-Thins k h) le, room)
  Changes-IsSound {r} {q} (issued kept token expires_at k few size fresh drawn all next) h = (
    subst (λ n. AreSound n q.sessions) (sym next)
        (subst (AreSound (r.issuance_seq + 1)) (sym all) (
          issued-AreSound (new_session token expires_at (r.issuance_seq + 1)) r.issuance_seq kept
            (AreSound-Thins k h) few size fresh refl)),
    omega arith,
  )

  -- From a sound registry, any calls of the methods leave it sound, as long as the issuance counter
  -- does not reach its maximum: every token has 43 bytes, no two sessions share a token or a number,
  -- the sessions stand in the order of their numbers, and at most four are not invalidated.
  pub run-IsSound :
      (r : AppSessionRegistry) (calls : List Call)
      → IsSound r
      → r.issuance_seq + length calls ≤ u64_max
      → IsSound (run r calls)
  unfolding run
  run-IsSound r [] h room = h
  run-IsSound r (c ∷ calls) h room =
      let (sound, next) = Changes-IsSound (call-Changes r c h (omega arith)) h in
      run-IsSound (call r c) calls sound (omega arith)
