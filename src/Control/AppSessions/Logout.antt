-- ===== src/Control/AppSessions/Logout.antt =====
-- A session of apps/control-plane/src/state.rs that was logged out.
use fanzloud.Base.{
  ℕ, ◌+◌, ◌≤◌, ◌≡◌, refl, sym, ap, subst, ◌∙◌, ◌==◌, ◌&&◌, inl, inr, true, Option, none, some, List,
  [], ◌∷◌, ok, err, length, All, All-append, All-map, arith, Bool-cases, Result-cases, u64_max,
}
use fanzloud.Session.Types.{P0SessionIdentity}
use fanzloud.Control.Request.{ApiError}
use fanzloud.Control.ApiErrors.{authentication_required}
use fanzloud.Control.Bytes.{fixed_token_eq, fixed_token_compare_exact}
use fanzloud.Control.Cookie.{Headers, parse_cookie}
use fanzloud.Control.Cookie.Parsed.{parse_cookie-size}
use fanzloud.Control.AppSessions.{
  AppSession, AppSessionRegistry, AppSessionLease, prune_expired, is_match, matched_from,
  lease_matched, authenticate_cookie, invalidate_first, invalidate_cookie,
}
use fanzloud.Control.AppSessions.Issue.{Codec, new_session}
use fanzloud.Control.AppSessions.Sound.{
  IsFree, IsDistinct, IsSized, IsSound, IsKept, Thins, All-Thins, AreSound-Thins,
}
use fanzloud.Control.AppSessions.Methods.{invalidate_first-Thins}
use fanzloud.Control.AppSessions.Calls.{
  Call, authenticate, run-IsSound, Changes, thinned, issued, Draws, call, run, call-Changes,
  Changes-IsSound,
}
use fanzloud.Control.AppSessions.Access.{authenticate_cookie_exact}
use fanzloud.Control.AppSessions.Pruned.{Any, Opens}

-- Every session with the token is invalidated.
abbrev pub IsDead : List ℕ → AppSession → Type 0
IsDead token s = s.token ≡ token → s.invalidated ≡ true

-- The token is that of the session with the number.
abbrev IsOwn : List ℕ → ℕ → AppSession → Type 0
IsOwn token seq s = s.token ≡ token → s.issuance_seq ≡ seq

IsDead-kept : (token : List ℕ) (s t : AppSession) → IsKept s t → IsDead token t → IsDead token s
IsDead-kept token s t e h = λ same. e.stays (h (sym e.same_token ∙ same))

IsOwn-kept :
    (token : List ℕ) (seq : ℕ) (s t : AppSession)
    → IsKept s t
    → IsOwn token seq t
    → IsOwn token seq s
IsOwn-kept token seq s t e h = λ same. e.same_seq ∙ h (sym e.same_token ∙ same)

IsOwn-free :
    (token : List ℕ) (seq : ℕ) (ss : List AppSession)
    → All (IsFree token) ss
    → All (IsOwn token seq) ss
IsOwn-free token seq ss h = All-map (λ s free same. absurd (free same)) ss h

Any-free :
    (token : List ℕ) (now seq : ℕ) (ss : List AppSession)
    → All (IsFree token) ss
    → Any (Opens token now seq) ss
    → ⊥
Any-free token now seq [] free h = h
Any-free token now seq (s ∷ ss) free (inl o) = free.0 o.same_token
Any-free token now seq (s ∷ ss) free (inr later) = Any-free token now seq ss free.1 later

Any-dead :
    (token : List ℕ) (now seq : ℕ) (ss : List AppSession)
    → All (IsDead token) ss
    → Any (Opens token now seq) ss
    → ⊥
Any-dead token now seq [] dead h = h
Any-dead token now seq (s ∷ ss) dead (inl o) = cc (dead.0 o.same_token, o.valid)
Any-dead token now seq (s ∷ ss) dead (inr later) = Any-dead token now seq ss dead.1 later

opened-IsOwn :
    (token : List ℕ) (now seq : ℕ) (ss : List AppSession)
    → IsDistinct ss
    → Any (Opens token now seq) ss
    → All (IsOwn token seq) ss
opened-IsOwn token now seq [] apart h = absurd h
opened-IsOwn token now seq (s ∷ ss) apart (inl o) = (
  λ same. o.same_seq,
  IsOwn-free token seq ss (subst (λ t. All (IsFree t) ss) o.same_token apart.0),
)
opened-IsOwn token now seq (s ∷ ss) apart (inr later) = (
  λ same. absurd (Any-free token now seq ss (subst (λ t. All (IsFree t) ss) same apart.0) later),
  opened-IsOwn token now seq ss apart.1 later,
)

invalidate-IsDead :
    (token : List ℕ) (seq : ℕ) (ss : List AppSession)
    → length token ≡ 43
    → All IsSized ss
    → IsDistinct ss
    → All (IsOwn token seq) ss
    → All (IsDead token) (invalidate_first token seq ss)
unfolding invalidate_first
invalidate-IsDead token seq [] size sized apart own = tt
invalidate-IsDead token seq (s ∷ ss) size sized apart own =
    let exact = (fixed_token_compare_exact s.token token (sized.0 ∙ sym size)).0 in
    elim (Bool-cases (s.issuance_seq == seq && fixed_token_eq s.token token)) [
      | inl here ↦
          let free = subst (λ t. All (IsFree t) ss) (exact.0 (ground (arith, here))) apart.0 in
          rw here (λ same. refl, All-map (λ x other same. absurd (other same)) ss free)
      | inr elsewhere ↦ rw elsewhere (
        λ same. absurd (ground (arith, own.0 same, exact.1 same, elsewhere)),
        invalidate-IsDead token seq ss size sized.1 apart.1 own.1,
      )
    ]

module _ (codec : Codec) (identity : P0SessionIdentity) (session_lifetime : ℕ) where
  -- None of the calls draws the token.
  abbrev pub Avoid : List ℕ → List Call → Type 0
  Avoid token [] = Unit {0}
  Avoid token (c ∷ calls) = (Draws codec identity session_lifetime c token → ⊥) × Avoid token calls

  Changes-IsDead :
      (Drawn : List ℕ → Type 0) (token : List ℕ) {r q : AppSessionRegistry}
      → Changes Drawn r q
      → (Drawn token → ⊥)
      → All (IsDead token) r.sessions
      → All (IsDead token) q.sessions
  Changes-IsDead Drawn token (thinned k le room) avoids h =
      All-Thins (IsDead token) (IsDead-kept token) k h
  Changes-IsDead Drawn token {r} (issued kept t expires_at k few size fresh drawn all next) avoids
        h =
      subst (All (IsDead token)) (sym all) (
        All-append (IsDead token) kept (new_session t expires_at (r.issuance_seq + 1) ∷ [])
          (All-Thins (IsDead token) (IsDead-kept token) k h)
          (λ same. absurd (avoids (subst Drawn same drawn)), tt))

  run-IsDead :
      (token : List ℕ) (r : AppSessionRegistry) (calls : List Call)
      → IsSound r
      → r.issuance_seq + length calls ≤ u64_max
      → Avoid token calls
      → All (IsDead token) r.sessions
      → All (IsDead token) (run codec identity session_lifetime r calls).sessions
  unfolding run
  run-IsDead token r [] h room avoids dead = dead
  run-IsDead token r (c ∷ calls) h room avoids dead =
      let changed = call-Changes codec identity session_lifetime r c h (omega arith) in
      let (sound, next) = Changes-IsSound codec identity session_lifetime changed h in
      run-IsDead token (call codec identity session_lifetime r c) calls sound (omega arith) avoids.1
        (Changes-IsDead (Draws codec identity session_lifetime c) token changed avoids.0 dead)

refused_lem :
    (p : AppSessionRegistry) (found : Option (ℕ × AppSession)) (error : ApiError)
    → (lease_matched p found).1 ≡ err error
    → error ≡ authentication_required
refused_lem p none error e = ground arith
refused_lem p (some (at, s)) error e = cc

dead_refused :
    (r : AppSessionRegistry) (headers : Headers) (now : ℕ)
    → IsSound r
    → All (IsDead (parse_cookie headers).0) r.sessions
    → (authenticate_cookie r headers now).1 ≡ err authentication_required
unfolding authenticate_cookie
dead_refused r headers now h dead = elim (Result-cases (authenticate_cookie r headers now).1) [
  | inl (lease, e) ↦ absurd (
      Any-dead (parse_cookie headers).0 now lease.issuance_seq r.sessions dead
        ((authenticate_cookie_exact r headers now lease h).0 e).2)
  | inr (error, e) ↦
      e
      ∙ ap err (
          refused_lem (prune_expired r now)
            (matched_from (is_match (parse_cookie headers).0 (parse_cookie headers).1 now) 0 none
              (prune_expired r now).sessions)
            error e)
]

quiet_Thins : {r q : AppSessionRegistry} → Changes (λ t. ⊥) r q → Thins q.sessions r.sessions
quiet_Thins (thinned k le room) = k
quiet_Thins (issued kept t expires_at k few size fresh drawn all next) = absurd drawn

logged_out :
    {token : List ℕ} (now : ℕ) (r q : AppSessionRegistry) (lease : AppSessionLease)
    → IsSound r
    → Thins q.sessions r.sessions
    → IsSound q
    → lease.token ≡ token
    → Any (Opens token now lease.issuance_seq) r.sessions
    → length token ≡ 43
    → All (IsDead lease.token) (invalidate_first lease.token lease.issuance_seq q.sessions)
logged_out {token} now r q lease h k sound given any size =
    let own = opened-IsOwn token now lease.issuance_seq r.sessions h.distinct any in
    let kept =
      All-Thins (IsOwn token lease.issuance_seq) (IsOwn-kept token lease.issuance_seq) k own in
    subst (λ t. All (IsDead t) (invalidate_first t lease.issuance_seq q.sessions)) (sym given)
      (invalidate-IsDead token lease.issuance_seq q.sessions size sound.sized sound.distinct kept)

-- A session that was let in and logged out stays out: after `invalidate_cookie` with its lease, and
-- any further calls of the methods that do not draw the same token again, a request with that token
-- is told that authentication is required, whenever it comes.
pub invalidate_cookie_final :
    (codec : Codec) (identity : P0SessionIdentity) (session_lifetime : ℕ) (r : AppSessionRegistry)
    (headers : Headers) (now : ℕ) (lease : AppSessionLease) (calls : List Call)
    (later_headers : Headers) (later : ℕ)
    → IsSound r
    → (authenticate_cookie r headers now).1 ≡ ok lease
    → r.issuance_seq + length calls + 1 ≤ u64_max
    → Avoid codec identity session_lifetime lease.token calls
    → (parse_cookie later_headers).0 ≡ lease.token
    → (authenticate_cookie
        (run codec identity session_lifetime
          (invalidate_cookie (authenticate_cookie r headers now).0 lease.token lease.issuance_seq)
          calls)
        later_headers
        later).1
      ≡ err authentication_required
unfolding invalidate_cookie
invalidate_cookie_final codec identity session_lifetime r headers now lease calls later_headers
      later h let_in room avoids same =
    let q = (authenticate_cookie r headers now).0 in
    let changed =
      call-Changes codec identity session_lifetime r (authenticate headers now) h (omega arith) in
    let (sound, next) = Changes-IsSound codec identity session_lifetime changed h in
    let (valid_now, given, any) = (authenticate_cookie_exact r headers now lease h).0 let_in in
    let dead =
      logged_out now r q lease h (quiet_Thins changed) sound given any
        (parse_cookie-size headers) in
    let thin = invalidate_first-Thins lease.token lease.issuance_seq q.sessions in
    let start = invalidate_cookie q lease.token lease.issuance_seq in
    let kept : IsSound start = AreSound-Thins thin sound in
    let near : start.issuance_seq ≤ r.issuance_seq + 1 = next in
    let after = run codec identity session_lifetime start calls in
    let still : IsSound after =
      run-IsSound codec identity session_lifetime start calls kept (omega arith) in
    dead_refused after later_headers later still (
      subst (λ t. All (IsDead t) after.sessions) (sym same)
        (run-IsDead codec identity session_lifetime lease.token start calls kept (omega arith)
          avoids dead))
