-- ===== src/Control/AppSessions.antt =====
-- The operator's sessions of apps/control-plane/src/state.rs: `AppSessionRegistry` and the methods of
-- `Shared` that work on it under its lock. A token is its bytes and a `Duration` its nanoseconds.
pub mod Issue
pub mod Pruned
pub mod Sound
pub mod Methods
pub mod Calls
pub mod Access
pub mod Logout
pub mod Grant
pub mod Examples
use fanzloud.Base.{
  ℕ, zero, suc, ◌+◌, ◌-◌, Bool, true, false, not, ◌&&◌, ◌||◌, Option, none, some, List, [], ◌∷◌,
  Result, ok, err, ltb, leb, ◌==◌, if◌then◌else◌,
}
use fanzloud.Control.Request.{ApiError, saturating_add}
use fanzloud.Control.ApiErrors.{authentication_required}
use fanzloud.Control.Bytes.{fixed_token_eq}
use fanzloud.Control.Cookie.{Headers, parse_cookie}

abbrev pub max_app_sessions : ℕ
max_app_sessions = 4

abbrev pub max_cookie_draws : ℕ
max_cookie_draws = 8

pub record AppSession : Type 0 where
  pub token : List ℕ
  pub expires_at : ℕ
  pub issuance_seq : ℕ
  pub invalidated : Bool
  pub active_requests : ℕ

pub record AppSessionRegistry : Type 0 where
  pub sessions : List AppSession
  pub issuance_seq : ℕ

abbrev pub new_registry : AppSessionRegistry
new_registry = record { sessions = []; issuance_seq = 0 }

abbrev pub expire : ℕ → AppSession → AppSession
expire now s = if leb s.expires_at now then record s { invalidated = true } else s

abbrev pub is_retained : AppSession → Bool
is_retained s = not s.invalidated || not (s.active_requests == 0)

unfoldable pub expire_all : ℕ → List AppSession → List AppSession
expire_all now [] = []
expire_all now (s ∷ ss) = expire now s ∷ expire_all now ss

unfoldable pub retain_all : List AppSession → List AppSession
retain_all [] = []
retain_all (s ∷ ss) = let rest = retain_all ss in if is_retained s then s ∷ rest else rest

-- `sort_by_key`, which is stable.
unfoldable pub insert_by_seq : AppSession → List AppSession → List AppSession
insert_by_seq s [] = s ∷ []
insert_by_seq s (t ∷ ts) =
    let rest = insert_by_seq s ts in
    if leb s.issuance_seq t.issuance_seq then s ∷ t ∷ ts else t ∷ rest

unfoldable pub sort_by_seq : List AppSession → List AppSession
sort_by_seq [] = []
sort_by_seq (s ∷ ss) = insert_by_seq s (sort_by_seq ss)

unfoldable pub prune_expired : AppSessionRegistry → ℕ → AppSessionRegistry
prune_expired r now = record r { sessions = sort_by_seq (retain_all (expire_all now r.sessions)) }

unfoldable pub live_count : List AppSession → ℕ
live_count [] = 0
live_count (s ∷ ss) = if s.invalidated then live_count ss else suc (live_count ss)

unfoldable pub any_token : List ℕ → List AppSession → Bool
any_token bytes [] = false
any_token bytes (s ∷ ss) = fixed_token_eq s.token bytes || any_token bytes ss

pub record AppSessionLease : Type 0 where
  pub token : List ℕ
  pub issuance_seq : ℕ

abbrev pub is_match : List ℕ → Bool → ℕ → AppSession → Bool
is_match candidate syntactically_valid now s =
    syntactically_valid
    && fixed_token_eq s.token candidate
    && not s.invalidated
    && ltb now s.expires_at

-- The loop over the sessions: the last that matches counts, and its place is kept.
unfoldable pub matched_from :
    (AppSession → Bool) → ℕ → Option (ℕ × AppSession) → List AppSession → Option (ℕ × AppSession)
matched_from test index matched [] = matched
matched_from test index matched (s ∷ ss) =
    matched_from test (index + 1) (if test s then some (index, s) else matched) ss

unfoldable pub at_index : ℕ → (AppSession → AppSession) → List AppSession → List AppSession
at_index index f [] = []
at_index zero f (s ∷ ss) = f s ∷ ss
at_index (suc index) f (s ∷ ss) = s ∷ at_index index f ss

abbrev pub entered : AppSession → AppSession
entered s = record s { active_requests = saturating_add s.active_requests 1 }

abbrev pub lease_matched :
    AppSessionRegistry
    → Option (ℕ × AppSession)
    → AppSessionRegistry × Result ApiError AppSessionLease
lease_matched r none = (r, err authentication_required)
lease_matched r (some (index, s)) = (
  record r { sessions = at_index index entered r.sessions },
  ok (record { token = s.token; issuance_seq = s.issuance_seq }),
)

unfoldable pub authenticate_cookie :
    AppSessionRegistry → Headers → ℕ → AppSessionRegistry × Result ApiError AppSessionLease
authenticate_cookie r headers now =
    let (candidate, syntactically_valid) = parse_cookie headers in
    let pruned = prune_expired r now in
    lease_matched pruned
      (matched_from (is_match candidate syntactically_valid now) 0 none pruned.sessions)

-- `find`, and the change of what is found.
unfoldable pub invalidate_first : List ℕ → ℕ → List AppSession → List AppSession
invalidate_first cookie session_seq [] = []
invalidate_first cookie session_seq (s ∷ ss) =
    let rest = invalidate_first cookie session_seq ss in
    if s.issuance_seq == session_seq && fixed_token_eq s.token cookie
    then record s { invalidated = true } ∷ ss
    else s ∷ rest

unfoldable pub invalidate_cookie : AppSessionRegistry → List ℕ → ℕ → AppSessionRegistry
invalidate_cookie r cookie session_seq = record r {
  sessions = invalidate_first cookie session_seq r.sessions;
}

abbrev pub left : AppSession → AppSession
left s = record s { active_requests = s.active_requests - 1 }

abbrev pub is_finished : AppSession → Bool
is_finished s = s.invalidated && s.active_requests == 0

-- The sessions, and whether the idempotency entries of the session are to be released.
unfoldable pub release_first : ℕ → List AppSession → List AppSession × Bool
release_first session_seq [] = ([], true)
release_first session_seq (s ∷ ss) =
    let rest = release_first session_seq ss in
    if s.issuance_seq == session_seq
    then (if is_finished (left s) then (ss, true) else (left s ∷ ss, false))
    else (s ∷ rest.0, rest.1)

unfoldable pub release_app_session : AppSessionRegistry → ℕ → AppSessionRegistry × Bool
release_app_session r session_seq =
    let (sessions, remove_idempotency) = release_first session_seq r.sessions in
    (record r { sessions = sessions }, remove_idempotency)

unfoldable pub any_valid : ℕ → ℕ → List AppSession → Bool
any_valid session_seq now [] = false
any_valid session_seq now (s ∷ ss) =
    (s.issuance_seq == session_seq && not s.invalidated && ltb now s.expires_at)
    || any_valid session_seq now ss

unfoldable pub app_session_is_valid : AppSessionRegistry → ℕ → ℕ → AppSessionRegistry × Bool
app_session_is_valid r session_seq now =
    let pruned = prune_expired r now in (pruned, any_valid session_seq now pruned.sessions)
