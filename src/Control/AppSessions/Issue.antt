-- ===== src/Control/AppSessions/Issue.antt =====
-- `create_app_session` of apps/control-plane/src/state.rs.
use fanzloud.Base.{
  ℕ, zero, suc, ◌+◌, ◌-◌, ◌*◌, ◌/◌, ◌%◌, ◌^◌, Bool, true, false, Option, none, some, List, [], ◌∷◌,
  ◌++◌, length, Result, ok, err, ◌>>◌, ensure, String, ltb, leb, ◌==◌, if◌then◌else◌,
}
use fanzloud.Session.Types.{P0SessionIdentity}
use fanzloud.Control.Request.{ApiError, CachedResponse, new_error, saturating_add}
use fanzloud.Control.ApiErrors.{service_unavailable}
use fanzloud.Control.Transport.{bootstrap}
use fanzloud.Control.Bytes.{codes}
use fanzloud.Control.HttpConfig.{nanos_per_sec}
use fanzloud.Control.Cookie.{cookie_token_bytes}
use fanzloud.Control.WebSocket.Utf8.{is_utf8}
use fanzloud.Control.AppSessions.{
  AppSession, AppSessionRegistry, max_app_sessions, max_cookie_draws, prune_expired, live_count,
  any_token,
}

abbrev pub session_limit : ApiError
session_limit = new_error 429 "session_limit" "operator session limit reached"

-- What the source of entropy gives at each draw, if it does not fail: a parameter; and so is the
-- encoding as URL-safe base64.
abbrev pub Entropy : Type 0
Entropy = ℕ → Option (List ℕ)

unfoldable pub draw_token :
    (List ℕ → List ℕ) → Entropy → List AppSession → ℕ → ℕ → Result ApiError (Option (List ℕ))
draw_token encode entropy sessions zero attempt = ok none
draw_token encode entropy sessions (suc draws) attempt = elim (entropy attempt) [
  | none ↦ err service_unavailable
  | some random ↦ elim (length (encode random) == cookie_token_bytes) [
    | false ↦ err service_unavailable
    | true ↦ elim (any_token (encode random) sessions) [
      | true ↦ draw_token encode entropy sessions draws (attempt + 1)
      | false ↦ ok (some (encode random))
    ]
  ]
]

abbrev pub ok_or : {A : Type 0} → Option A → ApiError → Result ApiError A
ok_or none error = err error
ok_or (some a) error = ok a

-- The largest `Duration`, and `checked_add`.
abbrev pub duration_max : ℕ
duration_max = 2 ^ 64 * 10 ^ 9 - 1

unfoldable pub checked_add : ℕ → ℕ → Option ℕ
checked_add a b = if leb (a + b) duration_max then some (a + b) else none

-- A `u64` in decimal.
decimal_from : ℕ → ℕ → List ℕ
decimal_from zero n = []
decimal_from (suc fuel) n =
    let rest = decimal_from fuel (n / 10) in
    if ltb n 10 then (b'0' + n) ∷ [] else rest ++ (b'0' + n % 10) ∷ []

unfoldable pub decimal : ℕ → List ℕ
unfolding decimal_from
decimal n = decimal_from 20 n

abbrev pub cookie_text : List ℕ → ℕ → List ℕ
cookie_text token lifetime =
    codes "__Host-codebox_p0="
    ++ (token
        ++ (codes "; Secure; HttpOnly; SameSite=Strict; Path=/; Max-Age=" ++ decimal lifetime))

pub record BootstrapResponse : Type 0 where
  pub actor : String
  pub expires_in_seconds : ℕ
  pub p0_session_id : ℕ
  pub instance_id : ℕ

abbrev pub bootstrap_response : P0SessionIdentity → ℕ → BootstrapResponse
bootstrap_response identity expires_in_seconds = record {
  actor = "operator";
  expires_in_seconds = expires_in_seconds;
  p0_session_id = identity.session_id;
  instance_id = identity.instance_id;
}

-- What `create_app_session` needs of third parties: the encodings, and which bytes a `HeaderValue`
-- may hold.
pub record Codec : Type 0 where
  pub base64 : List ℕ → List ℕ
  pub bootstrap_to_vec : BootstrapResponse → Option (List ℕ)
  pub is_header_value : List ℕ → Bool

abbrev pub new_session : List ℕ → ℕ → ℕ → AppSession
new_session token expires_at seq = record {
  token = token;
  expires_at = expires_at;
  issuance_seq = seq;
  invalidated = false;
  active_requests = 0;
}

-- The response, once the session is in the registry.
unfoldable pub session_response :
    Codec → P0SessionIdentity → ℕ → List ℕ → Result ApiError CachedResponse
unfolding decimal
session_response codec identity session_lifetime token = do
  let lifetime = session_lifetime / nanos_per_sec
  ensure (is_utf8 token) service_unavailable
  ensure (codec.is_header_value (cookie_text token lifetime)) service_unavailable
  bootstrap codec.bootstrap_to_vec (bootstrap_response identity lifetime)
      (cookie_text token lifetime)

unfoldable pub issue :
    Codec
    → P0SessionIdentity
    → ℕ
    → ℕ
    → AppSessionRegistry
    → List ℕ
    → AppSessionRegistry × Result ApiError CachedResponse
unfolding checked_add
issue codec identity session_lifetime now r token =
    let seq = saturating_add r.issuance_seq 1 in
    elim (checked_add now session_lifetime) [
      | none ↦ (record r { issuance_seq = seq }, err service_unavailable)
      | some expires_at ↦ (
        record {
          sessions = r.sessions ++ new_session token expires_at seq ∷ [];
          issuance_seq = seq;
        },
        session_response codec identity session_lifetime token,
      )
    ]

abbrev pub issue_drawn :
    Codec
    → P0SessionIdentity
    → ℕ
    → ℕ
    → AppSessionRegistry
    → Result ApiError (Option (List ℕ))
    → AppSessionRegistry × Result ApiError CachedResponse
issue_drawn codec identity session_lifetime now r (err error) = (r, err error)
issue_drawn codec identity session_lifetime now r (ok none) = (r, err service_unavailable)
issue_drawn codec identity session_lifetime now r (ok (some token)) =
    issue codec identity session_lifetime now r token

unfoldable pub create_app_session :
    Codec
    → P0SessionIdentity
    → ℕ
    → Entropy
    → ℕ
    → AppSessionRegistry
    → AppSessionRegistry × Result ApiError CachedResponse
create_app_session codec identity session_lifetime entropy now r =
    let pruned = prune_expired r now in
    if leb max_app_sessions (live_count pruned.sessions)
    then (pruned, err session_limit)
    else issue_drawn codec identity session_lifetime now pruned
        (draw_token codec.base64 entropy pruned.sessions max_cookie_draws 0)
