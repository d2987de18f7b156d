-- ===== src/Control/Mutation.antt =====
-- `execute_mutation` of apps/control-plane/src/state.rs: what a request does to the session and the
-- login, and how long its response is kept. The ports are a parameter: the state behind them, and for
-- each method what it makes of that state.
pub mod Guarded
pub mod Examples
use fanzloud.Base.{
  ℕ, ◌+◌, ◌*◌, Bool, true, false, Option, none, some, List, [], ◌∷◌, String, Result, ok, err, ◌==◌,
  if◌then◌else◌,
}
use fanzloud.Cloud.Lifecycle.{
  UnknownSubmitDecision, adopt_listed_task, abandon_after_reconciliation,
}
use fanzloud.Session.Types.{
  P0CloudLifecycle, P0TurnProjection, P0TurnSnapshot, P0SessionSnapshot, P0TurnReceipt,
  P0RecoveryCandidates,
}
use fanzloud.Session.Error.{P0SessionError}
use fanzloud.Control.Request.{ApiError, CachedResponse, new_error}
use fanzloud.Control.Entries.{CacheDisposition, retain, expire_at, remove_after_auth_session}
use fanzloud.Control.Bytes.{codes}
use fanzloud.Control.ApiErrors.{
  LoginPortError, map_login_error, map_session_error, service_unavailable,
}
use fanzloud.Control.Transport.{json, error_response, empty_logout}
use fanzloud.Control.HttpConfig.{nanos_per_sec}
use fanzloud.Control.AppSessions.{AppSessionRegistry, invalidate_cookie}
use fanzloud.Control.AppSessions.Issue.{checked_add}

pub data Mutation : Type 0 where
  -- cookie, session_seq
  logout : List ℕ → ℕ → Mutation
  start_device_login cancel_login cancel_turn reconcile : Mutation
  start_turn : String → Mutation
  -- operation_id, task_id
  adopt : ℕ → String → Mutation
  abandon : ℕ → Mutation

pub data LoginStatus : Type 0 where
  logged_out logged_in : LoginStatus
  device_login_pending outcome_unknown : ℕ → LoginStatus

pub record LoginInstructions : Type 0 where
  pub operation_id : ℕ
  pub verification_url : String
  pub verification_code : String
  pub expires_in_seconds : ℕ

-- `LoginPort` and `SessionPort`, with the encoders of what they give.
pub record Ports (W : Type 0) : Type 0 where
  pub start_device_login : W → W × Result LoginPortError LoginInstructions
  pub cancel_login : W → W × Result LoginPortError LoginStatus
  pub snapshot : W → W × Result P0SessionError P0SessionSnapshot
  pub start_turn : W → String → W × Result P0SessionError P0TurnReceipt
  pub cancel_turn : W → W × Result P0SessionError P0SessionSnapshot
  pub reconcile_unknown : W → W × Result P0SessionError P0RecoveryCandidates
  pub resolve_unknown : W → ℕ → UnknownSubmitDecision → W × Result P0SessionError P0SessionSnapshot
  pub login_to_vec : LoginInstructions → Option (List ℕ)
  pub status_to_vec : LoginStatus → Option (List ℕ)
  pub receipt_to_vec : P0TurnReceipt → Option (List ℕ)
  pub snapshot_to_vec : P0SessionSnapshot → Option (List ℕ)
  pub candidates_to_vec : P0RecoveryCandidates → Option (List ℕ)
  pub error_to_vec : ApiError → Option (List ℕ)

abbrev pub Answer : Type 0
Answer = CachedResponse × CacheDisposition

abbrev pub operation_changed : ApiError
operation_changed =
    new_error 409 "operation_changed" "current operation changed; refresh before retry"

abbrev pub is_unknown_of : ℕ → P0TurnProjection → Bool
is_unknown_of operation_id
      (P0TurnProjection.cloud (P0CloudLifecycle.outcome_unknown current) requested) =
    current == operation_id
is_unknown_of operation_id _ = false

abbrev pub turn_is_unknown_of : ℕ → Option P0TurnSnapshot → Bool
turn_is_unknown_of operation_id none = false
turn_is_unknown_of operation_id (some turn) = is_unknown_of operation_id turn.projection

unfoldable pub is_current_unknown : ℕ → P0SessionSnapshot → Bool
is_current_unknown operation_id snapshot = turn_is_unknown_of operation_id snapshot.current_turn

abbrev pub logout_cookie : List ℕ
logout_cookie = codes "__Host-codebox_p0=; Secure; HttpOnly; SameSite=Strict; Path=/; Max-Age=0"

-- The response is kept as long as the registry has room.
abbrev pub retained : Result ApiError CachedResponse → Result ApiError Answer
retained (ok response) = ok (response, retain)
retained (err error) = err error

-- A method of the session, its answer or its error.
abbrev pub session_answer {κ} :
    {A : Type κ} → (A → Option (List ℕ)) → ℕ → Result P0SessionError A → Result ApiError Answer
session_answer to_vec status (ok value) = retained (json to_vec status value)
session_answer to_vec status (err error) = err (map_session_error error)

abbrev pub kept_until : ℕ → Result ApiError CachedResponse → Result ApiError Answer
kept_until expires_at (ok response) = ok (response, expire_at expires_at)
kept_until expires_at (err error) = err error

module _ {W : Type 0} (ports : Ports W) where
  abbrev pub require_current :
      ℕ → W × Result P0SessionError P0SessionSnapshot → W × Result ApiError (Unit {0})
  require_current operation_id (w, err error) = (w, err (map_session_error error))
  require_current operation_id (w, ok snapshot) =
      if is_current_unknown operation_id snapshot then (w, ok tt) else (w, err operation_changed)

  unfoldable pub require_current_unknown : W → ℕ → W × Result ApiError (Unit {0})
  require_current_unknown w operation_id = require_current operation_id (ports.snapshot w)

  abbrev pub resolve_checked :
      ℕ → UnknownSubmitDecision → W × Result ApiError (Unit {0}) → W × Result ApiError Answer
  resolve_checked operation_id decision (w, err error) = (w, err error)
  resolve_checked operation_id decision (w, ok u) =
      let resolved = ports.resolve_unknown w operation_id decision in
      (resolved.0, session_answer ports.snapshot_to_vec 200 resolved.1)

  unfoldable pub resolve_current : W → ℕ → UnknownSubmitDecision → W × Result ApiError Answer
  resolve_current w operation_id decision =
      resolve_checked operation_id decision (require_current_unknown w operation_id)

  abbrev pub login_response : ℕ → LoginInstructions → Option ℕ → Result ApiError Answer
  login_response admitted_at interaction none = err service_unavailable
  login_response admitted_at interaction (some expires_at) =
      kept_until expires_at (json ports.login_to_vec 202 interaction)

  abbrev pub login_answer : ℕ → Result LoginPortError LoginInstructions → Result ApiError Answer
  login_answer admitted_at (err error) = err (map_login_error error)
  login_answer admitted_at (ok interaction) =
      login_response admitted_at interaction
        (checked_add admitted_at (interaction.expires_in_seconds * nanos_per_sec))

  abbrev pub status_answer : Result LoginPortError LoginStatus → Result ApiError Answer
  status_answer (err error) = err (map_login_error error)
  status_answer (ok status) = retained (json ports.status_to_vec 200 status)

  -- The sessions, the state behind the ports, and the answer.
  unfoldable pub try_execute_mutation :
      AppSessionRegistry → W → Mutation → ℕ → AppSessionRegistry × W × Result ApiError Answer
  try_execute_mutation r w (logout cookie session_seq) admitted_at = (
    invalidate_cookie r cookie session_seq,
    w,
    ok (empty_logout logout_cookie, remove_after_auth_session session_seq),
  )
  try_execute_mutation r w start_device_login admitted_at =
      let done = ports.start_device_login w in (r, done.0, login_answer admitted_at done.1)
  try_execute_mutation r w cancel_login admitted_at =
      let done = ports.cancel_login w in (r, done.0, status_answer done.1)
  try_execute_mutation r w (start_turn prompt) admitted_at =
      let done = ports.start_turn w prompt in
      (r, done.0, session_answer ports.receipt_to_vec 202 done.1)
  try_execute_mutation r w cancel_turn admitted_at =
      let done = ports.cancel_turn w in (r, done.0, session_answer ports.snapshot_to_vec 200 done.1)
  try_execute_mutation r w reconcile admitted_at =
      let done = ports.reconcile_unknown w in
      (r, done.0, session_answer ports.candidates_to_vec 200 done.1)
  try_execute_mutation r w (adopt operation_id task_id) admitted_at =
      let done = resolve_current w operation_id (adopt_listed_task task_id) in (r, done.0, done.1)
  try_execute_mutation r w (abandon operation_id) admitted_at =
      let done = resolve_current w operation_id (abandon_after_reconciliation operation_id) in
      (r, done.0, done.1)

  abbrev pub or_error : Result ApiError Answer → Answer
  or_error (ok answer) = answer
  or_error (err error) = (error_response ports.error_to_vec error, retain)

  unfoldable pub execute_mutation :
      AppSessionRegistry → W → Mutation → ℕ → AppSessionRegistry × W × Answer
  execute_mutation r w mutation admitted_at =
      let done = try_execute_mutation r w mutation admitted_at in (done.0, done.1, or_error done.2)
