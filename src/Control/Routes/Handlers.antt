-- ===== src/Control/Routes/Handlers.antt =====
-- The handlers of apps/control-plane/src/routes.rs, by route.
use fanzloud.Base.{
  ℕ, Bool, true, false, Option, none, some, List, String, Result, ok, err, ◌>>=◌, ◌>>◌, map_err,
}
use fanzloud.Cloud.TaskId.{CloudAdapterError, try_new}
use fanzloud.Cloud.Prompt.{try_new_prompt}
use fanzloud.Session.Types.{P0SessionSnapshot}
use fanzloud.Session.Error.{P0SessionError}
use fanzloud.Control.Request.{ApiError, CachedResponse, new_error}
use fanzloud.Control.Bytes.{codes}
use fanzloud.Control.ApiErrors.{LoginPortError, invalid_value, map_login_error, map_session_error}
use fanzloud.Control.Transport.{json, diff}
use fanzloud.Control.AppSessions.{AppSessionLease}
use fanzloud.Control.AppSessions.Issue.{Entropy, create_app_session}
use fanzloud.Control.Lifecycle.{LifecycleState, admit, drop_operation}
use fanzloud.Control.Mutation.{
  Mutation, logout, start_device_login, cancel_login, cancel_turn, reconcile, start_turn, adopt,
  abandon, LoginStatus, Ports,
}
use fanzloud.Control.Http.{
  get, post, delete, Request, JsonError, ensure_request_method, validate_headers, validate_origin,
  validate_bootstrap, read_empty,
}
use fanzloud.Control.Routes.{
  Settings, Shared, drop_admission, require_running, with_admitted, prepare_observation,
  prepare_empty_mutation, prepare_json_mutation,
}
use fanzloud.Control.Routes.Run.{Served, run_prepared}

-- What serde_json makes of the body of `resolve`; the operation is none where it is no identifier.
pub data ResolveDecisionBody : Type 0 where
  adopt_body : String → ResolveDecisionBody
  abandon_body : Option Bool → ResolveDecisionBody

pub record ResolveBody : Type 0 where
  pub operation_id : Option ℕ
  pub decision : ResolveDecisionBody

abbrev pub acknowledgement_required : ApiError
acknowledgement_required =
    new_error 422 "acknowledgement_required" "duplicate-task-risk acknowledgement is required"

abbrev or_invalid_value : {A : Type 0} → Result CloudAdapterError A → Result ApiError A
or_invalid_value given = map_err (λ e. invalid_value) given

abbrev decision_mutation : ℕ → ResolveDecisionBody → Result ApiError Mutation
decision_mutation operation_id (adopt_body task_id) = do
  task ← or_invalid_value (try_new task_id)
  ok (adopt operation_id task)
decision_mutation operation_id (abandon_body (some true)) = ok (abandon operation_id)
decision_mutation operation_id (abandon_body (some false)) = err acknowledgement_required
decision_mutation operation_id (abandon_body none) = err acknowledgement_required

abbrev body_mutation : Option ℕ → ResolveDecisionBody → Result ApiError Mutation
body_mutation none decision = err invalid_value
body_mutation (some operation_id) decision = decision_mutation operation_id decision

unfoldable pub resolve_mutation : ResolveBody → Result ApiError Mutation
unfolding try_new
resolve_mutation body = body_mutation body.operation_id body.decision

unfoldable pub turn_mutation : String → Result ApiError Mutation
unfolding try_new_prompt
turn_mutation prompt = do valid ← or_invalid_value (try_new_prompt prompt); ok (start_turn valid)

-- The parsers of the bodies.
pub record Parsers : Type 0 where
  pub turn_body : List ℕ → Result JsonError String
  pub resolve_body : List ℕ → Result JsonError ResolveBody

pub data MutationRoute : Type 0 where
  logout_route device_route cancel_login_route turns_route : MutationRoute
  cancel_turn_route reconcile_route resolve_route : MutationRoute

module _ {W : Type 0} (settings : Settings) (parsers : Parsers) (ports : Ports W) where
  -- The handlers that change something: the time at the authentication, and at the preparation.
  unfoldable pub handle_mutation : Shared → W → MutationRoute → Request → ℕ → ℕ → Served ports
  handle_mutation s w logout_route request now at = run_prepared ports w (
      prepare_empty_mutation settings s request delete (codes "/api/p0/v1/operator/session")
        (λ lease. logout lease.token lease.issuance_seq) now at)
  handle_mutation s w device_route request now at = run_prepared ports w (
      prepare_empty_mutation settings s request post (codes "/api/p0/v1/login/device")
        (λ lease. start_device_login) now at)
  handle_mutation s w cancel_login_route request now at = run_prepared ports w (
      prepare_empty_mutation settings s request post (codes "/api/p0/v1/login/cancel")
        (λ lease. cancel_login) now at)
  handle_mutation s w turns_route request now at = run_prepared ports w (
      prepare_json_mutation settings s request post (codes "/api/p0/v1/session/turns")
        parsers.turn_body turn_mutation now at)
  handle_mutation s w cancel_turn_route request now at = run_prepared ports w (
      prepare_empty_mutation settings s request post (codes "/api/p0/v1/session/cancel")
        (λ lease. cancel_turn) now at)
  handle_mutation s w reconcile_route request now at = run_prepared ports w (
      prepare_empty_mutation settings s request post (codes "/api/p0/v1/session/reconcile")
        (λ lease. reconcile) now at)
  handle_mutation s w resolve_route request now at = run_prepared ports w (
      prepare_json_mutation settings s request post (codes "/api/p0/v1/session/resolve")
        parsers.resolve_body resolve_mutation now at)

-- `login_status`, `session_snapshot` and `session_diff`: what is observed once the request is let in,
-- its method is checked and its body is empty.
abbrev pub observed :
    Request
    → Result ApiError CachedResponse
    → AppSessionLease
    → Result ApiError (AppSessionLease × Result ApiError CachedResponse)
observed request response lease = do
  ensure_request_method request get
  body ← read_empty request
  ok (lease, response)

abbrev pub finish_observed :
    Shared × Result ApiError (AppSessionLease × Result ApiError CachedResponse)
    → Shared × Result ApiError CachedResponse
finish_observed (s, err error) = (s, err error)
finish_observed (s, ok (lease, response)) = (drop_admission s lease, response)

unfoldable pub observe :
    Shared → Request → ℕ → Result ApiError CachedResponse → Shared × Result ApiError CachedResponse
observe s request now response =
    finish_observed (with_admitted (prepare_observation s request now) (observed request response))

abbrev pub status_response :
    (LoginStatus → Option (List ℕ))
    → Result LoginPortError LoginStatus
    → Result ApiError CachedResponse
status_response to_vec given = do status ← map_err map_login_error given; json to_vec 200 status

abbrev pub snapshot_response :
    (P0SessionSnapshot → Option (List ℕ))
    → Result P0SessionError P0SessionSnapshot
    → Result ApiError CachedResponse
snapshot_response to_vec given = do
  snapshot ← map_err map_session_error given
  json to_vec 200 snapshot

abbrev pub diff_response : Result P0SessionError (List ℕ) → Result ApiError CachedResponse
diff_response given = do text ← map_err map_session_error given; ok (diff text)

-- `bootstrap_session`.
abbrev pub bootstrap_checks : Settings → Shared → Request → Result ApiError (Unit {0})
bootstrap_checks settings s request = do
  require_running s
  validate_headers request.headers
  body ← read_empty request
  validate_origin settings.config request.headers
  validate_bootstrap settings.config request.headers

abbrev pub create_admitted :
    Settings
    → Shared
    → Entropy
    → ℕ
    → LifecycleState × Result ApiError (Unit {0})
    → Shared × Result ApiError CachedResponse
create_admitted settings s entropy now (lifecycle, err error) = (s, err error)
create_admitted settings s entropy now (lifecycle, ok u) =
    let created =
      create_app_session settings.codec settings.identity settings.config.session_lifetime entropy
        now s.app_sessions in
    (record s { app_sessions = created.0; lifecycle = drop_operation lifecycle }, created.1)

abbrev pub create_checked :
    Settings
    → Shared
    → Entropy
    → ℕ
    → Result ApiError (Unit {0})
    → Shared × Result ApiError CachedResponse
create_checked settings s entropy now (err error) = (s, err error)
create_checked settings s entropy now (ok u) =
    create_admitted settings s entropy now (admit s.lifecycle)

unfoldable pub bootstrap_session :
    Settings → Shared → Request → Entropy → ℕ → Shared × Result ApiError CachedResponse
bootstrap_session settings s request entropy now =
    create_checked settings s entropy now (bootstrap_checks settings s request)
