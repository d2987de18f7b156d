-- ===== src/Control/Routes.antt =====
-- The handlers of apps/control-plane/src/routes.rs, each from its request to its response with nothing
-- between its steps. Where the first of two equal requests is still at work, the second waits.
pub mod Handlers
pub mod Run
pub mod Admitted
pub mod Executed
pub mod Settled
mod Examples
use fanzloud.Base.{
  ℕ, Bool, true, false, Option, none, some, List, [], ◌∷◌, Result, ok, err, ◌>>=◌, ◌>>◌, ensure,
  map_err, ◌==◌, if◌then◌else◌,
}
use fanzloud.Cloud.TaskId.{try_new}
use fanzloud.Cloud.Prompt.{try_new_prompt}
use fanzloud.Session.Types.{P0SessionIdentity, P0SessionSnapshot}
use fanzloud.Session.Error.{P0SessionError}
use fanzloud.Control.Request.{ApiError, RequestIdentity, CachedResponse, new_error}
use fanzloud.Control.Registry.{Registry, WaitState, release_auth_session, complete, take_response}
use fanzloud.Control.Registry as Idempotency
use fanzloud.Control.Bytes.{codes}
use fanzloud.Control.ApiErrors.{
  LoginPortError, service_unavailable, invalid_value, map_login_error, map_session_error,
}
use fanzloud.Control.Transport.{json, error_response, diff}
use fanzloud.Control.HttpConfig.{P0HttpConfig}
use fanzloud.Control.Cookie.{Headers}
use fanzloud.Control.AppSessions.{
  AppSessionRegistry, AppSessionLease, authenticate_cookie, release_app_session,
}
use fanzloud.Control.AppSessions.Issue.{Codec, Entropy, create_app_session}
use fanzloud.Control.Lifecycle.{LifecycleState, is_running, admit, drop_operation}
use fanzloud.Control.Mutation.{
  Mutation, logout, start_device_login, cancel_login, cancel_turn, reconcile, start_turn, adopt,
  abandon, LoginStatus, Ports, execute_mutation,
}
use fanzloud.Control.Http.{
  Method, get, post, delete, Request, UuidParser, JsonError, ensure_request_method,
  static_method_name, validate_headers, validate_origin, validate_bootstrap, parse_idempotency_key,
  parse_instance, read_empty, read_json, classify_json_error,
}

pub record Settings : Type 0 where
  pub config : P0HttpConfig
  pub identity : P0SessionIdentity
  pub parse_uuid : UuidParser
  pub codec : Codec

-- What the handlers share and change.
pub record Shared : Type 0 where
  pub app_sessions : AppSessionRegistry
  pub idempotency : Registry
  pub lifecycle : LifecycleState

-- `Drop` of an `AppSessionLease`, and of a `RequestAdmission`.
unfoldable pub drop_lease : Shared → ℕ → Shared
drop_lease s session_seq =
    let released = release_app_session s.app_sessions session_seq in
    record s {
      app_sessions = released.0;
      idempotency =
          if released.1 then release_auth_session s.idempotency session_seq else s.idempotency;
    }

unfoldable pub drop_admission : Shared → AppSessionLease → Shared
drop_admission s lease =
    drop_lease (record s { lifecycle = drop_operation s.lifecycle }) lease.issuance_seq

abbrev pub require_running : Shared → Result ApiError (Unit {0})
require_running s = ensure (is_running s.lifecycle) service_unavailable

-- A `RequestAdmission` is its lease, with one active operation.
abbrev pub admit_lease :
    Shared
    → AppSessionLease
    → LifecycleState × Result ApiError (Unit {0})
    → Shared × Result ApiError AppSessionLease
admit_lease s lease (lifecycle, ok u) = (record s { lifecycle = lifecycle }, ok lease)
admit_lease s lease (lifecycle, err error) = (drop_lease s lease.issuance_seq, err error)

abbrev pub admit_authenticated :
    Shared
    → AppSessionRegistry × Result ApiError AppSessionLease
    → Shared × Result ApiError AppSessionLease
admit_authenticated s (sessions, err error) = (record s { app_sessions = sessions }, err error)
admit_authenticated s (sessions, ok lease) =
    admit_lease (record s { app_sessions = sessions }) lease (admit s.lifecycle)

-- Checks, and then the lease and the operation.
unfoldable pub admit_request :
    Shared → Headers → ℕ → Result ApiError (Unit {0}) → Shared × Result ApiError AppSessionLease
admit_request s headers now (err error) = (s, err error)
admit_request s headers now (ok u) =
    admit_authenticated s (authenticate_cookie s.app_sessions headers now)

-- A later failure drops what was admitted.
abbrev pub settle {κ} :
    {A : Type κ} → Shared → AppSessionLease → Result ApiError A → Shared × Result ApiError A
settle s lease (ok a) = (s, ok a)
settle s lease (err error) = (drop_admission s lease, err error)

abbrev pub with_admitted {κ} :
    {A : Type κ}
    → Shared × Result ApiError AppSessionLease
    → (AppSessionLease → Result ApiError A)
    → Shared × Result ApiError A
with_admitted (s, err error) rest = (s, err error)
with_admitted (s, ok lease) rest = settle s lease (rest lease)

abbrev pub mutation_checks : Shared → Request → Method → Result ApiError (Unit {0})
mutation_checks s request method = do
  require_running s
  ensure_request_method request method
  validate_headers request.headers

unfoldable pub prepare_protected_mutation :
    Settings → Shared → Request → Method → ℕ → Shared × Result ApiError AppSessionLease
prepare_protected_mutation settings s request method now =
    with_admitted (admit_request s request.headers now (mutation_checks s request method))
      (λ lease. validate_origin settings.config request.headers >> ok lease)

unfoldable pub prepare_observation : Shared → Request → ℕ → Shared × Result ApiError AppSessionLease
prepare_observation s request now =
    admit_request s request.headers now (require_running s >> validate_headers request.headers)

pub record PreparedMutation : Type 0 where
  pub key : ℕ
  pub identity : RequestIdentity
  pub mutation : Mutation
  pub admitted_at : ℕ
  pub lease : AppSessionLease

abbrev logout_seq : Mutation → Option ℕ
logout_seq (logout cookie session_seq) = some session_seq
logout_seq _ = none

abbrev pub empty_mutation :
    Settings
    → Request
    → Method
    → List ℕ
    → (AppSessionLease → Mutation)
    → ℕ
    → AppSessionLease
    → Result ApiError PreparedMutation
empty_mutation settings request method route build admitted_at lease = do
  instance_id ← parse_instance settings.parse_uuid settings.identity request.headers
  key ← parse_idempotency_key settings.parse_uuid request.headers
  body ← read_empty request
  ok (record {
    key = key;
    identity = record {
      method = static_method_name method;
      route = route;
      body = body;
      instance_id = instance_id;
      logout_session_seq = logout_seq (build lease);
    };
    mutation = build lease;
    admitted_at = admitted_at;
    lease = lease;
  })

unfoldable pub prepare_empty_mutation :
    Settings
    → Shared
    → Request
    → Method
    → List ℕ
    → (AppSessionLease → Mutation)
    → ℕ
    → ℕ
    → Shared × Result ApiError PreparedMutation
prepare_empty_mutation settings s request method route build now admitted_at =
    with_admitted (prepare_protected_mutation settings s request method now)
      (empty_mutation settings request method route build admitted_at)

-- With what the body is parsed to, and what the handler makes of that.
abbrev pub json_mutation :
    {T : Type 0}
    → Settings
    → Request
    → Method
    → List ℕ
    → (List ℕ → Result JsonError T)
    → (T → Result ApiError Mutation)
    → ℕ
    → AppSessionLease
    → Result ApiError PreparedMutation
json_mutation settings request method route parse build admitted_at lease = do
  instance_id ← parse_instance settings.parse_uuid settings.identity request.headers
  key ← parse_idempotency_key settings.parse_uuid request.headers
  body ← read_json request
  parsed ← map_err classify_json_error (parse body)
  mutation ← build parsed
  ok (record {
    key = key;
    identity = record {
      method = static_method_name method;
      route = route;
      body = body;
      instance_id = instance_id;
      logout_session_seq = none;
    };
    mutation = mutation;
    admitted_at = admitted_at;
    lease = lease;
  })

unfoldable pub prepare_json_mutation :
    {T : Type 0}
    → Settings
    → Shared
    → Request
    → Method
    → List ℕ
    → (List ℕ → Result JsonError T)
    → (T → Result ApiError Mutation)
    → ℕ
    → ℕ
    → Shared × Result ApiError PreparedMutation
prepare_json_mutation settings s request method route parse build now admitted_at =
    with_admitted (prepare_protected_mutation settings s request method now)
      (json_mutation settings request method route parse build admitted_at)
