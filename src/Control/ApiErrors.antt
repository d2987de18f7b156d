-- ===== src/Control/ApiErrors.antt =====
-- apps/control-plane/src/error.rs: what a failure of a port is told to the client.
use fanzloud.Base.{ℕ, Option, none, some, option_map}
use fanzloud.Cloud.Lifecycle.{CloudLifecycleErrorCategory}
use fanzloud.Session.Error.Category.{CloudDiffReadErrorCategory, P0SessionErrorCategory}
use fanzloud.Session.Error.{P0SessionError}
use fanzloud.Control.Request.{ApiError, ApiErrorBody, new_error}

abbrev pub authentication_required : ApiError
authentication_required =
    new_error 401 "authentication_required" "operator authentication is required"

abbrev pub origin_forbidden : ApiError
origin_forbidden = new_error 403 "origin_forbidden" "request origin is not allowed"

abbrev pub service_unavailable : ApiError
service_unavailable = new_error 503 "service_unavailable" "control-plane service is unavailable"

abbrev pub invalid_request : ApiError
invalid_request = new_error 422 "invalid_request" "request schema is invalid"

abbrev pub invalid_value : ApiError
invalid_value = new_error 422 "invalid_value" "request value is invalid"

abbrev with_body : ApiErrorBody → Option ℕ → ApiErrorBody
with_body body operation_id = record body { operation_id = operation_id }

abbrev pub with_operation : ApiError → Option ℕ → ApiError
with_operation error operation_id = record error { error = with_body error.error operation_id }

-- `LoginBrokerError`, without what its variants carry.
pub data LoginBrokerError : Type 0 where
  credential_scope version_mismatch login_already_running already_logged_in : LoginBrokerError
  provider_output_invalid output_limit_exceeded status_unavailable : LoginBrokerError
  login_failed outcome_unknown process ledger_unavailable ledger_invalid : LoginBrokerError

pub data LoginPortError : Type 0 where
  lower : LoginBrokerError → LoginPortError
  unavailable : LoginPortError

abbrev login_failure : LoginBrokerError → ApiError
login_failure LoginBrokerError.credential_scope =
    new_error 503 "login_unavailable" "login credential scope is unavailable"
login_failure LoginBrokerError.version_mismatch =
    new_error 503 "login_version_mismatch" "accepted login provider version is unavailable"
login_failure LoginBrokerError.login_already_running =
    new_error 409 "login_already_running" "a device login is already running"
login_failure LoginBrokerError.already_logged_in =
    new_error 409 "already_logged_in" "operator is already logged in"
login_failure LoginBrokerError.provider_output_invalid =
    new_error 503 "login_provider_drift" "login provider response is unavailable"
login_failure LoginBrokerError.output_limit_exceeded =
    new_error 503 "login_output_limit" "login provider response exceeded its limit"
login_failure LoginBrokerError.status_unavailable =
    new_error 503 "login_status_unavailable" "login status is unavailable"
login_failure LoginBrokerError.login_failed =
    new_error 409 "login_failed" "device login did not complete"
login_failure LoginBrokerError.outcome_unknown =
    new_error 409 "login_outcome_unknown" "device login outcome requires reconciliation"
login_failure LoginBrokerError.process =
    new_error 503 "login_process_unavailable" "login process is unavailable"
login_failure LoginBrokerError.ledger_unavailable =
    new_error 503 "login_state_unavailable" "login state is unavailable"
login_failure LoginBrokerError.ledger_invalid =
    new_error 503 "login_state_invalid" "login state requires operator repair"

unfoldable pub map_login_error : LoginPortError → ApiError
map_login_error (lower error) = login_failure error
map_login_error unavailable = service_unavailable

unfoldable pub map_session_category : P0SessionErrorCategory → Option ApiError
map_session_category P0SessionErrorCategory.invalid_config =
    some (new_error 503 "session_config_invalid" "session configuration is unavailable")
map_session_category P0SessionErrorCategory.turn_already_running =
    some (new_error 409 "turn_already_running" "a turn is already active")
map_session_category P0SessionErrorCategory.no_current_turn =
    some (new_error 409 "no_current_turn" "no current turn is available")
map_session_category P0SessionErrorCategory.wrong_state =
    some (new_error 409 "session_wrong_state" "session state does not allow this operation")
map_session_category P0SessionErrorCategory.wrong_session =
    some (new_error 409 "session_changed" "session identity changed; refresh before retry")
map_session_category P0SessionErrorCategory.wrong_operation =
    some (new_error 409 "operation_changed" "current operation changed; refresh before retry")
map_session_category P0SessionErrorCategory.runtime_stopped =
    some (new_error 503 "session_stopped" "session runtime is stopped")
map_session_category P0SessionErrorCategory.history_gap =
    some (new_error 409 "history_gap" "requested session history is no longer retained")
map_session_category P0SessionErrorCategory.future_cursor =
    some (new_error 409 "future_cursor" "requested session cursor is in the future")
map_session_category P0SessionErrorCategory.subscriber_limit =
    some (new_error 503 "subscriber_limit" "session subscriber limit reached")
map_session_category P0SessionErrorCategory.sequence_exhausted =
    some (new_error 503 "session_sequence_exhausted" "session event sequence is exhausted")
map_session_category P0SessionErrorCategory.lower_conflict =
    some (new_error 409 "provider_state_conflict" "provider state changed incompatibly")
map_session_category P0SessionErrorCategory.cloud_lifecycle = none
map_session_category P0SessionErrorCategory.cloud_diff = none

abbrev lifecycle_failure : CloudLifecycleErrorCategory → ApiError
lifecycle_failure CloudLifecycleErrorCategory.scope =
    new_error 503 "provider_scope_unavailable" "provider credential scope is unavailable"
lifecycle_failure CloudLifecycleErrorCategory.busy =
    new_error 503 "provider_busy" "provider operation is busy"
lifecycle_failure CloudLifecycleErrorCategory.turn_already_running =
    new_error 409 "provider_turn_running" "a provider turn is already active"
lifecycle_failure CloudLifecycleErrorCategory.no_current_operation =
    new_error 409 "no_current_operation" "no provider operation is available"
lifecycle_failure CloudLifecycleErrorCategory.wrong_state =
    new_error 409 "provider_wrong_state" "provider state does not allow this operation"
lifecycle_failure CloudLifecycleErrorCategory.stale_decision =
    new_error 409 "recovery_decision_stale" "recovery decision is stale"
lifecycle_failure CloudLifecycleErrorCategory.task_not_listed =
    new_error 422 "task_not_listed" "task is not in the complete recovery set"
lifecycle_failure CloudLifecycleErrorCategory.acknowledgement_required =
    new_error 422 "acknowledgement_required" "duplicate-task-risk acknowledgement is required"
lifecycle_failure CloudLifecycleErrorCategory.lower_runner =
    new_error 503 "provider_runner_unavailable" "provider runner is unavailable"
lifecycle_failure CloudLifecycleErrorCategory.provider_read =
    new_error 503 "provider_read_unavailable" "provider state cannot be read"
lifecycle_failure CloudLifecycleErrorCategory.operation_conflict =
    new_error 409 "provider_operation_conflict" "another provider operation owns current state"
lifecycle_failure CloudLifecycleErrorCategory.outcome_unknown =
    new_error 409 "provider_outcome_unknown" "provider outcome requires explicit recovery"
lifecycle_failure CloudLifecycleErrorCategory.ledger_invalid =
    new_error 503 "provider_state_invalid" "provider state requires operator repair"
lifecycle_failure CloudLifecycleErrorCategory.ledger_unavailable =
    new_error 503 "provider_state_unavailable" "provider state is unavailable"
lifecycle_failure CloudLifecycleErrorCategory.recovery_required =
    new_error 409 "provider_recovery_required" "provider recovery requires operator action"

unfoldable pub map_cloud_lifecycle_error : CloudLifecycleErrorCategory → Option ℕ → ApiError
map_cloud_lifecycle_error category operation_id =
    with_operation (lifecycle_failure category) operation_id

unfoldable pub map_cloud_diff_error : CloudDiffReadErrorCategory → ApiError
map_cloud_diff_error CloudDiffReadErrorCategory.ineligible_lifecycle =
    new_error 409 "diff_not_ready" "current task is not eligible for diff retrieval"
map_cloud_diff_error CloudDiffReadErrorCategory.authority_mismatch =
    new_error 409 "diff_authority_changed" "current task changed; refresh before retry"
map_cloud_diff_error CloudDiffReadErrorCategory.scope =
    new_error 503 "diff_scope_unavailable" "diff credential scope is unavailable"
map_cloud_diff_error CloudDiffReadErrorCategory.busy =
    new_error 503 "diff_busy" "diff provider operation is busy"
map_cloud_diff_error CloudDiffReadErrorCategory.version =
    new_error 503 "diff_version_mismatch" "accepted diff provider version is unavailable"
map_cloud_diff_error CloudDiffReadErrorCategory.diagnostic_boundary =
    new_error 503 "diff_boundary_unavailable" "diff diagnostic boundary is unavailable"
map_cloud_diff_error CloudDiffReadErrorCategory.process =
    new_error 503 "diff_process_unavailable" "diff process is unavailable"
map_cloud_diff_error CloudDiffReadErrorCategory.timeout =
    new_error 504 "diff_timeout" "diff retrieval timed out"
map_cloud_diff_error CloudDiffReadErrorCategory.canceled =
    new_error 409 "diff_canceled" "diff retrieval was canceled"
map_cloud_diff_error CloudDiffReadErrorCategory.output_limit =
    new_error 503 "diff_output_limit" "diff exceeded its output limit"
map_cloud_diff_error CloudDiffReadErrorCategory.provider_drift =
    new_error 503 "diff_provider_drift" "diff provider response is unavailable"
map_cloud_diff_error CloudDiffReadErrorCategory.invalid_diff =
    new_error 503 "diff_invalid" "diff display data is invalid"

abbrev pub or_unavailable : Option ApiError → ApiError
or_unavailable none = service_unavailable
or_unavailable (some error) = error

abbrev pub mapped : P0SessionErrorCategory → P0SessionError → ApiError
mapped P0SessionErrorCategory.cloud_lifecycle error = or_unavailable (
    option_map (λ category. map_cloud_lifecycle_error category error.operation_id)
      error.cloud_lifecycle)
mapped P0SessionErrorCategory.cloud_diff error =
    or_unavailable (option_map map_cloud_diff_error error.cloud_diff)
mapped category error = or_unavailable (map_session_category category)

-- `map_p0_session_error`, which is `map_session_error` outside of the tests.
unfoldable pub map_session_error : P0SessionError → ApiError
map_session_error error = mapped error.category error
