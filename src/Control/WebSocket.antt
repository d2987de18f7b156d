-- ===== src/Control/WebSocket.antt =====
-- apps/control-plane/src/websocket.rs: the frames of the event stream, what a failure is told to the
-- client, and the state that the reader and the writer of one socket share. A text on the wire is
-- its bytes.
pub mod Utf8
pub mod Replay
pub mod Live
pub mod Serve
mod Examples
use fanzloud.Base.{
  ℕ, ◌*◌, Bool, true, false, not, Option, none, some, List, [], ◌∷◌, String, Result, ok, err, ltb,
  if◌then◌else◌, length,
}
use fanzloud.Session.Types.{P0SessionSnapshot, P0SessionEventEnvelope}
use fanzloud.Session.Error.Category.{P0SessionErrorCategory, P0LiveReceiveError}
use fanzloud.Session.Error.{P0SessionError}
use Utf8.{is_utf8}

abbrev pub max_client_message_bytes : ℕ
max_client_message_bytes = 1024

abbrev pub max_server_message_bytes : ℕ
max_server_message_bytes = 64 * 1024

abbrev pub protocol_version : ℕ
protocol_version = 1

pub data LiveEventError : Type 0 where
  empty lagged runtime_stopped closed : LiveEventError

-- The error of `ConcreteLiveReceiver::try_recv`.
unfoldable pub live_event_error : P0LiveReceiveError → LiveEventError
live_event_error P0LiveReceiveError.empty = LiveEventError.empty
live_event_error P0LiveReceiveError.lagged = LiveEventError.lagged
live_event_error P0LiveReceiveError.runtime_stopped = LiveEventError.runtime_stopped
live_event_error P0LiveReceiveError.closed = LiveEventError.closed

pub data SessionSubscribeErrorCategory : Type 0 where
  wrong_session history_gap future_cursor subscriber_limit unavailable :
      SessionSubscribeErrorCategory

pub record SessionSubscribeError : Type 0 where
  pub category : SessionSubscribeErrorCategory
  pub oldest_available : Option ℕ
  pub latest_available : Option ℕ

abbrev subscribe_category : P0SessionErrorCategory → SessionSubscribeErrorCategory
subscribe_category P0SessionErrorCategory.wrong_session =
    SessionSubscribeErrorCategory.wrong_session
subscribe_category P0SessionErrorCategory.history_gap = SessionSubscribeErrorCategory.history_gap
subscribe_category P0SessionErrorCategory.future_cursor =
    SessionSubscribeErrorCategory.future_cursor
subscribe_category P0SessionErrorCategory.subscriber_limit =
    SessionSubscribeErrorCategory.subscriber_limit
subscribe_category _ = SessionSubscribeErrorCategory.unavailable

unfoldable pub from_session : P0SessionError → SessionSubscribeError
from_session error = record {
  category = subscribe_category error.category;
  oldest_available = error.oldest_available;
  latest_available = error.latest_available;
}

pub data ClientFrame : Type 0 where
  text : List ℕ → ClientFrame
  binary ping pong close : ClientFrame

pub data ServerFrame : Type 0 where
  text : List ℕ → ServerFrame
  ping : ServerFrame
  -- code, reason
  close : ℕ → String → ServerFrame

pub data ReplayFrame : Type 0 where
  -- session_id, after_seq, high_water_seq
  replay_begin : ℕ → ℕ → ℕ → ReplayFrame
  event : P0SessionEventEnvelope → ReplayFrame
  -- snapshot, high_water_seq
  snapshot : P0SessionSnapshot → ℕ → ReplayFrame
  -- session_id, high_water_seq
  replay_end : ℕ → ℕ → ReplayFrame

pub record ErrorFrame : Type 0 where
  pub frame_type : String
  pub code : String
  pub message : String
  pub oldest_available : Option ℕ
  pub latest_available : Option ℕ
  pub supported_version : Option ℕ

pub record ApplicationError : Type 0 where
  pub code : String
  pub message : String
  pub close_code : ℕ
  pub oldest_available : Option ℕ
  pub latest_available : Option ℕ
  pub supported_version : Option ℕ

abbrev pub policy : String → String → ApplicationError
policy code message = record {
  code = code;
  message = message;
  close_code = 1008;
  oldest_available = none;
  latest_available = none;
  supported_version = none;
}

abbrev pub retry : String → String → ApplicationError
retry code message = record {
  code = code;
  message = message;
  close_code = 1013;
  oldest_available = none;
  latest_available = none;
  supported_version = none;
}

abbrev pub authentication_expired : ApplicationError
authentication_expired = policy "authentication_expired" "operator authentication expired"

abbrev pub subscribe_timeout : ApplicationError
subscribe_timeout = policy "subscribe_timeout" "subscription was not received before its deadline"

abbrev pub protocol_error : ApplicationError
protocol_error = policy "protocol_error" "WebSocket application frame is invalid"

abbrev pub unsupported_version : ApplicationError
unsupported_version =
    record (policy "unsupported_version" "WebSocket protocol version is unsupported") {
      supported_version = some protocol_version;
    }

abbrev pub stream_unavailable : ApplicationError
stream_unavailable = retry "stream_unavailable" "session stream is unavailable"

abbrev subscribe_failure : SessionSubscribeErrorCategory → Option ℕ → Option ℕ → ApplicationError
subscribe_failure SessionSubscribeErrorCategory.wrong_session oldest latest =
    policy "wrong_session" "session identity changed; refresh before reconnect"
subscribe_failure SessionSubscribeErrorCategory.history_gap oldest latest =
    record (policy "history_gap" "requested session history is no longer retained") {
      oldest_available = oldest;
      latest_available = latest;
    }
subscribe_failure SessionSubscribeErrorCategory.future_cursor oldest latest =
    record (policy "future_cursor" "requested session cursor is in the future") {
      latest_available = latest;
    }
subscribe_failure SessionSubscribeErrorCategory.subscriber_limit oldest latest =
    retry "subscriber_limit" "session subscriber limit reached"
subscribe_failure SessionSubscribeErrorCategory.unavailable oldest latest = stream_unavailable

unfoldable pub from_subscribe : SessionSubscribeError → ApplicationError
from_subscribe error =
    subscribe_failure error.category error.oldest_available error.latest_available

-- `to_vec` of serde_json is a parameter: what it makes of a value, if it succeeds.
unfoldable pub serialize_bounded {ℓ} :
    {A : Type ℓ} → (A → Option (List ℕ)) → A → Result (Unit {0}) (List ℕ)
serialize_bounded to_vec value = elim (to_vec value) [
  | none ↦ err tt
  | some bytes ↦
      if ltb max_server_message_bytes (length bytes)
      then err tt
      else if is_utf8 bytes
      then ok bytes
      else err tt
]

unfoldable pub serialize :
    (ErrorFrame → Option (List ℕ)) → ApplicationError → Result (Unit {0}) (List ℕ)
serialize to_vec error = serialize_bounded to_vec record {
  frame_type = "error";
  code = error.code;
  message = error.message;
  oldest_available = error.oldest_available;
  latest_available = error.latest_available;
  supported_version = error.supported_version;
}

pub data ControlState : Type 0 where
  open_control peer_closed protocol_failed transport_closed : ControlState

-- `Control::record`, the `compare_exchange` with `Open`.
unfoldable pub record_state : ControlState → ControlState → ControlState
record_state ControlState.open_control new = new
record_state old new = old

-- What `receive` gives: an error, the end of the stream or a frame.
abbrev pub Received : Type 0
Received = Result (Unit {0}) (Option ClientFrame)

-- The frame's effect on the loop of `spawn_control_reader`: the state to record and leave with.
abbrev pub reader_verdict : Received → Option ControlState
reader_verdict (ok (some ClientFrame.ping)) = none
reader_verdict (ok (some ClientFrame.pong)) = none
reader_verdict (ok (some (ClientFrame.text bytes))) = some ControlState.protocol_failed
reader_verdict (ok (some ClientFrame.binary)) = some ControlState.protocol_failed
reader_verdict (ok (some ClientFrame.close)) = some ControlState.peer_closed
reader_verdict (ok none) = some ControlState.peer_closed
reader_verdict (err u) = some ControlState.transport_closed

-- The loop over what the peer sends.
unfoldable pub control_reader : ControlState → List Received → ControlState
control_reader control [] = control
control_reader control (received ∷ rest) = elim (reader_verdict received) [
  | none ↦ control_reader control rest
  | some state ↦ record_state control state
]

pub data StreamOutcome : Type 0 where
  peer_closed transport_closed server_shutdown : StreamOutcome
  failed : ApplicationError → StreamOutcome

-- What one look at the connection reads: `control.state()`, `is_auth_valid` and
-- `is_control_plane_running`.
pub record Connection : Type 0 where
  pub control : ControlState
  pub auth_valid : Bool
  pub running : Bool

abbrev connection_step : ControlState → Bool → Bool → Option StreamOutcome
connection_step ControlState.peer_closed auth_valid running = some StreamOutcome.peer_closed
connection_step ControlState.protocol_failed auth_valid running =
    some (StreamOutcome.failed protocol_error)
connection_step ControlState.transport_closed auth_valid running =
    some StreamOutcome.transport_closed
connection_step ControlState.open_control auth_valid running =
    if not auth_valid
    then some (StreamOutcome.failed authentication_expired)
    else if not running
    then some StreamOutcome.server_shutdown
    else none

unfoldable pub connection_outcome : Connection → Option StreamOutcome
connection_outcome c = connection_step c.control c.auth_valid c.running
