-- ===== src/Control/WebSocket/Serve.antt =====
-- `run_socket` of apps/control-plane/src/websocket.rs and the functions that it runs before and after
-- the stream. What the socket, the clock and the admission answer is part of the arguments; where a
-- list of answers ends the socket is still being served. A frame counts as sent when its write has
-- succeeded within its deadline.
pub mod Request
pub mod Farewell
pub mod Granted
use fanzloud.Base.{
  ℕ, Bool, true, false, not, ◌&&◌, Option, none, some, List, [], ◌∷◌, ◌++◌, Result, ok, err,
  map_err, ltb, ◌==◌, if◌then◌else◌, length,
}
use fanzloud.Session.State.{Inner, RuntimeState}
use fanzloud.Session.Subscribe.{P0SessionSubscription, subscribe}
use fanzloud.Control.WebSocket.{
  SessionSubscribeError, ClientFrame, ServerFrame, ReplayFrame, ErrorFrame, ApplicationError,
  ControlState, Received, StreamOutcome, Connection, max_client_message_bytes, protocol_version,
  from_session, from_subscribe, authentication_expired, subscribe_timeout, protocol_error,
  unsupported_version, stream_unavailable, serialize, connection_outcome,
}
use fanzloud.Control.WebSocket.Live.{Write, Round, stream_subscription}

pub record SubscribeRequest : Type 0 where
  pub session_id : ℕ
  pub after_seq : ℕ

pub data InitialOutcome : Type 0 where
  subscribed : SubscribeRequest → InitialOutcome
  peer_closed transport_closed server_shutdown : InitialOutcome
  failed : ApplicationError → InitialOutcome

-- The branch that `select!` takes: the deadline, the poll of the validity, or what is received.
pub data Selected : Type 0 where
  timed_out polled : Selected
  received : Received → Selected

pub record InitialRound : Type 0 where
  pub auth_valid : Bool
  pub running : Bool
  pub selected : Selected

-- The decoder of a `ClientApplicationFrame` is a parameter: the protocol version, the session and the
-- cursor of a text that it takes.
abbrev pub Decoder : Type 0
Decoder = List ℕ → Option (ℕ × ℕ × ℕ)

abbrev pub decoded_outcome : Option (ℕ × ℕ × ℕ) → InitialOutcome
decoded_outcome none = InitialOutcome.failed protocol_error
decoded_outcome (some (version, session_id, after_seq)) =
    if not (version == protocol_version)
    then InitialOutcome.failed unsupported_version
    else InitialOutcome.subscribed (record { session_id = session_id; after_seq = after_seq })

abbrev pub selected_outcome : Decoder → Selected → Option InitialOutcome
selected_outcome decode timed_out = some (InitialOutcome.failed subscribe_timeout)
selected_outcome decode polled = none
selected_outcome decode (received (err u)) = some InitialOutcome.transport_closed
selected_outcome decode (received (ok none)) = some InitialOutcome.peer_closed
selected_outcome decode (received (ok (some ClientFrame.close))) = some InitialOutcome.peer_closed
selected_outcome decode (received (ok (some ClientFrame.ping))) = none
selected_outcome decode (received (ok (some ClientFrame.pong))) = none
selected_outcome decode (received (ok (some ClientFrame.binary))) =
    some (InitialOutcome.failed protocol_error)
selected_outcome decode (received (ok (some (ClientFrame.text bytes)))) =
    if ltb max_client_message_bytes (length bytes)
    then some (InitialOutcome.failed protocol_error)
    else some (decoded_outcome (decode bytes))

unfoldable pub initial_round : Decoder → InitialRound → Option InitialOutcome
initial_round decode r =
    if not r.auth_valid
    then some (InitialOutcome.failed authentication_expired)
    else if not r.running
    then some InitialOutcome.server_shutdown
    else selected_outcome decode r.selected

unfoldable pub receive_subscribe : Decoder → List InitialRound → Option InitialOutcome
receive_subscribe decode [] = none
receive_subscribe decode (r ∷ rounds) = elim (initial_round decode r) [
  | some outcome ↦ some outcome
  | none ↦ receive_subscribe decode rounds
]

-- The subscription's task: `none` when it has panicked.
abbrev pub TaskResult : Type 0
TaskResult = Option (Result SessionSubscribeError P0SessionSubscription)

-- `ConcreteSessionPort::subscribe`.
unfoldable pub port_subscribe :
    Inner
    → RuntimeState
    → ℕ
    → ℕ
    → Result SessionSubscribeError (RuntimeState × P0SessionSubscription)
port_subscribe inner s session_id after_seq =
    map_err from_session (subscribe inner s session_id after_seq)

abbrev pub task_of :
    Result SessionSubscribeError (RuntimeState × P0SessionSubscription) → TaskResult
task_of (ok (s, subscription)) = some (ok subscription)
task_of (err error) = some (err error)

abbrev pub task_outcome : TaskResult → Result StreamOutcome P0SessionSubscription
task_outcome (some (ok subscription)) = ok subscription
task_outcome (some (err error)) = err (StreamOutcome.failed (from_subscribe error))
task_outcome none = err (StreamOutcome.failed stream_unavailable)

-- One turn of the loop: whether the task is done in it, and the connection before and then.
pub record Wait : Type 0 where
  pub before : Connection
  pub done : Bool
  pub after : Connection

unfoldable pub await_subscription :
    TaskResult → List Wait → Option (Result StreamOutcome P0SessionSubscription)
await_subscription task [] = none
await_subscription task (w ∷ waits) = elim (connection_outcome w.before) [
  | some outcome ↦ some (err outcome)
  | none ↦ elim w.done [
    | false ↦ await_subscription task waits
    | true ↦ elim (connection_outcome w.after) [
      | some outcome ↦ some (err outcome)
      | none ↦ some (task_outcome task)
    ]
  ]
]

-- What the end of a socket meets: both looks at the control state, the admission, and whether the
-- write of the text and that of the close frame succeed.
pub record Ending : Type 0 where
  pub control : ControlState
  pub auth_valid : Bool
  pub running : Bool
  pub control_then : ControlState
  pub text_sent : Bool
  pub close_sent : Bool

abbrev pub close_frame : ApplicationError → ServerFrame
close_frame error = ServerFrame.close error.close_code error.code

-- `send_close(writer, 1012, "server_shutdown", deadlines)`.
abbrev pub shutdown_frames : Bool → List ServerFrame
shutdown_frames sent = if sent then ServerFrame.close 1012 "server_shutdown" ∷ [] else []

abbrev pub is_gone : ControlState → Bool
is_gone ControlState.peer_closed = true
is_gone ControlState.transport_closed = true
is_gone _ = false

abbrev pub is_protocol_failed : ControlState → Bool
is_protocol_failed ControlState.protocol_failed = true
is_protocol_failed _ = false

abbrev pub finish_outcome :
    StreamOutcome → (ApplicationError → List ServerFrame) → Bool → List ServerFrame
finish_outcome StreamOutcome.peer_closed fail close_sent = []
finish_outcome StreamOutcome.transport_closed fail close_sent = []
finish_outcome StreamOutcome.server_shutdown fail close_sent = shutdown_frames close_sent
finish_outcome (StreamOutcome.failed error) fail close_sent = fail error

-- The text of an error and its close frame, each only after the write before it.
abbrev pub report_text : Ending → ApplicationError → Result (Unit {0}) (List ℕ) → List ServerFrame
report_text e error (err u) = []
report_text e error (ok bytes) =
    if e.text_sent
    then ServerFrame.text bytes ∷ (if e.close_sent then close_frame error ∷ [] else [])
    else []

module _ (error_to_vec : ErrorFrame → Option (List ℕ)) where
  abbrev pub report : Ending → ApplicationError → List ServerFrame
  report e error = report_text e error (serialize error_to_vec error)

  unfoldable pub fail_before_subscription : Ending → ApplicationError → List ServerFrame
  fail_before_subscription e error =
      if not e.auth_valid
      then report e authentication_expired
      else if not e.running
      then shutdown_frames e.close_sent
      else report e error

  unfoldable pub fail_after_subscription : Ending → ApplicationError → List ServerFrame
  fail_after_subscription e error =
      if is_gone e.control
      then []
      else if not e.auth_valid
      then report e authentication_expired
      else if not e.running
      then shutdown_frames e.close_sent
      else if is_protocol_failed e.control_then
      then report e protocol_error
      else report e error

  unfoldable pub finish_stream_outcome : Ending → StreamOutcome → List ServerFrame
  finish_stream_outcome e outcome = finish_outcome outcome (fail_after_subscription e) e.close_sent

-- What one socket meets from its start to its end.
pub record Meeting : Type 0 where
  pub initial : List InitialRound
  pub waits : List Wait
  pub writes : List Write
  pub rounds : List Round
  pub ending : Ending

abbrev pub finish_option :
    (StreamOutcome → List ServerFrame) → List ServerFrame × Option StreamOutcome → List ServerFrame
finish_option finish (frames, none) = frames
finish_option finish (frames, some outcome) = frames ++ finish outcome

module _ (decode : Decoder) (error_to_vec : ErrorFrame → Option (List ℕ))
    (to_vec : ReplayFrame → Option (List ℕ)) (port : ℕ → ℕ → TaskResult) where
  abbrev pub serve_subscription :
      Meeting
      → SubscribeRequest
      → Option (Result StreamOutcome P0SessionSubscription)
      → List ServerFrame
  serve_subscription m request none = []
  serve_subscription m request (some (err outcome)) =
      finish_stream_outcome error_to_vec m.ending outcome
  serve_subscription m request (some (ok subscription)) =
      finish_option (finish_stream_outcome error_to_vec m.ending) (
        stream_subscription to_vec request.session_id request.after_seq subscription m.writes
          m.rounds)

  abbrev pub serve_initial : Meeting → Option InitialOutcome → List ServerFrame
  serve_initial m none = []
  serve_initial m (some InitialOutcome.peer_closed) = []
  serve_initial m (some InitialOutcome.transport_closed) = []
  serve_initial m (some InitialOutcome.server_shutdown) = shutdown_frames m.ending.close_sent
  serve_initial m (some (InitialOutcome.failed error)) =
      fail_before_subscription error_to_vec m.ending error
  serve_initial m (some (InitialOutcome.subscribed request)) =
      serve_subscription m request
        (await_subscription (port request.session_id request.after_seq) m.waits)

  unfoldable pub run_socket : Meeting → List ServerFrame
  run_socket m = serve_initial m (receive_subscribe decode m.initial)
