-- ===== src/Control/WebSocket/Serve/Granted.antt =====
-- A whole socket of apps/control-plane/src/websocket.rs on the session of
-- crates/codebox-session-runtime/src/runtime.rs: from the request to the live events.
use fanzloud.Base.{ℕ, ◌≡◌, refl, true, Option, some, List, [], ◌∷◌, arith, ok, err}
use fanzloud.Session.Error.{P0SessionError}
use fanzloud.Session.State.{Inner, RuntimeState}
use fanzloud.Session.Subscribe.{subscribe}
use fanzloud.Session.Stream.Backlog.{Backlog}
use fanzloud.Session.System.{System}
use fanzloud.Control.WebSocket.{
  ServerFrame, ReplayFrame, ErrorFrame, ControlState, serialize, from_session, from_subscribe,
  connection_outcome,
}
use fanzloud.Control.WebSocket.Live.{Write, Round}
use fanzloud.Control.WebSocket.Live.Delivery.{healthy}
use fanzloud.Control.WebSocket.Live.Watch.{Watch}
use fanzloud.Control.WebSocket.Serve.{
  Decoder, SubscribeRequest, InitialRound, Wait, Ending, Meeting, TaskResult, task_of, task_outcome,
  port_subscribe, await_subscription, fail_after_subscription, finish_stream_outcome, run_socket,
}
use fanzloud.Control.WebSocket.Serve.Request.{Asks, receive_subscribe-Asks}

-- Every write of the replay succeeds, and the task of the subscription is done at the first look.
abbrev pub sent_writes : List (List ℕ) → List Write
sent_writes [] = []
sent_writes (frame ∷ frames) = record { before = healthy; sent = true } ∷ sent_writes frames

abbrev pub done_at_once : List Wait
done_at_once = record { before = healthy; done = true; after = healthy } ∷ []

abbrev pub undisturbed : Ending
undisturbed = record {
  control = ControlState.open_control;
  auth_valid = true;
  running = true;
  control_then = ControlState.open_control;
  text_sent = true;
  close_sent = true;
}

await-done : (task : TaskResult) → await_subscription task done_at_once ≡ some (task_outcome task)
unfolding await_subscription connection_outcome
await-done task = refl

module _ (decode : Decoder) (error_to_vec : ErrorFrame → Option (List ℕ))
    (to_vec : ReplayFrame → Option (List ℕ)) (inner : Inner) (s : RuntimeState)
    (request : SubscribeRequest) where
  -- The port on the session as it is when the task runs.
  abbrev pub session_port : ℕ → ℕ → TaskResult
  session_port session after = task_of (port_subscribe inner s session after)

  -- A socket that nothing disturbs.
  abbrev pub meeting : List InitialRound → Ending → List (List ℕ) → List Round → Meeting
  meeting initial ending frames rounds = record {
    initial = initial;
    waits = done_at_once;
    writes = sent_writes frames;
    rounds = rounds;
    ending = ending;
  }

  -- A peer that asks for a subscription that the session refuses is told the error that stands for
  -- the session's, and the close frame carries its code and its name, when nothing disturbs the
  -- socket.
  pub run_socket_refuses :
      (m : Meeting) (error : P0SessionError) (bytes : List ℕ)
      → Asks decode request m.initial
      → m.waits ≡ done_at_once
      → m.ending ≡ undisturbed
      → subscribe inner s request.session_id request.after_seq ≡ err error
      → serialize error_to_vec (from_subscribe (from_session error)) ≡ ok bytes
      → run_socket decode error_to_vec to_vec session_port m
        ≡ ServerFrame.text bytes
          ∷ ServerFrame.close
              (from_subscribe (from_session error)).close_code
              (from_subscribe (from_session error)).code
          ∷ []
  unfolding run_socket port_subscribe finish_stream_outcome fail_after_subscription
  run_socket_refuses m error bytes asks waits calm refused written = ground (
    arith,
    (receive_subscribe-Asks decode request m.initial).1 asks,
    await-done (some (err (from_session error))),
  )
