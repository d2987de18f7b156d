-- ===== src/Control/WebSocket/Examples.antt =====
-- One socket of apps/control-plane/src/websocket.rs, and the theorems at it.
use fanzloud.Base.{
  ℕ, ◌+◌, ◌≡◌, refl, ◌↔◌, inl, inr, true, Option, none, some, List, [], ◌∷◌, ok, err, arith, All,
  length,
}
use fanzloud.Session.Error.{P0SessionError, new}
use fanzloud.Session.Error.Category.{P0SessionErrorCategory}
use fanzloud.Session.Types.{
  P0SessionState, P0TurnProjection, P0SessionEvent, P0SessionEventEnvelope,
}
use fanzloud.Session.State.{RuntimeState, envelope, append_event}
use fanzloud.Session.System.{System, idle}
use fanzloud.Control.WebSocket.Live.Watch.{Watch}
use fanzloud.Session.Subscribe.{opened, subscribe, receive}
use fanzloud.Session.Stream.{Ends}
use fanzloud.Session.Examples.{inner, queued, queued_turn, subscription, subscribed}
use fanzloud.Control.Bytes.{codes}
use fanzloud.Control.WebSocket.{
  ClientFrame, ReplayFrame, ErrorFrame, ControlState, from_session, from_subscribe, serialize,
  serialize_bounded,
}
use fanzloud.Control.WebSocket.Utf8.{is_utf8}
use fanzloud.Control.WebSocket.Replay.{
  check_replay, push_events, IsStreamed, prepare_replay, replay_frames, serialize_all,
  prepare_replay_sound,
}
use fanzloud.Control.WebSocket.Live.{Write, Round, stream_subscription}
use fanzloud.Control.WebSocket.Live.Order.{IsOrdered, texts, stream_subscription-IsOrdered}
use fanzloud.Control.WebSocket.Live.Delivery.{healthy, reading}
use fanzloud.Control.WebSocket.Serve.{
  SubscribeRequest, InitialOutcome, InitialRound, polled, received, Meeting, TaskResult,
  receive_subscribe, run_socket,
}
use fanzloud.Control.WebSocket.Serve.Request.{Asks, receive_subscribe-Asks}
use fanzloud.Control.WebSocket.Serve.Farewell.{IsConversation, run_socket-IsConversation}
use fanzloud.Control.WebSocket.Serve.Granted.{done_at_once, undisturbed, session_port}

-- An encoder that names the frame, and the number of an event in one digit.
abbrev encode : ReplayFrame → Option (List ℕ)
encode (ReplayFrame.replay_begin session_id after_seq high) = some (codes "begin")
encode (ReplayFrame.event e) = some ((b'0' + e.seq) ∷ [])
encode (ReplayFrame.snapshot snapshot high) = some (codes "snapshot")
encode (ReplayFrame.replay_end session_id high) = some (codes "end")

abbrev encode_error : ErrorFrame → Option (List ℕ)
encode_error frame = some (codes frame.code)

abbrev begun : List ℕ
begun = codes "begin"

abbrev frames : List (List ℕ)
frames = begun ∷ codes "1" ∷ codes "snapshot" ∷ codes "end" ∷ []

prepared : prepare_replay encode 11 0 1 subscription ≡ ok frames
unfolding prepare_replay check_replay serialize_bounded is_utf8 push_events
prepared = refl

prepare_replay_sound_example :
    (subscription.snapshot.identity.session_id ≡ 11)
    × (subscription.snapshot.high_water_seq ≡ 1)
    × Ends 1 subscription.replay
    × All (IsStreamed 11) subscription.replay
    × (0 + length subscription.replay ≡ 1)
    × (serialize_all encode (replay_frames 11 0 subscription) ≡ ok frames)
prepare_replay_sound_example = prepare_replay_sound encode 11 0 1 subscription frames prepared

-- An event that comes after the snapshot.
abbrev next_event : P0SessionEventEnvelope
next_event = envelope inner 2 (some 5) P0SessionEvent.turn_accepted

abbrev writes : List Write
writes =
    record { before = healthy; sent = true }
    ∷ record { before = healthy; sent = true }
    ∷ record { before = healthy; sent = true }
    ∷ record { before = healthy; sent = true }
    ∷ []

-- A ping, an event, and a lost peer.
abbrev rounds : List Round
rounds =
    record (reading (opened 1) []) { ping_due = true }
    ∷ reading (opened 1) (next_event ∷ [])
    ∷ record (reading (opened 1) []) {
      before = record healthy { control = ControlState.peer_closed };
    }
    ∷ []

stream_subscription-IsOrdered_example :
    IsOrdered encode 11 1 frames
      (texts (stream_subscription encode 11 0 subscription writes rounds).0)
stream_subscription-IsOrdered_example =
    stream_subscription-IsOrdered encode 11 0 subscription writes rounds frames prepared

abbrev request : SubscribeRequest
request = record { session_id = 11; after_seq = 0 }

abbrev decode : List ℕ → Option (ℕ × ℕ × ℕ)
decode bytes = some (1, 11, 0)

-- A poll, and then the request.
abbrev initial : List InitialRound
initial =
    record { auth_valid = true; running = true; selected = polled }
    ∷ record {
      auth_valid = true;
      running = true;
      selected = received (ok (some (ClientFrame.text (codes "subscribe"))));
    }
    ∷ []

receive_subscribe-Asks_example :
    (receive_subscribe decode initial ≡ some (InitialOutcome.subscribed request))
    ↔ Asks decode request initial
receive_subscribe-Asks_example = receive_subscribe-Asks decode request initial

abbrev port : ℕ → ℕ → TaskResult
port = session_port decode encode_error encode inner queued request

abbrev conversation : Meeting
conversation = record {
  initial = initial;
  waits = done_at_once;
  writes = writes;
  rounds = rounds;
  ending = undisturbed;
}

run_socket-IsConversation_example :
    IsConversation decode encode_error encode port
      (run_socket decode encode_error encode port conversation)
run_socket-IsConversation_example =
    run_socket-IsConversation decode encode_error encode port conversation

-- The socket looks, the queued turn is cancelled, and the socket looks twice.
abbrev granted : System
granted = record { state = subscribed; phase = idle }

abbrev canceled : RuntimeState
canceled =
    append_event inner
      (record subscribed {
        work = none;
        session_state = P0SessionState.ready;
        current_turn = some (record queued_turn {
          projection = P0TurnProjection.canceled_before_cloud_start;
          cancel_completed = true;
        });
      })
      (some 5) P0SessionEvent.turn_canceled_before_cloud_start

abbrev after_cancel : System
after_cancel = record { state = canceled; phase = idle }

abbrev read : System
read = record { state = receive canceled 1; phase = idle }

abbrev second : P0SessionEventEnvelope
second = envelope inner 2 (some 5) P0SessionEvent.turn_canceled_before_cloud_start

abbrev served_rounds : List Round
served_rounds =
    reading (opened 1) []
    ∷ reading (record (opened 1) { queue = second ∷ [] }) (second ∷ [])
    ∷ reading (opened 1) []
    ∷ []

-- A session that is not the one that the request names.
abbrev other : SubscribeRequest
other = record { session_id = 12; after_seq = 0 }

abbrev decode_other : List ℕ → Option (ℕ × ℕ × ℕ)
decode_other bytes = some (1, 12, 0)

abbrev asks_other : Asks decode_other other initial
asks_other = (refl, refl, inr (tt, (refl, refl, inl (omega arith, refl))))

abbrev refused : Meeting
refused = record {
  initial = initial;
  waits = done_at_once;
  writes = [];
  rounds = [];
  ending = undisturbed;
}

abbrev wrong_session : P0SessionError
wrong_session = new P0SessionErrorCategory.wrong_session

not_granted : subscribe inner queued 12 0 ≡ err wrong_session
unfolding subscribe
not_granted = refl

error_serialized :
    serialize encode_error (from_subscribe (from_session wrong_session))
    ≡ ok (codes "wrong_session")
unfolding serialize serialize_bounded is_utf8 from_subscribe from_session
error_serialized = refl
