-- ===== src/Control/WebSocket/Live/Delivery.antt =====
-- The live loop of apps/control-plane/src/websocket.rs reading the queue of a subscriber of
-- crates/codebox-session-runtime/src/runtime.rs.
use fanzloud.Base.{
  ℕ, ◌+◌, ◌≤◌, ◌≡◌, true, false, Option, List, [], ◌∷◌, arith, ok, map_err, u64_max,
}
use fanzloud.Domain.Sequence.{checked_next}
use fanzloud.Session.Types.{P0SessionEventEnvelope}
use fanzloud.Session.State.{Subscriber}
use fanzloud.Session.Subscribe.{try_recv}
use fanzloud.Control.WebSocket.{
  ServerFrame, ReplayFrame, Connection, ControlState, serialize_bounded, connection_outcome,
  live_event_error,
}
use fanzloud.Control.WebSocket.Replay.{IsStreamed}
use fanzloud.Control.WebSocket.Live.{Round, go, live_event, live_round}

-- The peer is there, the operator is still authenticated and the control plane runs.
abbrev pub healthy : Connection
healthy = record { control = ControlState.open_control; auth_valid = true; running = true }

-- `ConcreteLiveReceiver::try_recv` in a round where the connection holds and the write succeeds.
abbrev pub reading : Subscriber → List P0SessionEventEnvelope → Round
reading sub queue = record {
  before = healthy;
  ping_due = false;
  received = map_err live_event_error (try_recv sub queue).1;
  after = healthy;
  sent = true;
}

-- What the client gets for each event of the queue.
abbrev pub Written :
    (ReplayFrame → Option (List ℕ)) → List P0SessionEventEnvelope → List (List ℕ) → Type 0
Written to_vec [] [] = Unit {0}
Written to_vec (e ∷ es) (bytes ∷ rest) =
    (serialize_bounded to_vec (ReplayFrame.event e) ≡ ok bytes) × Written to_vec es rest
Written to_vec _ _ = ⊥

module _ (to_vec : ReplayFrame → Option (List ℕ)) (session : ℕ) (sub : Subscriber) where
  -- The next event of the session is sent.
  pub reading_one :
      (last : ℕ) (e : P0SessionEventEnvelope) (queue : List P0SessionEventEnvelope) (bytes : List ℕ)
      → e.seq ≡ last + 1
      → last + 1 ≤ u64_max
      → IsStreamed session e
      → serialize_bounded to_vec (ReplayFrame.event e) ≡ ok bytes
      → live_round to_vec session last (reading sub (e ∷ queue))
        ≡ go (ServerFrame.text bytes ∷ []) (last + 1)
  unfolding live_round live_event connection_outcome checked_next try_recv
  reading_one last e queue bytes next bound ours written = ground arith

  -- Nothing is sent for an empty queue while the subscriber is registered.
  pub reading_none :
      (last : ℕ)
      → sub.registered ≡ true
      → live_round to_vec session last (reading sub []) ≡ go [] last
  unfolding live_round live_event connection_outcome live_event_error try_recv
  reading_none last open_now = ground arith
