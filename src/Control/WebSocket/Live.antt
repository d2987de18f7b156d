-- ===== src/Control/WebSocket/Live.antt =====
-- `stream_subscription` of apps/control-plane/src/websocket.rs: the writes of the replay and the loop
-- that passes live events on. What the loop meets (the connection, the clock, the receiver and the
-- socket) is a list of rounds; a list that ends leaves the loop running. A frame counts as sent when
-- its write has succeeded within its deadline.
pub mod Order
pub mod Delivery
pub mod Watch
use fanzloud.Base.{
  ℕ, Bool, true, false, not, Option, none, some, List, [], ◌∷◌, ◌++◌, Result, ok, err,
  if◌then◌else◌,
}
use fanzloud.Domain.Sequence.{checked_next}
use fanzloud.Session.Types.{P0SessionEventEnvelope}
use fanzloud.Session.Subscribe.{P0SessionSubscription}
use fanzloud.Control.WebSocket.{
  LiveEventError, ServerFrame, ReplayFrame, StreamOutcome, Connection, retry, stream_unavailable,
  serialize_bounded, connection_outcome,
}
use fanzloud.Control.WebSocket.Replay.{is_next, next_seq, prepare_replay}

-- One write: the connection before it, and whether it succeeds.
pub record Write : Type 0 where
  pub before : Connection
  pub sent : Bool

pub record Round : Type 0 where
  pub before : Connection
  pub ping_due : Bool
  pub received : Result LiveEventError P0SessionEventEnvelope
  pub after : Connection
  pub sent : Bool

pub data Step : Type 0 where
  stop : StreamOutcome → Step
  -- the frames sent, and `last_seq`
  go : List ServerFrame → ℕ → Step

abbrev pub send : ServerFrame → Bool → ℕ → Step
send frame sent last = if sent then go (frame ∷ []) last else stop StreamOutcome.transport_closed

abbrev pub failed_stream : Step
failed_stream = stop (StreamOutcome.failed stream_unavailable)

abbrev pub subscriber_lagged : StreamOutcome
subscriber_lagged =
    StreamOutcome.failed (retry "subscriber_lagged" "session subscriber fell behind")

pub data Sending : Type 0 where
  interrupted : StreamOutcome → Sending
  -- the list of writes has ended
  waiting : Sending
  all_sent : Sending

-- The loop over the frames of the replay.
unfoldable pub send_replay : List (List ℕ) → List Write → List ServerFrame × Sending
send_replay [] writes = ([], all_sent)
send_replay (frame ∷ frames) [] = ([], waiting)
send_replay (frame ∷ frames) (w ∷ writes) =
    let rest = send_replay frames writes in
    elim (connection_outcome w.before) [
      | some outcome ↦ ([], interrupted outcome)
      | none ↦
          if w.sent
          then (ServerFrame.text frame ∷ rest.0, rest.1)
          else ([], interrupted StreamOutcome.transport_closed)
    ]

module _ (to_vec : ReplayFrame → Option (List ℕ)) (session : ℕ) where
  unfoldable pub live_event : ℕ → Connection → Bool → P0SessionEventEnvelope → Step
  unfolding checked_next
  live_event last after sent e = elim (next_seq last) [
    | err error ↦ stop (StreamOutcome.failed error)
    | ok expected ↦
        if not (is_next session expected e)
        then failed_stream
        else elim (serialize_bounded to_vec (ReplayFrame.event e)) [
          | err u ↦ failed_stream
          | ok frame ↦ elim (connection_outcome after) [
            | some outcome ↦ stop outcome
            | none ↦ send (ServerFrame.text frame) sent e.seq
          ]
        ]
  ]

  abbrev pub live_receive :
      ℕ → Connection → Bool → Result LiveEventError P0SessionEventEnvelope → Step
  live_receive last after sent (ok e) = live_event last after sent e
  live_receive last after sent (err LiveEventError.empty) = go [] last
  live_receive last after sent (err LiveEventError.lagged) = stop subscriber_lagged
  live_receive last after sent (err LiveEventError.runtime_stopped) = failed_stream
  live_receive last after sent (err LiveEventError.closed) = failed_stream

  unfoldable pub live_round : ℕ → Round → Step
  live_round last r = elim (connection_outcome r.before) [
    | some outcome ↦ stop outcome
    | none ↦
        if r.ping_due
        then send ServerFrame.ping r.sent last
        else live_receive last r.after r.sent r.received
  ]

  unfoldable pub live_loop : ℕ → List Round → List ServerFrame × Option StreamOutcome
  live_loop last [] = ([], none)
  live_loop last (r ∷ rounds) = elim (live_round last r) [
    | stop outcome ↦ ([], some outcome)
    | go frames next ↦ (frames ++ (live_loop next rounds).0, (live_loop next rounds).1)
  ]

  abbrev pub after_replay :
      ℕ → List Round → List ServerFrame × Sending → List ServerFrame × Option StreamOutcome
  after_replay high rounds (frames, interrupted outcome) = (frames, some outcome)
  after_replay high rounds (frames, waiting) = (frames, none)
  after_replay high rounds (frames, all_sent) =
      (frames ++ (live_loop high rounds).0, (live_loop high rounds).1)

  unfoldable pub stream_subscription :
      ℕ → P0SessionSubscription → List Write → List Round → List ServerFrame × Option StreamOutcome
  stream_subscription after_seq subscription writes rounds =
      let high = subscription.snapshot.high_water_seq in
      elim (prepare_replay to_vec session after_seq high subscription) [
        | err error ↦ ([], some (StreamOutcome.failed error))
        | ok frames ↦ after_replay high rounds (send_replay frames writes)
      ]
