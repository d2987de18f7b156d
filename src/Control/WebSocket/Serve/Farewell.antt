-- ===== src/Control/WebSocket/Serve/Farewell.antt =====
-- How a socket of apps/control-plane/src/websocket.rs ends.
use fanzloud.Base.{
  ℕ, ◌≡◌, refl, sym, subst, inl, inr, true, false, Option, none, some, List, [], ◌∷◌, ◌++◌, Result,
  ok, err, arith, Bool, Result-cases, Bool-cases,
}
use mathlib.Core.List.{append-nil}
use fanzloud.Session.Types.{P0SessionEventEnvelope}
use fanzloud.Session.Subscribe.{P0SessionSubscription}
use fanzloud.Control.WebSocket.{
  LiveEventError, ServerFrame, ReplayFrame, ErrorFrame, ApplicationError, StreamOutcome, Connection,
  authentication_expired, protocol_error, serialize,
}
use fanzloud.Control.WebSocket.Replay.{prepare_replay}
use fanzloud.Control.WebSocket.Live.{
  Write, Round, go, Sending, interrupted, waiting, all_sent, send_replay, live_receive, live_round,
  live_loop, after_replay, stream_subscription,
}
use fanzloud.Control.WebSocket.Live.Order.{
  stream_prepared, stream_refused, live_event-go, Step-cases, live_loop-go, live_loop-stop,
}
use fanzloud.Control.WebSocket.Serve.{
  Decoder, TaskResult, Ending, Meeting, SubscribeRequest, InitialOutcome, report, report_text,
  shutdown_frames, fail_before_subscription, fail_after_subscription, finish_stream_outcome,
  finish_option, serve_subscription, serve_initial, run_socket, await_subscription,
  receive_subscribe,
}

-- No close frame among them.
abbrev pub IsOpen : List ServerFrame → Type 0
IsOpen [] = Unit {0}
IsOpen (ServerFrame.close code reason ∷ frames) = ⊥
IsOpen (ServerFrame.text bytes ∷ frames) = IsOpen frames
IsOpen (ServerFrame.ping ∷ frames) = IsOpen frames

module _ (error_to_vec : ErrorFrame → Option (List ℕ)) where
  -- Nothing, the close frame of a shutdown, or the text of an error, after which may come the close
  -- frame of the same error, with its code and its name.
  pub data Farewell : List ServerFrame → Type 0 where
    silent : Farewell []
    shut_down : Farewell (ServerFrame.close 1012 "server_shutdown" ∷ [])
    told :
        (error : ApplicationError) (bytes : List ℕ)
        → serialize error_to_vec error ≡ ok bytes
        → Farewell (ServerFrame.text bytes ∷ [])
    closed :
        (error : ApplicationError) (bytes : List ℕ)
        → serialize error_to_vec error ≡ ok bytes
        → Farewell (ServerFrame.text bytes ∷ ServerFrame.close error.close_code error.code ∷ [])

  shutdown_frames-Farewell : (sent : Bool) → Farewell (shutdown_frames sent)
  shutdown_frames-Farewell true = shut_down
  shutdown_frames-Farewell false = silent

  text-Farewell :
      (e : Ending) (error : ApplicationError) (bytes : List ℕ)
      → serialize error_to_vec error ≡ ok bytes
      → Farewell (report_text e error (ok bytes))
  text-Farewell e error bytes written = elim (Bool-cases e.text_sent) [
    | inr lost ↦ rw lost silent
    | inl sent ↦ elim (Bool-cases e.close_sent) [
      | inl shut ↦ rw (sent, shut) (closed error bytes written)
      | inr not_shut ↦ rw (sent, not_shut) (told error bytes written)
    ]
  ]

  report-Farewell : (e : Ending) (error : ApplicationError) → Farewell (report error_to_vec e error)
  report-Farewell e error = elim (Result-cases (serialize error_to_vec error)) [
    | inl (bytes, written) ↦ rw written (text-Farewell e error bytes written)
    | inr (u, failed) ↦ rw failed silent
  ]

  fail_before-Farewell :
      (e : Ending) (error : ApplicationError)
      → Farewell (fail_before_subscription error_to_vec e error)
  unfolding fail_before_subscription
  fail_before-Farewell e error = ground (
    arith,
    report-Farewell e authentication_expired,
    shutdown_frames-Farewell e.close_sent,
    report-Farewell e error,
    silent,
  )

  fail_after-Farewell :
      (e : Ending) (error : ApplicationError)
      → Farewell (fail_after_subscription error_to_vec e error)
  unfolding fail_after_subscription
  fail_after-Farewell e error = ground (
    arith,
    report-Farewell e authentication_expired,
    report-Farewell e protocol_error,
    shutdown_frames-Farewell e.close_sent,
    report-Farewell e error,
    silent,
  )

  finish-Farewell :
      (e : Ending) (outcome : StreamOutcome)
      → Farewell (finish_stream_outcome error_to_vec e outcome)
  unfolding finish_stream_outcome
  finish-Farewell e StreamOutcome.peer_closed = silent
  finish-Farewell e StreamOutcome.transport_closed = silent
  finish-Farewell e StreamOutcome.server_shutdown = shutdown_frames-Farewell e.close_sent
  finish-Farewell e (StreamOutcome.failed error) = fail_after-Farewell e error

IsOpen-append : (xs ys : List ServerFrame) → IsOpen xs → IsOpen ys → IsOpen (xs ++ ys)
IsOpen-append [] ys h k = k
IsOpen-append (ServerFrame.text bytes ∷ xs) ys h k = IsOpen-append xs ys h k
IsOpen-append (ServerFrame.ping ∷ xs) ys h k = IsOpen-append xs ys h k
IsOpen-append (ServerFrame.close code reason ∷ xs) ys h k = absurd h

send_replay-IsOpen :
    (frames : List (List ℕ)) (writes : List Write) → IsOpen (send_replay frames writes).0
unfolding send_replay
send_replay-IsOpen [] writes = tt
send_replay-IsOpen (frame ∷ frames) [] = tt
send_replay-IsOpen (frame ∷ frames) (w ∷ writes) = ground (arith, send_replay-IsOpen frames writes)

module _ (to_vec : ReplayFrame → Option (List ℕ)) (session : ℕ) where
  live_receive-IsOpen :
      (last : ℕ) (after : Connection) (sent : Bool)
      (received : Result LiveEventError P0SessionEventEnvelope) (frames : List ServerFrame)
      (next : ℕ)
      → live_receive to_vec session last after sent received ≡ go frames next
      → IsOpen frames
  live_receive-IsOpen last after sent (ok e) frames next went =
      let parts = live_event-go to_vec session last after sent e frames next went in
      subst IsOpen (sym parts.2) tt
  live_receive-IsOpen last after sent (err LiveEventError.empty) frames next went = ground arith
  live_receive-IsOpen last after sent (err LiveEventError.lagged) frames next went = cc
  live_receive-IsOpen last after sent (err LiveEventError.runtime_stopped) frames next went = cc
  live_receive-IsOpen last after sent (err LiveEventError.closed) frames next went = cc

  live_round-IsOpen :
      (last : ℕ) (r : Round) (frames : List ServerFrame) (next : ℕ)
      → live_round to_vec session last r ≡ go frames next
      → IsOpen frames
  unfolding live_round
  live_round-IsOpen last r frames next went =
      ground (arith, live_receive-IsOpen last r.after r.sent r.received frames next)

  live_loop-IsOpen :
      (last : ℕ) (rounds : List Round) → IsOpen (live_loop to_vec session last rounds).0
  unfolding live_loop
  live_loop-IsOpen last [] = tt
  live_loop-IsOpen last (r ∷ rounds) = elim (Step-cases (live_round to_vec session last r)) [
    | inl (outcome, halt) ↦
        subst IsOpen (sym (live_loop-stop to_vec session last r rounds outcome halt)) tt
    | inr (frames, next, went) ↦
        subst IsOpen (sym (live_loop-go to_vec session last r rounds frames next went)) (
          IsOpen-append frames (live_loop to_vec session next rounds).0
            (live_round-IsOpen last r frames next went) (live_loop-IsOpen next rounds))
  ]

  after_replay-IsOpen :
      (high : ℕ) (rounds : List Round) (replayed : List ServerFrame × Sending)
      → IsOpen replayed.0
      → IsOpen (after_replay to_vec session high rounds replayed).0
  after_replay-IsOpen high rounds (out, interrupted outcome) h = h
  after_replay-IsOpen high rounds (out, waiting) h = h
  after_replay-IsOpen high rounds (out, all_sent) h =
      IsOpen-append out (live_loop to_vec session high rounds).0 h (live_loop-IsOpen high rounds)

  stream-IsOpen :
      (after_seq : ℕ) (sub : P0SessionSubscription) (writes : List Write) (rounds : List Round)
      → IsOpen (stream_subscription to_vec session after_seq sub writes rounds).0
  stream-IsOpen after_seq sub writes rounds =
      let high = sub.snapshot.high_water_seq in
      elim (Result-cases (prepare_replay to_vec session after_seq high sub)) [
        | inl (frames, prepared) ↦
            subst (λ t. IsOpen t.0)
              (sym (stream_prepared to_vec session after_seq sub writes rounds frames prepared))
              (after_replay-IsOpen high rounds (send_replay frames writes)
                (send_replay-IsOpen frames writes))
        | inr (error, refused) ↦
            subst (λ t. IsOpen t.0)
              (sym (stream_refused to_vec session after_seq sub writes rounds error refused)) tt
      ]

module _ (decode : Decoder) (error_to_vec : ErrorFrame → Option (List ℕ))
    (to_vec : ReplayFrame → Option (List ℕ)) (port : ℕ → ℕ → TaskResult) where
  -- What is streamed holds no close frame, and a farewell comes after it.
  abbrev pub IsConversation : List ServerFrame → Type 0
  IsConversation frames =
      (streamed : List ServerFrame) × (farewell : List ServerFrame) × (frames
        ≡ streamed ++ farewell)
      × IsOpen streamed
      × Farewell error_to_vec farewell

  only-IsConversation :
      (frames : List ServerFrame) → Farewell error_to_vec frames → IsConversation frames
  only-IsConversation frames farewell = ([], frames, refl, tt, farewell)

  finish_option-IsConversation :
      (e : Ending) (ended : List ServerFrame × Option StreamOutcome)
      → IsOpen ended.0
      → IsConversation (finish_option (finish_stream_outcome error_to_vec e) ended)
  finish_option-IsConversation e (frames, none) h = (frames, [], sym (append-nil frames), h, silent)
  finish_option-IsConversation e (frames, some outcome) h = (
    frames,
    finish_stream_outcome error_to_vec e outcome,
    refl,
    h,
    finish-Farewell error_to_vec e outcome,
  )

  serve_subscription-IsConversation :
      (m : Meeting) (request : SubscribeRequest)
      (awaited : Option (Result StreamOutcome P0SessionSubscription))
      → IsConversation (serve_subscription decode error_to_vec to_vec port m request awaited)
  serve_subscription-IsConversation m request none = only-IsConversation [] silent
  serve_subscription-IsConversation m request (some (err outcome)) =
      only-IsConversation (finish_stream_outcome error_to_vec m.ending outcome)
        (finish-Farewell error_to_vec m.ending outcome)
  serve_subscription-IsConversation m request (some (ok sub)) =
      finish_option-IsConversation m.ending
        (stream_subscription to_vec request.session_id request.after_seq sub m.writes m.rounds)
        (stream-IsOpen to_vec request.session_id request.after_seq sub m.writes m.rounds)

  serve_initial-IsConversation :
      (m : Meeting) (initial : Option InitialOutcome)
      → IsConversation (serve_initial decode error_to_vec to_vec port m initial)
  serve_initial-IsConversation m none = only-IsConversation [] silent
  serve_initial-IsConversation m (some InitialOutcome.peer_closed) = only-IsConversation [] silent
  serve_initial-IsConversation m (some InitialOutcome.transport_closed) =
      only-IsConversation [] silent
  serve_initial-IsConversation m (some InitialOutcome.server_shutdown) =
      only-IsConversation (shutdown_frames m.ending.close_sent)
        (shutdown_frames-Farewell error_to_vec m.ending.close_sent)
  serve_initial-IsConversation m (some (InitialOutcome.failed error)) =
      only-IsConversation (fail_before_subscription error_to_vec m.ending error)
        (fail_before-Farewell error_to_vec m.ending error)
  serve_initial-IsConversation m (some (InitialOutcome.subscribed request)) =
      serve_subscription-IsConversation m request
        (await_subscription (port request.session_id request.after_seq) m.waits)

  -- Whatever the peer, the clock, the session and the admission do: what a socket sends is a stream
  -- without a close frame and then a farewell, which is nothing, the close frame of a shutdown, or
  -- the text of one error, with or without the close frame that carries the code and the name of
  -- the same error. A close frame is thus the last frame, and there is one at most.
  pub run_socket-IsConversation :
      (m : Meeting) → IsConversation (run_socket decode error_to_vec to_vec port m)
  unfolding run_socket
  run_socket-IsConversation m = serve_initial-IsConversation m (receive_subscribe decode m.initial)
