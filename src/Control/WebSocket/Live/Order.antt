-- ===== src/Control/WebSocket/Live/Order.antt =====
-- The order of what `stream_subscription` of apps/control-plane/src/websocket.rs sends.
use fanzloud.Base.{
  ℕ, ◌+◌, ◌≡◌, refl, ap, sym, subst, ◌∙◌, ◌⊎◌, inl, inr, Bool, Option, some, List, [], ◌∷◌, ◌++◌,
  arith, Result, ok, err, Result-cases, Option-cases, Bool-cases,
}
use fanzloud.Domain.Sequence.{checked_next}
use fanzloud.Session.Types.{P0SessionEventEnvelope}
use fanzloud.Session.Subscribe.{P0SessionSubscription}
use fanzloud.Control.WebSocket.{
  LiveEventError, ServerFrame, ApplicationError, ReplayFrame, StreamOutcome, Connection,
  serialize_bounded, connection_outcome,
}
use fanzloud.Control.WebSocket.Replay.{prepare_replay, IsStreamed}
use fanzloud.Control.WebSocket.Live.{
  Write, Round, Step, stop, go, Sending, interrupted, waiting, all_sent, send_replay, live_event,
  live_receive, live_round, live_loop, after_replay, stream_subscription,
}

-- The texts among the frames.
abbrev pub texts : List ServerFrame → List (List ℕ)
texts [] = []
texts (ServerFrame.text bytes ∷ frames) = bytes ∷ texts frames
texts (ServerFrame.ping ∷ frames) = texts frames
texts (ServerFrame.close code reason ∷ frames) = texts frames

texts-append : (xs ys : List ServerFrame) → texts (xs ++ ys) ≡ texts xs ++ texts ys
texts-append [] ys = refl
texts-append (ServerFrame.text bytes ∷ xs) ys = ap (λ t. bytes ∷ t) (texts-append xs ys)
texts-append (ServerFrame.ping ∷ xs) ys = texts-append xs ys
texts-append (ServerFrame.close code reason ∷ xs) ys = texts-append xs ys

pub Step-cases :
    (s : Step)
    → ((outcome : StreamOutcome) × (s ≡ stop outcome))
      ⊎ ((frames : List ServerFrame) × (next : ℕ) × (s ≡ go frames next))
Step-cases (stop outcome) = inl (outcome, refl)
Step-cases (go frames next) = inr (frames, next, refl)

module _ (to_vec : ReplayFrame → Option (List ℕ)) (session : ℕ) where
  -- Each text is an event of the session, and the events follow one another after `last`.
  abbrev pub Continues : ℕ → List (List ℕ) → Type 0
  Continues last [] = Unit {0}
  Continues last (bytes ∷ rest) =
      ((e : P0SessionEventEnvelope) × (serialize_bounded to_vec (ReplayFrame.event e) ≡ ok bytes)
        × (e.seq ≡ last + 1)
        × IsStreamed session e)
      × Continues (last + 1) rest

  pub live_event-go :
      (last : ℕ) (after : Connection) (sent : Bool) (e : P0SessionEventEnvelope)
      (frames : List ServerFrame) (next : ℕ)
      → live_event to_vec session last after sent e ≡ go frames next
      → (bytes : List ℕ) × (serialize_bounded to_vec (ReplayFrame.event e) ≡ ok bytes)
        × (frames ≡ ServerFrame.text bytes ∷ [])
        × (e.seq ≡ last + 1)
        × IsStreamed session e
        × (next ≡ last + 1)
  unfolding live_event checked_next
  live_event-go last after sent e frames next went =
      elim (Result-cases (serialize_bounded to_vec (ReplayFrame.event e))) [
        | inl (bytes, written) ↦
            (bytes, written, ground arith, ground arith, ground arith, ground arith)
        | inr (u, failed) ↦ absurd (ground arith)
      ]

  -- What a step that goes on has sent comes before what is sent later.
  abbrev Before : ℕ → List ServerFrame → ℕ → Type 0
  Before last frames next =
      (rest : List (List ℕ)) → Continues next rest → Continues last (texts frames ++ rest)

  live_event-Before :
      (last : ℕ) (after : Connection) (sent : Bool) (e : P0SessionEventEnvelope)
      (frames : List ServerFrame) (next : ℕ)
      → live_event to_vec session last after sent e ≡ go frames next
      → Before last frames next
  live_event-Before last after sent e frames next went rest later =
      let (bytes, written, one, seq, ours, moved) =
        live_event-go last after sent e frames next went in
      subst (λ f. Continues last (texts f ++ rest)) (sym one)
        ((e, written, seq, ours), subst (λ n. Continues n rest) moved later)

  stay-Before :
      (last next : ℕ) (frames : List ServerFrame)
      → texts frames ≡ []
      → next ≡ last
      → Before last frames next
  stay-Before last next frames quiet still rest later =
      subst (λ t. Continues last (t ++ rest)) (sym quiet)
        (subst (λ n. Continues n rest) still later)

  live_receive-Before :
      (last : ℕ) (after : Connection) (sent : Bool)
      (received : Result LiveEventError P0SessionEventEnvelope) (frames : List ServerFrame)
      (next : ℕ)
      → live_receive to_vec session last after sent received ≡ go frames next
      → Before last frames next
  live_receive-Before last after sent (ok e) frames next went =
      live_event-Before last after sent e frames next went
  live_receive-Before last after sent (err LiveEventError.empty) frames next went =
      stay-Before last next frames (ground arith) (ground arith)
  live_receive-Before last after sent (err LiveEventError.lagged) frames next went = cc
  live_receive-Before last after sent (err LiveEventError.runtime_stopped) frames next went = cc
  live_receive-Before last after sent (err LiveEventError.closed) frames next went = cc

  live_round-Before :
      (last : ℕ) (r : Round) (frames : List ServerFrame) (next : ℕ)
      → live_round to_vec session last r ≡ go frames next
      → Before last frames next
  unfolding live_round
  live_round-Before last r frames next went = elim (Option-cases (connection_outcome r.before)) [
    | inr (outcome, gone) ↦ absurd (ground arith)
    | inl here ↦ elim (Bool-cases r.ping_due) [
      | inl due ↦ stay-Before last next frames (ground arith) (ground arith)
      | inr quiet ↦ live_receive-Before last r.after r.sent r.received frames next (ground arith)
    ]
  ]

  pub live_loop-stop :
      (last : ℕ) (r : Round) (rounds : List Round) (outcome : StreamOutcome)
      → live_round to_vec session last r ≡ stop outcome
      → (live_loop to_vec session last (r ∷ rounds)).0 ≡ []
  unfolding live_loop
  live_loop-stop last r rounds outcome halt = ground arith

  pub live_loop-go :
      (last : ℕ) (r : Round) (rounds : List Round) (frames : List ServerFrame) (next : ℕ)
      → live_round to_vec session last r ≡ go frames next
      → (live_loop to_vec session last (r ∷ rounds)).0
        ≡ frames ++ (live_loop to_vec session next rounds).0
  unfolding live_loop
  live_loop-go last r rounds frames next went = ground arith

  pub live_loop-Continues :
      (last : ℕ) (rounds : List Round)
      → Continues last (texts (live_loop to_vec session last rounds).0)
  unfolding live_loop
  live_loop-Continues last [] = tt
  live_loop-Continues last (r ∷ rounds) = elim (Step-cases (live_round to_vec session last r)) [
    | inl (outcome, halt) ↦
        subst (λ f. Continues last (texts f)) (sym (live_loop-stop last r rounds outcome halt)) tt
    | inr (frames, next, went) ↦
        let later = live_loop to_vec session next rounds in
        subst (λ f. Continues last (texts f)) (sym (live_loop-go last r rounds frames next went))
          (subst (Continues last) (sym (texts-append frames later.0)) (
            live_round-Before last r frames next went (texts later.0)
              (live_loop-Continues next rounds)))
  ]

send_replay_prefix :
    (frames : List (List ℕ)) (writes : List Write)
    → (rest : List (List ℕ)) × (texts (send_replay frames writes).0 ++ rest ≡ frames)
unfolding send_replay
send_replay_prefix [] writes = ([], refl)
send_replay_prefix (frame ∷ frames) [] = (frame ∷ frames, refl)
send_replay_prefix (frame ∷ frames) (w ∷ writes) =
    let (rest, whole) = send_replay_prefix frames writes in
    elim (Option-cases (connection_outcome w.before)) [
      | inr (outcome, gone) ↦ (frame ∷ frames, ground arith)
      | inl here ↦ elim (Bool-cases w.sent) [
        | inl sent ↦ (rest, ground arith)
        | inr lost ↦ (frame ∷ frames, ground arith)
      ]
    ]

send_replay-all_sent :
    (frames : List (List ℕ)) (writes : List Write)
    → (send_replay frames writes).1 ≡ all_sent
    → texts (send_replay frames writes).0 ≡ frames
unfolding send_replay
send_replay-all_sent [] writes e = refl
send_replay-all_sent (frame ∷ frames) [] e = cc
send_replay-all_sent (frame ∷ frames) (w ∷ writes) e =
    ground (arith, send_replay-all_sent frames writes)

-- The texts are some of the frames, from the first on, or all of them and then live events.
abbrev pub IsOrdered :
    (ReplayFrame → Option (List ℕ)) → ℕ → ℕ → List (List ℕ) → List (List ℕ) → Type 0
IsOrdered to_vec session high frames sent =
    ((rest : List (List ℕ)) × (sent ++ rest ≡ frames))
    ⊎ ((live : List (List ℕ)) × (sent ≡ frames ++ live) × Continues to_vec session high live)

after_replay-IsOrdered :
    (to_vec : ReplayFrame → Option (List ℕ)) (session high : ℕ) (rounds : List Round)
    (frames rest : List (List ℕ)) (replayed : List ServerFrame × Sending)
    → texts replayed.0 ++ rest ≡ frames
    → (replayed.1 ≡ all_sent → texts replayed.0 ≡ frames)
    → IsOrdered to_vec session high frames
        (texts (after_replay to_vec session high rounds replayed).0)
after_replay-IsOrdered to_vec session high rounds frames rest (out, interrupted o) whole all =
    inl (rest, whole)
after_replay-IsOrdered to_vec session high rounds frames rest (out, waiting) whole all =
    inl (rest, whole)
after_replay-IsOrdered to_vec session high rounds frames rest (out, all_sent) whole all = inr (
  texts (live_loop to_vec session high rounds).0,
  texts-append out (live_loop to_vec session high rounds).0
      ∙ ap (λ t. t ++ texts (live_loop to_vec session high rounds).0) (all refl),
  live_loop-Continues to_vec session high rounds,
)

pub stream_prepared :
    (to_vec : ReplayFrame → Option (List ℕ)) (session after_seq : ℕ) (sub : P0SessionSubscription)
    (writes : List Write) (rounds : List Round) (frames : List (List ℕ))
    → prepare_replay to_vec session after_seq sub.snapshot.high_water_seq sub ≡ ok frames
    → stream_subscription to_vec session after_seq sub writes rounds
      ≡ after_replay to_vec session sub.snapshot.high_water_seq rounds (send_replay frames writes)
unfolding stream_subscription
stream_prepared to_vec session after_seq sub writes rounds frames prepared = ground arith

pub stream_refused :
    (to_vec : ReplayFrame → Option (List ℕ)) (session after_seq : ℕ) (sub : P0SessionSubscription)
    (writes : List Write) (rounds : List Round) (error : ApplicationError)
    → prepare_replay to_vec session after_seq sub.snapshot.high_water_seq sub ≡ err error
    → stream_subscription to_vec session after_seq sub writes rounds
      ≡ ([], some (StreamOutcome.failed error))
unfolding stream_subscription
stream_refused to_vec session after_seq sub writes rounds error refused = ground arith

-- On a subscription whose replay is prepared, whatever the connection, the clock, the receiver and
-- the socket do: the texts that are sent are the frames of the replay from the first on, up to where
-- the stream ended, or all of them and then events of the session, each serialized, whose sequence
-- numbers follow one another from the high water on.
pub stream_subscription-IsOrdered :
    (to_vec : ReplayFrame → Option (List ℕ)) (session after_seq : ℕ) (sub : P0SessionSubscription)
    (writes : List Write) (rounds : List Round) (frames : List (List ℕ))
    → prepare_replay to_vec session after_seq sub.snapshot.high_water_seq sub ≡ ok frames
    → IsOrdered to_vec session sub.snapshot.high_water_seq frames
        (texts (stream_subscription to_vec session after_seq sub writes rounds).0)
stream_subscription-IsOrdered to_vec session after_seq sub writes rounds frames prepared =
    let high = sub.snapshot.high_water_seq in
    let (rest, whole) = send_replay_prefix frames writes in
    subst (λ t. IsOrdered to_vec session high frames (texts t.0))
      (sym (stream_prepared to_vec session after_seq sub writes rounds frames prepared))
      (after_replay-IsOrdered to_vec session high rounds frames rest (send_replay frames writes)
        whole (send_replay-all_sent frames writes))
