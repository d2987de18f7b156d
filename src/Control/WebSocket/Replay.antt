-- ===== src/Control/WebSocket/Replay.antt =====
-- `prepare_replay` of apps/control-plane/src/websocket.rs: the first frames of a subscription.
use fanzloud.Base.{
  ℕ, ◌+◌, ◌≤◌, ◌≡◌, sym, ap, subst, ◌∙◌, Bool, not, ◌&&◌, Option, List, [], ◌∷◌, ◌++◌, map, arith,
  length, All, Result, ok, ◌>>=◌, ◌>>◌, ensure, map_err, ltb, ◌==◌, u64_max,
}
use fanzloud.Domain.Sequence.{checked_next}
use fanzloud.Session.Types.{P0SessionIdentity, P0SessionEventEnvelope}
use fanzloud.Session.State.{Inner, RuntimeState}
use fanzloud.Session.Subscribe.{P0SessionSubscription, subscribe, after}
use fanzloud.Session.Stream.{Ends, IsOurs, HasStream}
use fanzloud.Session.Stream.Readers.{subscribe_exact}
use fanzloud.Control.WebSocket.{
  ReplayFrame, ApplicationError, stream_unavailable, serialize_bounded,
}

-- The check of one event, which `prepare_replay` and the live loop make.
abbrev pub is_next : ℕ → ℕ → P0SessionEventEnvelope → Bool
is_next session expected e = e.schema_version == 1 && e.session_id == session && e.seq == expected

abbrev pub next_seq : ℕ → Result ApplicationError ℕ
next_seq seq = map_err (λ _. stream_unavailable) (checked_next seq)

-- The loop over the events: the session, the high water and the last number seen.
unfoldable pub check_replay : ℕ → ℕ → ℕ → List P0SessionEventEnvelope → Result ApplicationError ℕ
unfolding checked_next
check_replay session high last [] = ok last
check_replay session high last (e ∷ es) = do
  expected ← next_seq last
  ensure (is_next session expected e && not (ltb high e.seq)) stream_unavailable
  check_replay session high expected es

-- The frames as values: the beginning, the events, the snapshot and the end.
abbrev pub replay_frames : ℕ → ℕ → P0SessionSubscription → List ReplayFrame
replay_frames session after_seq subscription =
    let high = subscription.snapshot.high_water_seq in
    ReplayFrame.replay_begin session after_seq high
    ∷ (map (λ e. ReplayFrame.event e) subscription.replay
        ++ (ReplayFrame.snapshot subscription.snapshot high
            ∷ ReplayFrame.replay_end session high
            ∷ []))

module _ (to_vec : ReplayFrame → Option (List ℕ)) where
  abbrev pub push_frame : ReplayFrame → Result ApplicationError (List ℕ)
  push_frame frame = map_err (λ _. stream_unavailable) (serialize_bounded to_vec frame)

  unfoldable pub push_events : List P0SessionEventEnvelope → Result ApplicationError (List (List ℕ))
  push_events [] = ok []
  push_events (e ∷ es) = do
    frame ← push_frame (ReplayFrame.event e)
    frames ← push_events es
    ok (frame ∷ frames)

  unfoldable pub prepare_replay :
      ℕ → ℕ → ℕ → P0SessionSubscription → Result ApplicationError (List (List ℕ))
  prepare_replay session after_seq high subscription = do
    ensure
        (subscription.snapshot.identity.session_id == session
          && subscription.snapshot.high_water_seq == high
          && not (ltb high after_seq))
        stream_unavailable
    expected ← check_replay session high after_seq subscription.replay
    ensure (expected == high) stream_unavailable
    begun ← push_frame (ReplayFrame.replay_begin session after_seq high)
    events ← push_events subscription.replay
    state ← push_frame (ReplayFrame.snapshot subscription.snapshot high)
    ended ← push_frame (ReplayFrame.replay_end session high)
    ok (begun ∷ (events ++ (state ∷ ended ∷ [])))

  -- Each of the frames in turn, up to the first that cannot be written.
  pub serialize_all : List ReplayFrame → Result ApplicationError (List (List ℕ))
  serialize_all [] = ok []
  serialize_all (frame ∷ frames) = do
    bytes ← push_frame frame
    rest ← serialize_all frames
    ok (bytes ∷ rest)

  events-tail :
      (es : List P0SessionEventEnvelope) (a b : ReplayFrame)
      → (do
        events ← push_events es
        x ← push_frame a
        y ← push_frame b
        ok (events ++ (x ∷ y ∷ [])))
        ≡ serialize_all (map (λ e. ReplayFrame.event e) es ++ (a ∷ b ∷ []))
  unfolding push_events serialize_all
  events-tail [] a b = ground arith
  events-tail (e ∷ es) a b = ground (arith, events-tail es a b)

  prepare_replay-frames :
      (session after_seq : ℕ) (sub : P0SessionSubscription)
      → sub.snapshot.identity.session_id ≡ session
      → after_seq ≤ sub.snapshot.high_water_seq
      → check_replay session sub.snapshot.high_water_seq after_seq sub.replay
        ≡ ok sub.snapshot.high_water_seq
      → prepare_replay session after_seq sub.snapshot.high_water_seq sub
        ≡ serialize_all (replay_frames session after_seq sub)
  unfolding prepare_replay serialize_all
  prepare_replay-frames session after_seq sub same within checked = ground (
    arith,
    events-tail sub.replay (ReplayFrame.snapshot sub.snapshot sub.snapshot.high_water_seq)
        (ReplayFrame.replay_end session sub.snapshot.high_water_seq),
  )

check_replay_complete :
    (inner : Inner) (high last : ℕ) (es : List P0SessionEventEnvelope)
    → Ends high es
    → All (IsOurs inner) es
    → last + length es ≡ high
    → high ≤ u64_max
    → check_replay inner.identity.session_id high last es ≡ ok high
unfolding check_replay checked_next
check_replay_complete inner high last [] h ours size bound = ground arith
check_replay_complete inner high last (e ∷ es) h ours size bound =
    ground (arith, check_replay_complete inner high (last + 1) es)

after-IsOurs :
    (inner : Inner) (cursor : ℕ) (es : List P0SessionEventEnvelope)
    → All (IsOurs inner) es
    → All (IsOurs inner) (after cursor es)
unfolding after
after-IsOurs inner cursor [] h = tt
after-IsOurs inner cursor (e ∷ es) h = ground (arith, after-IsOurs inner cursor es h.1)

subscribe-parts :
    (inner : Inner) (s s' : RuntimeState) (session cursor : ℕ) (sub : P0SessionSubscription)
    → subscribe inner s session cursor ≡ ok (s', sub)
    → (session ≡ inner.identity.session_id)
      × (sub.replay ≡ after cursor s.history)
      × (sub.snapshot.high_water_seq ≡ s.high_water_seq)
      × (sub.snapshot.identity ≡ inner.identity)
unfolding subscribe
subscribe-parts inner s s' session cursor sub e = ground arith

-- With a sound stream and a history capacity of one at least, a subscription that the session grants
-- passes every check of `prepare_replay`: its result is the beginning of the replay, the events in
-- their order, the snapshot and the end, each serialized in turn, and the only error it can give is
-- that of a frame that cannot be serialized within its bound.
pub prepare_replay-subscribe :
    (to_vec : ReplayFrame → Option (List ℕ)) (inner : Inner) (s s' : RuntimeState)
    (session cursor : ℕ) (sub : P0SessionSubscription)
    → HasStream inner s
    → 1 ≤ inner.config.history_capacity
    → subscribe inner s session cursor ≡ ok (s', sub)
    → prepare_replay to_vec session cursor sub.snapshot.high_water_seq sub
      ≡ serialize_all to_vec (replay_frames session cursor sub)
prepare_replay-subscribe to_vec inner s s' session cursor sub h some e =
    let exact = subscribe_exact inner s s' session cursor sub h some e in
    let parts = subscribe-parts inner s s' session cursor sub e in
    let ours : All (IsOurs inner) sub.replay =
      subst (All (IsOurs inner)) (sym parts.1) (after-IsOurs inner cursor s.history h.ours) in
    prepare_replay-frames to_vec session cursor sub
      (ap (λ (i : P0SessionIdentity). i.session_id) parts.3 ∙ sym parts.0) exact.0
      (ground (
        arith,
        h.bounded,
        check_replay_complete inner sub.snapshot.high_water_seq cursor sub.replay exact.1 ours,
      ))

-- An event of this session, in the schema of the stream.
abbrev pub IsStreamed : ℕ → P0SessionEventEnvelope → Type 0
IsStreamed session e = (e.schema_version ≡ 1) × (e.session_id ≡ session)

check_replay_sound :
    (session high last out : ℕ) (es : List P0SessionEventEnvelope)
    → check_replay session high last es ≡ ok out
    → Ends out es × All (IsStreamed session) es × (last + length es ≡ out)
unfolding check_replay checked_next
check_replay_sound session high last out [] e = (tt, tt, ground arith)
check_replay_sound session high last out (x ∷ es) e =
    ground (arith, check_replay_sound session high (last + 1) out es)

prepare_replay_checks :
    (to_vec : ReplayFrame → Option (List ℕ)) (session cursor high : ℕ) (sub : P0SessionSubscription)
    (frames : List (List ℕ))
    → prepare_replay to_vec session cursor high sub ≡ ok frames
    → (sub.snapshot.identity.session_id ≡ session)
      × (sub.snapshot.high_water_seq ≡ high)
      × (cursor ≤ high)
      × (check_replay session high cursor sub.replay ≡ ok high)
unfolding prepare_replay
prepare_replay_checks to_vec session cursor high sub frames e = ground arith

serialized :
    (to_vec : ReplayFrame → Option (List ℕ)) (session cursor high : ℕ) (sub : P0SessionSubscription)
    → sub.snapshot.identity.session_id ≡ session
    → sub.snapshot.high_water_seq ≡ high
    → cursor ≤ high
    → check_replay session high cursor sub.replay ≡ ok high
    → serialize_all to_vec (replay_frames session cursor sub)
      ≡ prepare_replay to_vec session cursor high sub
serialized to_vec session cursor high sub same top =
    subst
      (λ n.
        cursor ≤ n
        → check_replay session n cursor sub.replay ≡ ok n
        → serialize_all to_vec (replay_frames session cursor sub)
          ≡ prepare_replay to_vec session cursor n sub)
      top
      (λ within checked. sym (prepare_replay-frames to_vec session cursor sub same within checked))

-- Whatever the port gives for a subscription: if `prepare_replay` succeeds, the snapshot is of the
-- session that was asked for and of the high water, the events are of that session and follow one
-- another from the cursor to the high water without a gap, and the frames are the serialized
-- beginning, events, snapshot and end.
pub prepare_replay_sound :
    (to_vec : ReplayFrame → Option (List ℕ)) (session cursor high : ℕ) (sub : P0SessionSubscription)
    (frames : List (List ℕ))
    → prepare_replay to_vec session cursor high sub ≡ ok frames
    → (sub.snapshot.identity.session_id ≡ session)
      × (sub.snapshot.high_water_seq ≡ high)
      × Ends high sub.replay
      × All (IsStreamed session) sub.replay
      × (cursor + length sub.replay ≡ high)
      × (serialize_all to_vec (replay_frames session cursor sub) ≡ ok frames)
prepare_replay_sound to_vec session cursor high sub frames e =
    let checks = prepare_replay_checks to_vec session cursor high sub frames e in
    let sound = check_replay_sound session high cursor high sub.replay checks.3 in
    (
      checks.0,
      checks.1,
      sound.0,
      sound.1,
      sound.2,
      serialized to_vec session cursor high sub checks.0 checks.1 checks.2 checks.3 ∙ e,
    )
