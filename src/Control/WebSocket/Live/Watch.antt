-- ===== src/Control/WebSocket/Live/Watch.antt =====
-- The rounds of the live loop of apps/control-plane/src/websocket.rs while the session of
-- crates/codebox-session-runtime/src/runtime.rs goes on.
use fanzloud.Base.{
  ℕ, ◌+◌, ◌≤◌, ◌≡◌, refl, sym, subst, true, Option, none, some, List, [], ◌∷◌, ◌++◌, map, arith,
  length, ok, u64_max, All,
}
use fanzloud.Session.Types.{P0SessionEventEnvelope}
use fanzloud.Session.State.{Inner, Subscriber}
use fanzloud.Session.Subscribe.{receive}
use fanzloud.Session.Stream.{Ends, IsOurs}
use fanzloud.Session.Stream.Laws.{Holds}
use fanzloud.Session.Stream.Backlog.{client, client-One, IsBehind, Backlog}
use fanzloud.Session.Stream.Turns.{receive-Backlog}
use fanzloud.Session.System.{System, Step}
use fanzloud.Session.Watch.{Apart, Step-Backlog}
use fanzloud.Control.WebSocket.{ServerFrame, ReplayFrame, serialize_bounded}
use fanzloud.Control.WebSocket.Live.{Round, go, live_round, live_loop}
use fanzloud.Control.WebSocket.Live.Delivery.{reading, Written, reading_one, reading_none}

-- What the receiver reads in rounds of the loop, with any other steps of the session in between: the
-- rounds, and the events that it receives. It is registered where it finds its queue empty.
pub data Watch (inner : Inner) (id : ℕ)
    : System → List Round → List P0SessionEventEnvelope → System → Type 0 where
  watching : {t : System} → Watch inner id t [] [] t
  meanwhile :
      {t u v : System} {rounds : List Round} {es : List P0SessionEventEnvelope}
      → (step : Step inner t u) → Apart inner id t u step
      → Watch inner id u rounds es v
      → Watch inner id t rounds es v
  gets :
      {t u v : System} {rounds : List Round} {es : List P0SessionEventEnvelope}
      → (sub : Subscriber) (e : P0SessionEventEnvelope) (queue : List P0SessionEventEnvelope)
      → client id t.state.subscribers ≡ some sub
      → sub.queue ≡ e ∷ queue
      → u.state ≡ receive t.state id
      → u.phase ≡ t.phase
      → Watch inner id u rounds es v
      → Watch inner id t (reading sub (e ∷ queue) ∷ rounds) (e ∷ es) v
  idles :
      {t v : System} {rounds : List Round} {es : List P0SessionEventEnvelope}
      → (sub : Subscriber) → client id t.state.subscribers ≡ some sub
      → sub.queue ≡ []
      → sub.registered ≡ true
      → Watch inner id t rounds es v
      → Watch inner id t (reading sub [] ∷ rounds) es v

module _ (to_vec : ReplayFrame → Option (List ℕ)) (inner : Inner) (id : ℕ) where
  abbrev session : ℕ
  session = inner.identity.session_id

  step_loop :
      (last next : ℕ) (frames sent : List ServerFrame) (r : Round) (rounds : List Round)
      → live_round to_vec session last r ≡ go frames next
      → live_loop to_vec session next rounds ≡ (sent, none)
      → live_loop to_vec session last (r ∷ rounds) ≡ (frames ++ sent, none)
  unfolding live_loop
  step_loop last next frames sent r rounds one rest = ground (arith, one, rest)

  next_one :
      (last got : ℕ) (sub : Subscriber) (e : P0SessionEventEnvelope)
      (queue : List P0SessionEventEnvelope) (bytes : List ℕ)
      → last ≤ u64_max
      → IsBehind inner last got sub
      → sub.queue ≡ e ∷ queue
      → serialize_bounded to_vec (ReplayFrame.event e) ≡ ok bytes
      → (e.seq ≡ got + 1)
        × (live_round to_vec session got (reading sub (e ∷ queue))
            ≡ go (ServerFrame.text bytes ∷ []) (got + 1))
  next_one last got sub e queue bytes bounded behind first written =
      let (ends, ours, few) =
        subst (λ q. Ends (got + length q) q × All (IsOurs inner) q × (got + length q ≤ last)) first
          (behind.0, behind.1, behind.2) in
      let seq : e.seq ≡ got + 1 = omega (arith, ends.0) in
      (seq, reading_one to_vec session sub got e queue bytes seq (omega arith) ours.0 written)

  -- Whatever the rounds are, the loop sends every event that the receiver gets, the events are those
  -- that follow, and what it has not received goes on from there.
  pub Watch-sends :
      {t v : System} {rounds : List Round} {es : List P0SessionEventEnvelope}
      (bytes : List (List ℕ)) (got : ℕ)
      → Watch inner id t rounds es v
      → Holds (Backlog id got) inner t.state
      → Written to_vec es bytes
      → (live_loop to_vec session got rounds ≡ (map (λ x. ServerFrame.text x) bytes, none))
        × Ends (got + length es) es
        × Holds (Backlog id (got + length es)) inner v.state
  unfolding live_loop
  Watch-sends [] got (watching {t}) h written =
      (refl, tt, subst (λ n. Holds (Backlog id n) inner t.state) (omega arith) h)
  Watch-sends (b ∷ bytes) got watching h written = absurd written
  Watch-sends bytes got (meanwhile {t} {u} step apart w) h written =
      Watch-sends bytes got w (Step-Backlog inner id got t u step apart h) written
  Watch-sends [] got (gets sub e queue at first did phase w) h written = absurd written
  Watch-sends (b ∷ bytes) got (gets {t} {u} {v} {rounds} {es} sub e queue at first did phase w) h
        written =
      let behind =
        client-One id (IsBehind inner t.state.high_water_seq got) t.state.subscribers sub h.2 at in
      let (seq, sends) =
        next_one t.state.high_water_seq got sub e queue b h.0 behind first written.0 in
      let h' =
        subst (λ s. Holds (Backlog id (got + 1)) inner s) (sym did)
          (receive-Backlog id got inner t.state sub e queue at first h) in
      let (loops, ends, rest) = Watch-sends bytes (got + 1) w h' written.1 in
      let same : got + 1 + length es ≡ got + length (e ∷ es) = omega arith in
      (
        step_loop got (got + 1) (ServerFrame.text b ∷ []) (map (λ x. ServerFrame.text x) bytes)
            (reading sub (e ∷ queue)) rounds sends loops,
        (omega (arith, seq), subst (λ n. Ends n es) same ends),
        subst (λ n. Holds (Backlog id n) inner v.state) same rest,
      )
  Watch-sends bytes got (idles {t} {v} {rounds} {es} sub at empty open_now w) h written =
      let (loops, ends, rest) = Watch-sends bytes got w h written in
      (
        step_loop got got [] (map (λ x. ServerFrame.text x) bytes) (reading sub []) rounds
            (reading_none to_vec session sub got open_now) loops,
        ends,
        rest,
      )
