-- ===== src/Control/WebSocket/Serve/Request.antt =====
-- Which request `receive_subscribe` of apps/control-plane/src/websocket.rs takes.
use fanzloud.Base.{
  ℕ, ◌≤◌, ◌≡◌, ◌≢◌, refl, ◌↔◌, ◌⊎◌, inl, inr, Option, true, none, some, List, [], ◌∷◌, ok, err,
  arith, length, Option-cases,
}
use fanzloud.Control.WebSocket.{ClientFrame}
use fanzloud.Control.WebSocket.Serve.{
  SubscribeRequest, InitialOutcome, Selected, timed_out, polled, received, InitialRound, Decoder,
  decoded_outcome, selected_outcome, initial_round, receive_subscribe,
}

-- A poll, a ping or a pong.
abbrev pub IsQuiet : Selected → Type 0
IsQuiet polled = Unit {0}
IsQuiet (received (ok (some ClientFrame.ping))) = Unit {0}
IsQuiet (received (ok (some ClientFrame.pong))) = Unit {0}
IsQuiet _ = ⊥

-- A text within the bound that decodes to the request, in version 1 of the protocol.
abbrev pub IsAsked : Decoder → SubscribeRequest → Selected → Type 0
IsAsked decode request (received (ok (some (ClientFrame.text bytes)))) =
    (length bytes ≤ 1024) × (decode bytes ≡ some (1, request.session_id, request.after_seq))
IsAsked decode request _ = ⊥

-- Up to the request nothing but polls, pings and pongs, and the admission holds at each look.
abbrev pub Asks : Decoder → SubscribeRequest → List InitialRound → Type 0
Asks decode request [] = ⊥
Asks decode request (r ∷ rounds) =
    (r.auth_valid ≡ true)
    × (r.running ≡ true)
    × (IsAsked decode request r.selected ⊎ (IsQuiet r.selected × Asks decode request rounds))

module _ (decode : Decoder) (request : SubscribeRequest) where
  decoded_lem :
      (d : Option (ℕ × ℕ × ℕ))
      → (decoded_outcome d ≡ InitialOutcome.subscribed request)
        ↔ (d ≡ some (1, request.session_id, request.after_seq))
  decoded_lem none = (λ e. cc, λ e. cc)
  decoded_lem (some (version, session, after)) = ground arith

  text-IsAsked :
      (bytes : List ℕ)
      → (selected_outcome decode (received (ok (some (ClientFrame.text bytes))))
          ≡ some (InitialOutcome.subscribed request))
        ↔ IsAsked decode request (received (ok (some (ClientFrame.text bytes))))
  text-IsAsked bytes = ground (arith, decoded_lem (decode bytes))

  text_loud :
      (bytes : List ℕ)
      → selected_outcome decode (received (ok (some (ClientFrame.text bytes)))) ≢ none
  text_loud bytes = ground arith

  asked :
      (x : Selected)
      → (selected_outcome decode x ≡ some (InitialOutcome.subscribed request))
        ↔ IsAsked decode request x
  asked timed_out = (λ e. cc, λ h. absurd h)
  asked polled = (λ e. cc, λ h. absurd h)
  asked (received (err u)) = (λ e. cc, λ h. absurd h)
  asked (received (ok none)) = (λ e. cc, λ h. absurd h)
  asked (received (ok (some ClientFrame.close))) = (λ e. cc, λ h. absurd h)
  asked (received (ok (some ClientFrame.ping))) = (λ e. cc, λ h. absurd h)
  asked (received (ok (some ClientFrame.pong))) = (λ e. cc, λ h. absurd h)
  asked (received (ok (some ClientFrame.binary))) = (λ e. cc, λ h. absurd h)
  asked (received (ok (some (ClientFrame.text bytes)))) = text-IsAsked bytes

  quiet : (x : Selected) → (selected_outcome decode x ≡ none) ↔ IsQuiet x
  quiet timed_out = (λ e. cc, λ h. absurd h)
  quiet polled = (λ e. tt, λ h. refl)
  quiet (received (err u)) = (λ e. cc, λ h. absurd h)
  quiet (received (ok none)) = (λ e. cc, λ h. absurd h)
  quiet (received (ok (some ClientFrame.close))) = (λ e. cc, λ h. absurd h)
  quiet (received (ok (some ClientFrame.ping))) = (λ e. tt, λ h. refl)
  quiet (received (ok (some ClientFrame.pong))) = (λ e. tt, λ h. refl)
  quiet (received (ok (some ClientFrame.binary))) = (λ e. cc, λ h. absurd h)
  quiet (received (ok (some (ClientFrame.text bytes)))) =
      (λ e. absurd (text_loud bytes e), λ h. absurd h)

  asks_first :
      (r : InitialRound) (rounds : List InitialRound)
      → receive_subscribe decode (r ∷ rounds) ≡ some (InitialOutcome.subscribed request)
      → (r.auth_valid ≡ true)
        × (r.running ≡ true)
        × ((selected_outcome decode r.selected ≡ some (InitialOutcome.subscribed request))
            ⊎ ((selected_outcome decode r.selected ≡ none)
                × (receive_subscribe decode rounds ≡ some (InitialOutcome.subscribed request))))
  unfolding receive_subscribe initial_round
  asks_first r rounds e = elim (Option-cases (selected_outcome decode r.selected)) [
    | inl none_yet ↦ (ground arith, ground arith, inr (none_yet, ground arith))
    | inr (o, one) ↦ (ground arith, ground arith, inl (ground arith))
  ]

  from_asks :
      (rounds : List InitialRound)
      → Asks decode request rounds
      → receive_subscribe decode rounds ≡ some (InitialOutcome.subscribed request)
  unfolding receive_subscribe initial_round
  from_asks [] h = absurd h
  from_asks (r ∷ rounds) (auth, running, inl now) = ground (arith, (asked r.selected).1 now)
  from_asks (r ∷ rounds) (auth, running, inr (still, later)) =
      ground (arith, (quiet r.selected).1 still, from_asks rounds later)

  to_asks :
      (rounds : List InitialRound)
      → receive_subscribe decode rounds ≡ some (InitialOutcome.subscribed request)
      → Asks decode request rounds
  unfolding receive_subscribe
  to_asks [] e = cc
  to_asks (r ∷ rounds) e =
      let (auth, running, which) = asks_first r rounds e in
      (
        auth,
        running,
        elim which [
          | inl now ↦ inl ((asked r.selected).0 now)
          | inr (still, later) ↦ inr ((quiet r.selected).0 still, to_asks rounds later)
        ],
      )

  -- A socket is served a subscription exactly when the peer asks for it: with a text of at most 1024
  -- bytes that decodes to the request in version 1, before which come only pings, pongs and polls,
  -- before the deadline, and with the operator authenticated and the control plane running at each
  -- look up to then.
  pub receive_subscribe-Asks :
      (rounds : List InitialRound)
      → (receive_subscribe decode rounds ≡ some (InitialOutcome.subscribed request))
        ↔ Asks decode request rounds
  receive_subscribe-Asks rounds = (to_asks rounds, from_asks rounds)
