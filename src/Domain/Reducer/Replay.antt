-- ===== src/Domain/Reducer/Replay.antt =====
-- Replaying a stream of events, for crates/codebox-domain/src/reducer.rs.
use fanzloud.Base.{
  ℕ, ◌+◌, ◌≡◌, refl, subst, some, List, [], ◌∷◌, ok, err, >>=-eq-ok, arith, length, Result-cases,
  ◌⊎◌, inl, inr,
}
use fanzloud.Domain.Sequence.{checked_next}
use fanzloud.Domain.Event.{DomainEvent, DomainEventEnvelope}
use fanzloud.Domain.Reducer.{
  SessionProjection, SessionReducer, archived, sequence_overflow, unexpected_sequence,
  apply_transition, advance, apply, replay,
}

apply-seq :
    (r r' : SessionReducer) (e : DomainEventEnvelope)
    → apply r e ≡ ok r'
    → (r'.last_seq ≡ r.last_seq + 1) × (e.seq ≡ r.last_seq + 1) × (r'.stream_id ≡ r.stream_id)
unfolding apply checked_next
apply-seq r r' e h = ground arith

-- The sequence numbers that follow one another from `n`.
abbrev pub Follow : ℕ → List DomainEventEnvelope → Type 0
Follow n [] = Unit {0}
Follow n (e ∷ es) = (e.seq ≡ n + 1) × Follow (n + 1) es

-- When a stream is replayed with success, its sequence numbers follow one another from the
-- reducer's, and the result's last one is advanced by the number of events.
pub replay-Follow :
    (es : List DomainEventEnvelope) (r r' : SessionReducer)
    → replay r es ≡ ok r'
    → Follow r.last_seq es × (r'.last_seq ≡ r.last_seq + length es)
unfolding replay
replay-Follow [] r r' h = (tt, ground arith)
replay-Follow (e ∷ es) r r' h =
    let (q, done, rest) = >>=-eq-ok (apply r e) (λ next. replay next es) h in
    let (seq, at, _) = apply-seq r q e done in
    let (follow, count) = replay-Follow es q r' rest in
    ((at, subst (λ n. Follow n es) seq follow), omega arith)

-- An event that has been accepted is refused when it comes again, for its sequence number, or
-- because the sequence is used up.
pub apply_again :
    (r r' : SessionReducer) (e : DomainEventEnvelope)
    → apply r e ≡ ok r'
    → (apply r' e ≡ err (unexpected_sequence (r'.last_seq + 1) e.seq))
      ⊎ (apply r' e ≡ err (sequence_overflow r'.last_seq))
unfolding apply checked_next
apply_again r r' e h = elim (Result-cases (checked_next r'.last_seq)) [
  | inl (n, fits) ↦ inl (ground arith)
  | inr (n, over) ↦ inr (ground arith)
]

archived-refuses :
    (p q : SessionProjection) (d : DomainEvent)
    → p.status ≡ archived
    → apply_transition p d ≡ ok q
    → ⊥
unfolding apply_transition
archived-refuses p q DomainEvent.session_created a h = cc
archived-refuses p q _ a h = ground arith

-- A session that is archived accepts no further event: only the empty stream can be replayed.
pub replay_archived :
    (r r' : SessionReducer) (p : SessionProjection) (es : List DomainEventEnvelope)
    → r.projection ≡ some p
    → p.status ≡ archived
    → replay r es ≡ ok r'
    → es ≡ []
unfolding replay apply advance
replay_archived r r' p [] at a h = refl
replay_archived r r' p (e ∷ es) at a h =
    let (q, done, _) = >>=-eq-ok (apply r e) (λ next. replay next es) h in
    absurd (elim (Result-cases (apply_transition p e.payload)) [
      | inl (next, took) ↦ archived-refuses p next e.payload a took
      | inr (why, refused) ↦ ground arith
    ])
