-- ===== src/Domain/Reducer/Invariant.antt =====
-- The shape that a projection has in each state, for crates/codebox-domain/src/reducer.rs.
use fanzloud.Base.{
  ℕ, ◌≤◌, ◌≡◌, Bool, true, false, not, ◌&&◌, Option, none, some, refl, List, [], ◌∷◌, ok,
  Result-cases, >>=-eq-ok, inl, inr, arith, u64_max,
}
use fanzloud.Domain.Sequence.{checked_next}
use fanzloud.Domain.Event.{DomainEvent, DomainEventEnvelope}
use fanzloud.Domain.Reducer.{
  SessionStatus, SessionProjection, SessionReducer, provisioning, ready, running, waiting_approval,
  cancelling, idle, failed, archiving, archived, new, apply_transition, create, advance, apply,
  replay,
}

abbrev pub is_some : Option ℕ → Bool
is_some none = false
is_some (some a) = true

-- Which of the active turn, the pending approval and the sandbox a state has.
abbrev pub shape : SessionStatus → Bool → Bool → Bool → Bool
shape provisioning turn approval sandbox = not turn && not approval && not sandbox
shape ready turn approval sandbox = not turn && not approval && sandbox
shape running turn approval sandbox = turn && not approval && sandbox
shape waiting_approval turn approval sandbox = turn && approval && sandbox
shape cancelling turn approval sandbox = turn && not approval && sandbox
shape idle turn approval sandbox = not turn && not approval && sandbox
shape failed turn approval sandbox = not turn && not approval
shape archiving turn approval sandbox = not turn && not approval
shape archived turn approval sandbox = not turn && not approval

abbrev pub HasShape : SessionProjection → Type 0
HasShape p =
    shape p.status (is_some p.active_turn) (is_some p.pending_approval) (is_some p.sandbox_id)
    ≡ true

abbrev pub Agrees : ℕ → ℕ → Option SessionProjection → Type 0
Agrees stream seq none = seq ≡ 0
Agrees stream seq (some p) = (p.session_id ≡ stream) × (p.last_seq ≡ seq) × (1 ≤ seq) × HasShape p

pub record IsValid (r : SessionReducer) : Type 0 where
  pub bounded : r.last_seq ≤ u64_max
  pub agrees : Agrees r.stream_id r.last_seq r.projection

pub apply_transition-HasShape :
    (p q : SessionProjection) (e : DomainEvent)
    → HasShape p
    → apply_transition p e ≡ ok q
    → HasShape q × (q.session_id ≡ p.session_id)
unfolding apply_transition
apply_transition-HasShape p q DomainEvent.session_created v h = cc
apply_transition-HasShape p q _ v h = ground arith

advance-Agrees :
    (r : SessionReducer) (e : DomainEventEnvelope) (o : Option SessionProjection)
    (q : SessionProjection)
    → Agrees r.stream_id r.last_seq o
    → 1 ≤ e.seq
    → advance r e o ≡ ok q
    → Agrees r.stream_id e.seq (some q)
unfolding advance create
advance-Agrees r e none q v pos h = ground arith
advance-Agrees r e (some p) q v pos h =
    let (next, done, last) = >>=-eq-ok (apply_transition p e.payload) _ h in
    ground (arith, apply_transition-HasShape p next e.payload v.3 done)

-- An accepted event comes with the next sequence number and keeps the invariant.
pub apply-IsValid :
    (r r' : SessionReducer) (e : DomainEventEnvelope) → IsValid r → apply r e ≡ ok r' → IsValid r'
unfolding apply checked_next
apply-IsValid r r' e v h = elim (Result-cases (advance r e r.projection)) [
  | inl (q, done) ↦ ground (arith, advance-Agrees r e r.projection q v.agrees)
  | inr (why, refused) ↦ ground arith
]

pub new-IsValid : (stream : ℕ) → IsValid (new stream)
unfolding new
new-IsValid stream = record { bounded = omega arith; agrees = refl }

-- A reducer that satisfies the invariant satisfies it after the replay of any stream that it
-- accepts: the last sequence number fits a `u64`, the projection is of the stream and has counted as
-- far, and the turn, the approval and the sandbox are there exactly when the state says so.
pub replay-IsValid :
    (es : List DomainEventEnvelope) (r r' : SessionReducer)
    → IsValid r
    → replay r es ≡ ok r'
    → IsValid r'
unfolding replay
replay-IsValid [] r r' v h = ground arith
replay-IsValid (e ∷ es) r r' v h =
    let (q, done, rest) = >>=-eq-ok (apply r e) (λ next. replay next es) h in
    replay-IsValid es q r' (apply-IsValid r q e v done) rest
