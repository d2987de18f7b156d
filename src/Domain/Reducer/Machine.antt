-- ===== src/Domain/Reducer/Machine.antt =====
-- The state machine of a session as a table, and what the reducer accepts, for reducer.rs.
use fanzloud.Base.{
  ℕ, ◌+◌, ◌≡◌, refl, Bool, true, false, ◌&&◌, Option, none, some, ok, err, Result, arith, u64_max,
  ltb, ◌==◌, if◌then◌else◌,
}
use fanzloud.Domain.Sequence.{checked_next}
use fanzloud.Domain.Event.{
  DomainEvent, DomainEventKind, DomainEventEnvelope, kind, domain_event_schema_v1,
}
use fanzloud.Domain.Reducer.{
  SessionStatus, SessionProjection, SessionReducer, SessionReducerError, provisioning, ready,
  running, waiting_approval, cancelling, idle, failed, archiving, archived, is_some_eq,
  apply_transition, create, advance, apply,
}

-- The edges of the state machine: the state that an event leads to from a state, if it may occur.
abbrev pub target : SessionStatus → DomainEventKind → Option SessionStatus
target provisioning DomainEventKind.sandbox_provisioned = some ready
target provisioning DomainEventKind.provisioning_failed = some failed
target ready DomainEventKind.turn_started = some running
target ready DomainEventKind.session_idled = some idle
target ready DomainEventKind.session_archiving_started = some archiving
target running DomainEventKind.approval_requested = some waiting_approval
target running DomainEventKind.turn_cancellation_requested = some cancelling
target running DomainEventKind.turn_completed = some ready
target running DomainEventKind.turn_failed = some failed
target waiting_approval DomainEventKind.approval_resolved = some running
target cancelling DomainEventKind.turn_cancelled = some ready
target idle DomainEventKind.session_resumed = some ready
target idle DomainEventKind.session_archiving_started = some archiving
target failed DomainEventKind.session_archiving_started = some archiving
target archiving DomainEventKind.session_archived = some archived
target _ _ = none

-- The turn and the approval that an event names are the current ones.
abbrev pub names_current : SessionProjection → DomainEvent → Bool
names_current p (DomainEvent.approval_requested turn approval) = is_some_eq p.active_turn turn
names_current p (DomainEvent.approval_resolved turn approval decision) =
    is_some_eq p.active_turn turn && is_some_eq p.pending_approval approval
names_current p (DomainEvent.turn_cancellation_requested turn) = is_some_eq p.active_turn turn
names_current p (DomainEvent.turn_cancelled turn) = is_some_eq p.active_turn turn
names_current p (DomainEvent.turn_completed turn) = is_some_eq p.active_turn turn
names_current p (DomainEvent.turn_failed turn) = is_some_eq p.active_turn turn
names_current p _ = true

abbrev pub status_after : Result SessionReducerError SessionProjection → Option SessionStatus
status_after (ok p) = some p.status
status_after (err e) = none

-- On every state and event, the transition leads to the state of the table when the event names the
-- current turn and approval, and fails otherwise.
pub apply_transition-target :
    (p : SessionProjection) (e : DomainEvent)
    → status_after (apply_transition p e)
      ≡ (if names_current p e then target p.status (kind e) else none)
unfolding apply_transition kind
apply_transition-target p DomainEvent.session_created = ground arith
apply_transition-target p _ = ground arith

abbrev pub turn_after : SessionProjection → DomainEvent → Option ℕ
turn_after p (DomainEvent.turn_started turn) = some turn
turn_after p (DomainEvent.turn_cancelled turn) = none
turn_after p (DomainEvent.turn_completed turn) = none
turn_after p (DomainEvent.turn_failed turn) = none
turn_after p _ = p.active_turn

abbrev pub approval_after : SessionProjection → DomainEvent → Option ℕ
approval_after p (DomainEvent.approval_requested turn approval) = some approval
approval_after p (DomainEvent.approval_resolved turn approval decision) = none
approval_after p _ = p.pending_approval

abbrev pub sandbox_after : SessionProjection → DomainEvent → Option ℕ
sandbox_after p (DomainEvent.sandbox_provisioned sandbox) = some sandbox
sandbox_after p _ = p.sandbox_id

-- An accepted event changes the turn, the approval and the sandbox as it says, and no other field
-- but the state.
pub apply_transition-effect :
    (p q : SessionProjection) (e : DomainEvent)
    → apply_transition p e ≡ ok q
    → q ≡ record p {
      status = q.status;
      active_turn = turn_after p e;
      pending_approval = approval_after p e;
      sandbox_id = sandbox_after p e;
    }
unfolding apply_transition
apply_transition-effect p q DomainEvent.session_created h = cc
apply_transition-effect p q _ h = ground arith

abbrev pub is_ok {ℓ} : {A : Type ℓ} → Result SessionReducerError A → Bool
is_ok (ok a) = true
is_ok (err e) = false

abbrev pub is_some : Option SessionStatus → Bool
is_some none = false
is_some (some s) = true

-- The payload is one that the stream may go on with.
abbrev pub fits : Option SessionProjection → DomainEvent → Bool
fits none DomainEvent.session_created = true
fits none _ = false
fits (some p) e = names_current p e && is_some (target p.status (kind e))

is_ok-advance :
    (r : SessionReducer) (e : DomainEventEnvelope) (o : Option SessionProjection) (d : DomainEvent)
    → e.payload ≡ d
    → is_ok (advance r e o) ≡ fits o d
unfolding advance create kind
is_ok-advance r e none DomainEvent.session_created h = rw h
is_ok-advance r e none _ h = rw h
is_ok-advance r e (some p) d h = ground (arith, apply_transition-target p d)

-- An event is accepted exactly when it belongs to the stream, has the next sequence number, which
-- a `u64` can hold, the schema is version 1, and the payload fits the state.
pub apply_accepts :
    (r : SessionReducer) (e : DomainEventEnvelope)
    → is_ok (apply r e) ≡ (
        e.stream_id == r.stream_id
        && ltb r.last_seq u64_max
        && e.seq == r.last_seq + 1
        && e.schema_version == domain_event_schema_v1
        && fits r.projection e.payload)
unfolding apply checked_next
apply_accepts r e = ground (arith, is_ok-advance r e r.projection e.payload refl)
