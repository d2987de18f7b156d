-- ===== src/Domain/Reducer.antt =====
-- crates/codebox-domain/src/reducer.rs: the session projection and its event reducer.
mod Invariant
mod Machine
mod Replay
mod Examples
use fanzloud.Base.{
  ℕ, Bool, false, ◌||◌, Option, none, some, List, [], ◌∷◌, Result, ok, err, ◌>>=◌, ◌>>◌, ensure,
  map_err, ◌==◌,
}
use fanzloud.Domain.Sequence.{initial, checked_next}
use fanzloud.Domain.Event.{
  DomainEvent, DomainEventKind, DomainEventEnvelope, kind, domain_event_schema_v1,
}

pub data SessionStatus : Type 0 where
  provisioning ready running waiting_approval cancelling idle failed archiving archived :
      SessionStatus

-- The derived `PartialEq` of an enum without fields compares discriminants.
abbrev pub discriminant : SessionStatus → ℕ
discriminant provisioning = 0
discriminant ready = 1
discriminant running = 2
discriminant waiting_approval = 3
discriminant cancelling = 4
discriminant idle = 5
discriminant failed = 6
discriminant archiving = 7
discriminant archived = 8

abbrev pub status_eq : SessionStatus → SessionStatus → Bool
status_eq a b = discriminant a == discriminant b

pub record SessionProjection : Type 0 where
  pub session_id : ℕ
  pub status : SessionStatus
  pub active_turn : Option ℕ
  pub pending_approval : Option ℕ
  pub sandbox_id : Option ℕ
  pub last_activity : ℕ
  pub last_seq : ℕ

pub record SessionReducer : Type 0 where
  pub stream_id : ℕ
  pub last_seq : ℕ
  pub projection : Option SessionProjection

pub data SessionReducerError : Type 0 where
  wrong_stream : ℕ → ℕ → SessionReducerError
  sequence_overflow : ℕ → SessionReducerError
  unexpected_sequence : ℕ → ℕ → SessionReducerError
  unsupported_schema_version : ℕ → ℕ → SessionReducerError
  session_not_created : DomainEventKind → SessionReducerError
  invalid_transition : SessionStatus → DomainEventKind → SessionReducerError
  active_turn_mismatch : Option ℕ → ℕ → SessionReducerError
  pending_approval_mismatch : Option ℕ → ℕ → SessionReducerError

unfoldable pub new : ℕ → SessionReducer
new stream = record { stream_id = stream; last_seq = initial; projection = none }

-- `o == Some(a)`.
abbrev pub is_some_eq : Option ℕ → ℕ → Bool
is_some_eq none a = false
is_some_eq (some b) a = b == a

abbrev require_status :
    SessionProjection → SessionStatus → DomainEventKind → Result SessionReducerError (Unit {0})
require_status p expected event =
    ensure (status_eq p.status expected) (invalid_transition p.status event)

abbrev require_active_turn : SessionProjection → ℕ → Result SessionReducerError (Unit {0})
require_active_turn p actual =
    ensure (is_some_eq p.active_turn actual) (active_turn_mismatch p.active_turn actual)

abbrev require_pending_approval : SessionProjection → ℕ → Result SessionReducerError (Unit {0})
require_pending_approval p actual =
    ensure (is_some_eq p.pending_approval actual)
      (pending_approval_mismatch p.pending_approval actual)

unfoldable pub apply_transition :
    SessionProjection → DomainEvent → Result SessionReducerError SessionProjection
unfolding kind
apply_transition p DomainEvent.session_created =
    err (invalid_transition p.status DomainEventKind.session_created)
apply_transition p (DomainEvent.sandbox_provisioned sandbox) = do
  require_status p provisioning DomainEventKind.sandbox_provisioned
  ok (record p { status = ready; sandbox_id = some sandbox })
apply_transition p DomainEvent.provisioning_failed = do
  require_status p provisioning DomainEventKind.provisioning_failed
  ok (record p { status = failed })
apply_transition p (DomainEvent.turn_started turn) = do
  require_status p ready DomainEventKind.turn_started
  ok (record p { status = running; active_turn = some turn })
apply_transition p (DomainEvent.approval_requested turn approval) = do
  require_status p running DomainEventKind.approval_requested
  require_active_turn p turn
  ok (record p { status = waiting_approval; pending_approval = some approval })
apply_transition p (DomainEvent.approval_resolved turn approval decision) = do
  require_status p waiting_approval DomainEventKind.approval_resolved
  require_active_turn p turn
  require_pending_approval p approval
  ok (record p { status = running; pending_approval = none })
apply_transition p (DomainEvent.turn_cancellation_requested turn) = do
  require_status p running DomainEventKind.turn_cancellation_requested
  require_active_turn p turn
  ok (record p { status = cancelling })
apply_transition p (DomainEvent.turn_cancelled turn) = do
  require_status p cancelling DomainEventKind.turn_cancelled
  require_active_turn p turn
  ok (record p { status = ready; active_turn = none })
apply_transition p (DomainEvent.turn_completed turn) = do
  require_status p running DomainEventKind.turn_completed
  require_active_turn p turn
  ok (record p { status = ready; active_turn = none })
apply_transition p (DomainEvent.turn_failed turn) = do
  require_status p running DomainEventKind.turn_failed
  require_active_turn p turn
  ok (record p { status = failed; active_turn = none })
apply_transition p DomainEvent.session_idled = do
  require_status p ready DomainEventKind.session_idled
  ok (record p { status = idle })
apply_transition p DomainEvent.session_resumed = do
  require_status p idle DomainEventKind.session_resumed
  ok (record p { status = ready })
apply_transition p DomainEvent.session_archiving_started = do
  ensure (status_eq p.status ready || status_eq p.status idle || status_eq p.status failed)
      (invalid_transition p.status DomainEventKind.session_archiving_started)
  ok (record p { status = archiving })
apply_transition p DomainEvent.session_archived = do
  require_status p archiving DomainEventKind.session_archived
  ok (record p { status = archived })

-- The projection that an accepted creation event starts from.
abbrev created : ℕ → DomainEventEnvelope → SessionProjection
created stream e = record {
  session_id = stream;
  status = provisioning;
  active_turn = none;
  pending_approval = none;
  sandbox_id = none;
  last_activity = e.occurred_at;
  last_seq = e.seq;
}

-- The first event of a stream: anything but `SessionCreated` is refused.
unfoldable pub create :
    ℕ → DomainEventEnvelope → DomainEvent → Result SessionReducerError SessionProjection
unfolding kind
create stream e DomainEvent.session_created = ok (created stream e)
create stream e event = err (session_not_created (kind event))

unfoldable pub advance :
    SessionReducer
    → DomainEventEnvelope
    → Option SessionProjection
    → Result SessionReducerError SessionProjection
advance r e none = create r.stream_id e e.payload
advance r e (some current) = do
  next ← apply_transition current e.payload
  ok (record next { last_activity = e.occurred_at; last_seq = e.seq })

unfoldable pub apply :
    SessionReducer → DomainEventEnvelope → Result SessionReducerError SessionReducer
apply r e = do
  ensure (e.stream_id == r.stream_id) (wrong_stream r.stream_id e.stream_id)
  expected_seq ← map_err (λ _. sequence_overflow r.last_seq) (checked_next r.last_seq)
  ensure (e.seq == expected_seq) (unexpected_sequence expected_seq e.seq)
  ensure (e.schema_version == domain_event_schema_v1)
      (unsupported_schema_version domain_event_schema_v1 e.schema_version)
  projection ← advance r e r.projection
  ok (record { stream_id = r.stream_id; last_seq = e.seq; projection = some projection })

-- Replay: the events of one stream applied in order, stopping at the first refusal.
unfoldable pub replay :
    SessionReducer → List DomainEventEnvelope → Result SessionReducerError SessionReducer
replay r [] = ok r
replay r (e ∷ es) = do r' ← apply r e; replay r' es
