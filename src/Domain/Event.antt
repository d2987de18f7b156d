-- ===== src/Domain/Event.antt =====
-- crates/codebox-domain/src/event.rs: the durable session events, their kinds and envelopes.
-- A timestamp is a number; identifiers and sequences are those of Domain/Sequence.
use fanzloud.Base.{ℕ, Option}

abbrev pub domain_event_schema_v1 : ℕ
domain_event_schema_v1 = 1

pub data ApprovalDecision : Type 0 where
  approved denied : ApprovalDecision

pub data DomainEventKind : Type 0 where
  session_created sandbox_provisioned provisioning_failed turn_started : DomainEventKind
  approval_requested approval_resolved turn_cancellation_requested : DomainEventKind
  turn_cancelled turn_completed turn_failed : DomainEventKind
  session_idled session_resumed session_archiving_started session_archived : DomainEventKind

-- The payloads are sandbox, turn and approval identifiers, in the order of the source's fields.
pub data DomainEvent : Type 0 where
  session_created : DomainEvent
  sandbox_provisioned : ℕ → DomainEvent
  provisioning_failed : DomainEvent
  turn_started : ℕ → DomainEvent
  approval_requested : ℕ → ℕ → DomainEvent
  approval_resolved : ℕ → ℕ → ApprovalDecision → DomainEvent
  turn_cancellation_requested : ℕ → DomainEvent
  turn_cancelled : ℕ → DomainEvent
  turn_completed : ℕ → DomainEvent
  turn_failed : ℕ → DomainEvent
  session_idled session_resumed session_archiving_started session_archived : DomainEvent

unfoldable pub kind : DomainEvent → DomainEventKind
kind DomainEvent.session_created = DomainEventKind.session_created
kind (DomainEvent.sandbox_provisioned s) = DomainEventKind.sandbox_provisioned
kind DomainEvent.provisioning_failed = DomainEventKind.provisioning_failed
kind (DomainEvent.turn_started t) = DomainEventKind.turn_started
kind (DomainEvent.approval_requested t a) = DomainEventKind.approval_requested
kind (DomainEvent.approval_resolved t a d) = DomainEventKind.approval_resolved
kind (DomainEvent.turn_cancellation_requested t) = DomainEventKind.turn_cancellation_requested
kind (DomainEvent.turn_cancelled t) = DomainEventKind.turn_cancelled
kind (DomainEvent.turn_completed t) = DomainEventKind.turn_completed
kind (DomainEvent.turn_failed t) = DomainEventKind.turn_failed
kind DomainEvent.session_idled = DomainEventKind.session_idled
kind DomainEvent.session_resumed = DomainEventKind.session_resumed
kind DomainEvent.session_archiving_started = DomainEventKind.session_archiving_started
kind DomainEvent.session_archived = DomainEventKind.session_archived

pub record DomainEventEnvelope : Type 0 where
  pub event_id : ℕ
  pub stream_id : ℕ
  pub seq : ℕ
  pub schema_version : ℕ
  pub occurred_at : ℕ
  pub causation_id : Option ℕ
  pub correlation_id : ℕ
  pub payload : DomainEvent

pub data EventPersistence : Type 0 where
  durable ephemeral : EventPersistence

pub data RuntimeEventKind : Type 0 where
  domain : DomainEventKind → RuntimeEventKind
  text_delta reasoning_summary_delta terminal_delta tool_output_delta : RuntimeEventKind

unfoldable pub persistence : RuntimeEventKind → EventPersistence
persistence (domain k) = durable
persistence text_delta = ephemeral
persistence reasoning_summary_delta = ephemeral
persistence terminal_delta = ephemeral
persistence tool_output_delta = ephemeral
