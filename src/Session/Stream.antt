-- ===== src/Session/Stream.antt =====
-- The event stream of crates/codebox-session-runtime/src/runtime.rs: what `high_water_seq`,
-- `history` and the subscribers' queues have to do with one another.
pub mod Writes
pub mod Laws
pub mod Sound
pub mod Backlog
pub mod Turns
pub mod Readers
pub mod Methods
pub mod Thread
pub mod Observe
use fanzloud.Base.{
  ℕ, ◌+◌, ◌≤◌, ◌<◌, min, ◌≡◌, Bool, true, false, List, [], ◌∷◌, length, All, u64_max,
}
use fanzloud.Session.Types.{P0SessionEventEnvelope}
use fanzloud.Session.State.{Inner, RuntimeState, Subscriber, event_schema_version, subscriber_count}

-- The sequence numbers follow one another up to the last, which is `last`.
abbrev pub Ends : ℕ → List P0SessionEventEnvelope → Type 0
Ends last [] = Unit {0}
Ends last (e ∷ es) = (e.seq + length es ≡ last) × Ends last es

-- The sequence numbers follow one another.
abbrev pub Linked : List P0SessionEventEnvelope → Type 0
Linked [] = Unit {0}
Linked (e ∷ es) = Ends (e.seq + length es) es × Linked es

-- A registered subscriber has all events up to the high water that it has not received; one that
-- was removed has no gap either.
abbrev pub Live : Bool → ℕ → List P0SessionEventEnvelope → Type 0
Live true last queue = Ends last queue
Live false last queue = Linked queue

abbrev pub IsFed : Inner → ℕ → Subscriber → Type 0
IsFed inner last sub =
    Live sub.registered last sub.queue × (length sub.queue ≤ inner.config.live_capacity)

abbrev pub IsOurs : Inner → P0SessionEventEnvelope → Type 0
IsOurs inner e =
    (e.schema_version ≡ event_schema_version) × (e.session_id ≡ inner.identity.session_id)

pub record IsStream (inner : Inner) (last : ℕ) (history : List P0SessionEventEnvelope)
    (subs : List Subscriber) (next : ℕ) : Type 0 where
  pub bounded : last ≤ u64_max
  pub ends : Ends last history
  pub kept : length history ≡ min last inner.config.history_capacity
  pub ours : All (IsOurs inner) history
  pub fed : All (IsFed inner last) subs
  pub fresh : All (λ (sub : Subscriber). sub.subscriber_id < next) subs
  pub few : subscriber_count subs ≤ inner.config.max_subscribers

abbrev pub HasStream : Inner → RuntimeState → Type 0
HasStream inner s = IsStream inner s.high_water_seq s.history s.subscribers s.next_subscriber_id
