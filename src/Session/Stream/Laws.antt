-- ===== src/Session/Stream/Laws.antt =====
-- What the sections of crates/codebox-session-runtime/src/runtime.rs keep of the stream: whatever
-- `append_event` and `close_subscribers` keep.
use fanzloud.Base.{ℕ, ◌<◌, ◌≡◌, Option, List, Bool, true, false, ok, u64_max, arith}
use fanzloud.Session.Types.{P0CloudLifecycle, P0SessionEvent, P0SessionEventEnvelope}
use fanzloud.Session.State.{
  Inner, RuntimeState, Subscriber, CloseReason, append_event, close_subscribers, reserve_change,
  append_change,
}
use fanzloud.Session.Stream.Writes.{reserve_events-room}

-- A property of the high water, the history, the subscribers and their next identifier.
abbrev pub Quality : Type 1
Quality = Inner → ℕ → List P0SessionEventEnvelope → List Subscriber → ℕ → Type 0

abbrev pub Holds : Quality → Inner → RuntimeState → Type 0
Holds Q inner s = Q inner s.high_water_seq s.history s.subscribers s.next_subscriber_id

pub record IsKept (Q : Quality) (inner : Inner) : Type 0 where
  pub appended :
      (s : RuntimeState) (turn : Option ℕ) (payload : P0SessionEvent)
      → s.high_water_seq < u64_max
      → Holds Q inner s
      → Holds Q inner (append_event inner s turn payload)
  pub closed :
      (s : RuntimeState) (reason : CloseReason)
      → Holds Q inner s
      → Holds Q inner (close_subscribers s reason)

module _ (Q : Quality) (law : (inner : Inner) → IsKept Q inner) where
  pub append_event-Holds :
      (inner : Inner) (s : RuntimeState) (turn : Option ℕ) (payload : P0SessionEvent)
      → s.high_water_seq < u64_max
      → Holds Q inner s
      → Holds Q inner (append_event inner s turn payload)
  append_event-Holds inner s turn payload room h = (law inner).appended s turn payload room h

  pub close_subscribers-Holds :
      (inner : Inner) (s : RuntimeState) (reason : CloseReason)
      → Holds Q inner s
      → Holds Q inner (close_subscribers s reason)
  close_subscribers-Holds inner s reason h = (law inner).closed s reason h

  -- The event of a change is written if it was reserved, at whatever state has the same high water.
  pub append_change-Holds :
      (inner : Inner) (s t : RuntimeState) (turn : ℕ) (changed : Bool)
      (lifecycle : P0CloudLifecycle)
      → reserve_change s changed ≡ ok tt
      → t.high_water_seq ≡ s.high_water_seq
      → Holds Q inner t
      → Holds Q inner (append_change inner t turn changed lifecycle)
  unfolding append_change reserve_change
  append_change-Holds inner s t turn true lifecycle e same h =
      append_event-Holds inner t _ _ (omega (arith, reserve_events-room s 1 e)) h
  append_change-Holds inner s t turn false lifecycle e same h = h
