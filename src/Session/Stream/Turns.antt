-- ===== src/Session/Stream/Turns.antt =====
-- One receiver of crates/codebox-session-runtime/src/runtime.rs, while it and the others receive.
use fanzloud.Base.{
  ℕ, ◌+◌, ◌≡◌, ◌≢◌, refl, ap, inl, inr, some, List, [], ◌∷◌, map, arith, ◌==◌, ==_refl,
  if◌then◌else◌, Bool-cases,
}
use fanzloud.Session.Types.{P0SessionEventEnvelope}
use fanzloud.Session.State.{Inner, RuntimeState, Subscriber}
use fanzloud.Session.Subscribe.{try_recv, drop_receiver, at_subscriber, receive, drop_live}
use fanzloud.Session.Stream.Laws.{Holds}
use fanzloud.Session.Stream.Backlog.{client, IsBehind, One, Backlog, map-One}

abbrev change : ℕ → (Subscriber → Subscriber) → Subscriber → Subscriber
change id f sub = if sub.subscriber_id == id then f sub else sub

at_subscriber-map :
    (id : ℕ) (f : Subscriber → Subscriber) (subs : List Subscriber)
    → at_subscriber id f subs ≡ map (change id f) subs
unfolding at_subscriber
at_subscriber-map id f [] = refl
at_subscriber-map id f (sub ∷ subs) = ap (λ xs. change id f sub ∷ xs) (at_subscriber-map id f subs)

change-named :
    (id : ℕ) (f : Subscriber → Subscriber)
    → ((x : Subscriber) → (f x).subscriber_id ≡ x.subscriber_id)
    → (x : Subscriber) → (change id f x).subscriber_id ≡ x.subscriber_id
change-named id f keeps x = ground (arith, keeps x)

-- The one with the identifier is also known to be it.
named-One :
    (id : ℕ) (P : Subscriber → Type 0) (subs : List Subscriber)
    → One id P subs
    → One id (λ x. (x.subscriber_id ≡ id) × P x) subs
named-One id P [] h = absurd h
named-One id P (x ∷ subs) (inl (named, holds, rest)) = inl (named, (named, holds), rest)
named-One id P (x ∷ subs) (inr (other, h)) = inr (other, named-One id P subs h)

found-One :
    (id : ℕ) (P : Subscriber → Type 0) (subs : List Subscriber) (sub : Subscriber)
    → One id P subs
    → client id subs ≡ some sub
    → One id (λ x. (x ≡ sub) × (x.subscriber_id ≡ id) × P x) subs
unfolding client
found-One id P [] sub h at = absurd h
found-One id P (x ∷ subs) sub (inl (named, holds, rest)) at =
    inl (named, (ground (arith, named, ==_refl id), named, holds), rest)
found-One id P (x ∷ subs) sub (inr (other, h)) at =
    inr (other, found-One id P subs sub h (ground (arith, other)))

change_other :
    (id other : ℕ) (f : Subscriber → Subscriber) (P : Subscriber → Type 0) (x : Subscriber)
    → other ≢ id
    → x.subscriber_id ≡ id
    → P x
    → P (change other f x)
change_other id other f P x apart named holds = elim (Bool-cases (x.subscriber_id == other)) [
  | inl same ↦ absurd (ground (arith, same, apart, named))
  | inr differs ↦ rw differs holds
]

other-One :
    (id other : ℕ) (P : Subscriber → Type 0) (f : Subscriber → Subscriber) (subs : List Subscriber)
    → ((x : Subscriber) → (f x).subscriber_id ≡ x.subscriber_id)
    → other ≢ id
    → One id P subs
    → One id P (at_subscriber other f subs)
other-One id other P f subs keeps apart h = rw (at_subscriber-map other f subs) (
    map-One id (λ x. (x.subscriber_id ≡ id) × P x) P (change other f) subs
      (change-named other f keeps) (λ x both. change_other id other f P x apart both.0 both.1)
      (named-One id P subs h))

recv-named : (x : Subscriber) → (try_recv x x.queue).0.subscriber_id ≡ x.subscriber_id
unfolding try_recv
recv-named x = ground arith

drop-named : (x : Subscriber) → (drop_receiver x).subscriber_id ≡ x.subscriber_id
unfolding drop_receiver
drop-named x = ground arith

pub receive_other-Backlog :
    (id got other : ℕ) (inner : Inner) (s : RuntimeState)
    → other ≢ id
    → Holds (Backlog id got) inner s
    → Holds (Backlog id got) inner (receive s other)
unfolding receive
receive_other-Backlog id got other inner s apart (bounded, known, one) = (
  bounded,
  known,
  other-One id other (IsBehind inner s.high_water_seq got) (λ sub. (try_recv sub sub.queue).0)
      s.subscribers recv-named apart one,
)

pub drop_other-Backlog :
    (id got other : ℕ) (inner : Inner) (s : RuntimeState)
    → other ≢ id
    → Holds (Backlog id got) inner s
    → Holds (Backlog id got) inner (drop_live s other)
unfolding drop_live
drop_other-Backlog id got other inner s apart (bounded, known, one) = (
  bounded,
  known,
  other-One id other (IsBehind inner s.high_water_seq got) drop_receiver s.subscribers drop-named
      apart one,
)

recv-IsBehind :
    (inner : Inner) (last got id : ℕ) (e : P0SessionEventEnvelope)
    (queue : List P0SessionEventEnvelope) (sub x : Subscriber)
    → sub.queue ≡ e ∷ queue
    → x ≡ sub
    → x.subscriber_id ≡ id
    → IsBehind inner last got x
    → IsBehind inner last (got + 1) (change id (λ y. (try_recv y y.queue).0) x)
unfolding try_recv
recv-IsBehind inner last got id e queue sub x first same named h = ground (arith, ==_refl id)

-- The receiver takes the first event of its queue.
pub receive-Backlog :
    (id got : ℕ) (inner : Inner) (s : RuntimeState) (sub : Subscriber) (e : P0SessionEventEnvelope)
    (queue : List P0SessionEventEnvelope)
    → client id s.subscribers ≡ some sub
    → sub.queue ≡ e ∷ queue
    → Holds (Backlog id got) inner s
    → Holds (Backlog id (got + 1)) inner (receive s id)
unfolding receive
receive-Backlog id got inner s sub e queue at first (bounded, known, one) =
    let f : Subscriber → Subscriber = λ y. (try_recv y y.queue).0 in
    (
      bounded,
      known,
      rw (at_subscriber-map id f s.subscribers) (
          map-One id
            (λ x. (x ≡ sub) × (x.subscriber_id ≡ id) × IsBehind inner s.high_water_seq got x)
            (IsBehind inner s.high_water_seq (got + 1)) (change id f) s.subscribers
            (change-named id f recv-named)
            (λ x (same, named, h).
              recv-IsBehind inner s.high_water_seq got id e queue sub x first same named h)
            (found-One id (IsBehind inner s.high_water_seq got) s.subscribers sub one at)),
    )
