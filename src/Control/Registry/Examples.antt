-- ===== src/Control/Registry/Examples.antt =====
-- A registry of apps/control-plane/src/idempotency.rs with one or two requests, and the theorems at it.
use fanzloud.Base.{
  ℕ, zero, suc, ◌+◌, ◌*◌, ◌≡◌, ◌≤◌, refl, sym, true, false, none, some, List, [], ◌∷◌, arith,
  length, if◌then◌else◌, ok, err, u64_max,
}
use fanzloud.Control.Request.{
  RequestIdentity, CachedResponse, idempotency_unavailable, idempotency_conflict, identity_eq,
  request_storage_bytes, response_storage_bytes,
}
use fanzloud.Control.Entries.{retain, Entry, find, update, keys_of, expire_at}
use fanzloud.Control.Entries.Lookup.{bytes, Distinct, Each}
use fanzloud.Control.Registry.{
  Registry, new_registry, remove_all, oldest_completed, make_capacity,
  evict_completed_to_storage_bound, prune_expired, release_auth_session, new_entry, admit_found,
  admit, completed, finish, complete, WaitState, take_response,
}
use fanzloud.Control.Registry.Invariant.{IsSound, IsValid}
use fanzloud.Control.Registry.{capacity_loop, eviction_loop}
use fanzloud.Control.Registry.Operations.{new_registry-IsValid}
use fanzloud.Control.Registry.Admission.{admit_once}
use fanzloud.Control.Registry.Completion.{complete_replays, pinned_stays}
use fanzloud.Control.Registry.System.{Step, start, after, registry-IsValid}

abbrev post : RequestIdentity
post = record {
  method = 80 ∷ 79 ∷ 83 ∷ 84 ∷ [];
  route = 47 ∷ 116 ∷ [];
  body = 123 ∷ 125 ∷ [];
  instance_id = 7;
  logout_session_seq = none;
}

abbrev logout : RequestIdentity
logout = record post { logout_session_seq = some 3 }

abbrev created : CachedResponse
created = record { status = 201; headers = ((120 ∷ [], 49 ∷ []) ∷ []); body = 111 ∷ 107 ∷ [] }

abbrev one : Registry
one = record { entries = (1, new_entry post) ∷ []; total_bytes = 72; completion_seq = 0 }

one-IsValid : IsValid one
unfolding request_storage_bytes find
one-IsValid = record {
  distinct = (refl, tt);
  exact = refl;
  each = ((refl, (refl, refl)), tt);
  few = omega arith;
  counted = omega arith;
}

admitted_first : admit new_registry 1 post 0 ≡ (one, ok true)
unfolding admit admit_found prune_expired remove_all keys_of find make_capacity capacity_loop
    request_storage_bytes oldest_completed
admitted_first = refl

one-find : find 1 one.entries ≡ some (new_entry post)
unfolding find
one-find = refl

created_size : response_storage_bytes created ≡ 68
unfolding response_storage_bytes
created_size = refl

created_fits : one.total_bytes + response_storage_bytes created ≤ u64_max
created_fits = omega (arith, created_size)

registry-IsValid_example : IsValid (take_response (admit new_registry 1 post 0).0 1).0
registry-IsValid_example =
    registry-IsValid _ (after (after start (Step.admits 1 post 0)) (Step.takes 1))

admit_once_example :
    (admit one 1 logout 9).1
    ≡ (if identity_eq post logout then ok false else err idempotency_conflict)
admit_once_example =
    admit_once new_registry one 1 post logout 0 9 new_registry-IsValid admitted_first

again_fits : (complete one 1 created retain).total_bytes + response_storage_bytes created ≤ u64_max
unfolding complete finish evict_completed_to_storage_bound eviction_loop find update
    response_storage_bytes
again_fits = omega arith

complete_replays_example :
    let r' = complete one 1 created retain in
    ((take_response r' 1).1 ≡ WaitState.ready created)
    × ((take_response (complete r' 1 created (expire_at 4)) 1).1 ≡ WaitState.ready created)
complete_replays_example =
    complete_replays one 1 created created retain (expire_at 4) (new_entry post) one-IsValid
      one-find refl created_fits again_fits

pinned_stays_example :
    (find 1 (admit one 2 logout 3).0.entries ≡ some (new_entry post))
    × (find 1 (complete one 2 created retain).entries ≡ some (new_entry post))
    × (find 1 (release_auth_session one 3).entries ≡ some (new_entry post))
pinned_stays_example =
    pinned_stays one 1 2 (new_entry post) logout 3 3 created retain one-IsValid one-find refl
      (omega arith) created_fits

abbrev two : List (ℕ × Entry)
two =
    (5, record (completed created retain 4 (new_entry post)) { waiters = 0 })
    ∷ (6, record (completed created retain 2 (new_entry logout)) { waiters = 0 })
    ∷ []

-- Requests in flight under the keys below `n`.
unfoldable many : ℕ → List (ℕ × Entry)
many zero = []
many (suc n) = (n, new_entry post) ∷ many n

many-fresh : (n k : ℕ) → n ≤ k → find k (many n) ≡ none
unfolding many find
many-fresh zero k le = refl
many-fresh (suc n) k le = ground (arith, many-fresh n k)

many-Distinct : (n : ℕ) → Distinct (many n)
unfolding many
many-Distinct zero = tt
many-Distinct (suc n) = (many-fresh n n (omega arith), many-Distinct n)

many-bytes : (n : ℕ) → bytes (many n) ≡ n * request_storage_bytes post
unfolding many request_storage_bytes
many-bytes zero = refl
many-bytes (suc n) = grind (arith, many-bytes n)

many-Each : (n : ℕ) → Each (IsSound 0) (many n)
unfolding many
many-Each zero = tt
many-Each (suc n) = ((refl, (refl, refl)), many-Each n)

length-many : (n : ℕ) → length (many n) ≡ n
unfolding many
length-many zero = refl
length-many (suc n) = omega (arith, length-many n)

abbrev full : Registry
full = record { entries = many 128; total_bytes = 9216; completion_seq = 0 }

full-IsValid : IsValid full
unfolding request_storage_bytes
full-IsValid = record {
  distinct = many-Distinct 128;
  exact = sym (many-bytes 128);
  each = many-Each 128;
  few = omega (arith, length-many 128);
  counted = omega arith;
}

refused : admit full 200 logout 0 ≡ (full, err idempotency_unavailable)
unfolding admit admit_found prune_expired remove_all keys_of find make_capacity capacity_loop
    oldest_completed many
refused = refl
