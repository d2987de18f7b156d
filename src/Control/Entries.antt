-- ===== src/Control/Entries.antt =====
-- The entries of the registry of apps/control-plane/src/idempotency.rs, and the map that keeps them:
-- a list of pairs.
pub mod Lookup
use fanzloud.Base.{ℕ, Bool, true, false, Option, none, some, List, [], ◌∷◌, ◌==◌, if◌then◌else◌}
use fanzloud.Control.Request.{RequestIdentity, CachedResponse}

pub data CacheDisposition : Type 0 where
  retain : CacheDisposition
  -- the deadline
  expire_at : ℕ → CacheDisposition
  -- the sequence number of the session
  remove_after_auth_session : ℕ → CacheDisposition

pub data EntryState : Type 0 where
  in_flight : EntryState
  complete_with : CachedResponse → CacheDisposition → EntryState

pub record Entry : Type 0 where
  pub identity : RequestIdentity
  pub request_bytes : ℕ
  pub response_bytes : ℕ
  pub state : EntryState
  pub waiters : ℕ
  pub completed_seq : Option ℕ

-- `HashMap::get`, `get_mut` and `remove`.
unfoldable pub find : ℕ → List (ℕ × Entry) → Option Entry
find key [] = none
find key ((k, e) ∷ es) = if k == key then some e else find key es

unfoldable pub update : ℕ → (Entry → Entry) → List (ℕ × Entry) → List (ℕ × Entry)
update key f [] = []
update key f ((k, e) ∷ es) =
    let rest = update key f es in if k == key then (k, f e) ∷ es else (k, e) ∷ rest

unfoldable pub erase : ℕ → List (ℕ × Entry) → List (ℕ × Entry)
erase key [] = []
erase key ((k, e) ∷ es) = let rest = erase key es in if k == key then es else (k, e) ∷ rest

unfoldable pub keys_of : (Entry → Bool) → List (ℕ × Entry) → List ℕ
keys_of test [] = []
keys_of test ((k, e) ∷ es) = if test e then k ∷ keys_of test es else keys_of test es
