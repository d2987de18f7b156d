-- ===== src/Control/Registry/System.antt =====
-- The registry of apps/control-plane/src/idempotency.rs over time: its operations in any order.
use fanzloud.Base.{ℕ, ◌+◌, ◌≤◌, u64_max}
use fanzloud.Control.Request.{RequestIdentity, CachedResponse, response_storage_bytes}
use fanzloud.Control.Entries.{CacheDisposition}
use fanzloud.Control.Registry.{
  Registry, new_registry, release_auth_session, admit, complete, take_response, drop_waiter,
}
use fanzloud.Control.Registry.Invariant.{IsValid}
use fanzloud.Control.Registry.Survival.{release-Prunes}
use fanzloud.Control.Registry.Operations.{
  admit-IsValid, complete-IsValid, drop_waiter-IsValid, take_response-IsValid, new_registry-IsValid,
}

-- What the registry may be asked for. The bytes of what is kept fit a `usize`.
pub data Step (r : Registry) : Registry → Type 0 where
  admits : (key : ℕ) (identity : RequestIdentity) (now : ℕ) → Step r (admit r key identity now).0
  completes :
      (key : ℕ) (response : CachedResponse) (disposition : CacheDisposition)
      → r.total_bytes + response_storage_bytes response ≤ u64_max
      → Step r (complete r key response disposition)
  releases : (session_seq : ℕ) → Step r (release_auth_session r session_seq)
  takes : (key : ℕ) → Step r (take_response r key).0
  drops : (key : ℕ) → Step r (drop_waiter r key)
  clears : Step r new_registry

pub data Reach (r : Registry) : Registry → Type 0 where
  start : Reach r r
  after : {s t : Registry} → Reach r s → Step s t → Reach r t

Step-IsValid : (r s : Registry) → Step r s → IsValid r → IsValid s
Step-IsValid r _ (admits key identity now) v = admit-IsValid r key identity now v
Step-IsValid r _ (completes key response disposition fits) v =
    complete-IsValid r key response disposition v fits
Step-IsValid r _ (releases seq) v = (release-Prunes r seq v).valid
Step-IsValid r _ (takes key) v = take_response-IsValid r key v
Step-IsValid r _ (drops key) v = drop_waiter-IsValid r key v
Step-IsValid r _ clears v = new_registry-IsValid

Reach-IsValid : (r s : Registry) → IsValid r → Reach r s → IsValid s
Reach-IsValid r s v start = v
Reach-IsValid r _ v (after {s = q} {t = t} reached step) =
    Step-IsValid q t step (Reach-IsValid r q v reached)

-- From the empty registry, in any order of the operations: each key is bound once, the byte total is
-- the sum over the entries, an entry's sizes are those of its request and its response, an entry has
-- a completion number exactly when it has a response, there are at most 128 entries, and no
-- completion number is above the last.
pub registry-IsValid : (r : Registry) → Reach new_registry r → IsValid r
registry-IsValid r reached = Reach-IsValid new_registry r new_registry-IsValid reached
