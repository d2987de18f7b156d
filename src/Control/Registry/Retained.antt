-- ===== src/Control/Registry/Retained.antt =====
-- The entries that the removal of many leaves in apps/control-plane/src/idempotency.rs.
use fanzloud.Base.{
  ℕ, ◌≡◌, ◌≢◌, refl, ◌∙◌, Bool, true, false, Option, none, some, List, [], ◌∷◌, arith, All, All-map,
  ok, err,
}
use fanzloud.Control.Request.{RequestIdentity, CachedResponse, identity_eq, idempotency_conflict}
use fanzloud.Control.Entries.{Entry, retain, complete_with, find, keys_of}
use fanzloud.Control.Entries.Lookup.{Distinct, find-erase, find-update}
use fanzloud.Control.Registry.{
  Registry, WaitState, remove_found, remove, remove_all, prune_expired, is_expired,
  release_auth_session, is_of_session, joined, admit, admit_found, take_response,
}
use fanzloud.Control.Registry.Survival.{keys_of-Selected}

remove_found-find :
    (r : Registry) (k key : ℕ) (found : Option Entry)
    → k ≢ key
    → find key (remove_found r k found).entries ≡ find key r.entries
remove_found-find r k key none h = refl
remove_found-find r k key (some e) h = find-erase k key r.entries h

remove_all-find :
    (key : ℕ) (keys : List ℕ) (r : Registry)
    → All (λ k. k ≢ key) keys
    → find key (remove_all r keys).entries ≡ find key r.entries
unfolding remove_all remove
remove_all-find key [] r h = refl
remove_all-find key (k ∷ keys) r h =
    remove_all-find key keys (remove r k) h.1 ∙ remove_found-find r k key (find k r.entries) h.0

-- What the test fails for stays.
spared-find :
    (test : Entry → Bool) (r : Registry) (key : ℕ) (e : Entry)
    → Distinct r.entries
    → find key r.entries ≡ some e
    → test e ≡ false
    → find key (remove_all r (keys_of test r.entries)).entries ≡ some e
spared-find test r key e distinct at fails =
    remove_all-find key (keys_of test r.entries) r (
      All-map (λ k (x, found, passes) same. grind (arith, found, passes, same))
        (keys_of test r.entries) (keys_of-Selected test r.entries distinct))
    ∙ at

-- A response that is retained outlives every deadline and every session.
pub retained-find :
    (r : Registry) (key now seq : ℕ) (e : Entry) (response : CachedResponse)
    → Distinct r.entries
    → find key r.entries ≡ some e
    → e.state ≡ complete_with response retain
    → (find key (prune_expired r now).entries ≡ some e)
      × (find key (release_auth_session r seq).entries ≡ some e)
unfolding prune_expired release_auth_session
retained-find r key now seq e response distinct at done = (
  spared-find (is_expired now) r key e distinct at (ground (arith, done)),
  spared-find (is_of_session seq) r key e distinct at (ground (arith, done)),
)

-- A request with the key of a retained response is given it if it is the same request, and is refused
-- as a conflict if it is another.
pub retained_answers :
    (r : Registry) (key : ℕ) (identity : RequestIdentity) (now : ℕ) (e : Entry)
    (response : CachedResponse)
    → Distinct r.entries
    → find key r.entries ≡ some e
    → e.state ≡ complete_with response retain
    → (identity_eq e.identity identity ≡ true
        → ((admit r key identity now).1 ≡ ok false)
          × ((take_response (admit r key identity now).0 key).1 ≡ WaitState.ready response))
      × (identity_eq e.identity identity ≡ false
          → (admit r key identity now).1 ≡ err idempotency_conflict)
unfolding admit admit_found take_response
retained_answers r key identity now e response distinct at done =
    let kept = (retained-find r key now 0 e response distinct at done).0 in
    (
      λ same.
          rw (kept, same)
            (
              refl,
              rw (find-update key joined (prune_expired r now).entries, kept)
                  (ground (arith, done)),
            ),
      λ differs. rw (kept, differs) refl,
    )
