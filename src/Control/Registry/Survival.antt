-- ===== src/Control/Registry/Survival.antt =====
-- The invariant and the entries that are needed, under the removals of many entries in
-- apps/control-plane/src/idempotency.rs.
use fanzloud.Base.{
  ℕ, ◌≡◌, refl, Bool, true, false, none, some, List, [], ◌∷◌, arith, All, All-map, ◌==◌, ==_iff,
  ==_refl, inl, inr, Bool-cases, Option-cases,
}
use fanzloud.Control.Entries.{Entry, find, keys_of}
use fanzloud.Control.Entries.Lookup.{find-erase, find-erase_same, Distinct}
use fanzloud.Control.Registry.{
  Registry, remove, remove_all, prune_expired, is_expired, release_auth_session, is_of_session,
}
use fanzloud.Control.Registry.Invariant.{
  IsValid, pinned, Prunes, Prunes-refl, Prunes-trans, remove-Prunes,
}

-- A test that an entry fails which somebody needs.
abbrev pub Spares : (Entry → Bool) → Type 0
Spares test = (e : Entry) → test e ≡ true → pinned e ≡ false

-- What a key is bound to, if anything, passes the test.
abbrev pub Passes : (Entry → Bool) → List (ℕ × Entry) → ℕ → Type 0
Passes test es key = (e : Entry) → find key es ≡ some e → test e ≡ true

-- A key that a test selects is of an entry that passes it.
abbrev pub Selected : (Entry → Bool) → List (ℕ × Entry) → ℕ → Type 0
Selected test es key = (e : Entry) × (find key es ≡ some e) × (test e ≡ true)

Selected-cons :
    (test : Entry → Bool) (k : ℕ) (x : Entry) (es : List (ℕ × Entry)) (key : ℕ)
    → find k es ≡ none
    → Selected test es key
    → Selected test ((k, x) ∷ es) key
unfolding find
Selected-cons test k x es key absent (e, at, pass) = elim (Bool-cases (k == key)) [
  | inl same ↦ absurd (ground (arith, ==_iff k key))
  | inr other ↦ (e, rw other at, pass)
]

pub keys_of-Selected :
    (test : Entry → Bool) (es : List (ℕ × Entry))
    → Distinct es
    → All (Selected test es) (keys_of test es)
unfolding keys_of find
keys_of-Selected test [] d = tt
keys_of-Selected test ((k, x) ∷ es) d =
    let rest =
      All-map (λ key. Selected-cons test k x es key d.0) _ (keys_of-Selected test es d.1) in
    elim (Bool-cases (test x)) [
      | inl passes ↦ rw passes ((x, rw (==_refl k) refl, passes), rest)
      | inr fails ↦ rw fails rest
    ]

remove-Passes :
    (test : Entry → Bool) (r : Registry) (k key : ℕ)
    → IsValid r
    → Passes test r.entries key
    → Passes test (remove r k).entries key
unfolding remove
remove-Passes test r k key v h e at = h e (
    grind (arith, find-erase k key r.entries, find-erase_same k r.entries v.distinct, ==_iff k key))

remove_all-Prunes :
    (test : Entry → Bool) (r : Registry)
    → Spares test
    → (keys : List ℕ) → IsValid r
    → All (Passes test r.entries) keys
    → Prunes none r (remove_all r keys)
unfolding remove_all remove
remove_all-Prunes test r loose [] v h = Prunes-refl none r v
remove_all-Prunes test r loose (key ∷ keys) v h = elim (Option-cases (find key r.entries)) [
  | inl absent ↦ rw absent (remove_all-Prunes test r loose keys v h.1)
  | inr (x, at) ↦
      let one = remove-Prunes none r key x v at (loose x (h.0 x at)) in
      Prunes-trans none one (
        remove_all-Prunes test (remove r key) loose keys one.valid
          (All-map (λ k passes. remove-Passes test r key k v passes) keys h.1))
]

Selected-Passes :
    (test : Entry → Bool) (es : List (ℕ × Entry)) (key : ℕ)
    → Selected test es key
    → Passes test es key
Selected-Passes test es key (x, at, pass) e found = grind arith

-- The removal of all entries that pass a test which spares what is needed.
removes-Prunes :
    (test : Entry → Bool) (r : Registry)
    → Spares test
    → IsValid r
    → Prunes none r (remove_all r (keys_of test r.entries))
removes-Prunes test r loose v = remove_all-Prunes test r loose _ v (
    All-map (λ key. Selected-Passes test r.entries key) _
      (keys_of-Selected test r.entries v.distinct))

pub prune-Prunes : (r : Registry) (now : ℕ) → IsValid r → Prunes none r (prune_expired r now)
unfolding prune_expired
prune-Prunes r now v = removes-Prunes (is_expired now) r (λ e h. ground arith) v

pub release-Prunes :
    (r : Registry) (seq : ℕ) → IsValid r → Prunes none r (release_auth_session r seq)
unfolding release_auth_session
release-Prunes r seq v = removes-Prunes (is_of_session seq) r (λ e h. ground arith) v
