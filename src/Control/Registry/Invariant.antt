-- ===== src/Control/Registry/Invariant.antt =====
-- The invariant of the registry of apps/control-plane/src/idempotency.rs, and the removal of
-- entries that nobody needs.
use fanzloud.Base.{
  ℕ, ◌≡◌, ◌≤◌, refl, Bool, true, false, not, ◌||◌, Option, none, some, arith, length, ◌==◌, ==_iff,
  inl, inr, Bool-cases, u64_max, ◌∙◌,
}
use fanzloud.Control.Request.{request_storage_bytes, response_storage_bytes}
use fanzloud.Control.Entries.{EntryState, in_flight, complete_with, Entry, find, erase}
use fanzloud.Control.Entries.Lookup.{
  bytes, Distinct, Each, length-erase, bytes-erase, find-erase, erase-Distinct, erase-All,
}
use fanzloud.Control.Registry.{Registry, max_entries, remove, is_key, is_in_flight}

-- The response that an entry has, and the number of its completion.
abbrev pub Finished : ℕ → ℕ → Option ℕ → EntryState → Type 0
Finished last size number in_flight = (size ≡ 0) × (number ≡ none)
Finished last size none (complete_with response disposition) = ⊥
Finished last size (some seq) (complete_with response disposition) =
    (size ≡ response_storage_bytes response) × (seq ≤ last)

abbrev pub IsSound : ℕ → Entry → Type 0
IsSound last e =
    (e.request_bytes ≡ request_storage_bytes e.identity)
    × Finished last e.response_bytes e.completed_seq e.state

pub record IsValid (r : Registry) : Type 0 where
  pub distinct : Distinct r.entries
  pub exact : r.total_bytes ≡ bytes r.entries
  pub each : Each (IsSound r.completion_seq) r.entries
  pub few : length r.entries ≤ max_entries
  pub counted : r.completion_seq ≤ u64_max

-- An entry that has no response yet, or whose response somebody waits for.
abbrev pub pinned : Entry → Bool
pinned e = is_in_flight e.state || not (e.waiters == 0)

abbrev pub is_kept : Option ℕ → ℕ → Entry → Bool
is_kept protected key e = is_key protected key || pinned e

-- Only entries that are neither pinned nor protected were removed.
pub record Prunes (protected : Option ℕ) (r r' : Registry) : Type 0 where
  pub valid : IsValid r'
  pub numbers : r'.completion_seq ≡ r.completion_seq
  pub keeps :
      (key : ℕ) (e : Entry)
      → find key r.entries ≡ some e
      → is_kept protected key e ≡ true
      → find key r'.entries ≡ some e
  pub fresh : (key : ℕ) → find key r.entries ≡ none → find key r'.entries ≡ none

pub Prunes-refl : (protected : Option ℕ) (r : Registry) → IsValid r → Prunes protected r r
Prunes-refl protected r v = record {
  valid = v;
  numbers = refl;
  keeps = λ key e at kept. at;
  fresh = λ key at. at;
}

pub Prunes-trans :
    (protected : Option ℕ) {r s t : Registry}
    → Prunes protected r s
    → Prunes protected s t
    → Prunes protected r t
Prunes-trans protected p q = record {
  valid = q.valid;
  numbers = q.numbers ∙ p.numbers;
  keeps = λ key e at kept. q.keeps key e (p.keeps key e at kept) kept;
  fresh = λ key at. q.fresh key (p.fresh key at);
}

pub remove-IsValid :
    (r : Registry) (k : ℕ) (x : Entry)
    → IsValid r
    → find k r.entries ≡ some x
    → IsValid (remove r k)
unfolding remove
remove-IsValid r k x v at = rw at (record {
  distinct = erase-Distinct k r.entries v.distinct;
  exact = omega (arith, v.exact, bytes-erase k r.entries x at);
  each = erase-All _ k r.entries v.each;
  few = omega (arith, v.few, length-erase k r.entries x at);
  counted = v.counted;
})

remove-keeps :
    (protected : Option ℕ) (r : Registry) (k : ℕ) (x : Entry) (key : ℕ) (e : Entry)
    → find k r.entries ≡ some x
    → is_kept protected k x ≡ false
    → find key r.entries ≡ some e
    → is_kept protected key e ≡ true
    → find key (erase k r.entries) ≡ some e
remove-keeps protected r k x key e at lost found kept = elim (Bool-cases (k == key)) [
  | inl same ↦ ground (arith, ==_iff k key)
  | inr other ↦ find-erase k key r.entries (λ p. ground (arith, ==_iff k key)) ∙ found
]

remove-fresh :
    (r : Registry) (k : ℕ) (x : Entry) (key : ℕ)
    → find k r.entries ≡ some x
    → find key r.entries ≡ none
    → find key (erase k r.entries) ≡ none
remove-fresh r k x key at absent = elim (Bool-cases (k == key)) [
  | inl same ↦ ground (arith, ==_iff k key)
  | inr other ↦ find-erase k key r.entries (λ p. ground (arith, ==_iff k key)) ∙ absent
]

pub remove-Prunes :
    (protected : Option ℕ) (r : Registry) (k : ℕ) (x : Entry)
    → IsValid r
    → find k r.entries ≡ some x
    → is_kept protected k x ≡ false
    → Prunes protected r (remove r k)
unfolding remove
remove-Prunes protected r k x v at lost = record {
  valid = remove-IsValid r k x v at;
  numbers = rw at;
  keeps = λ key e found kept. rw at (remove-keeps protected r k x key e at lost found kept);
  fresh = λ key absent. rw at (remove-fresh r k x key at absent);
}
