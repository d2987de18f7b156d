-- ===== src/Domain/Sequence.antt =====
-- crates/codebox-domain/src/id.rs and sequence.rs: identifiers and event sequence numbers.
-- An identifier is the number of its UUID, a `u128`; the nil UUID is 0. An `EventSeq` is its `u64`.
use fanzloud.Base.{ℕ, ◌+◌, Bool, Result, ok, err, u64_max, ltb, ◌==◌, if◌then◌else◌}

pub data IdError : Type 0 where
  nil : IdError

pub data EventSeqError : Type 0 where
  overflow : EventSeqError

-- `is_nil` of the uuid crate: every bit is zero.
abbrev is_nil : ℕ → Bool
is_nil value = value == 0

unfoldable pub try_from_uuid : ℕ → Result IdError ℕ
try_from_uuid value = if is_nil value then err nil else ok value

abbrev pub initial : ℕ
initial = 0

unfoldable pub checked_next : ℕ → Result EventSeqError ℕ
checked_next value = if ltb value u64_max then ok (value + 1) else err overflow
