-- ===== src/Domain.antt =====
-- The value-only domain crate, crates/codebox-domain/src: sequences, paths, events, the reducer.
pub mod Sequence
pub mod Event
pub mod Reducer
pub mod Path
