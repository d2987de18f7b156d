-- ===== src/Cloud.antt =====
-- The Codex Cloud adapter, crates/codebox-agent-codex/src.
pub mod Lifecycle
pub mod TaskId
pub mod Prompt
pub mod Ledger
