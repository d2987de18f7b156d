-- ===== src/Session.antt =====
-- The process-lifetime session, crates/codebox-session-runtime/src.
pub mod Types
pub mod Config
pub mod Error
pub mod State
pub mod Lifecycle
pub mod Calls
pub mod Subscribe
pub mod Cancel
pub mod Worker
pub mod Monitor
pub mod Stream
pub mod System
pub mod Watch
pub mod Projection
pub mod Races
pub mod Admission
pub mod Examples
