-- ===== src/Control.antt =====
-- The control plane of apps/control-plane.
pub mod Request
pub mod Entries
pub mod Registry
pub mod WebSocket
pub mod Bytes
pub mod ApiErrors
pub mod Transport
pub mod HttpConfig
pub mod Cookie
pub mod AppSessions
pub mod Lifecycle
pub mod Mutation
pub mod Http
pub mod Routes
