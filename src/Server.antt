-- ===== src/Server.antt =====
-- internal/server/server.go and its neighbours: the chat, the readiness check, and the wiring of the
-- routes.
pub mod Stream
pub mod Chat
pub mod Health
pub mod Routes
pub mod Lifecycle
pub mod Metrics
mod Tests
