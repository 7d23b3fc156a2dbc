-- ===== src/Agent.antt =====
-- internal/agent: the files that an answer of the model holds, the messages of a query, and a query.
pub mod Apply
pub mod Messages
pub mod Query
pub mod Session
mod Tests
