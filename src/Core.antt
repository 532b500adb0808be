-- ===== src/Core.antt =====
-- The parts of core/ that every firmware has: periodic tasks, and the text of a build ID.
pub mod Timer
pub mod BuildId
mod Tests
