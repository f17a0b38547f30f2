-- ===== src/Session.antt =====
-- Session control, src/core/session.rs.
pub mod Wake
pub mod Handle
pub mod Wait
pub mod Selection
pub mod Open
pub mod Verbs
mod Tests
