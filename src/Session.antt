-- ===== src/Session.antt =====
-- The session of a user (server/session): its active run and the report it loads.
pub mod Runs
pub mod Snapshot
pub mod Manager
mod Examples
mod ManagerExamples
