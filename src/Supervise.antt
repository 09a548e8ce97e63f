-- ===== src/Supervise.antt =====
-- internal/supervise: the helper processes that the daemon runs, and keeps running.
pub mod Lines
pub mod Backoff
pub mod Process
mod Tests
