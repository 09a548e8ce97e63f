-- ===== src/Update.antt =====
-- internal/update: noticing a newer release, and installing it.
pub mod Version
pub mod Check
pub mod Apply
