-- ===== src/Auth.antt =====
-- internal/auth: the password in front of the web interface.
pub mod Limiter
pub mod Base64
pub mod Store
