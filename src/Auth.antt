-- ===== src/Auth.antt =====
-- internal/auth: refresh tokens and login lockout, as kept in memory.
pub mod Sessions
pub mod Revocation
pub mod Lockout
pub mod Attempts
