-- ===== src/Auth.antt =====
-- src/modules/auth
pub mod Lockout
pub mod SignIn
