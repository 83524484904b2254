-- ===== src/Auth.antt =====
-- Who may call: the session cookie of the dashboard (src/common/auth/dashboard-session.ts) and the
-- guards of src/common/guards.
pub mod Tokens
pub mod Guards
pub mod Cookie
pub mod Session
pub mod Keys
