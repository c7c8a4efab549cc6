-- ===== src/Auth.antt =====
-- backend/app/auth: the limit on failed sign-ins.
pub mod Limits
mod Tests
