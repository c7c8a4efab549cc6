-- ===== src/Jobs.antt =====
-- The queue's claims, leases and retries (backend/app/jobs).
pub mod Leasing
mod Tests
