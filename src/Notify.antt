-- ===== src/Notify.antt =====
-- Messages to runners: api/internal/notify.
pub mod Worker
