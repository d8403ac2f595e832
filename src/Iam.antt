-- ===== src/Iam.antt =====
-- Staff access: api/internal/iam.
pub mod Limiter
pub mod Matrix
pub mod Sessions
