-- ===== src/Runner.antt =====
-- Runners, who sign in with one-time codes: api/internal/runner.
pub mod OtpLimiter
pub mod Rows
pub mod Otp
pub mod Session
