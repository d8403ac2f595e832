-- ===== src/Payment.antt =====
-- Payments by proof: api/internal/payment.
pub mod Review
pub mod Submit
pub mod Linked
pub mod Refs
pub mod Inversion
pub mod System
