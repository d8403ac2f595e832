-- ===== src/Registration.antt =====
-- Orders and registrations (api/internal/registration).
pub mod Orders
pub mod Held
pub mod Moved
pub mod Outcome
pub mod Create
pub mod Settled
pub mod Changed
pub mod Status
pub mod Deadline
pub mod Free
pub mod Idempotent
pub mod Finish
pub mod Consistent
