-- ===== src/Tests.antt =====
-- Runs of the theorems on concrete data.
mod Notify
mod Pricing
mod Orders
mod Iam
mod Payment
mod System
mod Requests
mod Runner
mod Event
pub mod Data
