-- ===== src/Pricing.antt =====
-- Prices, coupons and seat counters (api/internal/pricing).
pub mod Allocate
pub mod Coupon
pub mod Ident
pub mod Tier
pub mod Age
pub mod Counter
pub mod Reserve
pub mod Rules
pub mod Quote
