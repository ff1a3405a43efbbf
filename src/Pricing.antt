-- ===== src/Pricing.antt =====
-- internal/pricing: the price of a call, in Micro (1e-6 of a unit) over int64.
pub mod Model
pub mod Table
pub mod Tiers
pub mod Cost
pub mod Versions
pub mod Lookup
mod Tests
