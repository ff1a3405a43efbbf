-- ===== src/Authz/Decision.antt =====
-- The resolver decides `Allowed`.
pub mod Held
pub mod Baseline
pub mod Can
pub mod Total
