-- ===== src/Grants.antt =====
-- internal/control/grantstore.go and grantapi.go: the roles, who holds them, and who may hand them out.
pub mod Model
pub mod Store
pub mod Effective
pub mod Sync
pub mod Api
pub mod Guard
pub mod Tests
