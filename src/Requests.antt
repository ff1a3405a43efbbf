-- ===== src/Requests.antt =====
-- Requests for keys and budgets, and the outbox of notifications: internal/control/requeststore.go.
pub mod Model
pub mod Store
pub mod Outbox
pub mod Ops
pub mod Lifecycle
pub mod Once
pub mod Tests
