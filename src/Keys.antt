-- ===== src/Keys.antt =====
-- The virtual keys: the table `api_keys` and its store (internal/control/keystore.go), and the
-- reading of a credential by the data plane (internal/apikey, internal/edge/auth.go).
pub mod Model
pub mod Store
pub mod Rows
pub mod Edge
pub mod Pending
pub mod Revocation
pub mod Rotation
pub mod Window
pub mod Admission
mod Tests
