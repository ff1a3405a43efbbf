-- ===== src/Orgs.antt =====
-- internal/control/orgstore.go: the tree of organisations, kept as rows with a pointer to the parent and
-- a materialised path.
pub mod Model
pub mod Store
pub mod Tree
pub mod Texts
pub mod Move
pub mod Moving
pub mod Ops
pub mod Rows
pub mod Invariant
pub mod Chain
pub mod Tests
