-- ===== src/Import.antt =====
-- internal/control/importdiff.go and importapply.go: a tree of organisations that is read from a directory.
pub mod Diff
pub mod Apply
pub mod Sorted
pub mod Kept
pub mod Tests
