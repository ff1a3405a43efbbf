-- ===== src/Usage.antt =====
-- internal/usage/batch.go: the writer that batches usage records. Its goroutine and its callers are
-- events on one state; an event that waits is not enabled.
pub mod Batch
pub mod Accounts
pub mod Conservation
pub mod Closing
pub mod Tests
