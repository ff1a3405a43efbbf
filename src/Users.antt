-- ===== src/Users.antt =====
-- Users, their sessions and the states of their logins: internal/control/{userstore,sessionstore}.go.
pub mod Model
pub mod Store
pub mod Sessions
pub mod Once
pub mod Tests
