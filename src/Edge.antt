-- ===== src/Edge.antt =====
-- The data plane: internal/edge/{stream,proxy}.go with internal/openai/usage.go. (The check of the key
-- before it, internal/edge/auth.go, is Keys.Edge.)
pub mod OpenAi
pub mod Stream
pub mod Proxy
pub mod Faithful
pub mod Owner
pub mod Billing
pub mod Accounted
pub mod Headers
pub mod Tests
