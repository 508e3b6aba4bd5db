-- ===== src/Gateway.antt =====
-- crates/gateway/src/lib.rs: the HTTP front end of the sessions.
pub mod Validate
pub mod Endpoint
pub mod Admin
pub mod Routes
