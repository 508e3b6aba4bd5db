-- ===== src/Mgba.antt =====
-- crates/mgba: the command scheduler, the command texts, and the transport to a worker.
pub mod Messages
pub mod Scheduler
