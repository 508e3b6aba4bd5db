-- ===== src/Worker.antt =====
-- src/bin/worker.rs and src/bin/worker/core.rs: the emulator process of one instance.
pub mod Core
pub mod Pacing
pub mod Video
pub mod Commands
pub mod Args
