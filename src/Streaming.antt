-- ===== src/Streaming.antt =====
-- crates/streaming: the stream protocol, the frame hub, the input log, the metrics, the broadcast.
pub mod Wire
pub mod Pixels
pub mod Control
pub mod Broadcast
pub mod H264
pub mod Metrics
pub mod FrameHub
pub mod InputLog
