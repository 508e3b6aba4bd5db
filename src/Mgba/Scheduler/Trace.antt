-- ===== src/Mgba/Scheduler/Trace.antt =====
-- crates/mgba/src/scheduler.rs: the latencies of a command's trace, whose times are nanoseconds.
use mgba_server.Common.Integers.{ℤ, num_milliseconds}
use mgba_server.Mgba.Scheduler.{CommandTrace}

abbrev pub queue_wait_ms : CommandTrace → ℤ
queue_wait_ms trace = num_milliseconds trace.dequeue_at trace.enqueue_at

abbrev pub socket_roundtrip_ms : CommandTrace → ℤ
socket_roundtrip_ms trace = num_milliseconds trace.response_at trace.socket_write_at

abbrev pub caller_latency_ms : CommandTrace → ℤ
caller_latency_ms trace = num_milliseconds trace.caller_complete_at trace.enqueue_at
