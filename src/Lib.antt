-- ===== src/Lib.antt =====
-- Verification library of the mGBA multi-instance gateway.
--
-- A gateway process serves HTTP and WebSocket clients and runs one worker process with a libretro
-- core for each emulator instance. A request for a session passes the check of its command text
-- and the access control, is queued by the session's scheduler, travels as a message over a Unix
-- socket to the worker, runs on the worker's emulator thread, and its answer travels back. Frames
-- travel from the worker over a second socket to the frame hub and from there, encoded, to the
-- viewers.
--
-- The parts and their files:
-- - Common: numbers, lists, texts as byte lists with the methods of Rust's str, big- and
--   little-endian bytes, results, dictionaries for HashMap.
-- - Auth (crates/auth/src/lib.rs): AclService as a record of two dictionaries; one function for
--   each method. Auth/Access is about single calls, Auth/History about whole histories of calls.
-- - Config (crates/config/src/lib.rs): load_from_env over a look-up of environment variables.
-- - Gateway/Validate (crates/gateway/src/lib.rs, validate_command) and Gateway/Endpoint
--   (command_endpoint, authorize, principal_token, auth_response): the handler over a state of
--   grants, input log and the calls made to the command service.
-- - Gateway/Routes (crates/gateway/src/lib.rs, the handlers of api_routes): the routes as a data
--   type, with the request that each hands to command_endpoint, the log route and the screenshot.
--   Gateway/Admin (crates/gateway/src/admin.rs): the administrator's routes over a state that has
--   the instance manager, the access control, the frame hub and the metrics.
-- - Instances (crates/instances/src/lib.rs): InstanceManager over the interface InstanceBackend.
--   Instances/Manager has the operations, create also as its atomic parts; Instances/Capacity
--   lets those parts interleave. Instances/Process is ProcessBackend, with the operating system
--   as a parameter.
-- - Ipc (crates/ipc/src/lib.rs) and Ipc/Transport (crates/ipc/src/transport.rs): messages, framed
--   JSON with serde_json as a parameter, packed frames, the call of client and worker.
-- - Mgba/Messages (crates/mgba/src/protocol.rs, ipc_transport.rs): command texts and responses.
--   Mgba/Scheduler (crates/mgba/src/scheduler.rs): the channel, the five queues and the worker
--   task as steps on a record; the transport's outcome and the clock's readings are arguments of
--   a step.
-- - Streaming/Wire (crates/streaming/src/protocol.rs): the frame format. Streaming/Pixels (the
--   same file): encode_keyframe and encode_delta over lists of bytes with deflate_raw as a
--   parameter; Streaming/Pixels/Viewer describes a viewer. Streaming/Broadcast (broadcast.rs):
--   the loops of handle_instance_stream and handle_dashboard_stream as steps, with the socket as
--   a parameter. Streaming/Control: the control messages of a viewer, parsed (protocol.rs) and
--   handled (broadcast.rs). Streaming/Metrics (metrics.rs) and Streaming/H264 (h264.rs): the
--   counters, and the conversion to planes in front of a foreign encoder. Streaming/FrameHub
--   (frame_hub.rs) and Streaming/InputLog (input_log.rs): the latest frames, and the input events
--   of the sessions.
-- - Worker/Core (src/bin/worker/core.rs and the loop of run_emulator_thread in
--   src/bin/worker.rs): core commands, save states and the emulator loop over a core whose
--   functions are parameters.
-- - Worker/Video and Worker/Pacing (src/bin/worker.rs): the conversion of video frames and
--   schedule_next_frame_sleep. Worker/Commands (the same file): handle_commands over the
--   exchanges of its connections. Worker/Args: parse_args, and the arguments of
--   ProcessBackend::create_instance in crates/instances/src/lib.rs.
--
-- State is passed explicitly; errors are values of Result or Option. Where calls interleave
-- (Instances/Capacity, Mgba/Scheduler, Streaming/FrameHub/Push), what is done under one lock is
-- one step; a handler of a route is given as one function, with no other call in between. Machine
-- integers are natural numbers with their wrap-around written out. Loops are structural
-- recursions, printing of a number runs on fuel that is the number's successor, which is more
-- than its digits. UUIDs, random bytes, hashes and times are arguments.
--
-- Not modelled: the libretro bindings and the openh264 encoder (foreign code), the binaries'
-- start-up, sockets' set-up and removal, the upgrades of WebSockets, the command service's cache
-- of schedulers, the reader of the frame socket, the control messages of a dashboard, the
-- dashboard.
pub mod Common
pub mod Auth
pub mod Config
pub mod Gateway
pub mod Instances
pub mod Ipc
pub mod Mgba
pub mod Streaming
pub mod Worker
