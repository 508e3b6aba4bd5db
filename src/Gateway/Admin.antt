-- ===== src/Gateway/Admin.antt =====
-- crates/gateway/src/admin.rs: the routes of the administrator, over the instance manager, the access
-- control, the frame hub and the metrics. UUIDs are arguments; a task that reads the frames of an
-- instance is the session and the socket that it was started with.
pub mod Guard
pub mod Served
mod Runs
use mgba_server.Common.{
  ℕ, zero, suc, Bool, true, false, List, [], ◌∷◌, ◌++◌, Option, none, some, if◌then◌else◌, Result,
  ok, err,
}
use mgba_server.Common.Text.{Text, codes, text_eq, text_beq}
use mgba_server.Common.Dict.{Dict, lookup, insert, remove}
use mgba_server.Auth.{AclService, register_principal_token, grant, owner}
use mgba_server.Instances.{
  InstanceInfo, InstanceError, InstanceBackend, max_instances_reached, not_found,
  unsafe_capture_path, backend, process,
}
use mgba_server.Instances.Manager.{World, Drawn, create, destroy, get, list}
use mgba_server.Streaming.FrameHub.{
  FrameHub, RawFrame, PixelFormat, xrgb8888, rgb565, register_instance, unregister_instance,
  push_frame,
}
use mgba_server.Streaming.Metrics.{Floats, StreamMetrics, MetricsSnapshot, snapshot}
use mgba_server.Ipc.Transport.{RawFramePacket}

-- The `Display` of an error.
abbrev pub error_text : InstanceError → Text
error_text max_instances_reached = codes "max instances reached"
error_text unsafe_capture_path = codes "unsafe capture path"
error_text (backend e) = codes "backend error: " ++ e
error_text not_found = codes "instance not found"
error_text (process e) = codes "process error: " ++ e

-- The status and the body of a response.
pub data AdminResponse (F : Type 0) : Type 0 where
  unauthorized : AdminResponse F
  ok_info : InstanceInfo → AdminResponse F
  ok_list : List InstanceInfo → AdminResponse F
  ok_done : AdminResponse F
  ok_metrics : MetricsSnapshot F → AdminResponse F
  service_unavailable : (error : Text) → AdminResponse F
  missing : (error : Text) → AdminResponse F
  internal_error : (error : Text) → AdminResponse F

pub record IngestTask : Type 0 where
  pub session_id : Text
  pub frame_socket_path : Text

pub record AdminState (B F : Type 0) : Type 0 where
  pub admin_token : Text
  pub world : World B
  pub stream_metrics : StreamMetrics F
  pub acl : AclService
  pub frame_hub : FrameHub
  pub frame_ingest_tasks : Dict Text IngestTask

-- The header `x-admin-token` where there is one and it is text.
unfoldable pub check_admin_token : Option Text → (expected : Text) → Bool
check_admin_token none expected = false
check_admin_token (some token) expected = text_beq token expected

-- What a creation draws: the session's UUID, the manager's, and the grant's.
pub record Fresh : Type 0 where
  pub session_id : Text
  pub drawn : Drawn
  pub grant_id : Text

pub data AdminRequest : Type 0 where
  post_instances : Fresh → AdminRequest
  get_instances : AdminRequest
  get_instance_by : (id : Text) → AdminRequest
  delete_instance : (id : Text) → AdminRequest
  get_metrics : AdminRequest

module _ {B : Type 0} (floats : Floats) (instance_backend : InstanceBackend B)
    (hash_token : Text → Text) where
  abbrev pub created :
      Fresh
      → AdminState B floats.F
      → Result InstanceError InstanceInfo × World B
      → AdminResponse floats.F × AdminState B floats.F
  created fresh s (ok info, w) =
      let acl =
        register_principal_token hash_token s.acl info.principal_session_id info.principal_token in
      let (acl', g) =
        grant acl fresh.grant_id info.principal_session_id info.principal_session_id owner in
      let task : IngestTask = record {
        session_id = info.principal_session_id;
        frame_socket_path = info.frame_socket_path;
      } in
      (
        ok_info info,
        record s {
          world = w;
          acl = acl';
          frame_hub = register_instance info.principal_session_id s.frame_hub;
          frame_ingest_tasks = insert info.id task s.frame_ingest_tasks;
        },
      )
  created fresh s (err max_instances_reached, w) =
      (service_unavailable (codes "max instances reached"), record s { world = w })
  created fresh s (err unsafe_capture_path, w) =
      (internal_error (error_text unsafe_capture_path), record s { world = w })
  created fresh s (err (backend e), w) =
      (internal_error (error_text (backend e)), record s { world = w })
  created fresh s (err not_found, w) =
      (internal_error (error_text not_found), record s { world = w })
  created fresh s (err (process e), w) =
      (internal_error (error_text (process e)), record s { world = w })

  unfoldable pub create_instance :
      Fresh → Option Text → AdminState B floats.F → AdminResponse floats.F × AdminState B floats.F
  unfolding check_admin_token
  create_instance fresh token s =
      if check_admin_token token s.admin_token
      then created fresh s (create instance_backend fresh.session_id fresh.drawn s.world)
      else (unauthorized, s)

  unfoldable pub list_instances :
      Option Text → AdminState B floats.F → AdminResponse floats.F × AdminState B floats.F
  unfolding check_admin_token
  list_instances token s =
      if check_admin_token token s.admin_token
      then (ok_list (list s.world.manager), s)
      else (unauthorized, s)

  abbrev pub found : Option InstanceInfo → AdminResponse floats.F
  found (some info) = ok_info info
  found none = missing (codes "not found")

  unfoldable pub get_instance :
      Text → Option Text → AdminState B floats.F → AdminResponse floats.F × AdminState B floats.F
  unfolding check_admin_token
  get_instance id token s =
      if check_admin_token token s.admin_token
      then (found (get id s.world.manager), s)
      else (unauthorized, s)

  -- The session of the instance, if there was one.
  abbrev pub unregistered : Option InstanceInfo → FrameHub → FrameHub
  unregistered none hub = hub
  unregistered (some info) hub = unregister_instance info.principal_session_id hub

  abbrev pub destroyed :
      Text
      → Option InstanceInfo
      → AdminState B floats.F
      → Result InstanceError (Unit {0}) × World B
      → AdminResponse floats.F × AdminState B floats.F
  destroyed id info s (ok done, w) = (
    ok_done,
    record s {
      world = w;
      frame_ingest_tasks = remove id s.frame_ingest_tasks;
      frame_hub = unregistered info s.frame_hub;
    },
  )
  destroyed id info s (err not_found, w) = (missing (codes "not found"), record s { world = w })
  destroyed id info s (err max_instances_reached, w) =
      (internal_error (error_text max_instances_reached), record s { world = w })
  destroyed id info s (err unsafe_capture_path, w) =
      (internal_error (error_text unsafe_capture_path), record s { world = w })
  destroyed id info s (err (backend e), w) =
      (internal_error (error_text (backend e)), record s { world = w })
  destroyed id info s (err (process e), w) =
      (internal_error (error_text (process e)), record s { world = w })

  unfoldable pub destroy_instance :
      Text → Option Text → AdminState B floats.F → AdminResponse floats.F × AdminState B floats.F
  unfolding check_admin_token
  destroy_instance id token s =
      if check_admin_token token s.admin_token
      then destroyed id (get id s.world.manager) s (destroy instance_backend id s.world)
      else (unauthorized, s)

  unfoldable pub stream_metrics :
      Option Text → AdminState B floats.F → AdminResponse floats.F × AdminState B floats.F
  unfolding check_admin_token
  stream_metrics token s =
      if check_admin_token token s.admin_token
      then (ok_metrics (snapshot floats s.stream_metrics), s)
      else (unauthorized, s)

  -- `admin_routes`
  unfoldable pub admin_routes :
      AdminRequest
      → Option Text
      → AdminState B floats.F
      → AdminResponse floats.F × AdminState B floats.F
  admin_routes (post_instances fresh) token s = create_instance fresh token s
  admin_routes get_instances token s = list_instances token s
  admin_routes (get_instance_by id) token s = get_instance id token s
  admin_routes (delete_instance id) token s = destroy_instance id token s
  admin_routes get_metrics token s = stream_metrics token s

-- The two pixel formats that the packets have.
unfoldable pub frame_from_packet : RawFramePacket → Option RawFrame
frame_from_packet packet = elim (pixel_format_of packet.pixel_format) [
  | none ↦ none
  | some format ↦ some (record {
    width = packet.width;
    height = packet.height;
    pitch = packet.pitch;
    pixel_format = format;
    bytes = packet.bytes;
    sequence = 0;
    timestamp_ms = 0;
  })
]
  where
    pixel_format_of : ℕ → Option PixelFormat
    pixel_format_of zero = some xrgb8888
    pixel_format_of (suc zero) = some rgb565
    pixel_format_of (suc (suc n)) = none
