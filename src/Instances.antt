-- ===== src/Instances.antt =====
-- crates/instances/src/lib.rs: the manager of the emulator instances. The backend that starts and
-- stops worker processes is the interface `InstanceBackend`; its state is threaded through the calls.
pub mod Manager
pub mod Capacity
pub mod Removal
pub mod Health
pub mod Process
mod Runs
use mgba_server.Common.{ℕ, List, [], ◌∷◌, ◌++◌, Option, none, some, Bool, Result}
use mgba_server.Common.Text.{Text, codes}
use mgba_server.Common.Dict.{Dict}

pub data InstanceStatus : Type 0 where
  starting running error stopped : InstanceStatus

pub record InstanceInfo : Type 0 where
  pub id : Text
  pub principal_session_id : Text
  pub pid : ℕ
  pub socket_path : Text
  pub frame_socket_path : Text
  pub principal_token : Text
  pub created_at : ℕ
  pub status : InstanceStatus

pub record CreateInstanceOptions : Type 0 where
  pub instance_id : Text
  pub socket_path : Text
  pub frame_socket_path : Text
  pub core_path : Text
  pub rom_path : Option Text

pub record WorkerInfo : Type 0 where
  pub pid : ℕ
  pub socket_path : Text
  pub frame_socket_path : Text

pub record ManagedInstanceInfo : Type 0 where
  pub instance_id : Text
  pub pid : ℕ
  pub socket_path : Text

pub data InstanceError : Type 0 where
  max_instances_reached unsafe_capture_path not_found : InstanceError
  backend process : Text → InstanceError

-- The trait, over the backend's own state.
pub record InstanceBackend (B : Type 0) : Type 0 where
  pub create_instance : CreateInstanceOptions → B → Result InstanceError WorkerInfo × B
  pub stop_instance : Text → B → Result InstanceError (Unit {0}) × B
  pub list_managed_instances : B → Result InstanceError (List ManagedInstanceInfo)
  pub inspect_running : Text → B → Result InstanceError Bool

-- The fields of the gateway's configuration that the manager reads.
pub record ManagerConfig : Type 0 where
  pub max_instances : ℕ
  pub worker_socket_dir : Text
  pub libretro_core_path : Text
  pub rom_path : Option Text

pub record InstanceManager : Type 0 where
  pub config : ManagerConfig
  pub instances : Dict Text InstanceInfo
  pub pending_creates : ℕ

abbrev pub new : ManagerConfig → InstanceManager
new config = record { config = config; instances = []; pending_creates = 0 }
