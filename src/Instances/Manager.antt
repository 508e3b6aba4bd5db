-- ===== src/Instances/Manager.antt =====
-- crates/instances/src/lib.rs: the manager's operations. `create` is also given as its atomic parts,
-- between which other calls may run.
use mgba_server.Common.{
  ℕ, ◌+◌, ◌-◌, List, [], ◌∷◌, ◌++◌, Option, none, some, length, leb, ◌==◌, if◌then◌else◌, Bool,
  true, false, not, ◌&&◌, ◌||◌, Result, ok, err,
}
use mgba_server.Common.Text.{Text, codes, text_eq}
use mgba_server.Common.Dict.{Dict, keys, values, lookup, insert, remove, modify}
use mgba_server.Ipc.{WorkerResponse, WorkerResponseV1}
use mgba_server.Instances.{
  InstanceStatus, InstanceInfo, CreateInstanceOptions, WorkerInfo, ManagedInstanceInfo,
  InstanceError, InstanceBackend, InstanceManager, ManagerConfig, max_instances_reached, not_found,
}

-- `Path::join` with a file name.
unfoldable pub join : Text → Text → Text
join [] file = file
join (c ∷ []) file = if c == b'/' then c ∷ file else c ∷ b'/' ∷ file
join (c ∷ d ∷ dir) file = c ∷ join (d ∷ dir) file

abbrev pub socket_path_of : ManagerConfig → Text → Text → Text
socket_path_of config instance_id suffix =
    join config.worker_socket_dir (codes "mgba-" ++ (instance_id ++ suffix))

abbrev pub create_options : ManagerConfig → Text → CreateInstanceOptions
create_options config instance_id = record {
  instance_id = instance_id;
  socket_path = socket_path_of config instance_id (codes ".cmd.sock");
  frame_socket_path = socket_path_of config instance_id (codes ".frames.sock");
  core_path = config.libretro_core_path;
  rom_path = config.rom_path;
}

-- The block of `create` under the lock of `pending_creates`.
unfoldable pub reserve : InstanceManager → Result InstanceError InstanceManager
reserve m =
    if leb m.config.max_instances (length m.instances + m.pending_creates)
    then err max_instances_reached
    else ok (record m { pending_creates = m.pending_creates + 1 })

-- What `create` draws: the two UUIDs and the time.
pub record Drawn : Type 0 where
  pub instance_id : Text
  pub principal_token : Text
  pub now : ℕ

abbrev pub new_info : Text → Drawn → WorkerInfo → InstanceInfo
new_info session_id drawn worker = record {
  id = drawn.instance_id;
  principal_session_id = session_id;
  pid = worker.pid;
  socket_path = worker.socket_path;
  frame_socket_path = worker.frame_socket_path;
  principal_token = drawn.principal_token;
  created_at = drawn.now;
  status = InstanceStatus.running;
}

unfoldable pub track : InstanceInfo → InstanceManager → InstanceManager
track info m = record m { instances = insert info.id info m.instances }

-- `*self.pending_creates.lock().await -= 1`
unfoldable pub release : InstanceManager → InstanceManager
release m = record m { pending_creates = m.pending_creates - 1 }

unfoldable pub get : Text → InstanceManager → Option InstanceInfo
get instance_id m = lookup instance_id m.instances

unfoldable pub list : InstanceManager → List InstanceInfo
list m = values m.instances

abbrev pub as_error : InstanceInfo → InstanceInfo
as_error info = record info { status = InstanceStatus.error }

unfoldable pub mark_error : Text → InstanceManager → InstanceManager
mark_error instance_id m = record m { instances = modify instance_id as_error m.instances }

-- The manager with the state of its backend.
pub record World (B : Type 0) : Type 0 where
  pub manager : InstanceManager
  pub backend : B

module _ {B : Type 0} (backend : InstanceBackend B) where
  abbrev pub created :
      Text
      → Drawn
      → InstanceManager
      → Result InstanceError WorkerInfo × B
      → Result InstanceError InstanceInfo × World B
  created session_id drawn m (err error, b) =
      (err error, record { manager = release m; backend = b })
  created session_id drawn m (ok worker, b) =
      let info = new_info session_id drawn worker in
      (ok info, record { manager = release (track info m); backend = b })

  abbrev pub create_reserved :
      Text
      → Drawn
      → World B
      → Result InstanceError InstanceManager
      → Result InstanceError InstanceInfo × World B
  create_reserved session_id drawn w (err error) = (err error, w)
  create_reserved session_id drawn w (ok m) =
      created session_id drawn m
        (backend.create_instance (create_options m.config drawn.instance_id) w.backend)

  -- `create` with no other call in between.
  unfoldable pub create : Text → Drawn → World B → Result InstanceError InstanceInfo × World B
  create session_id drawn w = create_reserved session_id drawn w (reserve w.manager)

  abbrev pub stopped_as :
      Text
      → InstanceManager
      → Result InstanceError (Unit {0}) × B
      → Result InstanceError (Unit {0}) × World B
  stopped_as instance_id m (err error, b) = (err error, record { manager = m; backend = b })
  stopped_as instance_id m (ok done, b) = (
    ok tt,
    record { manager = record m { instances = remove instance_id m.instances }; backend = b },
  )

  abbrev pub destroy_found :
      Text → World B → Option InstanceInfo → Result InstanceError (Unit {0}) × World B
  destroy_found instance_id w none = (err not_found, w)
  destroy_found instance_id w (some info) =
      stopped_as instance_id w.manager (backend.stop_instance info.id w.backend)

  unfoldable pub destroy : Text → World B → Result InstanceError (Unit {0}) × World B
  destroy instance_id w = destroy_found instance_id w (get instance_id w.manager)

  abbrev pub first_error :
      Option InstanceError → Result InstanceError (Unit {0}) → Option InstanceError
  first_error (some e) result = some e
  first_error none (err e) = some e
  first_error none (ok done) = none

  -- The loop of `destroy_all` with the first error so far.
  unfoldable pub destroy_each :
      List Text → Option InstanceError → World B → Option InstanceError × World B
  unfolding destroy
  destroy_each [] e w = (e, w)
  destroy_each (id ∷ ids) e w =
      let (result, w') = destroy id w in destroy_each ids (first_error e result) w'

  abbrev pub as_result : Option InstanceError → Result InstanceError (Unit {0})
  as_result none = ok tt
  as_result (some e) = err e

  unfoldable pub destroy_all : World B → Result InstanceError (Unit {0}) × World B
  destroy_all w = let (e, w') = destroy_each (keys w.manager.instances) none w in (as_result e, w')

  -- The loop of `reconstruct`, which ends at the first error.
  unfoldable pub stop_each :
      List ManagedInstanceInfo → World B → Result InstanceError (Unit {0}) × World B
  stop_each [] w = (ok tt, record w { manager = record w.manager { instances = [] } })
  stop_each (worker ∷ managed) w =
      let (result, b) = backend.stop_instance worker.instance_id w.backend in
      let w' = record w { backend = b } in
      elim result [ err e ↦ (err e, w') | ok done ↦ stop_each managed w' ]

  unfoldable pub reconstruct : World B → Result InstanceError (Unit {0}) × World B
  unfolding stop_each
  reconstruct w = elim (backend.list_managed_instances w.backend) [
    | err e ↦ (err e, w)
    | ok managed ↦ stop_each managed w
  ]

-- What `check_worker_alive` meets: no connection, no answer in two seconds or an error of the call,
-- or the worker's response.
pub data Probe : Type 0 where
  no_connection timeout call_failed : Probe
  answered : WorkerResponse → Probe

unfoldable pub check_worker_alive : Probe → Bool
check_worker_alive (answered (WorkerResponse.v1 WorkerResponseV1.pong)) = true
check_worker_alive probe = false

abbrev pub is_running : InstanceStatus → Bool
is_running InstanceStatus.running = true
is_running status = false

abbrev pub running_ids : Dict Text InstanceInfo → List (Text × Text)
running_ids [] = []
running_ids ((k, info) ∷ m) =
    if is_running info.status then (info.id, info.socket_path) ∷ running_ids m else running_ids m

module _ {B : Type 0} (backend : InstanceBackend B) (probe : Text → Probe) where
  -- The loop of `refresh_health_once`; an error of the backend ends it.
  unfoldable pub refresh_each :
      List (Text × Text) → World B → Result InstanceError (Unit {0}) × World B
  refresh_each [] w = (ok tt, w)
  refresh_each ((id, socket_path) ∷ rest) w = elim (backend.inspect_running id w.backend) [
    | err e ↦ (err e, w)
    | ok process_alive ↦
        let socket_alive = process_alive && check_worker_alive (probe socket_path) in
        if not process_alive || not socket_alive
        then refresh_each rest (record w { manager = mark_error id w.manager })
        else refresh_each rest w
  ]

  unfoldable pub refresh_health_once : World B → Result InstanceError (Unit {0}) × World B
  unfolding refresh_each
  refresh_health_once w = refresh_each (running_ids w.manager.instances) w
