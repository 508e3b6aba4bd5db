-- ===== src/Instances/Process.antt =====
-- crates/instances/src/lib.rs: `ProcessBackend`, which starts and stops the workers as processes. The
-- operating system is a parameter: directories, processes, signals and files, and the wait of ten
-- seconds for a worker's socket.
pub mod Matched
mod Runs
use mgba_server.Common.{
  ℕ, Bool, true, false, List, [], ◌∷◌, Option, none, some, if◌then◌else◌, ltb, Result, ok, err,
}
use mgba_server.Common.Maybe.{unwrap_or}
use mgba_server.Common.Text.{Text, codes, text_eq}
use mgba_server.Common.Dict.{Dict, lookup, insert, remove}
use mgba_server.Instances.{
  CreateInstanceOptions, WorkerInfo, ManagedInstanceInfo, InstanceError, InstanceBackend, process,
}
use mgba_server.Worker.Args.{worker_args}

-- `S` is the state of the system. `id` is none once a child has been waited for.
pub record Os (S : Type 0) : Type 1 where
  pub Child : Type 0
  pub create_dir_all : Text → S → Result Text (Unit {0}) × S
  pub spawn : (program : Text) → (args : List Text) → S → Result Text Child × S
  pub id : Child → S → Option ℕ
  pub socket_appears : Text → S → Bool × S
  pub terminate : (pid : ℕ) → S → S
  pub waits_within : (ms : ℕ) → Child → S → Bool × S
  pub kill : (pid : ℕ) → S → S
  pub wait : Child → S → S
  pub remove_file : Text → S → S
  pub pid_is_running : ℕ → S → Bool

module _ {S : Type 0} (os : Os S) where
  pub record ManagedChild : Type 0 where
    pub child : os.Child
    pub socket_path : Text
    pub frame_socket_path : Text

  pub record ProcessBackend : Type 0 where
    pub worker_binary_path : Text
    pub worker_socket_dir : Text
    pub shutdown_timeout_ms : ℕ
    pub children : Dict Text ManagedChild
    pub system : S

  -- A worker whose socket does not appear is not tracked.
  abbrev pub connected :
      CreateInstanceOptions
      → os.Child
      → ProcessBackend
      → Bool × S
      → Result InstanceError WorkerInfo × ProcessBackend
  connected opts child b (false, system) = (
    err (process (codes "worker socket did not appear within 10s")),
    record b { system = system },
  )
  connected opts child b (true, system) =
      let managed : ManagedChild = record {
        child = child;
        socket_path = opts.socket_path;
        frame_socket_path = opts.frame_socket_path;
      } in
      (
        ok (record {
          pid = unwrap_or (os.id child b.system) 0;
          socket_path = opts.socket_path;
          frame_socket_path = opts.frame_socket_path;
        }),
        record b { children = insert opts.instance_id managed b.children; system = system },
      )

  abbrev pub spawned :
      CreateInstanceOptions
      → ProcessBackend
      → Result Text os.Child × S
      → Result InstanceError WorkerInfo × ProcessBackend
  spawned opts b (err e, system) = (err (process e), record b { system = system })
  spawned opts b (ok child, system) =
      connected opts child (record b { system = system })
        (os.socket_appears opts.socket_path system)

  abbrev pub with_directory :
      CreateInstanceOptions
      → ProcessBackend
      → Result Text (Unit {0}) × S
      → Result InstanceError WorkerInfo × ProcessBackend
  with_directory opts b (err e, system) = (err (process e), record b { system = system })
  with_directory opts b (ok done, system) =
      spawned opts b (os.spawn b.worker_binary_path (worker_args opts) system)

  unfoldable pub start_worker :
      CreateInstanceOptions → ProcessBackend → Result InstanceError WorkerInfo × ProcessBackend
  start_worker opts b = with_directory opts b (os.create_dir_all b.worker_socket_dir b.system)

  abbrev pub signalled : (ℕ → S → S) → ℕ → S → S
  signalled signal pid system = if ltb 0 pid then signal pid system else system

  -- After the wait of `shutdown_timeout_ms`.
  abbrev pub waited : os.Child → ℕ → Bool × S → S
  waited child pid (true, system) = system
  waited child pid (false, system) = os.wait child (signalled os.kill pid system)

  abbrev pub stopped : Option ManagedChild → ℕ → S → S
  stopped none timeout system = system
  stopped (some m) timeout system =
      let pid = unwrap_or (os.id m.child system) 0 in
      let after =
        waited m.child pid (os.waits_within timeout m.child (signalled os.terminate pid system)) in
      os.remove_file m.frame_socket_path (os.remove_file m.socket_path after)

  unfoldable pub stop_worker :
      Text → ProcessBackend → Result InstanceError (Unit {0}) × ProcessBackend
  stop_worker instance_id b = (
    ok tt,
    record b {
      children = remove instance_id b.children;
      system = stopped (lookup instance_id b.children) b.shutdown_timeout_ms b.system;
    },
  )

  unfoldable pub managed_infos : S → Dict Text ManagedChild → List ManagedInstanceInfo
  managed_infos system [] = []
  managed_infos system ((id, m) ∷ children) =
      record {
        instance_id = id;
        pid = unwrap_or (os.id m.child system) 0;
        socket_path = m.socket_path;
      }
      ∷ managed_infos system children

  abbrev pub pid_runs : S → Option ℕ → Bool
  pid_runs system none = false
  pid_runs system (some pid) = os.pid_is_running pid system

  abbrev pub child_runs : S → Option ManagedChild → Bool
  child_runs system none = false
  child_runs system (some m) = pid_runs system (os.id m.child system)

  unfoldable pub inspect_worker : Text → ProcessBackend → Result InstanceError Bool
  inspect_worker instance_id b = ok (child_runs b.system (lookup instance_id b.children))

  -- `impl InstanceBackend for ProcessBackend`
  abbrev pub process_backend : InstanceBackend ProcessBackend
  process_backend = record {
    create_instance = start_worker;
    stop_instance = stop_worker;
    list_managed_instances = λ b. ok (managed_infos b.system b.children);
    inspect_running = inspect_worker;
  }
