-- ===== src/Instances/Runs.antt =====
-- Runs of the instance manager on a backend that counts its calls, and the theorems at concrete inputs.
use mgba_server.Common.{ℕ, ◌+◌, ◌≡◌, refl, [], ◌∷◌, none, some, true, ok, err}
use mgba_server.Common.Text.{Text, codes, text_beq, text_eq}
use mgba_server.Common.Dict.{lookup, insert}
use mgba_server.Instances.{
  InstanceStatus, InstanceInfo, InstanceBackend, InstanceManager, ManagerConfig, WorkerInfo, new,
  max_instances_reached,
}
use mgba_server.Instances.Manager.{
  Drawn, Probe, World, no_connection, reserve, release, track, create, get, join, new_info,
  refresh_health_once, refresh_each, check_worker_alive,
}
use mgba_server.Instances.Capacity.{Reach, IsWithin, Reach-IsWithin, fresh, reserved, tracked}
use mgba_server.Instances.Health.{refresh_health_once-checked}

abbrev counting : InstanceBackend ℕ
counting = record {
  create_instance = λ opts b. (
    ok (record {
      pid = 42;
      socket_path = opts.socket_path;
      frame_socket_path = opts.frame_socket_path;
    }),
    b + 1,
  );
  stop_instance = λ id b. (ok tt, b + 1);
  list_managed_instances = λ b. ok [];
  inspect_running = λ id b. ok true;
}

abbrev config : ManagerConfig
config = record {
  max_instances = 1;
  worker_socket_dir = codes "/run";
  libretro_core_path = codes "core.so";
  rom_path = none;
}

abbrev drawn : Drawn
drawn = record { instance_id = codes "u1"; principal_token = codes "t1"; now = 7 }

abbrev worker : WorkerInfo
worker = record {
  pid = 42;
  socket_path = codes "/run/mgba-u1.cmd.sock";
  frame_socket_path = codes "/run/mgba-u1.frames.sock";
}

abbrev one : InstanceInfo
one = new_info (codes "s") drawn worker

abbrev holding : InstanceManager
holding = record { config = config; instances = (codes "u1", one) ∷ []; pending_creates = 0 }

abbrev world : World ℕ
world = record { manager = holding; backend = 1 }

created :
    create counting (codes "s") drawn (record { manager = new config; backend = 0 })
    ≡ (ok one, world)
unfolding create reserve release track join insert
created = refl

full : (create counting (codes "s") drawn world).0 ≡ err max_instances_reached
unfolding create reserve
full = refl

abbrev reserving : InstanceManager
reserving = record (new config) { pending_creates = 1 }

in_progress : Reach config 1 0 reserving
unfolding reserve
in_progress = reserved 0 0 (new config) reserving fresh refl

tracking : Reach config 0 1 (track one reserving)
tracking = tracked 0 0 reserving one in_progress

Reach-IsWithin_example : IsWithin config 0 1 (track one reserving)
Reach-IsWithin_example = Reach-IsWithin config 0 1 (track one reserving) tracking

abbrev unreachable : Text → Probe
unreachable path = no_connection

refresh_health_once-checked_example :
    get (codes "u1") (refresh_health_once counting unreachable world).1.manager
    ≡ some (record one { status = InstanceStatus.error })
unfolding get lookup text_beq refresh_health_once refresh_each check_worker_alive
refresh_health_once-checked_example =
    refresh_health_once-checked counting unreachable world (codes "u1") (refl, tt) (refl, tt) refl
