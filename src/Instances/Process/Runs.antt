-- ===== src/Instances/Process/Runs.antt =====
-- Runs of the process backend, and its theorem on a system that counts its processes.
use mgba_server.Common.{ℕ, ◌+◌, refl, [], none, some, true, false, ok}
use mgba_server.Common.Text.{codes, text_eq}
use mgba_server.Common.Dict.{lookup}
use mgba_server.Instances.{ManagerConfig, new}
use mgba_server.Instances.Manager.{World, Drawn, create, destroy}
use mgba_server.Instances.Process.{Os, ProcessBackend, process_backend}
use mgba_server.Instances.Process.Matched.{IsMatched, create-destroy-IsMatched}

abbrev counting : Os ℕ
counting = record {
  Child = ℕ;
  create_dir_all = λ path s. (ok tt, s);
  spawn = λ program args s. (ok (s + 1), s + 1);
  id = λ child s. some child;
  socket_appears = λ path s. (true, s);
  terminate = λ pid s. s;
  waits_within = λ ms child s. (false, s);
  kill = λ pid s. s;
  wait = λ child s. s;
  remove_file = λ path s. s;
  pid_is_running = λ pid s. true;
}

abbrev config : ManagerConfig
config = record {
  max_instances = 1;
  worker_socket_dir = codes "/run";
  libretro_core_path = codes "core.so";
  rom_path = none;
}

abbrev empty : World (ProcessBackend counting)
empty = record {
  manager = new config;
  backend = record {
    worker_binary_path = codes "worker";
    worker_socket_dir = codes "/run";
    shutdown_timeout_ms = 1000;
    children = [];
    system = 0;
  };
}

abbrev drawn : Drawn
drawn = record { instance_id = codes "u1"; principal_token = codes "t1"; now = 7 }

empty-IsMatched : IsMatched counting empty
unfolding lookup
empty-IsMatched = record { same = λ id. refl; own = λ id info h. absurd (cc h) }

create-destroy-IsMatched_example :
    IsMatched counting (create (process_backend counting) (codes "s") drawn empty).1
    × IsMatched counting (destroy (process_backend counting) (codes "u1") empty).1
create-destroy-IsMatched_example =
    create-destroy-IsMatched counting (codes "s") drawn (codes "u1") empty empty-IsMatched
