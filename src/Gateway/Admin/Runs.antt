-- ===== src/Gateway/Admin/Runs.antt =====
-- Runs of the administrator's routes, and their theorems at concrete requests.
use mgba_server.Common.{ℕ, ◌+◌, ◌≡◌, refl, [], ◌∷◌, none, some, true, ok}
use mgba_server.Common.Text.{Text, codes, text_eq}
use mgba_server.Auth.{new}
use mgba_server.Instances.{InstanceBackend, ManagerConfig}
use mgba_server.Instances
use mgba_server.Streaming.FrameHub
use mgba_server.Streaming.Metrics.{Floats}
use mgba_server.Gateway.Admin.{
  AdminState, Fresh, unauthorized, admin_routes, create_instance, delete_instance,
}
use mgba_server.Gateway.Admin.Guard.{Grants, admin_routes-unauthorized, create_instance-Grants}

abbrev counting : InstanceBackend ℕ
counting = record {
  create_instance = λ opts b. (
    ok (record {
      pid = 42;
      socket_path = opts.socket_path;
      frame_socket_path = opts.frame_socket_path;
    }),
    b + 1,
  );
  stop_instance = λ id b. (ok tt, b + 1);
  list_managed_instances = λ b. ok [];
  inspect_running = λ id b. ok true;
}

abbrev manager_config : ManagerConfig
manager_config = record {
  max_instances = 2;
  worker_socket_dir = codes "/run";
  libretro_core_path = codes "core.so";
  rom_path = none;
}

abbrev floats : Floats
floats = record { F = ℕ; zero_float = 0; quotient = λ a b. a }

abbrev marked : Text → Text
marked token = b'#' ∷ token

abbrev idle : AdminState ℕ ℕ
idle = record {
  admin_token = codes "secret";
  world = record { manager = Instances.new manager_config; backend = 0 };
  stream_metrics = [];
  acl = new;
  frame_hub = FrameHub.new;
  frame_ingest_tasks = [];
}

abbrev drawn_ids : Fresh
drawn_ids = record {
  session_id = codes "s1";
  drawn = record { instance_id = codes "i1"; principal_token = codes "p1"; now = 7 };
  grant_id = codes "g1";
}

admin_routes-unauthorized_example :
    admin_routes floats counting marked (delete_instance (codes "i1")) none idle
    ≡ (unauthorized, idle)
admin_routes-unauthorized_example =
    admin_routes-unauthorized floats counting marked (delete_instance (codes "i1")) none idle
      (λ e. absurd (cc e))

create_instance-Grants_example :
    let (response, s') =
      create_instance floats counting marked drawn_ids (some (codes "secret")) idle in
    Grants floats counting marked s'.acl response
create_instance-Grants_example =
    create_instance-Grants floats counting marked drawn_ids (some (codes "secret")) idle refl
