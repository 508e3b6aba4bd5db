-- ===== src/Config.antt =====
-- crates/config/src/lib.rs: the configuration that is read from the environment. `env::var(name)`
-- is the parameter `env`; `none` is a variable that is not set or not Unicode.
pub mod Loaded
mod Runs
use mgba_server.Common.{
  ℕ, ◌+◌, ◌-◌, ◌*◌, ◌%◌, List, [], ◌∷◌, ◌++◌, Option, none, some, leb, ltb, ◌==◌, if◌then◌else◌,
  Bool, true, false, ◌&&◌, ◌||◌, Result, ok, err, ◌>>=◌,
}
use mgba_server.Common.Text.{Text, codes, text_beq, is_empty, to_digit, parse_uint}
use mgba_server.Common.Bytes.{u16_mod, u32_mod, u64_mod}

pub record GatewayConfig : Type 0 where
  pub bind_host : Text
  pub port : ℕ
  pub admin_token : Text
  pub max_instances : ℕ
  pub emulator_image : Text
  pub emulator_port : ℕ
  pub emulator_memory_bytes : ℕ
  pub capture_interval_ms : ℕ
  pub source_capture_interval_ms : ℕ
  pub capture_root : Text
  pub worker_binary_path : Text
  pub libretro_core_path : Text
  pub worker_socket_dir : Text
  pub worker_shutdown_timeout_ms : ℕ
  pub h264_enabled : Bool
  pub stream_keyframe_interval : ℕ
  pub stream_tile_size : ℕ
  pub ws_backpressure_limit : ℕ
  pub network_name : Text
  pub rom_path : Option Text

abbrev pub defaults : GatewayConfig
defaults = record {
  bind_host = codes "127.0.0.1";
  port = 8787;
  admin_token = codes "dev-admin-token";
  max_instances = 20;
  emulator_image = codes "grokemon-emulator";
  emulator_port = 8888;
  emulator_memory_bytes = 768 * 1024 * 1024;
  capture_interval_ms = 8;
  source_capture_interval_ms = 60000;
  capture_root = codes "/tmp/grokemon-captures";
  worker_binary_path = codes "./target/debug/worker";
  libretro_core_path = [];
  worker_socket_dir = codes "/tmp/mgba-workers";
  worker_shutdown_timeout_ms = 2000;
  h264_enabled = false;
  stream_keyframe_interval = 60;
  stream_tile_size = 16;
  ws_backpressure_limit = 262144;
  network_name = codes "grokemon-net";
  rom_path = none;
}

pub data ConfigError : Type 0 where
  empty : (name : Text) → ConfigError
  parse_int : (name detail : Text) → ConfigError
  range_error : (name : Text) (low high value : ℕ) → ConfigError

-- The text of a `ParseIntError`: the first character that fails decides.
unfoldable pub digits_error : ℕ → Text → Text
digits_error acc [] = codes "number too large to fit in target type"
digits_error acc (c ∷ s) = elim (to_digit 10 c) [
  | none ↦ codes "invalid digit found in string"
  | some d ↦
      let rest = digits_error (acc * 10 + d) s in
      if ltb (acc * 10 + d) u64_mod then rest else codes "number too large to fit in target type"
]

abbrev pub parse_int_error : Text → Text
parse_int_error [] = codes "cannot parse integer from empty string"
parse_int_error (c ∷ s) =
    if c == b'+' && is_empty s
    then codes "invalid digit found in string"
    else if c == b'+'
    then digits_error 0 s
    else digits_error 0 (c ∷ s)

unfoldable pub parse_u64 : Text → Text → Result ConfigError ℕ
parse_u64 name value = elim (parse_uint 10 u64_mod value) [
  | none ↦ err (parse_int name (parse_int_error value))
  | some n ↦ ok n
]

unfoldable pub range : Text → ℕ → ℕ → ℕ → Result ConfigError ℕ
range name value low high =
    if leb low value && leb value high then ok value else err (range_error name low high value)

module _ (env : Text → Option Text) where
  unfoldable pub read_string : Text → Text → Result ConfigError Text
  read_string name default = elim (env name) [
    | none ↦ ok default
    | some value ↦ if is_empty value then err (empty name) else ok value
  ]

  unfoldable pub read_string_allow_empty : Text → Text → Result ConfigError Text
  read_string_allow_empty name default = elim (env name) [
    | none ↦ ok default
    | some value ↦ ok value
  ]

  unfoldable pub read_bool : Text → Bool → Result ConfigError Bool
  read_bool name default = elim (env name) [
    | none ↦ ok default
    | some value ↦
        if text_beq value (codes "true") || text_beq value (codes "1")
        then ok true
        else if text_beq value (codes "false") || text_beq value (codes "0")
        then ok false
        else err (parse_int name (codes "invalid boolean value: " ++ value))
  ]

  unfoldable pub read_u64 : Text → ℕ → ℕ → ℕ → Result ConfigError ℕ
  unfolding parse_u64 range
  read_u64 name default low high = elim (env name) [
    | none ↦ ok default
    | some value ↦ (do n ← parse_u64 name value; range name n low high)
  ]

  -- The casts of the result.
  unfoldable pub read_u32 : Text → ℕ → ℕ → ℕ → Result ConfigError ℕ
  unfolding read_u64
  read_u32 name default low high = do n ← read_u64 name default low high; ok (n % u32_mod)

  unfoldable pub read_u16 : Text → ℕ → ℕ → ℕ → Result ConfigError ℕ
  unfolding read_u64
  read_u16 name default low high = do n ← read_u64 name default low high; ok (n % u16_mod)

  unfoldable pub read_usize : Text → ℕ → ℕ → ℕ → Result ConfigError ℕ
  unfolding read_u64
  read_usize name default low high = do n ← read_u64 name default low high; ok (n % u64_mod)

  abbrev non_empty : Option Text → Option Text
  non_empty none = none
  non_empty (some value) = if is_empty value then none else some value

  unfoldable pub load_from_env : Result ConfigError GatewayConfig
  load_from_env = do
    bind_host ← read_string (codes "BIND_HOST") defaults.bind_host
    port ← read_u16 (codes "PORT") defaults.port 1 65535
    admin_token ← read_string (codes "ADMIN_TOKEN") defaults.admin_token
    max_instances ← read_u16 (codes "MAX_INSTANCES") defaults.max_instances 1 20
    emulator_image ← read_string (codes "EMULATOR_IMAGE") defaults.emulator_image
    emulator_port ← read_u16 (codes "EMULATOR_PORT") defaults.emulator_port 1 65535
    emulator_memory_bytes ←
        read_u64 (codes "EMULATOR_MEMORY_BYTES") defaults.emulator_memory_bytes 1 (u64_mod - 1)
    capture_interval_ms ←
        read_u64 (codes "CAPTURE_INTERVAL_MS") defaults.capture_interval_ms 1 10000
    source_capture_interval_ms ←
        read_u64 (codes "SOURCE_CAPTURE_INTERVAL_MS") defaults.source_capture_interval_ms 1
          (u64_mod - 1)
    capture_root ← read_string (codes "CAPTURE_ROOT") defaults.capture_root
    worker_binary_path ← read_string (codes "WORKER_BINARY_PATH") defaults.worker_binary_path
    libretro_core_path ←
        read_string_allow_empty (codes "LIBRETRO_CORE_PATH") defaults.libretro_core_path
    worker_socket_dir ← read_string (codes "WORKER_SOCKET_DIR") defaults.worker_socket_dir
    worker_shutdown_timeout_ms ←
        read_u64 (codes "WORKER_SHUTDOWN_TIMEOUT_MS") defaults.worker_shutdown_timeout_ms 100 30000
    h264_enabled ← read_bool (codes "H264_ENABLED") defaults.h264_enabled
    stream_keyframe_interval ←
        read_u32 (codes "STREAM_KEYFRAME_INTERVAL") defaults.stream_keyframe_interval 1
          (u32_mod - 1)
    stream_tile_size ← read_u16 (codes "STREAM_TILE_SIZE") defaults.stream_tile_size 4 128
    ws_backpressure_limit ←
        read_usize (codes "WS_BACKPRESSURE_LIMIT") defaults.ws_backpressure_limit 1024 10485760
    network_name ← read_string (codes "NETWORK_NAME") defaults.network_name
    ok (record {
      bind_host = bind_host;
      port = port;
      admin_token = admin_token;
      max_instances = max_instances;
      emulator_image = emulator_image;
      emulator_port = emulator_port;
      emulator_memory_bytes = emulator_memory_bytes;
      capture_interval_ms = capture_interval_ms;
      source_capture_interval_ms = source_capture_interval_ms;
      capture_root = capture_root;
      worker_binary_path = worker_binary_path;
      libretro_core_path = libretro_core_path;
      worker_socket_dir = worker_socket_dir;
      worker_shutdown_timeout_ms = worker_shutdown_timeout_ms;
      h264_enabled = h264_enabled;
      stream_keyframe_interval = stream_keyframe_interval;
      stream_tile_size = stream_tile_size;
      ws_backpressure_limit = ws_backpressure_limit;
      network_name = network_name;
      rom_path = non_empty (env (codes "ROM_PATH"));
    })
