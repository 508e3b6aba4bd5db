-- ===== src/Config/Loaded.antt =====
-- crates/config/src/lib.rs: what every loaded configuration satisfies.
use mgba_server.Common.{
  ℕ, ◌-◌, ◌≤◌, ◌<◌, ◌%◌, ◌≡◌, ◌⊎◌, refl, sym, ap, ◌∙◌, Option, none, some, Result, ok, err, ◌>>=◌,
  Option-cases, inl, inr, arith,
}
use mgba_server.Common.Text.{Text, codes, parse_uint}
use mgba_server.Common.Bytes.{u16_mod, u32_mod, u64_mod}
use mgba_server.Config.{
  GatewayConfig, ConfigError, defaults, parse_u64, range, read_string, read_string_allow_empty,
  read_bool, read_u64, read_u32, read_u16, read_usize, load_from_env,
}

-- The first step of a chain that succeeds.
bind_ok :
    {A B : Type 0} (r : Result ConfigError A) (f : A → Result ConfigError B) (b : B)
    → (r >>= f) ≡ ok b
    → (a : A) × ((r ≡ ok a) × (f a ≡ ok b))
bind_ok (ok a) f b e = (a, (refl, e))
bind_ok (err x) f b e = absurd (cc e)

-- Every result of the computation satisfies `P`.
abbrev Good : {B : Type 0} → (B → Type 0) → B → Result ConfigError B → Type 0
Good P b r = r ≡ ok b → P b

bind_Good :
    {A B : Type 0} (P : B → Type 0) (b : B) (r : Result ConfigError A)
    (f : A → Result ConfigError B)
    → ((a : A) → r ≡ ok a → Good P b (f a))
    → Good P b (r >>= f)
bind_Good P b (ok a) f h = h a refl
bind_Good P b (err x) f h = λ e. absurd (cc e)

ok_Good : {B : Type 0} (P : B → Type 0) (b a : B) → P a → Good P b (ok a)
ok_Good P b a p e = let same : a ≡ b = cc e in rw (← same) p

range_ok :
    (name : Text) (value low high n : ℕ)
    → range name value low high ≡ ok n
    → (value ≡ n) × (low ≤ n) × (n ≤ high)
unfolding range
range_ok name value low high n e = ground arith

module _ (env : Text → Option Text) where
  -- The number that a variable stands for: the default where it is not set, and else the number that
  -- its text is as a `u64`, and it is within the range.
  abbrev pub IsNumberOf : Text → ℕ → ℕ → ℕ → ℕ → Type 0
  IsNumberOf name default low high n =
      (((env name ≡ none) × (n ≡ default))
        ⊎ ((value : Text) × ((env name ≡ some value) × (parse_uint 10 u64_mod value ≡ some n))))
      × (low ≤ n)
      × (n ≤ high)

  parse_u64-parse_uint :
      (name value : Text) (n : ℕ)
      → parse_u64 name value ≡ ok n
      → parse_uint 10 u64_mod value ≡ some n
  unfolding parse_u64
  parse_u64-parse_uint name value n e = elim (Option-cases (parse_uint 10 u64_mod value)) [
    | inl nothing ↦ absurd (cc (rw (nothing, parse_u64) at e))
    | inr (m, got) ↦ got ∙ cc (rw (got, parse_u64) at e)
  ]

  read_u64-range :
      (name : Text) (default low high n : ℕ)
      → low ≤ default
      → default ≤ high
      → read_u64 env name default low high ≡ ok n
      → IsNumberOf name default low high n
  unfolding read_u64
  read_u64-range name default low high n l h e = elim (Option-cases (env name)) [
    | inl unset ↦
        let same : default ≡ n = cc (rw (unset, read_u64) at e) in
        (inl (unset, sym same), omega (arith, l, same), omega (arith, h, same))
    | inr (value, set) ↦
        let (v, (parsed, ranged)) =
          bind_ok (parse_u64 name value) (λ v. range name v low high) n (rw (set, read_u64) at e) in
        let (same, least, most) = range_ok name v low high n ranged in
        let text = parse_u64-parse_uint name value v parsed in
        (inr (value, (set, text ∙ ap some same)), least, most)
  ]

  read_u16-range :
      (name : Text) (default low high n : ℕ)
      → low ≤ default
      → default ≤ high
      → high < u16_mod
      → read_u16 env name default low high ≡ ok n
      → IsNumberOf name default low high n
  unfolding read_u16
  read_u16-range name default low high n l h w e =
      let (v, (got, cast)) =
        bind_ok (read_u64 env name default low high) (λ v. ok (v % u16_mod)) n e in
      let r = read_u64-range name default low high v l h got in
      let same : v ≡ n = ground (arith, cast, r.2, w) in rw (← same) r

  read_u32-range :
      (name : Text) (default low high n : ℕ)
      → low ≤ default
      → default ≤ high
      → high < u32_mod
      → read_u32 env name default low high ≡ ok n
      → IsNumberOf name default low high n
  unfolding read_u32
  read_u32-range name default low high n l h w e =
      let (v, (got, cast)) =
        bind_ok (read_u64 env name default low high) (λ v. ok (v % u32_mod)) n e in
      let r = read_u64-range name default low high v l h got in
      let same : v ≡ n = ground (arith, cast, r.2, w) in rw (← same) r

  read_usize-range :
      (name : Text) (default low high n : ℕ)
      → low ≤ default
      → default ≤ high
      → high < u64_mod
      → read_usize env name default low high ≡ ok n
      → IsNumberOf name default low high n
  unfolding read_usize
  read_usize-range name default low high n l h w e =
      let (v, (got, cast)) =
        bind_ok (read_u64 env name default low high) (λ v. ok (v % u64_mod)) n e in
      let r = read_u64-range name default low high v l h got in
      let same : v ≡ n = ground (arith, cast, r.2, w) in rw (← same) r

  -- Each number is the one of its variable, within the range that the loader names.
  pub record IsInRange (c : GatewayConfig) : Type 0 where
    pub port : IsNumberOf (codes "PORT") 8787 1 65535 c.port
    pub max_instances : IsNumberOf (codes "MAX_INSTANCES") 20 1 20 c.max_instances
    pub emulator_port : IsNumberOf (codes "EMULATOR_PORT") 8888 1 65535 c.emulator_port
    pub emulator_memory_bytes :
        IsNumberOf (codes "EMULATOR_MEMORY_BYTES") 805306368 1 (u64_mod - 1) c.emulator_memory_bytes
    pub capture_interval_ms :
        IsNumberOf (codes "CAPTURE_INTERVAL_MS") 8 1 10000 c.capture_interval_ms
    pub source_capture_interval_ms :
        IsNumberOf
          (codes "SOURCE_CAPTURE_INTERVAL_MS")
          60000
          1
          (u64_mod - 1)
          c.source_capture_interval_ms
    pub worker_shutdown_timeout_ms :
        IsNumberOf (codes "WORKER_SHUTDOWN_TIMEOUT_MS") 2000 100 30000 c.worker_shutdown_timeout_ms
    pub stream_keyframe_interval :
        IsNumberOf (codes "STREAM_KEYFRAME_INTERVAL") 60 1 (u32_mod - 1) c.stream_keyframe_interval
    pub stream_tile_size : IsNumberOf (codes "STREAM_TILE_SIZE") 16 4 128 c.stream_tile_size
    pub ws_backpressure_limit :
        IsNumberOf (codes "WS_BACKPRESSURE_LIMIT") 262144 1024 10485760 c.ws_backpressure_limit

  in_range : (c : GatewayConfig) → Good IsInRange c (load_from_env env)
  unfolding load_from_env
  in_range c =
      bind_Good IsInRange c (read_string env (codes "BIND_HOST") defaults.bind_host) _ (λ x0 g0.
        bind_Good IsInRange c (read_u16 env (codes "PORT") defaults.port 1 65535) _ (λ x1 g1.
          bind_Good IsInRange c (read_string env (codes "ADMIN_TOKEN") defaults.admin_token) _
            (λ x2 g2.
              bind_Good IsInRange c
                (read_u16 env (codes "MAX_INSTANCES") defaults.max_instances 1 20) _
                (λ x3 g3.
                  bind_Good IsInRange c
                    (read_string env (codes "EMULATOR_IMAGE") defaults.emulator_image) _
                    (λ x4 g4.
                      bind_Good IsInRange c
                        (read_u16 env (codes "EMULATOR_PORT") defaults.emulator_port 1 65535) _
                        (λ x5 g5.
                          bind_Good IsInRange c
                            (read_u64 env (codes "EMULATOR_MEMORY_BYTES")
                              defaults.emulator_memory_bytes 1 (u64_mod - 1))
                            _
                            (λ x6 g6.
                              bind_Good IsInRange c
                                (read_u64 env (codes "CAPTURE_INTERVAL_MS")
                                  defaults.capture_interval_ms 1 10000)
                                _
                                (λ x7 g7.
                                  bind_Good IsInRange c
                                    (read_u64 env (codes "SOURCE_CAPTURE_INTERVAL_MS")
                                      defaults.source_capture_interval_ms 1 (u64_mod - 1))
                                    _
                                    (λ x8 g8.
                                      bind_Good IsInRange c
                                        (read_string env (codes "CAPTURE_ROOT")
                                          defaults.capture_root)
                                        _
                                        (λ x9 g9.
                                          bind_Good IsInRange c
                                            (read_string env (codes "WORKER_BINARY_PATH")
                                              defaults.worker_binary_path)
                                            _
                                            (λ x10 g10.
                                              bind_Good IsInRange c
                                                (read_string_allow_empty env
                                                  (codes "LIBRETRO_CORE_PATH")
                                                  defaults.libretro_core_path)
                                                _
                                                (λ x11 g11.
                                                  bind_Good IsInRange c
                                                    (read_string env (codes "WORKER_SOCKET_DIR")
                                                      defaults.worker_socket_dir)
                                                    _
                                                    (λ x12 g12.
                                                      bind_Good IsInRange c
                                                        (read_u64 env
                                                          (codes "WORKER_SHUTDOWN_TIMEOUT_MS")
                                                          defaults.worker_shutdown_timeout_ms 100
                                                          30000)
                                                        _
                                                        (λ x13 g13.
                                                          bind_Good IsInRange c
                                                            (read_bool env (codes "H264_ENABLED")
                                                            defaults.h264_enabled)
                                                            _
                                                            (λ x14 g14.
                                                            bind_Good IsInRange c
                                                            (read_u32 env
                                                            (codes "STREAM_KEYFRAME_INTERVAL")
                                                            defaults.stream_keyframe_interval 1
                                                            (u32_mod - 1))
                                                            _
                                                            (λ x15 g15.
                                                            bind_Good IsInRange c
                                                            (read_u16 env (codes "STREAM_TILE_SIZE")
                                                            defaults.stream_tile_size 4 128)
                                                            _
                                                            (λ x16 g16.
                                                            bind_Good IsInRange c
                                                            (read_usize env
                                                            (codes "WS_BACKPRESSURE_LIMIT")
                                                            defaults.ws_backpressure_limit 1024
                                                            10485760)
                                                            _
                                                            (λ x17 g17.
                                                            bind_Good IsInRange c
                                                            (read_string env (codes "NETWORK_NAME")
                                                            defaults.network_name)
                                                            _
                                                            (λ x18 g18.
                                                            ok_Good IsInRange c _ (record {
                                                            port =
                                                            read_u16-range (codes "PORT")
                                                            defaults.port 1 65535 x1 (omega arith)
                                                            (omega arith) (omega arith) g1;
                                                            max_instances =
                                                            read_u16-range (codes "MAX_INSTANCES")
                                                            defaults.max_instances 1 20 x3
                                                            (omega arith) (omega arith)
                                                            (omega arith) g3;
                                                            emulator_port =
                                                            read_u16-range (codes "EMULATOR_PORT")
                                                            defaults.emulator_port 1 65535 x5
                                                            (omega arith) (omega arith)
                                                            (omega arith) g5;
                                                            emulator_memory_bytes =
                                                            read_u64-range
                                                            (codes "EMULATOR_MEMORY_BYTES")
                                                            defaults.emulator_memory_bytes 1
                                                            (u64_mod - 1) x6 (omega arith)
                                                            (omega arith) g6;
                                                            capture_interval_ms =
                                                            read_u64-range
                                                            (codes "CAPTURE_INTERVAL_MS")
                                                            defaults.capture_interval_ms 1 10000 x7
                                                            (omega arith) (omega arith) g7;
                                                            source_capture_interval_ms =
                                                            read_u64-range
                                                            (codes "SOURCE_CAPTURE_INTERVAL_MS")
                                                            defaults.source_capture_interval_ms 1
                                                            (u64_mod - 1) x8 (omega arith)
                                                            (omega arith) g8;
                                                            worker_shutdown_timeout_ms =
                                                            read_u64-range
                                                            (codes "WORKER_SHUTDOWN_TIMEOUT_MS")
                                                            defaults.worker_shutdown_timeout_ms 100
                                                            30000 x13 (omega arith) (omega arith)
                                                            g13;
                                                            stream_keyframe_interval =
                                                            read_u32-range
                                                            (codes "STREAM_KEYFRAME_INTERVAL")
                                                            defaults.stream_keyframe_interval 1
                                                            (u32_mod - 1) x15 (omega arith)
                                                            (omega arith) (omega arith) g15;
                                                            stream_tile_size =
                                                            read_u16-range
                                                            (codes "STREAM_TILE_SIZE")
                                                            defaults.stream_tile_size 4 128 x16
                                                            (omega arith) (omega arith)
                                                            (omega arith) g16;
                                                            ws_backpressure_limit =
                                                            read_usize-range
                                                            (codes "WS_BACKPRESSURE_LIMIT")
                                                            defaults.ws_backpressure_limit 1024
                                                            10485760 x17 (omega arith) (omega arith)
                                                            (omega arith) g17;
                                                            }))))))))))))))))))))

  -- In every configuration that is loaded each of the ten numbers is the default where its variable
  -- is not set and else exactly the number that the variable's text is, so that no number is wrapped
  -- by its cast, and it is within the range that the loader names: a port is 1 to 65535, and there are
  -- 1 to 20 instances.
  pub load_from_env-IsInRange : (c : GatewayConfig) → load_from_env env ≡ ok c → IsInRange c
  load_from_env-IsInRange c e = in_range c e
