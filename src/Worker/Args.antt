-- ===== src/Worker/Args.antt =====
-- src/bin/worker.rs, `parse_args`, and the command line that the process backend of
-- crates/instances/src/lib.rs starts a worker with.
mod Runs
use mgba_server.Common.{
  Bool, true, false, ◌||◌, List, [], ◌∷◌, ◌++◌, Option, none, some, if◌then◌else◌, ◌≡◌, refl,
}
use mgba_server.Common.Text.{Text, codes, text_beq}
use mgba_server.Common.Maybe.{◌>>=◌}
use mgba_server.Instances.{CreateInstanceOptions}

pub record WorkerArgs : Type 0 where
  pub socket_path : Text
  pub frame_socket_path : Text
  pub core_path : Text
  pub rom_path : Option Text

-- The variables of the loop.
pub record ParsedArgs : Type 0 where
  pub socket_path : Option Text
  pub frame_socket_path : Option Text
  pub core_path : Option Text
  pub rom_path : Option Text

unfoldable pub is_flag : Text → Bool
unfolding text_beq
is_flag arg =
    text_beq arg (codes "--socket")
    || text_beq arg (codes "--frame-socket")
    || text_beq arg (codes "--core")
    || text_beq arg (codes "--rom")

-- A flag takes the argument after it, or nothing where it is the last one.
unfoldable pub assign : Text → Option Text → ParsedArgs → ParsedArgs
unfolding text_beq
assign arg value p =
    if text_beq arg (codes "--socket")
    then record p { socket_path = value }
    else if text_beq arg (codes "--frame-socket")
    then record p { frame_socket_path = value }
    else if text_beq arg (codes "--core")
    then record p { core_path = value }
    else if text_beq arg (codes "--rom")
    then record p { rom_path = value }
    else p

-- The loop over the arguments after the program's name.
unfoldable pub parse_from : List Text → ParsedArgs → ParsedArgs
unfolding is_flag assign
parse_from [] p = p
parse_from (arg ∷ []) p = assign arg none p
parse_from (arg ∷ value ∷ rest) p =
    let after_value = parse_from rest (assign arg (some value) p) in
    let after_arg = parse_from (value ∷ rest) p in if is_flag arg then after_value else after_arg

-- A missing path is a panic.
unfoldable pub parse_args : List Text → Option WorkerArgs
unfolding parse_from
parse_args [] = none
parse_args (program ∷ args) = do
  let p =
      parse_from args
        (record { socket_path = none; frame_socket_path = none; core_path = none; rom_path = none })
  socket ← p.socket_path
  frame_socket ← p.frame_socket_path
  core ← p.core_path
  some (record {
    socket_path = socket;
    frame_socket_path = frame_socket;
    core_path = core;
    rom_path = p.rom_path;
  })

abbrev pub rom_args : Option Text → List Text
rom_args none = []
rom_args (some rom) = codes "--rom" ∷ rom ∷ []

-- The arguments of `ProcessBackend::create_instance`.
unfoldable pub worker_args : CreateInstanceOptions → List Text
worker_args opts =
    codes "--socket"
    ∷ opts.socket_path
    ∷ codes "--frame-socket"
    ∷ opts.frame_socket_path
    ∷ codes "--core"
    ∷ opts.core_path
    ∷ rom_args opts.rom_path

-- Whatever the paths are, also where one looks like a flag, a worker reads from the command line that
-- the process backend starts it with the paths that the backend was asked for.
pub parse_args-worker_args :
    (program : Text) (opts : CreateInstanceOptions)
    → parse_args (program ∷ worker_args opts)
      ≡ some (record {
        socket_path = opts.socket_path;
        frame_socket_path = opts.frame_socket_path;
        core_path = opts.core_path;
        rom_path = opts.rom_path;
      })
unfolding parse_args worker_args
parse_args-worker_args program opts = with_rom program opts opts.rom_path
  where
    with_rom :
        (program : Text) (opts : CreateInstanceOptions) (rom : Option Text)
        → parse_args (program ∷ worker_args (record opts { rom_path = rom }))
          ≡ some (record {
            socket_path = opts.socket_path;
            frame_socket_path = opts.frame_socket_path;
            core_path = opts.core_path;
            rom_path = rom;
          })
    with_rom program opts none = refl
    with_rom program opts (some rom) = refl
