-- ===== src/Worker/Args/Runs.antt =====
-- Runs of the command line, and its theorem at concrete options.
use mgba_server.Common.{◌≡◌, refl, [], ◌∷◌, none, some}
use mgba_server.Common.Text.{codes, text_beq}
use mgba_server.Instances.{CreateInstanceOptions}
use mgba_server.Worker.Args.{
  parse_args, parse_from, is_flag, assign, worker_args, parse_args-worker_args,
}

-- A core whose path is a flag's name.
abbrev options : CreateInstanceOptions
options = record {
  instance_id = codes "i";
  socket_path = codes "a.sock";
  frame_socket_path = codes "f.sock";
  core_path = codes "--rom";
  rom_path = none;
}

parse_args-worker_args_example :
    parse_args (codes "worker" ∷ worker_args options)
    ≡ some (record {
      socket_path = codes "a.sock";
      frame_socket_path = codes "f.sock";
      core_path = codes "--rom";
      rom_path = none;
    })
parse_args-worker_args_example = parse_args-worker_args (codes "worker") options

no_core : parse_args (codes "worker" ∷ codes "--socket" ∷ codes "a" ∷ codes "--core" ∷ []) ≡ none
unfolding parse_args parse_from is_flag assign text_beq
no_core = refl
