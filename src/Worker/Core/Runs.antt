-- ===== src/Worker/Core/Runs.antt =====
-- Runs of the emulator's commands on a core whose whole state is its RAM, and the theorems at
-- concrete inputs.
use mgba_server.Common.{ℕ, ◌≡◌, refl, List, [], ◌∷◌, some, true, length, arith, inr}
use mgba_server.Common.Text.{codes, print_dec}
use mgba_server.Common.Bytes.{be32}
use mgba_server.Common.Dict.{insert}
use mgba_server.Ipc.{WorkerResponseV1}
use mgba_server.Mgba.Messages.{hex_text}
use mgba_server.Worker.Core.{
  LibretroCore, CoreCommand, Emulator, ram_offset, system_ram_range, read_ram, write_ram, save_slot,
  load_slot, handle_core_command, handle_pending_core_requests, emulator_frame, run_frames,
}
use mgba_server.Worker.Core.Memory.{IsMemory, read_ram-write_ram, read_ram-write_ram_elsewhere}
use mgba_server.Worker.Core.States.{IsRestoring, load_slot-save_slot}

abbrev ram_core : LibretroCore (List ℕ)
ram_core = record {
  system_ram = λ m. some m;
  set_system_ram = λ bytes m. bytes;
  retro_run = λ m. m;
  retro_reset = λ m. [];
  retro_unload_game = λ m. m;
  retro_load_game = λ path m. (true, m);
  retro_serialize_size = λ m. length m;
  retro_serialize = λ size m. some m;
  retro_unserialize = λ bytes m. (true, bytes);
}

ram_core-IsMemory : IsMemory ram_core
ram_core-IsMemory = record { read_back = λ m ram bytes e l. refl }

-- The core runs one game, and its state is its RAM.
abbrev only_game : List ℕ → Unit {0}
only_game m = tt

abbrev whole : List ℕ → List ℕ
whole m = m

ram_core-IsRestoring : IsRestoring ram_core only_game whole
ram_core-IsRestoring = record {
  run_keeps = λ m. refl;
  reset_keeps = λ m. refl;
  write_keeps = λ ram m. refl;
  unserialize_keeps = λ bytes m. refl;
  restores = λ m m' bytes same e. (refl, cc e);
}

abbrev eight : List ℕ
eight = 10 ∷ 11 ∷ 12 ∷ 13 ∷ 14 ∷ 15 ∷ 16 ∷ 17 ∷ []

abbrev after : List ℕ
after = 10 ∷ 11 ∷ 12 ∷ 13 ∷ 1 ∷ 2 ∷ 16 ∷ 17 ∷ []

written : write_ram ram_core eight 33554436 (1 ∷ 2 ∷ []) ≡ (WorkerResponseV1.ok, after)
unfolding write_ram system_ram_range ram_offset
written = refl

refused :
    read_ram ram_core eight 33554444 8
    ≡ WorkerResponseV1.error (codes "memory range 0x0200000c+8 exceeds system RAM size 8")
unfolding read_ram system_ram_range ram_offset hex_text be32 print_dec
refused = refl

written_ok : (write_ram ram_core eight 33554436 (1 ∷ 2 ∷ [])).0 ≡ WorkerResponseV1.ok
written_ok = rw written refl

read_ram-write_ram_example :
    read_ram ram_core (write_ram ram_core eight 33554436 (1 ∷ 2 ∷ [])).1 33554436 2
    ≡ WorkerResponseV1.memory_data (1 ∷ 2 ∷ [])
read_ram-write_ram_example =
    read_ram-write_ram ram_core eight 33554436 (1 ∷ 2 ∷ []) eight ram_core-IsMemory refl
      (omega arith) (omega arith) written_ok

read_ram-write_ram_elsewhere_example :
    read_ram ram_core (write_ram ram_core eight 33554436 (1 ∷ 2 ∷ [])).1 6 2
    ≡ read_ram ram_core eight 6 2
unfolding ram_offset
read_ram-write_ram_elsewhere_example =
    read_ram-write_ram_elsewhere ram_core eight 33554436 6 2 (1 ∷ 2 ∷ []) eight ram_core-IsMemory
      refl (omega arith) written_ok (inr (omega arith))

abbrev playing : Emulator (List ℕ)
playing = record { machine = eight; save_states = []; frame_counter = 5 }

abbrev rounds : List (List CoreCommand)
rounds =
    (CoreCommand.write_memory 4 (1 ∷ 2 ∷ []) ∷ [])
    ∷ (CoreCommand.save_state 2 ∷ CoreCommand.reset ∷ [])
    ∷ []

played : (run_frames ram_core playing rounds).save_states ≡ (2, after) ∷ []
unfolding run_frames emulator_frame handle_pending_core_requests handle_core_command write_ram
    save_slot system_ram_range ram_offset insert
played = refl

load_slot-save_slot_example :
    (let saved : Emulator (List ℕ) = record playing {
      save_states = (save_slot ram_core eight [] 1).1;
    } in
      let last = run_frames ram_core saved rounds in
      let (response, restored) = load_slot ram_core last.machine last.save_states 1 in
      (response ≡ WorkerResponseV1.ok) × (restored ≡ eight))
unfolding save_slot
load_slot-save_slot_example =
    load_slot-save_slot ram_core only_game whole ram_core-IsRestoring playing rounds 1 eight refl
      ((tt, tt), ((refl, (tt, tt)), tt))
