-- ===== src/Worker/Core.antt =====
-- src/bin/worker/core.rs: the commands that run on the emulator's thread. The libretro core is the
-- parameter `LibretroCore`: its state is a value of `M`. `core.retro_run`, which the emulator's loop
-- calls between the commands, is a function on `M` too.
pub mod Memory
pub mod States
mod Runs
use mgba_server.Common.{
  ℕ, ◌+◌, ◌-◌, ◌*◌, ◌%◌, List, [], ◌∷◌, ◌++◌, Option, none, some, length, take, drop, ltb, leb,
  ◌==◌, if◌then◌else◌, Bool, true, false, ◌||◌, ok, err, Result, nat_eq,
}
use mgba_server.Common.Text.{Text, codes, print_dec}
use mgba_server.Common.Bytes.{u32_mod, u64_mod, be32}
use mgba_server.Common.Dict.{lookup, insert}
use mgba_server.Ipc.{WorkerResponseV1}
use mgba_server.Mgba.Messages.{hex_text}

-- The functions of the core's shared library. `system_ram` is the memory behind
-- `retro_get_memory_data`, as long as `retro_get_memory_size` says, and `none` is the null pointer;
-- `set_system_ram` is a write through that pointer.
pub record LibretroCore (M : Type 0) : Type 0 where
  pub system_ram : M → Option (List ℕ)
  pub set_system_ram : List ℕ → M → M
  pub retro_run : M → M
  pub retro_reset : M → M
  pub retro_unload_game : M → M
  pub retro_load_game : Text → M → Bool × M
  pub retro_serialize_size : M → ℕ
  pub retro_serialize : ℕ → M → Option (List ℕ)
  pub retro_unserialize : List ℕ → M → Bool × M

pub data CoreCommand : Type 0 where
  load_rom : (path : Text) → CoreCommand
  read_memory : (address size : ℕ) → CoreCommand
  write_memory : (address : ℕ) (bytes : List ℕ) → CoreCommand
  save_state load_state : (slot : ℕ) → CoreCommand
  reset : CoreCommand

abbrev pub gba_system_ram_base : ℕ
gba_system_ram_base = 33554432

abbrev pub SaveStates : Type 0
SaveStates = List (ℕ × List ℕ)

abbrev pub range_message : ℕ → ℕ → ℕ → Text
range_message address size memory_size =
    codes "memory range 0x"
    ++ (hex_text (be32 address)
        ++ (codes "+"
            ++ (print_dec size ++ (codes " exceeds system RAM size " ++ print_dec memory_size))))

-- The offset of an address: absolute ones lose the base.
unfoldable pub ram_offset : ℕ → ℕ
ram_offset address =
    if leb gba_system_ram_base address then address - gba_system_ram_base else address

-- The range as its start and its end.
unfoldable pub system_ram_range : ℕ → ℕ → ℕ → Result Text (ℕ × ℕ)
system_ram_range address size memory_size =
    let start = ram_offset address in
    let end = start + size in
    if leb u64_mod end
    then err (codes "memory range overflow")
    else if ltb memory_size start || ltb memory_size end
    then err (range_message address size memory_size)
    else ok (start, end)

-- The position of the first zero byte, which `CString::new` refuses.
unfoldable pub nul_position : ℕ → Text → Option ℕ
nul_position i [] = none
nul_position i (c ∷ s) = let rest = nul_position (i + 1) s in if c == 0 then some i else rest

abbrev unavailable : WorkerResponseV1
unavailable = WorkerResponseV1.error (codes "system RAM is unavailable")

module _ {M : Type 0} (core : LibretroCore M) where
  abbrev read_range : List ℕ → Result Text (ℕ × ℕ) → WorkerResponseV1
  read_range ram (err message) = WorkerResponseV1.error message
  read_range ram (ok (start, end)) =
      WorkerResponseV1.memory_data (take (end - start) (drop start ram))

  -- `read_memory`
  unfoldable pub read_ram : M → ℕ → ℕ → WorkerResponseV1
  read_ram m address size = elim (core.system_ram m) [
    | none ↦ unavailable
    | some ram ↦ read_range ram (system_ram_range address size (length ram))
  ]

  abbrev pub write_range : M → List ℕ → List ℕ → Result Text (ℕ × ℕ) → WorkerResponseV1 × M
  write_range m ram bytes (err message) = (WorkerResponseV1.error message, m)
  write_range m ram bytes (ok (start, end)) =
      (WorkerResponseV1.ok, core.set_system_ram (take start ram ++ (bytes ++ drop end ram)) m)

  -- `write_memory`. The cast of the length is kept; the frames of the command channel have at most
  -- 64 MiB, so `copy_from_slice` never meets a range of another length.
  unfoldable pub write_ram : M → ℕ → List ℕ → WorkerResponseV1 × M
  write_ram m address bytes = elim (core.system_ram m) [
    | none ↦ (unavailable, m)
    | some ram ↦
        write_range m ram bytes (system_ram_range address (length bytes % u32_mod) (length ram))
  ]

  -- `save_state`
  unfoldable pub save_slot : M → SaveStates → ℕ → WorkerResponseV1 × SaveStates
  save_slot m save_states slot =
      let size = core.retro_serialize_size m in
      if size == 0
      then (WorkerResponseV1.error (codes "save states are unsupported by this core"), save_states)
      else elim (core.retro_serialize size m) [
        | none ↦ (
          WorkerResponseV1.error (codes "failed to save state slot " ++ print_dec slot),
          save_states,
        )
        | some bytes ↦ (WorkerResponseV1.state_data bytes, insert slot bytes save_states)
      ]

  -- `load_state`
  unfoldable pub load_slot : M → SaveStates → ℕ → WorkerResponseV1 × M
  load_slot m save_states slot = elim (lookup slot save_states) [
    | none ↦
        (WorkerResponseV1.error (codes "state slot " ++ (print_dec slot ++ codes " is empty")), m)
    | some bytes ↦
        let (loaded, m') = core.retro_unserialize bytes m in
        if loaded
        then (WorkerResponseV1.ok, m')
        else (WorkerResponseV1.error (codes "failed to load state slot " ++ print_dec slot), m')
  ]

  -- `load_rom`
  unfoldable pub load_game : M → Text → WorkerResponseV1 × M
  load_game m path = elim (nul_position 0 path) [
    | some i ↦ (
      WorkerResponseV1.error
          (codes "invalid ROM path: nul byte found in provided data at position: " ++ print_dec i),
      m,
    )
    | none ↦
        let (loaded, m') = core.retro_load_game path (core.retro_unload_game m) in
        if loaded
        then (WorkerResponseV1.ok, m')
        else (WorkerResponseV1.error (codes "failed to load ROM: " ++ path), m')
  ]

  unfoldable pub handle_core_command :
      M → SaveStates → CoreCommand → WorkerResponseV1 × (M × SaveStates)
  handle_core_command m saves (CoreCommand.load_rom path) =
      let (r, m') = load_game m path in (r, (m', saves))
  handle_core_command m saves (CoreCommand.read_memory address size) =
      (read_ram m address size, (m, saves))
  handle_core_command m saves (CoreCommand.write_memory address bytes) =
      let (r, m') = write_ram m address bytes in (r, (m', saves))
  handle_core_command m saves (CoreCommand.save_state slot) =
      let (r, saves') = save_slot m saves slot in (r, (m, saves'))
  handle_core_command m saves (CoreCommand.load_state slot) =
      let (r, m') = load_slot m saves slot in (r, (m', saves))
  handle_core_command m saves CoreCommand.reset = (WorkerResponseV1.ok, (core.retro_reset m, saves))

  -- The requests in the channel, in the order of their arrival, with their responses.
  unfoldable pub handle_pending_core_requests :
      M → SaveStates → List CoreCommand → List WorkerResponseV1 × (M × SaveStates)
  handle_pending_core_requests m saves [] = ([], (m, saves))
  handle_pending_core_requests m saves (command ∷ requests) =
      let (r, (m', saves')) = handle_core_command m saves command in
      let (rs, last) = handle_pending_core_requests m' saves' requests in (r ∷ rs, last)

-- The emulator thread's machine, its save states and the frame counter of the worker's state.
pub record Emulator (M : Type 0) : Type 0 where
  pub machine : M
  pub save_states : SaveStates
  pub frame_counter : ℕ

module _ {M : Type 0} (core : LibretroCore M) where
  -- One round of the loop of `run_emulator_thread`, with the requests that wait at its start.
  unfoldable pub emulator_frame : Emulator M → List CoreCommand → List WorkerResponseV1 × Emulator M
  emulator_frame s requests =
      let (responses, (m, saves)) =
        handle_pending_core_requests core s.machine s.save_states requests in
      (
        responses,
        record {
          machine = core.retro_run m;
          save_states = saves;
          frame_counter = (s.frame_counter + 1) % u64_mod;
        },
      )

  -- The loop over the requests of each round, up to a shutdown.
  unfoldable pub run_frames : Emulator M → List (List CoreCommand) → Emulator M
  run_frames s [] = s
  run_frames s (requests ∷ rounds) =
      let (responses, s') = emulator_frame s requests in run_frames s' rounds
