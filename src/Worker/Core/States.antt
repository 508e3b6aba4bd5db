-- ===== src/Worker/Core/States.antt =====
-- src/bin/worker/core.rs and src/bin/worker.rs: the save states through the emulator's loop.
use mgba_server.Common.{
  ℕ, ◌+◌, ◌%◌, ◌<◌, ◌≡◌, refl, ap, ◌∙◌, List, [], ◌∷◌, some, length, true, false, Bool-cases,
  Option-cases, Result, ok, err, arith, inl, inr, ◌==◌, All, nat_eq,
}
use mgba_server.Common.Text.{Text}
use mgba_server.Common.Bytes.{u64_mod}
use mgba_server.Common.Dict.{lookup, lookup-insert}
use mgba_server.Ipc.{WorkerResponseV1}
use mgba_server.Worker.Core.{
  LibretroCore, CoreCommand, SaveStates, Emulator, write_range, write_ram, save_slot, load_slot,
  handle_core_command, handle_pending_core_requests, emulator_frame, run_frames,
}

-- A command that neither writes the slot nor loads another game.
abbrev pub KeepsSlot : ℕ → CoreCommand → Type 0
KeepsSlot slot (CoreCommand.save_state s) = (s == slot) ≡ false
KeepsSlot slot (CoreCommand.load_state s) = Unit {0}
KeepsSlot slot (CoreCommand.load_rom path) = ⊥
KeepsSlot slot (CoreCommand.read_memory address size) = Unit {0}
KeepsSlot slot (CoreCommand.write_memory address bytes) = Unit {0}
KeepsSlot slot CoreCommand.reset = Unit {0}

module _ {M : Type 0} (core : LibretroCore M) where
  -- What the documentation of libretro says of the save states of a core, where `game` is the game
  -- that a machine runs and `state` the part of it that is serialized: only a load of a game changes
  -- the game, and while the same game runs a serialized state can be unserialized.
  pub record IsRestoring {G S : Type 0} (game : M → G) (state : M → S) : Type 0 where
    pub run_keeps : (m : M) → game (core.retro_run m) ≡ game m
    pub reset_keeps : (m : M) → game (core.retro_reset m) ≡ game m
    pub write_keeps : (ram : List ℕ) (m : M) → game (core.set_system_ram ram m) ≡ game m
    pub unserialize_keeps :
        (bytes : List ℕ) (m : M) → game (core.retro_unserialize bytes m).1 ≡ game m
    pub restores :
        (m m' : M) (bytes : List ℕ)
        → game m' ≡ game m
        → core.retro_serialize (core.retro_serialize_size m) m ≡ some bytes
        → ((core.retro_unserialize bytes m').0 ≡ true)
          × (state (core.retro_unserialize bytes m').1 ≡ state m)

  save_slot-kept :
      (m : M) (saves : SaveStates) (s slot : ℕ)
      → (s == slot) ≡ false
      → lookup slot (save_slot core m saves s).1 ≡ lookup slot saves
  unfolding save_slot
  save_slot-kept m saves s slot other = elim (Bool-cases (core.retro_serialize_size m == 0)) [
    | inl p ↦ rw p refl
    | inr p ↦ elim (Option-cases (core.retro_serialize (core.retro_serialize_size m) m)) [
      | inl none_eq ↦ rw (p, none_eq) refl
      | inr (bytes, e) ↦ rw (p, e) (lookup-insert s slot bytes saves ∙ rw other refl)
    ]
  ]

  command-kept :
      (m : M) (saves : SaveStates) (c : CoreCommand) (slot : ℕ)
      → KeepsSlot slot c
      → lookup slot (handle_core_command core m saves c).1.1 ≡ lookup slot saves
  unfolding handle_core_command
  command-kept m saves (CoreCommand.save_state s) slot h = save_slot-kept m saves s slot h
  command-kept m saves (CoreCommand.load_state s) slot h = refl
  command-kept m saves (CoreCommand.load_rom path) slot h = absurd h
  command-kept m saves (CoreCommand.read_memory address size) slot h = refl
  command-kept m saves (CoreCommand.write_memory address bytes) slot h = refl
  command-kept m saves CoreCommand.reset slot h = refl

  requests-kept :
      (m : M) (saves : SaveStates) (requests : List CoreCommand) (slot : ℕ)
      → All (KeepsSlot slot) requests
      → lookup slot (handle_pending_core_requests core m saves requests).1.1 ≡ lookup slot saves
  unfolding handle_pending_core_requests
  requests-kept m saves [] slot h = refl
  requests-kept m saves (c ∷ requests) slot h =
      let r = handle_core_command core m saves c in
      requests-kept r.1.0 r.1.1 requests slot h.1 ∙ command-kept m saves c slot h.0

  frames-kept :
      (s : Emulator M) (rounds : List (List CoreCommand)) (slot : ℕ)
      → All (All (KeepsSlot slot)) rounds
      → lookup slot (run_frames core s rounds).save_states ≡ lookup slot s.save_states
  unfolding run_frames emulator_frame
  frames-kept s [] slot h = refl
  frames-kept s (requests ∷ rounds) slot h =
      frames-kept (emulator_frame core s requests).1 rounds slot h.1
      ∙ requests-kept s.machine s.save_states requests slot h.0

  saved_there :
      (m : M) (saves : SaveStates) (slot : ℕ) (bytes : List ℕ)
      → (save_slot core m saves slot).0 ≡ WorkerResponseV1.state_data bytes
      → (lookup slot (save_slot core m saves slot).1 ≡ some bytes)
        × (core.retro_serialize (core.retro_serialize_size m) m ≡ some bytes)
  unfolding save_slot
  saved_there m saves slot bytes e = elim (Bool-cases (core.retro_serialize_size m == 0)) [
    | inl p ↦ absurd (cc (rw p at e))
    | inr p ↦ elim (Option-cases (core.retro_serialize (core.retro_serialize_size m) m)) [
      | inl none_eq ↦ absurd (cc (rw (p, none_eq) at e))
      | inr (b, got) ↦
          let same : b ≡ bytes = cc (rw (p, got) at e) in
          (
            rw (p, got, ← same) (lookup-insert slot slot b saves ∙ ground arith),
            rw (got) (ap some same),
          )
    ]
  ]

  module _ {G S : Type 0} (game : M → G) (state : M → S) (law : IsRestoring game state) where
    write_range-game :
        (m : M) (ram bytes : List ℕ) (r : Result Text (ℕ × ℕ))
        → game (write_range core m ram bytes r).1 ≡ game m
    write_range-game m ram bytes (err message) = refl
    write_range-game m ram bytes (ok (start, end)) = law.write_keeps _ m

    write_ram-game :
        (m : M) (address : ℕ) (bytes : List ℕ) → game (write_ram core m address bytes).1 ≡ game m
    unfolding write_ram
    write_ram-game m address bytes = elim (Option-cases (core.system_ram m)) [
      | inl e ↦ rw (e, write_ram) refl
      | inr (ram, e) ↦ rw (e, write_ram) (write_range-game m ram bytes _)
    ]

    load_slot-game :
        (m : M) (saves : SaveStates) (slot : ℕ) → game (load_slot core m saves slot).1 ≡ game m
    unfolding load_slot
    load_slot-game m saves slot = elim (Option-cases (lookup slot saves)) [
      | inl e ↦ rw (e, load_slot) refl
      | inr (bytes, e) ↦
          rw (e, load_slot)
            (elim (Bool-cases (core.retro_unserialize bytes m).0) [
              | inl t ↦ rw t (law.unserialize_keeps bytes m)
              | inr t ↦ rw t (law.unserialize_keeps bytes m)
            ])
    ]

    command-game :
        (m : M) (saves : SaveStates) (c : CoreCommand) (slot : ℕ)
        → KeepsSlot slot c
        → game (handle_core_command core m saves c).1.0 ≡ game m
    unfolding handle_core_command
    command-game m saves (CoreCommand.save_state s) slot h = refl
    command-game m saves (CoreCommand.load_state s) slot h = load_slot-game m saves s
    command-game m saves (CoreCommand.load_rom path) slot h = absurd h
    command-game m saves (CoreCommand.read_memory address size) slot h = refl
    command-game m saves (CoreCommand.write_memory address bytes) slot h =
        write_ram-game m address bytes
    command-game m saves CoreCommand.reset slot h = law.reset_keeps m

    requests-game :
        (m : M) (saves : SaveStates) (requests : List CoreCommand) (slot : ℕ)
        → All (KeepsSlot slot) requests
        → game (handle_pending_core_requests core m saves requests).1.0 ≡ game m
    unfolding handle_pending_core_requests
    requests-game m saves [] slot h = refl
    requests-game m saves (c ∷ requests) slot h =
        let r = handle_core_command core m saves c in
        requests-game r.1.0 r.1.1 requests slot h.1 ∙ command-game m saves c slot h.0

    frames-game :
        (s : Emulator M) (rounds : List (List CoreCommand)) (slot : ℕ)
        → All (All (KeepsSlot slot)) rounds
        → game (run_frames core s rounds).machine ≡ game s.machine
    unfolding run_frames emulator_frame
    frames-game s [] slot h = refl
    frames-game s (requests ∷ rounds) slot h =
        frames-game (emulator_frame core s requests).1 rounds slot h.1
        ∙ (law.run_keeps _ ∙ requests-game s.machine s.save_states requests slot h.0)

    -- A slot that was saved with success is loaded with success after any number of frames with any
    -- commands but a save to this slot and a load of a game, and the state of the machine is then the
    -- saved one, if the core restores a serialized state while the same game runs.
    pub load_slot-save_slot :
        (s : Emulator M) (rounds : List (List CoreCommand)) (slot : ℕ) (bytes : List ℕ)
        → (save_slot core s.machine s.save_states slot).0 ≡ WorkerResponseV1.state_data bytes
        → All (All (KeepsSlot slot)) rounds
        → (let saved = record s { save_states = (save_slot core s.machine s.save_states slot).1 } in
            let last = run_frames core saved rounds in
            let (response, restored) = load_slot core last.machine last.save_states slot in
            (response ≡ WorkerResponseV1.ok) × (state restored ≡ state s.machine))
    unfolding load_slot
    load_slot-save_slot s rounds slot bytes done keeps =
        let (there, from) = saved_there s.machine s.save_states slot bytes done in
        let saved : Emulator M = record s {
          save_states = (save_slot core s.machine s.save_states slot).1;
        } in
        let last = run_frames core saved rounds in
        let (accepted, same) =
          law.restores s.machine last.machine bytes (frames-game saved rounds slot keeps) from in
        rw (frames-kept saved rounds slot keeps ∙ there, load_slot) (rw accepted (refl, same))

  -- The frame counter counts the rounds of the loop, modulo 2^64, whatever is requested.
  pub frame_counter-run_frames :
      (s : Emulator M) (rounds : List (List CoreCommand))
      → s.frame_counter < u64_mod
      → (run_frames core s rounds).frame_counter ≡ (s.frame_counter + length rounds) % u64_mod
  unfolding run_frames emulator_frame
  frame_counter-run_frames s [] h = omega arith
  frame_counter-run_frames s (requests ∷ rounds) h =
      frame_counter-run_frames (emulator_frame core s requests).1 rounds (omega arith) ∙ omega arith
