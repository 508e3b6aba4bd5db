-- ===== src/Worker/Commands/Buttons.antt =====
-- src/bin/worker.rs: what the core reads of the buttons while a command holds one and afterwards.
use mgba_server.Common.{
  ℕ, zero, suc, ◌+◌, ◌*◌, ◌/◌, ◌%◌, ◌<◌, ◌≡◌, ◌≢◌, refl, List, [], ◌∷◌, Option, none, some, All,
  if◌then◌else◌, ◌==◌, arith, Bool-cases, inl, inr,
}
use mgba_server.Common.Text.{Text}
use mgba_server.Ipc.{WorkerCommandV1, WorkerResponseV1}
use mgba_server.Worker.Commands.{
  WorkerState, CoreAnswer, Exchange, bit_at, set_bit, clear_bit, input_state_callback,
  button_to_bit, press, handle_command, handle_connection, handle_commands, send_core_command,
  is_shutdown,
}

bit_at-set_bit : (bit j n : ℕ) → bit_at j (set_bit bit n) ≡ (if bit == j then 1 else bit_at j n)
unfolding bit_at set_bit
bit_at-set_bit zero zero n = omega arith
bit_at-set_bit zero (suc j) n =
    let half : (n / 2 * 2 + 1) / 2 ≡ n / 2 = omega arith in rw half (ground arith)
bit_at-set_bit (suc bit) zero n = ground arith
bit_at-set_bit (suc bit) (suc j) n =
    let half : (set_bit bit (n / 2) * 2 + n % 2) / 2 ≡ set_bit bit (n / 2) = omega arith in
    rw half (ground (arith, bit_at-set_bit bit j (n / 2)))

bit_at-clear_bit : (bit j n : ℕ) → bit_at j (clear_bit bit n) ≡ (if bit == j then 0 else bit_at j n)
unfolding bit_at clear_bit
bit_at-clear_bit zero zero n = omega arith
bit_at-clear_bit zero (suc j) n =
    let half : n / 2 * 2 / 2 ≡ n / 2 = omega arith in rw half (ground arith)
bit_at-clear_bit (suc bit) zero n = ground arith
bit_at-clear_bit (suc bit) (suc j) n =
    let half : (clear_bit bit (n / 2) * 2 + n % 2) / 2 ≡ clear_bit bit (n / 2) = omega arith in
    rw half (ground (arith, bit_at-clear_bit bit j (n / 2)))

clear_bit-set_bit : (bit : ℕ) → clear_bit bit (set_bit bit 0) ≡ 0
unfolding set_bit clear_bit
clear_bit-set_bit zero = omega arith
clear_bit-set_bit (suc bit) =
    let half : (set_bit bit 0 * 2 + 0) / 2 ≡ set_bit bit 0 = omega arith in
    rw (half, clear_bit-set_bit bit) (omega arith)

-- One button is held for a time and is up afterwards; the core reads the others as before.
pub record Presses (bit ms : ℕ) (s s' : WorkerState) : Type 0 where
  pub held : ℕ
  pub history : s'.published ≡ (held, ms) ∷ s.published
  pub down :
      (id : ℕ)
      → id < 32
      → input_state_callback held id
        ≡ (if bit == id then 1 else input_state_callback s.input_state id)
  pub up :
      (id : ℕ)
      → id < 32
      → input_state_callback s'.input_state id
        ≡ (if bit == id then 0 else input_state_callback s.input_state id)

press-Presses : (bit ms : ℕ) (s : WorkerState) → Presses bit ms s (press (some bit) ms s)
unfolding press input_state_callback
press-Presses bit ms s = record {
  held = set_bit bit s.input_state;
  history = refl;
  down = λ id h.
      let small : id % 32 ≡ id = omega arith in
      rw (small, bit_at-set_bit bit id s.input_state) (ground arith);
  up = λ id h.
      let small : id % 32 ≡ id = omega arith in
      rw
        (
          small,
          bit_at-clear_bit bit id (set_bit bit s.input_state),
          bit_at-set_bit bit id s.input_state,
        )
        (ground arith);
}

-- A tap or a hold of a known button is answered with Ok; while the command sleeps, 50 ms or the time of
-- the frames at 60 a second, the core reads that button as pressed, afterwards as released, and every
-- other one, in both states, as before.
pub handle_command-Presses :
    (button : Text) (bit duration_frames : ℕ) (answer : CoreAnswer) (s : WorkerState)
    → button_to_bit button ≡ some bit
    → let (tapped, after_tap) = handle_command (WorkerCommandV1.button_tap button) answer s in
      let (kept, after_hold) =
        handle_command (WorkerCommandV1.button_hold button duration_frames) answer s in
      (tapped ≡ WorkerResponseV1.ok)
      × Presses bit 50 s after_tap
      × (kept ≡ WorkerResponseV1.ok)
      × Presses bit (duration_frames * 1000 / 60) s after_hold
unfolding handle_command
handle_command-Presses button bit duration_frames answer s known = (
  refl,
  rw known (press-Presses bit 50 s),
  refl,
  rw known (press-Presses bit (duration_frames * 1000 / 60) s),
)

press_released :
    (bit : Option ℕ) (ms : ℕ) (s : WorkerState)
    → s.input_state ≡ 0
    → (press bit ms s).input_state ≡ 0
unfolding press
press_released none ms s e = e
press_released (some bit) ms s e = rw e (clear_bit-set_bit bit)

-- The commands that leave the buttons up if they were.
abbrev pub IsMomentary : Exchange → Type 0
IsMomentary e = (buttons : ℕ) → e.command ≢ WorkerCommandV1.set_input_state buttons

handle_command_released :
    (command : WorkerCommandV1) (answer : CoreAnswer) (s : WorkerState)
    → ((buttons : ℕ) → command ≢ WorkerCommandV1.set_input_state buttons)
    → s.input_state ≡ 0
    → (handle_command command answer s).1.input_state ≡ 0
unfolding handle_command
handle_command_released WorkerCommandV1.ping answer s h e = e
handle_command_released WorkerCommandV1.get_current_frame answer s h e = e
handle_command_released WorkerCommandV1.reset answer s h e = unfold send_core_command in e
handle_command_released WorkerCommandV1.shutdown answer s h e = e
handle_command_released WorkerCommandV1.take_screenshot answer s h e = e
handle_command_released (WorkerCommandV1.load_rom path) answer s h e = unfold send_core_command in e
handle_command_released (WorkerCommandV1.read_memory address size) answer s h e =
    unfold send_core_command in e
handle_command_released (WorkerCommandV1.write_memory address bytes) answer s h e =
    unfold send_core_command in e
handle_command_released (WorkerCommandV1.save_state slot) answer s h e =
    unfold send_core_command in e
handle_command_released (WorkerCommandV1.load_state slot) answer s h e =
    unfold send_core_command in e
handle_command_released (WorkerCommandV1.set_input_state buttons) answer s h e =
    absurd (h buttons refl)
handle_command_released (WorkerCommandV1.button_tap button) answer s h e =
    press_released (button_to_bit button) 50 s e
handle_command_released (WorkerCommandV1.button_hold button n) answer s h e =
    press_released (button_to_bit button) (n * 1000 / 60) s e

handle_connection_released :
    (es : List Exchange) (s : WorkerState)
    → All IsMomentary es
    → s.input_state ≡ 0
    → (handle_connection es s).1.input_state ≡ 0
unfolding handle_connection
handle_connection_released [] s all e = e
handle_connection_released (x ∷ es) s (momentary, all) e =
    let step = handle_command_released x.command x.answer s momentary e in
    let rest = handle_connection_released es (handle_command x.command x.answer s).1 all step in
    elim (Bool-cases (is_shutdown x.command)) [
      | inl done ↦ rw done step
      | inr goes ↦ elim (Bool-cases x.delivered) [
        | inl ok ↦ rw (goes, ok) rest
        | inr broken ↦ rw (goes, broken) step
      ]
    ]

-- No button stays pressed: where no input state is set as a whole, all buttons are up after any
-- commands of any connections, also where a connection breaks or the worker is shut down, if they were
-- up at the start.
pub handle_commands_released :
    (cs : List (List Exchange)) (s : WorkerState)
    → All (λ es. All IsMomentary es) cs
    → s.input_state ≡ 0
    → (handle_commands cs s).0.input_state ≡ 0
unfolding handle_commands
handle_commands_released [] s all e = e
handle_commands_released (c ∷ cs) s (momentary, all) e =
    let step = handle_connection_released c s momentary e in
    let rest = handle_commands_released cs (handle_connection c s).1 all step in
    elim (Bool-cases (handle_connection c s).2) [
      | inl done ↦ rw done step
      | inr goes ↦ rw goes rest
    ]
