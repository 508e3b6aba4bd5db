-- ===== src/Worker/Commands.antt =====
-- src/bin/worker.rs: `handle_commands`, the buttons and the callback that the core reads them with. What
-- comes of a request to the emulator thread is an argument, and what a core may read while a command
-- sleeps is kept in `published`.
pub mod Buttons
mod Runs
use mgba_server.Common.{
  ℕ, zero, suc, ◌+◌, ◌*◌, ◌/◌, ◌%◌, Bool, true, false, List, [], ◌∷◌, ◌++◌, Option, none, some,
  if◌then◌else◌, ◌==◌,
}
use mgba_server.Common.Text.{Text, codes, text_beq}
use mgba_server.Common.Bytes.{u32_mod}
use mgba_server.Ipc.{WorkerCommandV1, WorkerResponseV1, PixelFormat}
use mgba_server.Worker.Core.{CoreCommand}

-- `RawFrame` of the worker.
pub record VideoFrame : Type 0 where
  pub width : ℕ
  pub height : ℕ
  pub pitch : ℕ
  pub bytes : List ℕ

-- `core_requests` has what was sent to the emulator thread.
pub record WorkerState : Type 0 where
  pub input_state : ℕ
  pub latest_frame : Option VideoFrame
  pub frame_counter : ℕ
  pub shutdown : Bool
  pub core_requests : List CoreCommand
  pub published : List (ℕ × ℕ)

-- The bit at a place, and `n | 1 << bit` and `n & !(1 << bit)`.
unfoldable pub bit_at : (bit n : ℕ) → ℕ
bit_at zero n = n % 2
bit_at (suc bit) n = bit_at bit (n / 2)

unfoldable pub set_bit : (bit n : ℕ) → ℕ
set_bit zero n = n / 2 * 2 + 1
set_bit (suc bit) n = set_bit bit (n / 2) * 2 + n % 2

unfoldable pub clear_bit : (bit n : ℕ) → ℕ
clear_bit zero n = n / 2 * 2
clear_bit (suc bit) n = clear_bit bit (n / 2) * 2 + n % 2

-- `(buttons >> id) & 1 == 1`; a shift takes its count modulo 32.
unfoldable pub input_state_callback : (buttons id : ℕ) → ℕ
unfolding bit_at
input_state_callback buttons id = if bit_at (id % 32) buttons == 1 then 1 else 0

unfoldable pub button_to_bit : Text → Option ℕ
unfolding text_beq
button_to_bit button =
    if text_beq button (codes "B")
    then some 0
    else if text_beq button (codes "Y")
    then some 1
    else if text_beq button (codes "Select")
    then some 2
    else if text_beq button (codes "Start")
    then some 3
    else if text_beq button (codes "Up")
    then some 4
    else if text_beq button (codes "Down")
    then some 5
    else if text_beq button (codes "Left")
    then some 6
    else if text_beq button (codes "Right")
    then some 7
    else if text_beq button (codes "A")
    then some 8
    else if text_beq button (codes "X")
    then some 9
    else if text_beq button (codes "L")
    then some 10
    else if text_beq button (codes "R")
    then some 11
    else none

-- What `send_core_command` meets.
pub data CoreAnswer : Type 0 where
  disconnected : CoreAnswer
  answered : WorkerResponseV1 → CoreAnswer
  timed_out : (error : Text) → CoreAnswer
  wait_failed : (error : Text) → CoreAnswer

abbrev pub core_response : CoreAnswer → WorkerResponseV1
core_response disconnected = WorkerResponseV1.error (codes "emulator thread is unavailable")
core_response (answered response) = response
core_response (timed_out e) = WorkerResponseV1.error (codes "emulator command timed out: " ++ e)
core_response (wait_failed e) = WorkerResponseV1.error (codes "emulator command wait failed: " ++ e)

-- A request reaches the thread unless the channel is closed.
abbrev pub requested : CoreCommand → CoreAnswer → List CoreCommand → List CoreCommand
requested command disconnected requests = requests
requested command (answered response) requests = requests ++ (command ∷ [])
requested command (timed_out e) requests = requests ++ (command ∷ [])
requested command (wait_failed e) requests = requests ++ (command ∷ [])

unfoldable pub send_core_command :
    CoreCommand → CoreAnswer → WorkerState → WorkerResponseV1 × WorkerState
send_core_command command answer s =
    (core_response answer, record s { core_requests = requested command answer s.core_requests })

-- The bit is set, the command sleeps, and the bit is cleared.
unfoldable pub press : Option ℕ → (ms : ℕ) → WorkerState → WorkerState
unfolding set_bit clear_bit
press none ms s = s
press (some bit) ms s =
    let down = set_bit bit s.input_state in
    record s { input_state = clear_bit bit down; published = (down, ms) ∷ s.published }

abbrev pub screenshot_of : Option VideoFrame → WorkerResponseV1
screenshot_of none = WorkerResponseV1.error (codes "no frame captured yet")
screenshot_of (some f) =
    WorkerResponseV1.frame f.width f.height (f.pitch % u32_mod) PixelFormat.xrgb8888 f.bytes

-- The `match` on a command.
unfoldable pub handle_command :
    WorkerCommandV1 → CoreAnswer → WorkerState → WorkerResponseV1 × WorkerState
unfolding press button_to_bit send_core_command
handle_command WorkerCommandV1.ping answer s = (WorkerResponseV1.pong, s)
handle_command WorkerCommandV1.get_current_frame answer s =
    (WorkerResponseV1.current_frame s.frame_counter, s)
handle_command (WorkerCommandV1.set_input_state buttons) answer s =
    (WorkerResponseV1.ok, record s { input_state = buttons })
handle_command (WorkerCommandV1.button_tap button) answer s =
    (WorkerResponseV1.ok, press (button_to_bit button) 50 s)
handle_command (WorkerCommandV1.button_hold button duration_frames) answer s =
    (WorkerResponseV1.ok, press (button_to_bit button) (duration_frames * 1000 / 60) s)
handle_command WorkerCommandV1.reset answer s = send_core_command CoreCommand.reset answer s
handle_command WorkerCommandV1.shutdown answer s =
    (WorkerResponseV1.ok, record s { shutdown = true })
handle_command WorkerCommandV1.take_screenshot answer s = (screenshot_of s.latest_frame, s)
handle_command (WorkerCommandV1.load_rom path) answer s =
    send_core_command (CoreCommand.load_rom path) answer s
handle_command (WorkerCommandV1.read_memory address size) answer s =
    send_core_command (CoreCommand.read_memory address size) answer s
handle_command (WorkerCommandV1.write_memory address bytes) answer s =
    send_core_command (CoreCommand.write_memory address bytes) answer s
handle_command (WorkerCommandV1.save_state slot) answer s =
    send_core_command (CoreCommand.save_state slot) answer s
handle_command (WorkerCommandV1.load_state slot) answer s =
    send_core_command (CoreCommand.load_state slot) answer s

-- A command of a connection, what comes of it, and whether its response can be sent.
pub record Exchange : Type 0 where
  pub command : WorkerCommandV1
  pub answer : CoreAnswer
  pub delivered : Bool

abbrev pub is_shutdown : WorkerCommandV1 → Bool
is_shutdown WorkerCommandV1.shutdown = true
is_shutdown command = false

-- The inner loop: the responses, the state, and whether the function returns. The connection ends with
-- the list, as when no command can be read.
unfoldable pub handle_connection :
    List Exchange → WorkerState → List WorkerResponseV1 × WorkerState × Bool
unfolding handle_command
handle_connection [] s = ([], s, false)
handle_connection (e ∷ es) s =
    let (response, s') = handle_command e.command e.answer s in
    let (responses, last, done) = handle_connection es s' in
    if is_shutdown e.command
    then (response ∷ [], s', true)
    else if e.delivered
    then (response ∷ responses, last, done)
    else (response ∷ [], s', false)

-- The outer loop over the connections that are accepted.
unfoldable pub handle_commands : List (List Exchange) → WorkerState → WorkerState × Bool
unfolding handle_connection
handle_commands [] s = (s, false)
handle_commands (c ∷ cs) s =
    let (responses, s', done) = handle_connection c s in
    let rest = handle_commands cs s' in if done then (s', true) else rest
