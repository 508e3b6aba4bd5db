-- ===== src/Ipc.antt =====
-- crates/ipc/src/lib.rs: the messages between the gateway and a worker.
pub mod Transport
use mgba_server.Common.{ℕ, List}
use mgba_server.Common.Text.{Text}

pub data PixelFormat : Type 0 where
  xrgb8888 rgb565 : PixelFormat

pub data WorkerCommandV1 : Type 0 where
  ping : WorkerCommandV1
  load_rom : Text → WorkerCommandV1
  set_input_state : ℕ → WorkerCommandV1
  read_memory : (address size : ℕ) → WorkerCommandV1
  write_memory : (address : ℕ) (bytes : List ℕ) → WorkerCommandV1
  save_state : (slot : ℕ) → WorkerCommandV1
  load_state : (slot : ℕ) → WorkerCommandV1
  reset shutdown get_current_frame : WorkerCommandV1
  button_tap : (button : Text) → WorkerCommandV1
  button_hold : (button : Text) (duration_frames : ℕ) → WorkerCommandV1
  take_screenshot : WorkerCommandV1

pub data WorkerCommand : Type 0 where
  v1 : WorkerCommandV1 → WorkerCommand

pub data WorkerResponseV1 : Type 0 where
  pong : WorkerResponseV1
  frame : (width height pitch : ℕ) (pixel_format : PixelFormat) (bytes : List ℕ) → WorkerResponseV1
  memory_data : List ℕ → WorkerResponseV1
  state_data : List ℕ → WorkerResponseV1
  current_frame : (frame_number : ℕ) → WorkerResponseV1
  screenshot : (png_data : List ℕ) → WorkerResponseV1
  ok : WorkerResponseV1
  error : (message : Text) → WorkerResponseV1

pub data WorkerResponse : Type 0 where
  v1 : WorkerResponseV1 → WorkerResponse
