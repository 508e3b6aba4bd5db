-- ===== src/Ipc/Transport.antt =====
-- crates/ipc/src/transport.rs: length-prefixed JSON on the command channel, packed frames on the
-- frame channel. One direction of a socket is the list of the bytes in flight: a write appends to
-- it and a read takes from its front. A read that the bytes do not satisfy is a closed connection.
-- `serde_json` at a message type is the parameter `Codec`.
pub mod RoundTrip
mod Runs
use mgba_server.Common.{
  ℕ, ◌*◌, ◌%◌, List, [], ◌∷◌, ◌++◌, Option, none, some, length, ltb, if◌then◌else◌, Result, ok, err,
  ok_or, ◌>>=◌, ◌>>◌,
}
use mgba_server.Common.Text.{Text}
use mgba_server.Common.Bytes.{be32, read_u8, read_u32, read_exact, u32_mod}
use mgba_server.Ipc.{WorkerCommand, WorkerResponse}

pub data TransportError : Type 0 where
  io closed : TransportError
  serialize : Text → TransportError
  frame_too_large : ℕ → TransportError

-- 64 MiB
abbrev pub max_frame_size : ℕ
max_frame_size = 64 * 1024 * 1024

-- `serde_json::to_vec` and `serde_json::from_slice` at the type `T`, with the text of an error.
pub record Codec (T : Type 0) : Type 0 where
  pub to_vec : T → Result Text (List ℕ)
  pub from_slice : List ℕ → Result Text T

abbrev pub as_serialize {ℓ} : {A : Type ℓ} → Result Text A → Result TransportError A
as_serialize (ok a) = ok a
as_serialize (err e) = err (serialize e)

module _ {T : Type 0} (codec : Codec T) where
  -- The bytes that are written, behind those in flight.
  unfoldable pub write_framed : List ℕ → T → Result TransportError (List ℕ)
  write_framed stream value = do
    payload ← as_serialize (codec.to_vec value)
    ok (stream ++ (be32 (length payload % u32_mod) ++ payload))

  unfoldable pub read_framed : List ℕ → Result TransportError (T × List ℕ)
  read_framed stream = do
    (len, stream₁) ← ok_or (read_u32 stream) closed
    if ltb max_frame_size len then err (frame_too_large len) else ok tt
    (buf, stream₂) ← ok_or (read_exact len stream₁) closed
    value ← as_serialize (codec.from_slice buf)
    ok (value, stream₂)

-- The packed frame. `pixel_format` is a byte: 0 for XRGB8888, 1 for RGB565.
pub record RawFramePacket : Type 0 where
  pub width : ℕ
  pub height : ℕ
  pub pitch : ℕ
  pub pixel_format : ℕ
  pub bytes : List ℕ

unfoldable pub send_frame : List ℕ → RawFramePacket → List ℕ
send_frame stream frame =
    stream
    ++ (be32 frame.width
        ++ (be32 frame.height
            ++ (be32 frame.pitch
                ++ (frame.pixel_format ∷ (be32 (length frame.bytes % u32_mod) ++ frame.bytes)))))

unfoldable pub recv_frame : List ℕ → Result TransportError (RawFramePacket × List ℕ)
recv_frame stream = do
  (width, stream₁) ← ok_or (read_u32 stream) closed
  (height, stream₂) ← ok_or (read_u32 stream₁) closed
  (pitch, stream₃) ← ok_or (read_u32 stream₂) closed
  (pixel_format, stream₄) ← ok_or (read_u8 stream₃) closed
  (data_len, stream₅) ← ok_or (read_u32 stream₄) closed
  if ltb max_frame_size data_len then err (frame_too_large data_len) else ok tt
  (bytes, stream₆) ← ok_or (read_exact data_len stream₅) closed
  ok (
    record {
      width = width;
      height = height;
      pitch = pitch;
      pixel_format = pixel_format;
      bytes = bytes;
    },
    stream₆,
  )

-- A socket of the command channel: the commands in flight and the responses in flight.
pub record Channel : Type 0 where
  pub commands : List ℕ
  pub responses : List ℕ

module _ (command : Codec WorkerCommand) (response : Codec WorkerResponse) where
  -- `IpcClient`
  unfoldable pub send_command : Channel → WorkerCommand → Result TransportError Channel
  send_command ch c = do
    stream ← write_framed command ch.commands c
    ok (record ch { commands = stream })

  unfoldable pub recv_response : Channel → Result TransportError (WorkerResponse × Channel)
  recv_response ch = do
    (r, stream) ← read_framed response ch.responses
    ok (r, record ch { responses = stream })

  -- `IpcConnection`
  unfoldable pub recv_command : Channel → Result TransportError (WorkerCommand × Channel)
  recv_command ch = do
    (c, stream) ← read_framed command ch.commands
    ok (c, record ch { commands = stream })

  unfoldable pub send_response : Channel → WorkerResponse → Result TransportError Channel
  send_response ch r = do
    stream ← write_framed response ch.responses r
    ok (record ch { responses = stream })

  -- `IpcClient::call`. What the worker does between the two is the argument.
  unfoldable pub ipc_call :
      (Channel → Result TransportError Channel)
      → Channel
      → WorkerCommand
      → Result TransportError (WorkerResponse × Channel)
  ipc_call worker ch c = do ch₁ ← send_command ch c; ch₂ ← worker ch₁; recv_response ch₂
