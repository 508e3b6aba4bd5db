-- ===== src/Ipc/Transport/Runs.antt =====
-- Runs of the transport, and its theorems at concrete inputs.
use mgba_server.Common.{
  ℕ, ◌≡◌, refl, List, [], ◌∷◌, ◌++◌, ok, err, length, arith, ◌%◌, replicate, length-replicate,
}
use mgba_server.Common.Bytes.{u32_mod, be32, read_u8, read_u32, read_exact}
use mgba_server.Ipc.{WorkerCommand, WorkerCommandV1, WorkerResponse, WorkerResponseV1}
use mgba_server.Ipc.Transport.{
  Codec, RawFramePacket, closed, frame_too_large, read_framed, write_framed, send_frame, recv_frame,
  ipc_call,
}
use mgba_server.Ipc.Transport.RoundTrip.{
  write_all, read_all, read_all-write_all, read_framed_too_large, serve_one, ipc_call-serve_one,
  recv_frame-send_frame,
}

-- A stand-in for `serde_json` at bytes that are their own text.
abbrev plain : Codec (List ℕ)
plain = record { to_vec = λ v. ok v; from_slice = λ b. ok b }

-- Stand-ins at the message types, which know one message each.
abbrev command_codec : Codec WorkerCommand
command_codec = record {
  to_vec = λ c. ok (1 ∷ []);
  from_slice = λ b. ok (WorkerCommand.v1 WorkerCommandV1.ping);
}

abbrev response_codec : Codec WorkerResponse
response_codec = record {
  to_vec = λ r. ok (2 ∷ []);
  from_slice = λ b. ok (WorkerResponse.v1 WorkerResponseV1.pong);
}

abbrev answer_ping : WorkerCommand → WorkerResponse
answer_ping c = WorkerResponse.v1 WorkerResponseV1.pong

short_stream : read_framed plain (0 ∷ 0 ∷ 0 ∷ 3 ∷ 7 ∷ []) ≡ err closed
unfolding read_framed read_u32 read_exact
short_stream = refl

huge_length :
    recv_frame (be32 1 ++ (be32 1 ++ (be32 4 ++ (0 ∷ (be32 67108865 ++ [])))))
    ≡ err (frame_too_large 67108865)
unfolding recv_frame read_u32 read_u8 be32
huge_length = refl

read_all-write_all_example :
    (stream : List ℕ) × (write_all plain [] ((1 ∷ 2 ∷ []) ∷ [] ∷ []) ≡ ok stream)
    × ((rest : List ℕ) → read_all plain 2 (stream ++ rest) ≡ ok ((1 ∷ 2 ∷ []) ∷ [] ∷ [], rest))
read_all-write_all_example = read_all-write_all plain ((1 ∷ 2 ∷ []) ∷ [] ∷ []) (
  record { json = 1 ∷ 2 ∷ []; written = refl; read_back = refl; fits = omega arith },
  (record { json = []; written = refl; read_back = refl; fits = omega arith }, tt),
)

ipc_call-serve_one_example :
    ipc_call command_codec response_codec
      (serve_one command_codec response_codec answer_ping)
      (record { commands = []; responses = [] })
      (WorkerCommand.v1 WorkerCommandV1.ping)
    ≡ ok (WorkerResponse.v1 WorkerResponseV1.pong, record { commands = []; responses = [] })
ipc_call-serve_one_example =
    ipc_call-serve_one command_codec response_codec answer_ping
      (WorkerCommand.v1 WorkerCommandV1.ping)
      (record { json = 1 ∷ []; written = refl; read_back = refl; fits = omega arith })
      (record { json = 2 ∷ []; written = refl; read_back = refl; fits = omega arith })

abbrev packet : RawFramePacket
packet = record { width = 1; height = 1; pitch = 4; pixel_format = 0; bytes = 1 ∷ 2 ∷ 3 ∷ 4 ∷ [] }

recv_frame-send_frame_example : recv_frame (send_frame [] packet ++ (9 ∷ [])) ≡ ok (packet, 9 ∷ [])
recv_frame-send_frame_example =
    recv_frame-send_frame packet (9 ∷ []) (omega arith) (omega arith) (omega arith) (omega arith)

abbrev oversized : List ℕ
oversized = replicate 67108865 0

read_framed_too_large_example :
    read_framed plain ((be32 (length oversized % u32_mod) ++ oversized) ++ [])
    ≡ err (frame_too_large (length oversized))
unfolding write_framed
read_framed_too_large_example =
    read_framed_too_large plain oversized oversized (be32 (length oversized % u32_mod) ++ oversized)
      [] refl (omega (arith, length-replicate {A = ℕ} 67108865 0))
      (omega (arith, length-replicate {A = ℕ} 67108865 0)) refl
