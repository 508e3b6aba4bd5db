-- ===== src/Ipc/Transport/RoundTrip.antt =====
-- crates/ipc/src/transport.rs: what one side writes the other side reads.
use mathlib.Core.List.{append-nil, append_assoc}
use native.Mathlib.Nat.{mod-eq_of_lt}
use mgba_server.Common.{
  ℕ, zero, suc, ◌%◌, ◌≤◌, ◌<◌, ◌≡◌, refl, ap, ◌∙◌, List, [], ◌∷◌, ◌++◌, length, le→ltb, lt→ltb,
  Result, ok, err, ◌>>=◌, All, arith,
}
use mgba_server.Common.Bytes.{be32, u32_mod, read_u32-be32, read_u8-cons, read_exact-append}
use mgba_server.Ipc.{WorkerCommand, WorkerResponse}
use mgba_server.Ipc.Transport.{
  Codec, TransportError, RawFramePacket, Channel, max_frame_size, frame_too_large, write_framed,
  read_framed, send_frame, recv_frame, send_command, recv_command, send_response, recv_response,
  ipc_call,
}

module _ {T : Type 0} (codec : Codec T) where
  -- A value that `serde_json` writes, reads back, and writes in no more bytes than a frame may have.
  pub record IsSendable (value : T) : Type 0 where
    pub json : List ℕ
    pub written : codec.to_vec value ≡ ok json
    pub read_back : codec.from_slice json ≡ ok value
    pub fits : length json ≤ max_frame_size

  abbrev frame_of : List ℕ → List ℕ
  frame_of json = be32 (length json % u32_mod) ++ json

  write_framed_lem :
      (stream json : List ℕ) (value : T)
      → codec.to_vec value ≡ ok json
      → write_framed codec stream value ≡ ok (stream ++ frame_of json)
  unfolding write_framed
  write_framed_lem stream json value e = rw e

  read_framed_lem :
      (value : T) (s : IsSendable value) (rest : List ℕ)
      → read_framed codec (frame_of s.json ++ rest) ≡ ok (value, rest)
  unfolding read_framed
  read_framed_lem value s rest =
      let short : length s.json < u32_mod = omega (arith, s.fits) in
      rw (mod-eq_of_lt short, append_assoc (be32 (length s.json)) s.json rest)
        (rw (
          read_u32-be32 (length s.json) (s.json ++ rest) short,
          le→ltb max_frame_size (length s.json) s.fits,
          read_exact-append s.json rest (length s.json) refl,
          s.read_back,
        ))

  -- A value whose JSON is longer than 64 MiB, and shorter than 2^32 bytes, is written by the one side
  -- and refused by the other, with its length.
  pub read_framed_too_large :
      (value : T) (json stream rest : List ℕ)
      → codec.to_vec value ≡ ok json
      → max_frame_size < length json
      → length json < u32_mod
      → write_framed codec [] value ≡ ok stream
      → read_framed codec (stream ++ rest) ≡ err (frame_too_large (length json))
  unfolding read_framed
  read_framed_too_large value json stream rest e big short w =
      let bytes : frame_of json ≡ stream = ground (arith, write_framed_lem [] json value e) in
      rw (← bytes) (
        rw (mod-eq_of_lt short, append_assoc (be32 (length json)) json rest)
          (rw (
            read_u32-be32 (length json) (json ++ rest) short,
            lt→ltb max_frame_size (length json) big,
          )))

  -- Several writes, and several reads.
  unfoldable pub write_all : List ℕ → List T → Result TransportError (List ℕ)
  write_all stream [] = ok stream
  write_all stream (v ∷ vs) = do stream₁ ← write_framed codec stream v; write_all stream₁ vs

  unfoldable pub read_all : ℕ → List ℕ → Result TransportError (List T × List ℕ)
  read_all zero stream = ok ([], stream)
  read_all (suc n) stream = do
    (v, stream₁) ← read_framed codec stream
    (vs, stream₂) ← read_all n stream₁
    ok (v ∷ vs, stream₂)

  frames_of : (vs : List T) → All IsSendable vs → List ℕ
  frames_of [] h = []
  frames_of (v ∷ vs) h = frame_of h.0.json ++ frames_of vs h.1

  write_all_lem :
      (stream : List ℕ) (vs : List T) (h : All IsSendable vs)
      → write_all stream vs ≡ ok (stream ++ frames_of vs h)
  unfolding write_all frames_of
  write_all_lem stream [] h = rw append-nil
  write_all_lem stream (v ∷ vs) h = rw (write_framed_lem stream h.0.json v h.0.written) (
      write_all_lem (stream ++ frame_of h.0.json) vs h.1
      ∙ ap ok (append_assoc stream (frame_of h.0.json) (frames_of vs h.1)))

  read_all_lem :
      (vs : List T) (h : All IsSendable vs) (rest : List ℕ)
      → read_all (length vs) (frames_of vs h ++ rest) ≡ ok (vs, rest)
  unfolding read_all frames_of
  read_all_lem [] h rest = refl
  read_all_lem (v ∷ vs) h rest =
      rw (append_assoc (frame_of h.0.json) (frames_of vs h.1) rest)
        (rw (read_framed_lem v h.0 (frames_of vs h.1 ++ rest), read_all_lem vs h.1 rest))

  -- Messages that can be sent are all written, and are read in the order of the writes, each whole;
  -- what stands behind them in the stream is left.
  pub read_all-write_all :
      (vs : List T)
      → All IsSendable vs
      → (stream : List ℕ) × (write_all [] vs ≡ ok stream)
        × ((rest : List ℕ) → read_all (length vs) (stream ++ rest) ≡ ok (vs, rest))
  read_all-write_all vs h = (frames_of vs h, write_all_lem [] vs h, read_all_lem vs h)

-- What the worker's loop does with one command: read it, and send what `handle` answers.
unfoldable pub serve_one :
    Codec WorkerCommand
    → Codec WorkerResponse
    → (WorkerCommand → WorkerResponse)
    → Channel
    → Result TransportError Channel
serve_one command response handle ch = do
  (c, ch₁) ← recv_command command response ch
  send_response command response ch₁ (handle c)

-- On a channel with nothing in flight, `call` against a worker that answers one command returns the
-- worker's response to this command and leaves nothing in flight, if both messages can be sent.
pub ipc_call-serve_one :
    (command : Codec WorkerCommand) (response : Codec WorkerResponse)
    (handle : WorkerCommand → WorkerResponse) (c : WorkerCommand)
    → IsSendable command c
    → IsSendable response (handle c)
    → ipc_call command response
        (serve_one command response handle)
        (record { commands = []; responses = [] })
        c
      ≡ ok (handle c, record { commands = []; responses = [] })
unfolding ipc_call serve_one send_command recv_command send_response recv_response
ipc_call-serve_one command response handle c hc hr =
    rw (write_framed_lem command [] hc.json c hc.written) (
      rw (← append-nil (frame_of command hc.json), read_framed_lem command c hc [])
        (rw (write_framed_lem response [] hr.json (handle c) hr.written) (
          rw
            (← append-nil (frame_of response hr.json), read_framed_lem response (handle c) hr []))))

-- A packet is received as it was sent, and what stands behind it in the stream is left, if its
-- numbers are words of their sizes and its data has no more than 64 MiB.
pub recv_frame-send_frame :
    (f : RawFramePacket) (rest : List ℕ)
    → f.width < u32_mod
    → f.height < u32_mod
    → f.pitch < u32_mod
    → length f.bytes ≤ max_frame_size
    → recv_frame (send_frame [] f ++ rest) ≡ ok (f, rest)
unfolding recv_frame send_frame
recv_frame-send_frame f rest hw hh hp hd =
    let short : length f.bytes < u32_mod = omega (arith, hd) in
    rw (mod-eq_of_lt short) (
      simp append_assoc (
        rw (
          read_u32-be32 f.width _ hw,
          read_u32-be32 f.height _ hh,
          read_u32-be32 f.pitch _ hp,
          read_u8-cons f.pixel_format _,
          read_u32-be32 (length f.bytes) _ short,
          le→ltb max_frame_size (length f.bytes) hd,
          read_exact-append f.bytes rest (length f.bytes) refl,
        )))
