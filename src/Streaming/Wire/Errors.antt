-- ===== src/Streaming/Wire/Errors.antt =====
-- crates/streaming/src/protocol.rs: what the decoder accepts, and what it rejects.
use mgba_server.Common.{
  ℕ, ◌+◌, ◌≤◌, ◌≡◌, List, ◌∷◌, ◌++◌, length, take, drop, length-append, length-drop, drop_append_le,
  take_append_le, get_elem?-append_left, ok, err, arith,
}
use mgba_server.Common.Text.{codes, text_beq_iff}
use mgba_server.Streaming.Wire.{
  StreamFrameMetadata, MetadataCodec, invalid_json, decode_stream_frame, u32_at, magic,
  stream_format, byte_at,
}

-- What an accepted frame is like.
pub record IsAccepted (bytes payload : List ℕ) : Type 0 where
  pub magical : take 4 bytes ≡ magic
  pub formatted : byte_at 4 bytes ≡ stream_format
  pub sized : length bytes ≡ 34 + u32_at 30 bytes + u32_at 26 bytes
  pub payload_size : length payload ≡ u32_at 26 bytes
  pub at_end : payload ≡ drop (34 + u32_at 30 bytes) bytes

-- A decoded frame has the magic and the format, is as long as its header says, and the payload is
-- its last bytes, as many as the header's payload length.
pub decode-IsAccepted :
    (codec : MetadataCodec) (bytes payload : List ℕ) (m : StreamFrameMetadata codec.Float)
    → decode_stream_frame codec bytes ≡ ok (m, payload)
    → IsAccepted bytes payload
unfolding decode_stream_frame
decode-IsAccepted codec bytes payload m e =
    ground (arith, text_beq_iff (take 4 bytes) magic, length-drop (34 + u32_at 30 bytes) bytes)

u32_at-append : (a : ℕ) (xs ys : List ℕ) → a + 4 ≤ length xs → u32_at a (xs ++ ys) ≡ u32_at a xs
unfolding u32_at
u32_at-append a xs ys h = rw (
  drop_append_le a xs ys (omega arith),
  take_append_le 4 (drop a xs) ys (omega (arith, length-drop a xs)),
)

-- The format is prefix-free: an accepted frame with anything behind it is rejected with
-- "length mismatch".
pub decode-append :
    (codec : MetadataCodec) (bytes payload more : List ℕ) (x : ℕ)
    (m : StreamFrameMetadata codec.Float)
    → decode_stream_frame codec bytes ≡ ok (m, payload)
    → decode_stream_frame codec (bytes ++ (x ∷ more)) ≡ err (invalid_json (codes "length mismatch"))
unfolding decode_stream_frame
decode-append codec bytes payload more x m e =
    let a = decode-IsAccepted codec bytes payload m e in
    let long : 34 ≤ length bytes = omega (arith, a.sized) in
    let tail = x ∷ more in
    ground (
      arith,
      a.magical,
      a.formatted,
      a.sized,
      text_beq_iff magic magic,
      take_append_le 4 bytes tail (omega (arith, long)),
      get_elem?-append_left bytes tail 4 (omega (arith, long)),
      u32_at-append 26 bytes tail (omega (arith, long)),
      u32_at-append 30 bytes tail (omega (arith, long)),
      length-append bytes tail,
    )
