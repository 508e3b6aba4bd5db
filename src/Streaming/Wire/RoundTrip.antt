-- ===== src/Streaming/Wire/RoundTrip.antt =====
-- crates/streaming/src/protocol.rs: what the decoder makes of the encoders' output.
use mgba_server.Common.{
  ℕ, ◌+◌, ◌<◌, ◌≡◌, refl, ap, ◌∙◌, List, [], ◌++◌, some, length, get_elem?, take, drop,
  length-append, drop_add, drop_append, take_append, ok, arith, lt→ltb,
}
use native.Mathlib.Nat.{mod-eq_of_lt}
use mgba_server.Common.Text.{text_beq_refl}
use mgba_server.Common.Bytes.{be32_value, u32_mod}
use mgba_server.Streaming.Wire.{
  StreamFrameType, StreamFrameMetadata, MetadataCodec, EncodeParams, frame_header,
  encode_h264_frame, encode_metadata, encode_stream_frame, decode_metadata, decode_stream_frame,
  u32_at, magic, stream_format, default_metadata, h264_payload_flag, has_metadata,
}
use mathlib.Core.Bool.{true, false}

-- The facts about a byte vector that the decoder looks at.
pub record IsHeaded (bytes : List ℕ) (payload meta : ℕ) (rest : List ℕ) : Type 0 where
  pub magical : take 4 bytes ≡ magic
  pub formatted : get_elem? bytes 4 ≡ some stream_format
  pub payload_field : u32_at 26 bytes ≡ payload
  pub meta_field : u32_at 30 bytes ≡ meta
  pub rest_follows : drop 34 bytes ≡ rest
  pub sized : length bytes ≡ 34 + length rest

frame_header-IsHeaded :
    (ftype : StreamFrameType)
    (index flags sequence timestamp width height tile raw payload meta : ℕ) (rest : List ℕ)
    → payload < u32_mod
    → meta < u32_mod
    → IsHeaded
        (frame_header ftype index flags sequence timestamp width height tile raw payload meta
          ++ rest)
        payload
        meta
        rest
unfolding frame_header u32_at
frame_header-IsHeaded ftype index flags sequence timestamp width height tile raw payload meta rest
      hp hm =
    record {
      magical = refl;
      formatted = refl;
      payload_field = be32_value payload hp;
      meta_field = be32_value meta hm;
      rest_follows = refl;
      sized = omega arith;
    }

-- The decoder on bytes whose header agrees with their length.
pub decode_headed :
    (codec : MetadataCodec) (bytes json body : List ℕ)
    → IsHeaded bytes (length body) (length json) (json ++ body)
    → decode_stream_frame codec bytes ≡ ok (decode_metadata codec (length json) bytes, body)
unfolding decode_stream_frame
decode_headed codec bytes json body h =
    let body_follows : drop (34 + length json) bytes ≡ body =
      drop_add 34 (length json) bytes
      ∙ ap (drop (length json)) h.rest_follows
      ∙ drop_append json body in
    rw (h.magical, text_beq_refl magic, h.formatted, h.payload_field, h.meta_field, body_follows)
      (ground (arith, h.sized, length-append json body))

-- The metadata bytes reach `serde_json::from_slice` unchanged.
decode_metadata_headed :
    (codec : MetadataCodec) (bytes json body : List ℕ) (p : ℕ) (m : StreamFrameMetadata codec.Float)
    → IsHeaded bytes p (length json) (json ++ body)
    → codec.from_slice json ≡ some m
    → 0 < length json
    → decode_metadata codec (length json) bytes ≡ m
unfolding decode_metadata
decode_metadata_headed codec bytes json body p m h read nonempty =
    rw (lt→ltb 0 (length json) nonempty, h.rest_follows, take_append json body, read) refl

module _ (codec : MetadataCodec) (p : EncodeParams codec.Float) where
  encode-IsHeaded :
      length p.payload < u32_mod
      → length (encode_metadata codec p.metadata) < u32_mod
      → IsHeaded
          (encode_stream_frame codec p)
          (length p.payload)
          (length (encode_metadata codec p.metadata))
          (encode_metadata codec p.metadata ++ p.payload)
  unfolding encode_stream_frame
  encode-IsHeaded hp hm =
      rw (mod-eq_of_lt hp, mod-eq_of_lt hm)
        (frame_header-IsHeaded p.frame_type _ _ _ _ _ _ _ _ _ _ _ hp hm)

  -- A frame with metadata is decoded to its metadata and its payload, if the JSON that
  -- `serde_json` writes for the metadata is not empty and is read back as that metadata,
  -- and the JSON and the payload are shorter than 2^32 bytes.
  pub decode-encode :
      (json : List ℕ)
      → has_metadata p.metadata ≡ true
      → codec.to_vec p.metadata ≡ some json
      → codec.from_slice json ≡ some p.metadata
      → 0 < length json
      → length json < u32_mod
      → length p.payload < u32_mod
      → decode_stream_frame codec (encode_stream_frame codec p) ≡ ok (p.metadata, p.payload)
  unfolding encode_metadata
  decode-encode json some_field written read nonempty hj hp =
      let encoded : encode_metadata codec p.metadata ≡ json = rw (some_field, written) in
      let headed = rw encoded at (encode-IsHeaded hp (rw encoded hj)) in
      decode_headed codec (encode_stream_frame codec p) json p.payload headed
      ∙ ap (λ m. ok (m, p.payload))
          (decode_metadata_headed codec (encode_stream_frame codec p) json p.payload
            (length p.payload) p.metadata headed read nonempty)

  -- A frame without metadata is decoded to the default metadata and its payload, if the payload is
  -- shorter than 2^32 bytes.
  pub decode-encode_plain :
      has_metadata p.metadata ≡ false
      → length p.payload < u32_mod
      → decode_stream_frame codec (encode_stream_frame codec p) ≡ ok (default_metadata, p.payload)
  unfolding encode_metadata
  decode-encode_plain no_field hp =
      let encoded : encode_metadata codec p.metadata ≡ [] = rw no_field in
      let headed = rw encoded at (encode-IsHeaded hp (rw encoded (omega arith))) in
      decode_headed codec (encode_stream_frame codec p) [] p.payload headed
      ∙ unfold decode_metadata in refl

-- An H.264 frame is decoded to the default metadata and its NAL data, if that is shorter than 2^32
-- bytes.
pub decode-encode_h264 :
    (codec : MetadataCodec) (nal : List ℕ) (index sequence timestamp width height : ℕ)
    → length nal < u32_mod
    → decode_stream_frame codec (encode_h264_frame nal index sequence timestamp width height)
      ≡ ok (default_metadata, nal)
unfolding encode_h264_frame decode_metadata
decode-encode_h264 codec nal index sequence timestamp width height hn =
    decode_headed codec (encode_h264_frame nal index sequence timestamp width height) [] nal (
      rw (mod-eq_of_lt hn) (
        frame_header-IsHeaded StreamFrameType.h264 index h264_payload_flag sequence timestamp width
          height 0 0 (length nal) 0 nal hn (omega arith)))
