-- ===== src/Streaming/Wire/Runs.antt =====
-- Runs of the codec, and its theorems at concrete inputs.
use mgba_server.Common.{ℕ, ◌≡◌, refl, List, [], ◌∷◌, ◌++◌, Option, none, some, ok, err, arith}
use mgba_server.Common.Text.{codes, text_beq}
use mgba_server.Streaming.Wire.{
  StreamFrameMetadata, MetadataCodec, EncodeParams, invalid_json, encode_stream_frame,
  encode_h264_frame, decode_stream_frame, default_metadata, encode_metadata, StreamFrameType,
}
use mgba_server.Streaming.Wire.RoundTrip.{decode-encode, decode-encode_h264}
use mgba_server.Streaming.Wire.Errors.{decode-append}

-- A stand-in for `serde_json`: a time stamp is its own byte, other fields are not written.
abbrev sample_read : List ℕ → Option (StreamFrameMetadata ℕ)
sample_read [] = none
sample_read (t ∷ bytes) = some (record {
  causality = none;
  source_capture_started_at_ms = none;
  source_captured_at_ms = some t;
})

abbrev sample_codec : MetadataCodec
sample_codec = record {
  Float = ℕ;
  to_vec = λ m. elim m.source_captured_at_ms [ none ↦ none | some t ↦ some (t ∷ []) ];
  from_slice = sample_read;
}

abbrev sample_metadata : StreamFrameMetadata ℕ
sample_metadata = record {
  causality = none;
  source_capture_started_at_ms = none;
  source_captured_at_ms = some 34;
}

-- The frame of the test `encode_known_frame_matches_wire_format_spec`.
abbrev known_frame : StreamFrameMetadata ℕ → EncodeParams ℕ
known_frame m = record {
  frame_type = StreamFrameType.keyframe;
  instance_index = 4;
  sequence = 0x0102_0304;
  timestamp_ms = 0x0506_0708;
  width = 0x0100;
  height = 0x00a0;
  tile_size = 0x0010;
  raw_bytes = 0x0002_5800;
  metadata = m;
  payload = 1 ∷ 2 ∷ 3 ∷ [];
}

known_bytes :
    encode_stream_frame sample_codec (known_frame default_metadata)
    ≡ codes "PSMG"
      ++ (2 ∷ 1 ∷ 4 ∷ 1 ∷ 1 ∷ 2 ∷ 3 ∷ 4 ∷ 5 ∷ 6 ∷ 7 ∷ 8 ∷ 1 ∷ 0 ∷ 0 ∷ 0xa0 ∷ 0 ∷ 0x10 ∷ 0 ∷ 2 ∷ 0x58
          ∷ 0 ∷ 0 ∷ 0 ∷ 0 ∷ 3 ∷ 0 ∷ 0 ∷ 0 ∷ 0 ∷ 1 ∷ 2 ∷ 3 ∷ [])
unfolding encode_stream_frame encode_metadata
known_bytes = refl

decode_bad_magic :
    decode_stream_frame sample_codec (codes "JPEG-ish, but longer than thirty-four bytes")
    ≡ err (invalid_json (codes "invalid magic"))
unfolding decode_stream_frame text_beq
decode_bad_magic = refl

decode-encode_example :
    decode_stream_frame sample_codec
      (encode_stream_frame sample_codec (known_frame sample_metadata))
    ≡ ok (sample_metadata, 1 ∷ 2 ∷ 3 ∷ [])
decode-encode_example =
    decode-encode sample_codec (known_frame sample_metadata) (34 ∷ []) refl refl refl (omega arith)
      (omega arith) (omega arith)

decode-append_example :
    decode_stream_frame sample_codec (encode_h264_frame (7 ∷ []) 0 1 1000 240 160 ++ (9 ∷ []))
    ≡ err (invalid_json (codes "length mismatch"))
decode-append_example =
    decode-append sample_codec (encode_h264_frame (7 ∷ []) 0 1 1000 240 160) (7 ∷ []) [] 9
      default_metadata (decode-encode_h264 sample_codec (7 ∷ []) 0 1 1000 240 160 (omega arith))
