-- ===== src/Streaming/Broadcast.antt =====
-- crates/streaming/src/broadcast.rs: what a stream does with a frame, from the choice of its encoding to
-- the answer of the socket. The socket is the parameter `accepts`: whether a send succeeds after the
-- messages that were sent before. `none` is a panic.
pub mod Dashboard
pub mod Viewer
pub mod Payload
pub mod Nal
pub mod InSync
pub mod Session
mod Sample
mod Runs
use mgba_server.Common.{
  ℕ, ◌+◌, ◌*◌, ◌%◌, Bool, true, false, ◌&&◌, ◌||◌, List, [], ◌∷◌, Option, none, some, length, ltb,
  ◌==◌, if◌then◌else◌, Result, ok, err, is_some,
}
use mgba_server.Common.Maybe.{◌>>=◌}
use mgba_server.Common.Text.{Text, text_eq}
use mgba_server.Common.Bytes.{u16_mod, u32_mod}
use mgba_server.Common.Dict.{Dict, lookup, insert}
use mgba_server.Streaming.Wire.{
  StreamFrameType, keyframe, delta, h264, MetadataCodec, default_metadata, encode_stream_frame,
  encode_h264_frame,
}
use mgba_server.Streaming.FrameHub.{RawFrame}
use mgba_server.Streaming.Pixels.{encode_keyframe, encode_delta}
use mgba_server.Streaming.Metrics.{Floats, StreamMetrics, record_produced, record_delivery}
use mgba_server.Streaming.H264.{OpenH264, H264Error, H264Encoder}
use mgba_server.Streaming.H264

pub record BroadcastConfig : Type 0 where
  pub keyframe_interval : ℕ
  pub backpressure_limit : ℕ
  pub tile_size : ℕ
  pub h264_enabled : Bool

-- `BroadcastConfig::default()`
abbrev pub default_config : BroadcastConfig
default_config = record {
  keyframe_interval = 60;
  backpressure_limit = 262144;
  tile_size = 16;
  h264_enabled = false;
}

abbrev pub is_keyframe : StreamFrameType → Bool
is_keyframe keyframe = true
is_keyframe delta = false
is_keyframe h264 = false

abbrev pub is_delta : StreamFrameType → Bool
is_delta keyframe = false
is_delta delta = true
is_delta h264 = false

-- The code that a stream calls: the compression, JSON, quotients, the encoder, the socket.
pub record Outside : Type 1 where
  pub deflate : List ℕ → List ℕ
  pub codec : MetadataCodec
  pub floats : Floats
  pub openh264 : OpenH264
  pub accepts : (sent : List (List ℕ)) → List ℕ → Bool

module _ (outside : Outside) where
  abbrev pub keyframe_payload : RawFrame → Option (StreamFrameType × List ℕ)
  keyframe_payload frame = do
    payload ← encode_keyframe outside.deflate frame.bytes frame.width frame.height frame.pitch
    some (keyframe, payload)

  abbrev pub delta_payload : RawFrame → RawFrame → ℕ → Option (StreamFrameType × List ℕ)
  delta_payload prev frame tile_size = do
    payload ←
        encode_delta outside.deflate prev.bytes frame.bytes frame.width frame.height frame.pitch
          tile_size
    some (delta, payload)

  -- The previous frame, then `force_keyframe`.
  unfoldable pub encode_frame_payload :
      RawFrame → Option RawFrame → Bool → (tile_size : ℕ) → Option (StreamFrameType × List ℕ)
  encode_frame_payload frame none force tile_size = keyframe_payload frame
  encode_frame_payload frame (some prev) true tile_size = keyframe_payload frame
  encode_frame_payload frame (some prev) false tile_size = delta_payload prev frame tile_size

  unfoldable pub encode_raw_frame :
      RawFrame → StreamFrameType → List ℕ → (instance_index tile_size : ℕ) → List ℕ
  encode_raw_frame frame frame_type payload instance_index tile_size =
      encode_stream_frame outside.codec (record {
        frame_type = frame_type;
        instance_index = instance_index;
        sequence = frame.sequence % u32_mod;
        timestamp_ms = frame.timestamp_ms % u32_mod;
        width = frame.width % u16_mod;
        height = frame.height % u16_mod;
        tile_size = tile_size;
        raw_bytes = frame.width * frame.height % u32_mod * 4 % u32_mod;
        metadata = default_metadata;
        payload = payload;
      })

  -- The messages that were sent, the latest first.
  unfoldable pub send_binary_with_backpressure :
      List ℕ → (backpressure_limit : ℕ) → List (List ℕ) → Result (Unit {0}) Bool × List (List ℕ)
  send_binary_with_backpressure bytes limit sent =
      if ltb limit (length bytes)
      then (ok false, sent)
      else if outside.accepts sent bytes
      then (ok true, bytes ∷ sent)
      else (err tt, sent)

  -- The variables of `handle_instance_stream`, and what it shares with other streams.
  pub record InstanceStream : Type 0 where
    pub prev_frame : Option RawFrame
    pub frame_count : ℕ
    pub recovery_mode : Bool
    pub h264_encoder : Option (H264Encoder outside.openh264)
    pub keyframe_cache : Dict Text (List ℕ)
    pub metrics : StreamMetrics outside.floats.F
    pub sent : List (List ℕ)

  -- An iteration of the loop goes on or breaks.
  pub data Turn (S : Type 0) : Type 0 where
    continues : S → Turn S
    breaks : S → Turn S

  abbrev pub created :
      Result H264Error (H264Encoder outside.openh264) → Option (H264Encoder outside.openh264)
  created (ok encoder) = some encoder
  created (err e) = none

  -- `if h264_encoder.is_none() { .. }`
  abbrev pub ready_encoder :
      RawFrame → Option (H264Encoder outside.openh264) → Option (H264Encoder outside.openh264)
  ready_encoder frame (some encoder) = some encoder
  ready_encoder frame none = created (H264.new outside.openh264 frame.width frame.height)

  abbrev pub send_nal :
      RawFrame
      → ℕ
      → ℕ
      → Result H264Error (List ℕ) × H264Encoder outside.openh264
      → InstanceStream
      → InstanceStream
  send_nal frame index limit (err e, encoder) s = record s { h264_encoder = some encoder }
  send_nal frame index limit (ok [], encoder) s = record s { h264_encoder = some encoder }
  send_nal frame index limit (ok (b ∷ bytes), encoder) s =
      let message =
        encode_h264_frame (b ∷ bytes) index (frame.sequence % u32_mod)
          (frame.timestamp_ms % u32_mod) (frame.width % u16_mod) (frame.height % u16_mod) in
      record s {
        h264_encoder = some encoder;
        sent = (send_binary_with_backpressure message limit s.sent).1;
      }

  abbrev pub send_with :
      RawFrame
      → ℕ
      → ℕ
      → Option (H264Encoder outside.openh264)
      → InstanceStream
      → Option InstanceStream
  send_with frame index limit none s = some (record s { h264_encoder = none })
  send_with frame index limit (some encoder) s = do
    encoded ← H264.encode outside.openh264 frame encoder
    some (send_nal frame index limit encoded s)

  unfoldable pub send_h264_frame :
      RawFrame → (instance_index backpressure_limit : ℕ) → InstanceStream → Option InstanceStream
  unfolding send_binary_with_backpressure
  send_h264_frame frame index limit s =
      send_with frame index limit (ready_encoder frame s.h264_encoder) s

  abbrev pub send_h264_if :
      Bool
      → RawFrame
      → (instance_index backpressure_limit : ℕ) → InstanceStream
      → Option InstanceStream
  send_h264_if false frame index limit s = some s
  send_h264_if true frame index limit s = send_h264_frame frame index limit s

  -- A delta that was dropped asks for a keyframe.
  abbrev pub dropped : StreamFrameType → InstanceStream → InstanceStream
  dropped frame_type s = if is_delta frame_type then record s { recovery_mode = true } else s

  module _ (config : BroadcastConfig) (instance_id : Text) (instance_index : ℕ) where
    -- The answer of `send_binary_with_backpressure`, with the messages that are sent then.
    abbrev pub delivered :
        RawFrame
        → StreamFrameType
        → Result (Unit {0}) Bool × List (List ℕ)
        → InstanceStream
        → Option (Turn InstanceStream)
    delivered frame frame_type (ok true, sent) s = do
      s' ←
          send_h264_if config.h264_enabled frame instance_index config.backpressure_limit
            (record s {
              sent = sent;
              metrics = record_delivery outside.floats instance_id true false s.metrics;
            })
      some (continues (record s' { prev_frame = some frame }))
    delivered frame frame_type (ok false, sent) s = some (
        continues (
          dropped frame_type (record s {
            sent = sent;
            metrics = record_delivery outside.floats instance_id false false s.metrics;
          })))
    delivered frame frame_type (err e, sent) s = some (breaks (record s { sent = sent }))

    -- A keyframe is cached and ends the recovery.
    abbrev pub cached : StreamFrameType → List ℕ → InstanceStream → InstanceStream
    cached frame_type encoded s =
        if is_keyframe frame_type
        then record s {
          keyframe_cache = insert instance_id encoded s.keyframe_cache;
          recovery_mode = false;
        }
        else s

    -- The body of the loop from `frame_count` on.
    unfoldable pub instance_frame : RawFrame → InstanceStream → Option (Turn InstanceStream)
    unfolding encode_frame_payload encode_raw_frame send_binary_with_backpressure send_h264_frame
    instance_frame frame s =
        let count = (s.frame_count + 1) % u32_mod in
        if config.keyframe_interval == 0 then none else (do
          let force = (count % config.keyframe_interval == 1) || s.recovery_mode
          (frame_type, payload) ← encode_frame_payload frame s.prev_frame force config.tile_size
          let encoded = encode_raw_frame frame frame_type payload instance_index config.tile_size
          let s' = cached frame_type encoded (record s { frame_count = count })
          let size = length encoded
          let metrics =
              record_produced outside.floats instance_id size (is_keyframe frame_type) s'.metrics
          delivered frame frame_type
              (send_binary_with_backpressure encoded config.backpressure_limit s'.sent)
              (record s' { metrics = metrics }))

    abbrev pub after_cached :
        Result (Unit {0}) Bool × List (List ℕ) → InstanceStream → Turn InstanceStream
    after_cached (ok sent_it, sent) s = continues (record s { sent = sent })
    after_cached (err e, sent) s = breaks s

    -- A new stream sends the cached keyframe, if there is one.
    abbrev pub greet : Option (List ℕ) → InstanceStream → Turn InstanceStream
    greet none s = continues s
    greet (some kf) s =
        after_cached (send_binary_with_backpressure kf config.backpressure_limit s.sent) s

    unfoldable pub open_instance_stream :
        Dict Text (List ℕ) → StreamMetrics outside.floats.F → Turn InstanceStream
    unfolding send_binary_with_backpressure
    open_instance_stream cache metrics = greet (lookup instance_id cache) (record {
      prev_frame = none;
      frame_count = 0;
      recovery_mode = false;
      h264_encoder = none;
      keyframe_cache = cache;
      metrics = metrics;
      sent = [];
    })

    abbrev pub and_then :
        Option (Turn InstanceStream)
        → (InstanceStream → Option (Turn InstanceStream))
        → Option (Turn InstanceStream)
    and_then none f = none
    and_then (some (continues s)) f = f s
    and_then (some (breaks s)) f = some (breaks s)

    -- The frames that the channel holds when the loop reads it, the latest first.
    unfoldable pub instance_frames : List RawFrame → InstanceStream → Option (Turn InstanceStream)
    unfolding instance_frame
    instance_frames [] s = some (continues s)
    instance_frames (frame ∷ earlier) s =
        and_then (instance_frames earlier s) (λ s'. instance_frame frame s')
