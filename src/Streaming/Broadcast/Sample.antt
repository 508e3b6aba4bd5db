-- ===== src/Streaming/Broadcast/Sample.antt =====
-- A small stream for the runs: two pixels in a row, and a socket that fails after three messages.
use mgba_server.Common.{ℕ, refl, List, [], ◌∷◌, none, drop, arith, false, err, length, ltb}
use mgba_server.Common.Text.{Text, text_eq}
use mgba_server.Common.Dict.{Dict}
use mgba_server.Streaming.Wire.{MetadataCodec}
use mgba_server.Streaming.FrameHub.{RawFrame, xrgb8888}
use mgba_server.Streaming.Metrics.{Floats}
use mgba_server.Streaming.H264.{OpenH264}
use mgba_server.Streaming.Pixels.Viewer.{Picture}
use mgba_server.Streaming.Broadcast.{Outside, BroadcastConfig}
use mgba_server.Streaming.Broadcast.Payload.{Geometry, IsTiling, IsStreamed}

abbrev pub mark : List ℕ → List ℕ
mark raw = 120 ∷ raw

abbrev pub unmark : List ℕ → List ℕ
unmark bytes = drop 1 bytes

abbrev pub encoder : OpenH264
encoder = record {
  luma = λ r g b. g;
  chroma_blue = λ r g b. b;
  chroma_red = λ r g b. r;
  Encoder = ℕ;
  with_api_config = err [];
  encode = λ e yuv width height. (err [], e);
}

abbrev pub codec : MetadataCodec
codec = record { Float = ℕ; to_vec = λ m. none; from_slice = λ bytes. none }

abbrev pub floats : Floats
floats = record { F = ℕ; zero_float = 0; quotient = λ a b. a }

-- The socket fails after three messages.
abbrev pub outside : Outside
outside = record {
  deflate = mark;
  codec = codec;
  floats = floats;
  openh264 = encoder;
  accepts = λ sent message. ltb (length sent) 3;
}

abbrev pub config : BroadcastConfig
config = record {
  keyframe_interval = 60;
  backpressure_limit = 1000;
  tile_size = 1;
  h264_enabled = false;
}

abbrev pub the_cache : Dict Text (List ℕ)
the_cache = []

abbrev pub black : Picture
black = λ x y. (0, 0, 0)

abbrev pub two_by_one : Geometry
two_by_one = record {
  width = 2;
  height = 1;
  pitch = 8;
  width_fits = omega arith;
  height_fits = omega arith;
}

pub tiles_of_one : IsTiling two_by_one 1
tiles_of_one = record { positive = omega arith; fits = omega arith; tiles_fit = omega arith }

abbrev pub frame : ℕ → RawFrame
frame n = record {
  width = 2;
  height = 1;
  pitch = 8;
  pixel_format = xrgb8888;
  bytes = 10 ∷ 20 ∷ 30 ∷ 0 ∷ n ∷ 21 ∷ 31 ∷ 0 ∷ [];
  sequence = n;
  timestamp_ms = 16;
}

pub frame-IsStreamed : (n : ℕ) → IsStreamed two_by_one (frame n)
frame-IsStreamed n = record {
  width_eq = refl;
  height_eq = refl;
  pitch_eq = refl;
  buffer = record { rows = omega arith; wide = omega arith; words = omega arith };
}
