-- ===== src/Streaming/H264.antt =====
-- crates/streaming/src/h264.rs: the conversion to planes and the checks in front of the encoder, which
-- is the parameter `openh264`. The `f32` formulas of a pixel are a parameter; `none` is a panic.
pub mod Planes
mod Runs
use mgba_server.Common.{
  ℕ, zero, suc, ◌+◌, ◌*◌, ◌/◌, ◌%◌, Bool, true, false, not, ◌&&◌, ◌||◌, List, [], ◌∷◌, ◌++◌, Option,
  none, some, length, get_elem?, leb, ◌==◌, if◌then◌else◌, Result, ok, err,
}
use mgba_server.Common.Maybe.{◌>>=◌, unwrap_or}
use mgba_server.Common.Text.{Text}
use mgba_server.Streaming.FrameHub.{PixelFormat, xrgb8888, rgb565, RawFrame}

pub data H264Error : Type 0 where
  init : Text → H264Error
  unsupported_pixel_format : PixelFormat → H264Error
  dimension_mismatch : (expected_width expected_height actual_width actual_height : ℕ) → H264Error
  encode_failed : Text → H264Error

-- The formulas, from red, green and blue to a byte, and the encoder with its errors as texts.
pub record OpenH264 : Type 1 where
  pub luma : ℕ → ℕ → ℕ → ℕ
  pub chroma_blue : ℕ → ℕ → ℕ → ℕ
  pub chroma_red : ℕ → ℕ → ℕ → ℕ
  pub Encoder : Type 0
  pub with_api_config : Result Text Encoder
  pub encode : Encoder → (yuv : List ℕ) → (width height : ℕ) → Result Text (List ℕ) × Encoder

pub record YuvPlanes : Type 0 where
  pub y : List ℕ
  pub u : List ℕ
  pub v : List ℕ

-- `xs[i] = x`
unfoldable pub store : List ℕ → ℕ → ℕ → Option (List ℕ)
store [] i x = none
store (y ∷ ys) zero x = some (x ∷ ys)
store (y ∷ ys) (suc i) x = do rest ← store ys i x; some (y ∷ rest)

abbrev pub replicate : ℕ → ℕ → List ℕ
replicate zero x = []
replicate (suc n) x = x ∷ replicate n x

abbrev pub is_xrgb8888 : PixelFormat → Bool
is_xrgb8888 xrgb8888 = true
is_xrgb8888 rgb565 = false

module _ (openh264 : OpenH264) where
  -- The two chroma bytes of a pixel whose row and column are even.
  unfoldable pub store_chroma : (w row col r g b : ℕ) → YuvPlanes → Option YuvPlanes
  unfolding store
  store_chroma w row col r g b planes = do
    u ← store planes.u (row / 2 * (w / 2) + col / 2) (openh264.chroma_blue r g b)
    v ← store planes.v (row / 2 * (w / 2) + col / 2) (openh264.chroma_red r g b)
    some (record planes { u = u; v = v })

  -- The body of the loop over the columns, from the pixel's bytes on.
  unfoldable pub store_pixel : (w row col r g b : ℕ) → YuvPlanes → Option YuvPlanes
  unfolding store_chroma
  store_pixel w row col r g b planes = do
    y ← store planes.y (row * w + col) (openh264.luma r g b)
    let planes' = record planes { y = y }
    if row % 2 == 0 && col % 2 == 0 then store_chroma w row col r g b planes' else some planes'

  -- A pixel that the data ends before ends the row. Native addresses do not wrap.
  unfoldable pub convert_cols : List ℕ → (w p row count col : ℕ) → YuvPlanes → Option YuvPlanes
  unfolding store_pixel
  convert_cols bytes w p row zero col planes = some planes
  convert_cols bytes w p row (suc count) col planes =
      if leb (length bytes) (row * p + col * 4 + 3) then some planes else (do
        b ← get_elem? bytes (row * p + col * 4)
        g ← get_elem? bytes (row * p + col * 4 + 1)
        r ← get_elem? bytes (row * p + col * 4 + 2)
        planes' ← store_pixel w row col r g b planes
        convert_cols bytes w p row count (col + 1) planes')

  unfoldable pub convert_rows : List ℕ → (w p count row : ℕ) → YuvPlanes → Option YuvPlanes
  unfolding convert_cols
  convert_rows bytes w p zero row planes = some planes
  convert_rows bytes w p (suc count) row planes = do
    planes' ← convert_cols bytes w p row w 0 planes
    convert_rows bytes w p count (row + 1) planes'

  unfoldable pub xrgb8888_to_yuv420 : List ℕ → (width height pitch : ℕ) → Option YuvPlanes
  unfolding convert_rows
  xrgb8888_to_yuv420 bytes width height pitch = convert_rows bytes width pitch height 0 (record {
    y = replicate (width * height) 0;
    u = replicate (width / 2 * (height / 2)) 128;
    v = replicate (width / 2 * (height / 2)) 128;
  })

  pub record H264Encoder : Type 0 where
    pub encoder : openh264.Encoder
    pub width : ℕ
    pub height : ℕ

  abbrev pub with_encoder :
      (width height : ℕ) → Result Text openh264.Encoder → Result H264Error H264Encoder
  with_encoder width height (ok e) = ok (record { encoder = e; width = width; height = height })
  with_encoder width height (err e) = err (init e)

  unfoldable pub new : (width height : ℕ) → Result H264Error H264Encoder
  new width height = with_encoder width height openh264.with_api_config

  abbrev pub encoded :
      Result Text (List ℕ) × openh264.Encoder
      → H264Encoder
      → Result H264Error (List ℕ) × H264Encoder
  encoded (ok nal, e) self = (ok nal, record self { encoder = e })
  encoded (err t, e) self = (err (encode_failed t), record self { encoder = e })

  -- `none` is a panic of the conversion.
  unfoldable pub encode : RawFrame → H264Encoder → Option (Result H264Error (List ℕ) × H264Encoder)
  unfolding xrgb8888_to_yuv420
  encode frame self =
      if not (is_xrgb8888 frame.pixel_format)
      then some (err (unsupported_pixel_format frame.pixel_format), self)
      else if not (frame.width == self.width) || not (frame.height == self.height)
      then some (err (dimension_mismatch self.width self.height frame.width frame.height), self)
      else (do
        yuv ← xrgb8888_to_yuv420 frame.bytes frame.width frame.height frame.pitch
        some (
            encoded
              (openh264.encode self.encoder (yuv.y ++ (yuv.u ++ yuv.v)) frame.width frame.height)
              self))
