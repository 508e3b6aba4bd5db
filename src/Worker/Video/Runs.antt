-- ===== src/Worker/Video/Runs.antt =====
-- Runs of the frame conversion, and its theorem at a concrete frame.
use mgba_server.Common.{ℕ, ◌≡◌, refl, List, [], ◌∷◌, some, arith}
use mgba_server.Common.Bytes.{from_le16}
use mgba_server.Worker.Video.{
  VideoPixelFormat, expand_5bit_to_8bit, expand_6bit_to_8bit, convert_rgb565_row, convert_rows,
  convert_video_frame_to_xrgb8888,
}
use mgba_server.Worker.Video.Size.{HasLength, convert_video_frame-HasLength}

-- The least and the greatest values of a channel, and one between them.
five_bits :
    (expand_5bit_to_8bit 0 ≡ 0) × (expand_5bit_to_8bit 31 ≡ 255) × (expand_5bit_to_8bit 16 ≡ 132)
unfolding expand_5bit_to_8bit
five_bits = (refl, refl, refl)

-- Two rows of one red pixel, with two bytes after each.
abbrev red : List ℕ
red = 0 ∷ 248 ∷ 9 ∷ 9 ∷ 0 ∷ 248 ∷ 9 ∷ 9 ∷ []

converts_red :
    convert_video_frame_to_xrgb8888 red 1 2 4 VideoPixelFormat.rgb565
    ≡ some (0 ∷ 0 ∷ 255 ∷ 255 ∷ 0 ∷ 0 ∷ 255 ∷ 255 ∷ [])
unfolding convert_video_frame_to_xrgb8888 convert_rows convert_rgb565_row expand_5bit_to_8bit
    expand_6bit_to_8bit from_le16
converts_red = refl

convert_video_frame-HasLength_example :
    HasLength 8 (convert_video_frame_to_xrgb8888 red 1 2 4 VideoPixelFormat.rgb565)
convert_video_frame-HasLength_example =
    convert_video_frame-HasLength VideoPixelFormat.rgb565 red 1 2 4 (omega arith) (omega arith)
      (omega arith) (omega arith) (omega arith)
