-- ===== src/Streaming/H264/Runs.antt =====
-- Runs of the conversion to planes, and its theorem at a concrete frame.
use mgba_server.Common.{ℕ, ◌≡◌, refl, List, [], ◌∷◌, none, err}
use mgba_server.Streaming.H264.{
  OpenH264, store, store_chroma, store_pixel, convert_cols, convert_rows, xrgb8888_to_yuv420,
}
use mgba_server.Streaming.H264.Planes.{Converts, xrgb8888_to_yuv420-Converts}

-- One colour for each plane, and an encoder that cannot be made.
abbrev one_colour : OpenH264
one_colour = record {
  luma = λ r g b. g;
  chroma_blue = λ r g b. b;
  chroma_red = λ r g b. r;
  Encoder = ℕ;
  with_api_config = err [];
  encode = λ e yuv width height. (err [], e);
}

abbrev two_pixels : List ℕ
two_pixels = 10 ∷ 20 ∷ 30 ∷ 0 ∷ 11 ∷ 21 ∷ 31 ∷ 0 ∷ []

xrgb8888_to_yuv420-Converts_example : Converts 2 2 (xrgb8888_to_yuv420 one_colour two_pixels 2 2 8)
xrgb8888_to_yuv420-Converts_example =
    xrgb8888_to_yuv420-Converts one_colour 2 2 refl refl two_pixels 8

-- Three columns: the third one's chroma is outside of the planes.
odd_width :
    xrgb8888_to_yuv420 one_colour
      (10 ∷ 20 ∷ 30 ∷ 0 ∷ 11 ∷ 21 ∷ 31 ∷ 0 ∷ 12 ∷ 22 ∷ 32 ∷ 0 ∷ [])
      3
      2
      12
    ≡ none
unfolding xrgb8888_to_yuv420 convert_rows convert_cols store_pixel store_chroma store
odd_width = refl
