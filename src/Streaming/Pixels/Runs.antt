-- ===== src/Streaming/Pixels/Runs.antt =====
-- Runs of the pixel encoders, and their theorems at concrete frames.
use mgba_server.Common.{ℕ, ◌≡◌, refl, List, [], ◌∷◌, some, drop, arith}
use mgba_server.Common.Maybe.{◌>>=◌}
use mgba_server.Common.Bytes.{be16}
use mgba_server.Common.Text.{text_beq}
use mgba_server.Streaming.Pixels.{
  encode_keyframe, keyframe_rows, keyframe_cols, rgba_at, encode_delta, tiles_rows, tiles_row,
  tile_at, rows_changed, cols_changed, quad, tile_rows, tile_cols, tile_bytes,
}
use mgba_server.Streaming.Pixels.Viewer.{Picture, Shows, inside, show_keyframe, show_delta}
use mgba_server.Streaming.Pixels.Reads.{IsFrame, picture}
use mgba_server.Streaming.Pixels.Keyframe.{encode_keyframe-Shows}
use mgba_server.Streaming.Pixels.Delta.{encode_delta-Shows}

-- Bytes with a mark in front stand for the compressed ones.
abbrev mark : List ℕ → List ℕ
mark raw = 120 ∷ raw

abbrev unmark : List ℕ → List ℕ
unmark bytes = drop 1 bytes

abbrev black : Picture
black = λ x y. (0, 0, 0)

-- Two pixels in a row, and the same with another one on the right.
abbrev before : List ℕ
before = 10 ∷ 20 ∷ 30 ∷ 0 ∷ 11 ∷ 21 ∷ 31 ∷ 0 ∷ []

abbrev after : List ℕ
after = 10 ∷ 20 ∷ 30 ∷ 0 ∷ 12 ∷ 22 ∷ 32 ∷ 0 ∷ []

before-IsFrame : IsFrame 2 1 8 before
before-IsFrame = record { rows = omega arith; wide = omega arith; words = omega arith }

after-IsFrame : IsFrame 2 1 8 after
after-IsFrame = record { rows = omega arith; wide = omega arith; words = omega arith }

keyframe_of_two :
    encode_keyframe mark before 2 1 8 ≡ some (120 ∷ 30 ∷ 20 ∷ 10 ∷ 255 ∷ 31 ∷ 21 ∷ 11 ∷ 255 ∷ [])
unfolding encode_keyframe keyframe_rows keyframe_cols rgba_at
keyframe_of_two = refl

-- One tile of one pixel at (1, 0).
delta_of_two :
    encode_delta mark before after 2 1 8 1
    ≡ some (120 ∷ 0 ∷ 1 ∷ 0 ∷ 1 ∷ 0 ∷ 0 ∷ 0 ∷ 1 ∷ 0 ∷ 1 ∷ 32 ∷ 22 ∷ 12 ∷ 255 ∷ [])
unfolding encode_delta tiles_rows tiles_row tile_at rows_changed cols_changed quad tile_rows
    tile_cols rgba_at tile_bytes be16 text_beq
delta_of_two = refl

encode_keyframe-Shows_example :
    Shows
      (inside 2 1)
      (picture before 8)
      black
      (encode_keyframe mark before 2 1 8 >>= λ payload. show_keyframe 2 1 (unmark payload) black)
encode_keyframe-Shows_example =
    encode_keyframe-Shows 2 1 8 before before-IsFrame mark unmark black (λ raw. refl)

encode_delta-Shows_example : Shows (inside 2 1) (picture after 8) (picture before 8) (
    encode_delta mark before after 2 1 8 1 >>= λ payload.
    show_delta (unmark payload) (picture before 8))
encode_delta-Shows_example =
    encode_delta-Shows 2 1 8 before after before-IsFrame after-IsFrame (picture before 8)
      (λ i j h. refl) 1 (omega arith) (omega arith) (omega arith) (omega arith) mark unmark
      (λ raw. refl) (omega arith)
