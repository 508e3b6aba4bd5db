-- ===== src/Streaming/Pixels/Keyframe.antt =====
-- crates/streaming/src/protocol.rs: `encode_keyframe` and a viewer of its payload.
use native.Mathlib.Nat.{mod-eq_of_lt, mul-le-mul_right}
use mathlib.Core.List.{append-nil}
use mgba_server.Common.{ℕ, zero, suc, ◌+◌, ◌*◌, ◌%◌, ◌≤◌, ◌<◌, ◌≡◌, refl, ◌∙◌, List, [], arith}
use mgba_server.Common.Maybe.{◌>>=◌}
use mgba_server.Common.Bytes.{u32_mod}
use mgba_server.Streaming.Pixels.{
  keyframe_cols, keyframe_rows, tile_cols, tile_rows, encode_keyframe,
}
use mgba_server.Streaming.Pixels.Viewer.{Picture, show_keyframe, Shows, inside}
use mgba_server.Streaming.Pixels.Reads.{IsFrame, picture, offset-inside}
use mgba_server.Streaming.Pixels.Draw.{tile_rows-Pushed}

-- A keyframe is the tile that is the whole frame.
module _ (width height pitch : ℕ) (buf : List ℕ) (frame : IsFrame width height pitch buf) where
  keyframe_cols-tile_cols :
      (row count col : ℕ)
      → row < height
      → col + count ≤ width
      → keyframe_cols buf (row * pitch % u32_mod) count col ≡ tile_cols buf pitch 0 row count col
  unfolding keyframe_cols tile_cols
  keyframe_cols-tile_cols row zero col hy hx = refl
  keyframe_cols-tile_cols row (suc count) col hy hx =
      let (at, inside) = offset-inside width height pitch col row buf frame (omega arith) hy in
      let le : suc row * pitch ≤ height * pitch = mul-le-mul_right pitch hy in
      let words = frame.words in
      let wide = frame.wide in
      let start : row * pitch % u32_mod ≡ row * pitch =
        mod-eq_of_lt (omega (arith, le, words, wide, hx)) in
      let rest = keyframe_cols-tile_cols row count (col + 1) hy (omega arith) in
      let left : 0 + col ≡ col = omega arith in rw (left, at, keyframe_cols, rest, start) refl

  pub keyframe_rows-tile_rows :
      (count row : ℕ)
      → row + count ≤ height
      → keyframe_rows buf width pitch count row ≡ tile_rows buf pitch 0 0 width count row
  unfolding keyframe_rows tile_rows
  keyframe_rows-tile_rows zero row h = refl
  keyframe_rows-tile_rows (suc count) row h =
      let top : 0 + row ≡ row = omega arith in
      rw
        (
          top,
          keyframe_cols-tile_cols row width 0 (omega arith) (omega arith),
          keyframe_rows-tile_rows count (row + 1) (omega arith),
        )
        refl

  -- For a frame whose rows lie in the buffer at addresses of 32 bits, and a decompression that
  -- inverts the compression, `encode_keyframe` does not panic, and a viewer that decompresses its
  -- payload uses up all of it and shows the buffer's colours at every position of the frame, on top
  -- of any picture it had, which is unchanged outside the frame.
  pub encode_keyframe-Shows :
      (deflate inflate : List ℕ → List ℕ) (pic : Picture)
      → ((raw : List ℕ) → inflate (deflate raw) ≡ raw)
      → Shows (inside width height) (picture buf pitch) pic (
          encode_keyframe deflate buf width height pitch >>= λ payload.
          show_keyframe width height (inflate payload) pic)
  unfolding encode_keyframe show_keyframe
  encode_keyframe-Shows deflate inflate pic inverse =
      let same = keyframe_rows-tile_rows height 0 (omega arith) in
      let p =
        tile_rows-Pushed width height pitch buf frame 0 0 width height 0 (omega arith)
          (omega arith) in
      let drawn = rw (append-nil p.out) at (p.paints [] pic) in
      record {
        after = drawn.after;
        done = rw (same, p.done, inverse p.out, drawn.done) refl;
        pixels = λ x y. drawn.pixels x y ∙ ground arith;
      }
