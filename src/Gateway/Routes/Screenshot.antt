-- ===== src/Gateway/Routes/Screenshot.antt =====
-- crates/gateway/src/lib.rs: the pixels of a screenshot and those of a keyframe.
use native.Mathlib.Nat.{mod-eq_of_lt, mul-le-mul_right}
use mgba_server.Common.{
  ℕ, zero, suc, ◌+◌, ◌*◌, ◌%◌, ◌≤◌, ◌<◌, ◌≡◌, refl, true, false, List, [], ◌∷◌, ◌++◌, Option, none,
  some, Result, ok, err, leb, length, arith,
}
use mgba_server.Common.Text.{Text, codes}
use mgba_server.Common.Bytes.{u32_mod}
use mgba_server.Streaming.FrameHub.{RawFrame, xrgb8888}
use mgba_server.Streaming.H264.{is_xrgb8888}
use mgba_server.Streaming.Pixels.{keyframe_cols, keyframe_rows}
use mgba_server.Streaming.Pixels.Reads.{IsFrame, byte, rgba_at-colour}
use mgba_server.Gateway.Routes.{png_cols, png_rows, xrgb8888_to_png}

-- The same bytes.
record Agrees (r : Result Text (List ℕ)) (k : Option (List ℕ)) : Type 0 where
  pixels : List ℕ
  as_result : r ≡ ok pixels
  as_option : k ≡ some pixels

module _ (width height pitch : ℕ) (bytes : List ℕ) (frame : IsFrame width height pitch bytes) where
  png_cols-keyframe_cols :
      (y count x : ℕ)
      → y < height
      → x + count ≤ width
      → Agrees (png_cols bytes pitch y count x) (keyframe_cols bytes (y * pitch % u32_mod) count x)
  unfolding png_cols keyframe_cols byte
  png_cols-keyframe_cols y zero x hy hx = record { pixels = []; as_result = refl; as_option = refl }
  png_cols-keyframe_cols y (suc count) x hy hx =
      let rest = png_cols-keyframe_cols y count (x + 1) hy (omega arith) in
      let le : suc y * pitch ≤ height * pitch = mul-le-mul_right pitch hy in
      let rows = frame.rows in
      let words = frame.words in
      let wide = frame.wide in
      let start : y * pitch % u32_mod ≡ y * pitch =
        mod-eq_of_lt (omega (arith, le, words, wide, hx)) in
      let inside : leb (length bytes) (y * pitch + x * 4 + 3) ≡ false =
        ground (arith, le, rows, wide, hx) in
      let colour = rgba_at-colour bytes (y * pitch + x * 4) (omega (arith, le, rows, wide, hx)) in
      record {
        pixels =
            byte bytes (y * pitch + x * 4 + 2)
            ∷ byte bytes (y * pitch + x * 4 + 1)
            ∷ byte bytes (y * pitch + x * 4)
            ∷ 255
            ∷ rest.pixels;
        as_result = rw (inside, rest.as_result) refl;
        as_option = rw (keyframe_cols, rest.as_option, start, colour) refl;
      }

  png_rows-keyframe_rows :
      (count y : ℕ)
      → y + count ≤ height
      → Agrees (png_rows bytes width pitch count y) (keyframe_rows bytes width pitch count y)
  unfolding png_rows keyframe_rows
  png_rows-keyframe_rows zero y h = record { pixels = []; as_result = refl; as_option = refl }
  png_rows-keyframe_rows (suc count) y h =
      let row = png_cols-keyframe_cols y width 0 (omega arith) (omega arith) in
      let rest = png_rows-keyframe_rows count (y + 1) (omega arith) in
      record {
        pixels = row.pixels ++ rest.pixels;
        as_result = rw (row.as_result, rest.as_result) refl;
        as_option = rw (row.as_option, rest.as_option) refl;
      }

-- The image of a keyframe's pixels.
abbrev pub keyframe_image :
    ((width height : ℕ) → List ℕ → Result Text (List ℕ))
    → RawFrame
    → Option (List ℕ)
    → Result Text (List ℕ)
keyframe_image write_png frame none = err (codes "frame buffer is too small")
keyframe_image write_png frame (some rgba) = write_png frame.width frame.height rgba

-- For an XRGB8888 frame whose rows lie in its buffer at addresses of 32 bits, a screenshot is the image
-- of the very pixels that a keyframe of the frame has.
pub xrgb8888_to_png-keyframe :
    (write_png : (width height : ℕ) → List ℕ → Result Text (List ℕ)) (frame : RawFrame)
    → frame.pixel_format ≡ xrgb8888
    → IsFrame frame.width frame.height frame.pitch frame.bytes
    → xrgb8888_to_png write_png frame
      ≡ keyframe_image write_png frame
          (keyframe_rows frame.bytes frame.width frame.pitch frame.height 0)
unfolding xrgb8888_to_png
xrgb8888_to_png-keyframe write_png frame format buffer =
    let a =
      png_rows-keyframe_rows frame.width frame.height frame.pitch frame.bytes buffer frame.height 0
        (omega arith) in
    let right : is_xrgb8888 frame.pixel_format ≡ true = rw format refl in
    rw (right, a.as_result, a.as_option) refl
