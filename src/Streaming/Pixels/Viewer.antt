-- ===== src/Streaming/Pixels/Viewer.antt =====
-- A viewer of the stream: what the payloads that `encode_keyframe` and `encode_delta` compress mean as
-- changes of a picture. It is a description of the format and models no file.
use mgba_server.Common.{
  ℕ, zero, suc, ◌+◌, ◌*◌, Bool, ◌&&◌, List, [], ◌∷◌, Option, none, some, ltb, ◌==◌, ◌≡◌,
  if◌then◌else◌,
}
use mgba_server.Common.Maybe.{◌>>=◌}

-- Red, green and blue of each position.
abbrev pub Colour : Type 0
Colour = ℕ × ℕ × ℕ

abbrev pub Picture : Type 0
Picture = ℕ → ℕ → Colour

abbrev pub set_pixel : ℕ → ℕ → Colour → Picture → Picture
set_pixel x y c pic = λ i j. if i == x && j == y then c else pic i j

-- `count` pixels from (x, y) to the right, four bytes for each; what is left of the bytes.
unfoldable pub draw_cols : ℕ → ℕ → ℕ → List ℕ → Picture → Option (Picture × List ℕ)
draw_cols zero x y bytes pic = some (pic, bytes)
draw_cols (suc count) x y [] pic = none
draw_cols (suc count) x y (r ∷ []) pic = none
draw_cols (suc count) x y (r ∷ g ∷ []) pic = none
draw_cols (suc count) x y (r ∷ g ∷ b ∷ []) pic = none
draw_cols (suc count) x y (r ∷ g ∷ b ∷ a ∷ bytes) pic =
    draw_cols count (x + 1) y bytes (set_pixel x y (r, g, b) pic)

unfoldable pub draw_rows : ℕ → ℕ → ℕ → ℕ → List ℕ → Picture → Option (Picture × List ℕ)
unfolding draw_cols
draw_rows zero x y w bytes pic = some (pic, bytes)
draw_rows (suc count) x y w bytes pic = do
  (pic', rest) ← draw_cols w x y bytes pic
  draw_rows count x (y + 1) w rest pic'

unfoldable pub read_u16 : List ℕ → Option (ℕ × List ℕ)
read_u16 [] = none
read_u16 (a ∷ []) = none
read_u16 (a ∷ b ∷ bytes) = some (a * 256 + b, bytes)

-- Tiles of x, y, width, height and their pixels.
unfoldable pub draw_tiles : ℕ → List ℕ → Picture → Option (Picture × List ℕ)
unfolding draw_rows read_u16
draw_tiles zero bytes pic = some (pic, bytes)
draw_tiles (suc count) bytes pic = do
  (x, bytes₁) ← read_u16 bytes
  (y, bytes₂) ← read_u16 bytes₁
  (w, bytes₃) ← read_u16 bytes₂
  (h, bytes₄) ← read_u16 bytes₃
  (pic', rest) ← draw_rows h x y w bytes₄ pic
  draw_tiles count rest pic'

-- A payload must be used up.
abbrev pub finished : Option (Picture × List ℕ) → Option Picture
finished none = none
finished (some (pic, [])) = some pic
finished (some (pic, b ∷ bytes)) = none

unfoldable pub show_keyframe : ℕ → ℕ → List ℕ → Picture → Option Picture
unfolding draw_rows
show_keyframe width height raw pic = finished (draw_rows height 0 0 width raw pic)

unfoldable pub show_delta : List ℕ → Picture → Option Picture
unfolding draw_tiles read_u16
show_delta raw pic = finished (do (count, bytes) ← read_u16 raw; draw_tiles count bytes pic)

-- The positions of a frame.
abbrev pub inside : ℕ → ℕ → ℕ → ℕ → Bool
inside width height x y = ltb x width && ltb y height

-- The viewer ends with a picture that has the colours of `target` in the area and is as before
-- elsewhere.
pub record Shows (area : ℕ → ℕ → Bool) (target pic : Picture) (r : Option Picture) : Type 0 where
  pub after : Picture
  pub done : r ≡ some after
  pub pixels : (x y : ℕ) → after x y ≡ (if area x y then target x y else pic x y)
