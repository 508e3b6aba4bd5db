-- ===== src/Streaming/Pixels.antt =====
-- crates/streaming/src/protocol.rs: `encode_keyframe` and `encode_delta`. A pixel buffer is a list of
-- bytes in the order blue, green, red, unused; an index out of range panics, which is `none`. `u32`
-- arithmetic wraps as in a release build. `deflate_raw` is the parameter `deflate`.
pub mod Viewer
pub mod Reads
pub mod Draw
pub mod Keyframe
pub mod Compare
pub mod Tiles
pub mod Delta
mod Runs
use mgba_server.Common.{
  ℕ, zero, suc, ◌+◌, ◌-◌, ◌*◌, ◌/◌, ◌%◌, min, Bool, true, false, not, List, [], ◌∷◌, ◌++◌, Option,
  none, some, length, get_elem?, take, drop, ltb, leb, ◌==◌, if◌then◌else◌,
}
use mgba_server.Common.Maybe.{◌>>=◌}
use mgba_server.Common.Text.{text_beq}
use mgba_server.Common.Bytes.{be16, u16_mod, u32_mod}

-- The pixel that is pushed: red, green, blue and 255.
unfoldable pub rgba_at : List ℕ → ℕ → Option (List ℕ)
rgba_at pixels px = do
  b ← get_elem? pixels px
  g ← get_elem? pixels (px + 1)
  r ← get_elem? pixels (px + 2)
  some (r ∷ g ∷ b ∷ 255 ∷ [])

-- `pixels[px..px + 4]`
unfoldable pub quad : List ℕ → ℕ → Option (List ℕ)
quad pixels px = if leb (px + 4) (length pixels) then some (take 4 (drop px pixels)) else none

abbrev pub push_all : Option (List ℕ) → Option (List ℕ) → Option (List ℕ)
push_all none rest = none
push_all (some p) none = none
push_all (some p) (some rest) = some (p ++ rest)

-- The columns from `col` on, `count` of them; then the rows.
unfoldable pub keyframe_cols : List ℕ → ℕ → ℕ → ℕ → Option (List ℕ)
unfolding rgba_at
keyframe_cols pixels row_start zero col = some []
keyframe_cols pixels row_start (suc count) col =
    push_all (rgba_at pixels (row_start + col * 4)) (keyframe_cols pixels row_start count (col + 1))

unfoldable pub keyframe_rows : List ℕ → ℕ → ℕ → ℕ → ℕ → Option (List ℕ)
unfolding keyframe_cols
keyframe_rows pixels width pitch zero row = some []
keyframe_rows pixels width pitch (suc count) row =
    push_all (keyframe_cols pixels (row * pitch % u32_mod) width 0)
      (keyframe_rows pixels width pitch count (row + 1))

-- `(y * pitch + x * 4) as usize`
abbrev pub offset : ℕ → ℕ → ℕ → ℕ
offset pitch x y = (y * pitch + x * 4) % u32_mod

abbrev pub differ : Option (List ℕ) → Option (List ℕ) → Option Bool
differ none q = none
differ (some p) none = none
differ (some p) (some q) = some (not (text_beq p q))

abbrev pub or_rest : Option Bool → Option Bool → Option Bool
or_rest none rest = none
or_rest (some true) rest = some true
or_rest (some false) rest = rest

-- The search for a changed pixel, which ends at the first one.
unfoldable pub cols_changed : List ℕ → List ℕ → ℕ → ℕ → ℕ → ℕ → ℕ → Option Bool
unfolding quad
cols_changed prev curr pitch tile_x y zero col = some false
cols_changed prev curr pitch tile_x y (suc count) col =
    or_rest
      (differ (quad prev (offset pitch (tile_x + col) y))
        (quad curr (offset pitch (tile_x + col) y)))
      (cols_changed prev curr pitch tile_x y count (col + 1))

unfoldable pub rows_changed : List ℕ → List ℕ → ℕ → ℕ → ℕ → ℕ → ℕ → ℕ → Option Bool
unfolding cols_changed
rows_changed prev curr pitch tile_x tile_y tile_w zero row = some false
rows_changed prev curr pitch tile_x tile_y tile_w (suc count) row =
    or_rest (cols_changed prev curr pitch tile_x (tile_y + row) tile_w 0)
      (rows_changed prev curr pitch tile_x tile_y tile_w count (row + 1))

-- `tile_rgba`
unfoldable pub tile_cols : List ℕ → ℕ → ℕ → ℕ → ℕ → ℕ → Option (List ℕ)
unfolding rgba_at
tile_cols curr pitch tile_x y zero col = some []
tile_cols curr pitch tile_x y (suc count) col =
    push_all (rgba_at curr (offset pitch (tile_x + col) y))
      (tile_cols curr pitch tile_x y count (col + 1))

unfoldable pub tile_rows : List ℕ → ℕ → ℕ → ℕ → ℕ → ℕ → ℕ → Option (List ℕ)
unfolding tile_cols
tile_rows curr pitch tile_x tile_y tile_w zero row = some []
tile_rows curr pitch tile_x tile_y tile_w (suc count) row =
    push_all (tile_cols curr pitch tile_x (tile_y + row) tile_w 0)
      (tile_rows curr pitch tile_x tile_y tile_w count (row + 1))

pub record Tile : Type 0 where
  pub x : ℕ
  pub y : ℕ
  pub w : ℕ
  pub h : ℕ
  pub rgba : List ℕ

abbrev pub changed_tile : ℕ → ℕ → ℕ → ℕ → Option Bool → Option (List ℕ) → Option (List Tile)
changed_tile x y w h none rgba = none
changed_tile x y w h (some false) rgba = some []
changed_tile x y w h (some true) none = none
changed_tile x y w h (some true) (some rgba) =
    some (record { x = x; y = y; w = w; h = h; rgba = rgba } ∷ [])

abbrev pub append_tiles : Option (List Tile) → Option (List Tile) → Option (List Tile)
append_tiles none rest = none
append_tiles (some ts) none = none
append_tiles (some ts) (some rest) = some (ts ++ rest)

-- `(start + tile_size).min(size) - start`
abbrev pub tile_extent : ℕ → ℕ → ℕ → ℕ
tile_extent start tile_size size =
    (min ((start + tile_size) % u32_mod) size + u32_mod - start) % u32_mod

module _ (prev curr : List ℕ) (width height pitch tile_size : ℕ) where
  -- The body of the loops over the tiles: the tile if it changed.
  unfoldable pub tile_at : ℕ → ℕ → Option (List Tile)
  unfolding rows_changed tile_rows
  tile_at tx ty =
      let tile_x = tx * tile_size % u32_mod in
      let tile_y = ty * tile_size % u32_mod in
      let tile_w = tile_extent tile_x tile_size width in
      let tile_h = tile_extent tile_y tile_size height in
      changed_tile tile_x tile_y tile_w tile_h
        (rows_changed prev curr pitch tile_x tile_y tile_w tile_h 0)
        (tile_rows curr pitch tile_x tile_y tile_w tile_h 0)

  unfoldable pub tiles_row : ℕ → ℕ → ℕ → Option (List Tile)
  unfolding tile_at
  tiles_row ty zero tx = some []
  tiles_row ty (suc count) tx = append_tiles (tile_at tx ty) (tiles_row ty count (tx + 1))

  unfoldable pub tiles_rows : ℕ → ℕ → ℕ → Option (List Tile)
  unfolding tiles_row
  tiles_rows tiles_x zero ty = some []
  tiles_rows tiles_x (suc count) ty =
      append_tiles (tiles_row ty tiles_x 0) (tiles_rows tiles_x count (ty + 1))

-- `u32::div_ceil`
abbrev pub div_ceil : ℕ → ℕ → ℕ
div_ceil a b = if ltb 0 (a % b) then a / b + 1 else a / b

unfoldable pub tile_bytes : List Tile → List ℕ
tile_bytes [] = []
tile_bytes (t ∷ ts) =
    be16 (t.x % u16_mod)
    ++ (be16 (t.y % u16_mod)
        ++ (be16 (t.w % u16_mod) ++ (be16 (t.h % u16_mod) ++ (t.rgba ++ tile_bytes ts))))

abbrev pub delta_bytes : List Tile → List ℕ
delta_bytes ts = be16 (length ts % u16_mod) ++ tile_bytes ts

abbrev pub deflated : (List ℕ → List ℕ) → Option (List ℕ) → Option (List ℕ)
deflated deflate none = none
deflated deflate (some raw) = some (deflate raw)

abbrev pub as_delta : Option (List Tile) → Option (List ℕ)
as_delta none = none
as_delta (some ts) = some (delta_bytes ts)

module _ (deflate : List ℕ → List ℕ) where
  unfoldable pub encode_keyframe : List ℕ → ℕ → ℕ → ℕ → Option (List ℕ)
  unfolding keyframe_rows
  encode_keyframe pixels width height pitch =
      deflated deflate (keyframe_rows pixels width pitch height 0)

  -- A division by a tile size of zero panics.
  unfoldable pub encode_delta : List ℕ → List ℕ → ℕ → ℕ → ℕ → ℕ → Option (List ℕ)
  unfolding tiles_rows
  encode_delta prev curr width height pitch tile_size =
      if tile_size == 0
      then none
      else deflated deflate (
          as_delta (
            tiles_rows prev curr width height pitch tile_size (div_ceil width tile_size)
              (div_ceil height tile_size) 0))
