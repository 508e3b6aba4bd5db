-- ===== src/Streaming/Pixels/Delta.antt =====
-- crates/streaming/src/protocol.rs: `encode_delta` and a viewer of its payload.
use native.Mathlib.Nat.{mod-eq_of_lt, mul-le-mul_right}
use mathlib.Core.List.{append-nil}
use mgba_server.Common.{
  ℕ, zero, suc, ◌+◌, ◌-◌, ◌*◌, ◌/◌, ◌%◌, ◌≤◌, ◌<◌, ◌≡◌, refl, ◌∙◌, Bool, true, false, ◌||◌, List,
  [], ◌∷◌, ◌++◌, Option, length, min, ltb, ◌==◌, arith, Bool-cases, inl, inr,
}
use native.Mathlib.Omega.{div_any}
use native.Mathlib.Nat.{mod-lt}
use mgba_server.Common.Maybe.{◌>>=◌}
use mgba_server.Common.Bytes.{be16, u16_mod, u32_mod}
use mgba_server.Streaming.Pixels.{
  tile_bytes, delta_bytes, changed_tile, tile_at, tiles_row, tiles_rows, div_ceil, encode_delta,
}
use mgba_server.Streaming.Pixels.Viewer.{
  Picture, draw_rows, draw_tiles, read_u16, inside, show_delta, Shows,
}
use mgba_server.Streaming.Pixels.Reads.{IsFrame, picture}
use mgba_server.Streaming.Pixels.Draw.{in_rect, Pushed, tile_rows-Pushed}
use mgba_server.Streaming.Pixels.Compare.{Compared, rows_changed-Compared}
use mgba_server.Streaming.Pixels.Tiles.{
  u16_value, if_or_true, if_or_false, covered, Draws, no_tiles_drawn, both_tiles_drawn,
  same_tiles_drawn,
}

div_ceil_start : (a b t : ℕ) → 0 < b → t < div_ceil a b → t * b < a
div_ceil_start a b t hb ht =
    let whole = div_any a b in
    let below : t ≤ a / b → t * b ≤ a / b * b = λ h. mul-le-mul_right b h in
    let below_next : suc t ≤ a / b → suc t * b ≤ a / b * b = λ h. mul-le-mul_right b h in
    elim (Bool-cases (ltb 0 (a % b))) [
      | inl p ↦
          let le = below (ground (arith, ht, p)) in
          let pos : 0 < a % b = ground (arith, p) in omega (arith, whole, le, pos)
      | inr p ↦ let le = below_next (ground (arith, ht, p)) in omega (arith, whole, le, hb)
    ]

div_ceil_end : (a b : ℕ) → 0 < b → a ≤ div_ceil a b * b
div_ceil_end a b hb =
    let whole = div_any a b in
    let small = mod-lt a hb in
    elim (Bool-cases (ltb 0 (a % b))) [
      | inl p ↦ rw p (omega (arith, whole, small))
      | inr p ↦ let nil : a % b ≡ 0 = ground (arith, p) in rw p (omega (arith, whole, nil))
    ]

covered_next :
    (width height ts x y i j : ℕ)
    → covered width height ts (x + ts) y i j ≡ (
        covered width height ts x y i j
        || in_rect x y (min (x + ts) width - x) (min (y + ts) height - y) i j)
covered_next width height ts x y i j = ground arith

covered_end :
    (width height ts x y i j : ℕ)
    → width ≤ x
    → covered width height ts x y i j ≡ covered width height ts 0 (y + ts) i j
covered_end width height ts x y i j h = ground arith

covered_none : (width height ts i j : ℕ) → covered width height ts 0 0 i j ≡ false
covered_none width height ts i j = ground arith

covered_all :
    (width height ts y i j : ℕ)
    → height ≤ y
    → covered width height ts 0 y i j ≡ inside width height i j
covered_all width height ts y i j h = ground arith

module _ (width height pitch : ℕ) (prev curr : List ℕ)
    (frame_prev : IsFrame width height pitch prev) (frame_curr : IsFrame width height pitch curr)
    (base : Picture)
    (shown : (i j : ℕ) → inside width height i j ≡ true → base i j ≡ picture prev pitch i j) where
  -- Its frame and its pixels are read back and drawn.
  draw_tiles-tile :
      (x y w h : ℕ) (out : List ℕ) (k : ℕ) (rest : List ℕ) (pic : Picture)
      → x < u16_mod
      → y < u16_mod
      → w < u16_mod
      → h < u16_mod
      → draw_tiles
          (1 + k)
          (tile_bytes (record { x = x; y = y; w = w; h = h; rgba = out } ∷ []) ++ rest)
          pic
        ≡ (draw_rows h x y w (out ++ rest) pic >>= λ (pic', left). draw_tiles k left pic')
  unfolding draw_tiles tile_bytes read_u16 be16
  draw_tiles-tile x y w h out k rest pic hx hy hw hh =
      let next : 1 + k ≡ suc k = omega arith in
      rw (next, append-nil out, u16_value x hx, u16_value y hy, u16_value w hw, u16_value h hh) refl

  one_tile :
      (x y w h : ℕ) (before after : ℕ → ℕ → Bool) (changed : Option Bool) (rgba : Option (List ℕ))
      → x + w ≤ width
      → y + h ≤ height
      → width < u16_mod
      → height < u16_mod
      → Compared width height pitch prev curr frame_prev frame_curr (in_rect x y w h) changed
      → Pushed width height pitch curr frame_curr (in_rect x y w h) (draw_rows h x y w) rgba
      → ((i j : ℕ) → after i j ≡ (before i j || in_rect x y w h i j))
      → Draws pitch base curr 1 before after (changed_tile x y w h changed rgba)
  one_tile x y w h before after changed rgba hx hy hw hh c p join = elim (Bool-cases c.answer) [
    | inl e ↦ record {
      tiles = record { x = x; y = y; w = w; h = h; rgba = p.out } ∷ [];
      done = rw (c.done, e, p.done) refl;
      few = omega arith;
      draws = λ k rest pic m.
          let d = p.paints rest pic in
          record {
            pic = d.after;
            done =
                draw_tiles-tile x y w h p.out k rest pic (omega arith) (omega arith) (omega arith)
                  (omega arith)
                ∙ rw d.done refl;
            mixed = λ i j. d.pixels i j ∙ rw (m i j, join i j) ground arith;
          };
    }
    | inr e ↦
        rw (c.done, e)
          (no_tiles_drawn pitch base curr 1 before after (λ i j.
            elim (Bool-cases (in_rect x y w h i j)) [
              | inl p ↦
                  let same = c.same e i j p in
                  let old = shown i j (ground (arith, p, hx, hy)) in
                  rw (join i j, p)
                    (if_or_true (before i j) (picture curr pitch i j) (base i j) (old ∙ same))
              | inr p ↦
                  rw (join i j, p) (if_or_false (before i j) (picture curr pitch i j) (base i j))
            ]))
  ]

  module _ (tile_size : ℕ) (hts : 0 < tile_size) (hts' : tile_size < u16_mod) (hw : width < u16_mod)
      (hh : height < u16_mod) where
    tile_at-Draws :
        (tx ty : ℕ)
        → tx * tile_size < width
        → ty * tile_size < height
        → Draws pitch base curr 1
            (covered width height tile_size (tx * tile_size) (ty * tile_size))
            (covered width height tile_size ((tx + 1) * tile_size) (ty * tile_size))
            (tile_at prev curr width height pitch tile_size tx ty)
    unfolding tile_at
    tile_at-Draws tx ty hx hy =
        let x_eq : tx * tile_size % u32_mod ≡ tx * tile_size = mod-eq_of_lt (omega arith) in
        let y_eq : ty * tile_size % u32_mod ≡ ty * tile_size = mod-eq_of_lt (omega arith) in
        let x_end : (tx * tile_size + tile_size) % u32_mod ≡ tx * tile_size + tile_size =
          mod-eq_of_lt (omega arith) in
        let y_end : (ty * tile_size + tile_size) % u32_mod ≡ ty * tile_size + tile_size =
          mod-eq_of_lt (omega arith) in
        let next : (tx + 1) * tile_size ≡ tx * tile_size + tile_size = omega arith in
        let x = tx * tile_size in
        let y = ty * tile_size in
        let w = min (x + tile_size) width - x in
        let h = min (y + tile_size) height - y in
        let w_eq : (min (x + tile_size) width + u32_mod - x) % u32_mod ≡ w = omega arith in
        let h_eq : (min (y + tile_size) height + u32_mod - y) % u32_mod ≡ h = omega arith in
        let top : y + 0 ≡ y = omega arith in
        let fits_x : x + w ≤ width = omega arith in
        let fits_y : y + 0 + h ≤ height = omega arith in
        let fits_y' : y + h ≤ height = omega arith in
        let compared =
          rows_changed-Compared width height pitch prev curr frame_prev frame_curr x y w h 0 fits_x
            fits_y in
        let pushed = tile_rows-Pushed width height pitch curr frame_curr x y w h 0 fits_x fits_y in
        rw (x_eq, y_eq, x_end, y_end, next, w_eq, h_eq)
          (one_tile x y w h (covered width height tile_size x y)
            (covered width height tile_size (x + tile_size) y) _ _ fits_x fits_y' hw hh
            (rw top at compared) (rw top at pushed)
            (λ i j. covered_next width height tile_size x y i j))

    module _ (columns : ℕ) (starts : (t : ℕ) → t < columns → t * tile_size < width)
        (ends : width ≤ columns * tile_size) where
      tiles_row-Draws :
          (ty count tx : ℕ)
          → tx + count ≡ columns
          → ty * tile_size < height
          → Draws pitch base curr count
              (covered width height tile_size (tx * tile_size) (ty * tile_size))
              (covered width height tile_size (columns * tile_size) (ty * tile_size))
              (tiles_row prev curr width height pitch tile_size ty count tx)
      unfolding tiles_row
      tiles_row-Draws ty zero tx e hy =
          let all : tx ≡ columns = omega arith in
          rw all (no_tiles_drawn pitch base curr 0 _ _ (λ i j. refl))
      tiles_row-Draws ty (suc count) tx e hy =
          let n : suc count ≡ 1 + count = omega arith in
          rw n (
            both_tiles_drawn pitch base curr 1 count _ _ _ _ _
              (tile_at-Draws tx ty (starts tx (omega arith)) hy)
              (tiles_row-Draws ty count (tx + 1) (omega arith) hy))

      tiles_rows-Draws :
          (lines : ℕ) (count ty : ℕ)
          → ty + count ≡ lines
          → ((t : ℕ) → t < lines → t * tile_size < height)
          → Draws pitch base curr
              (count * columns)
              (covered width height tile_size 0 (ty * tile_size))
              (covered width height tile_size 0 (lines * tile_size))
              (tiles_rows prev curr width height pitch tile_size columns count ty)
      unfolding tiles_rows
      tiles_rows-Draws lines zero ty e rows =
          let all : ty ≡ lines = omega arith in
          rw all (no_tiles_drawn pitch base curr _ _ _ (λ i j. refl))
      tiles_rows-Draws lines (suc count) ty e rows =
          let n : suc count * columns ≡ columns + count * columns = omega arith in
          let next : (ty + 1) * tile_size ≡ ty * tile_size + tile_size = omega arith in
          let nil : 0 * tile_size ≡ 0 = omega arith in
          let row =
            rw nil at (tiles_row-Draws ty columns 0 (omega arith) (rows ty (omega arith))) in
          let row_end =
            same_tiles_drawn pitch base curr _ _ _ _ _
              (λ i j.
                covered_end width height tile_size (columns * tile_size) (ty * tile_size) i j ends)
              row in
          rw n (
            both_tiles_drawn pitch base curr columns (count * columns) _ _ _ _ _ row_end
              (rw next at (tiles_rows-Draws lines count (ty + 1) (omega arith) rows)))

    -- For two frames of the same size, whose rows lie in their buffers at addresses of 32 bits, whose
    -- width and height are words of 16 bits, a positive tile size of 16 bits, less than 2^16 tiles,
    -- and a decompression that inverts the compression, `encode_delta` does not panic, and a viewer
    -- whose picture has the colours of the old frame, after it has drawn the tiles of the
    -- decompressed payload, which it uses up, has the colours of the new frame at every position of
    -- the frame and is unchanged elsewhere.
    pub encode_delta-Shows :
        (deflate inflate : List ℕ → List ℕ)
        → ((raw : List ℕ) → inflate (deflate raw) ≡ raw)
        → div_ceil height tile_size * div_ceil width tile_size < u16_mod
        → Shows (inside width height) (picture curr pitch) base (
            encode_delta deflate prev curr width height pitch tile_size >>= λ payload.
            show_delta (inflate payload) base)
    unfolding encode_delta show_delta read_u16 be16
    encode_delta-Shows deflate inflate inverse fits =
        let columns = div_ceil width tile_size in
        let lines = div_ceil height tile_size in
        let nil : 0 * tile_size ≡ 0 = omega arith in
        let d = rw nil at (
          tiles_rows-Draws columns (λ t. div_ceil_start width tile_size t hts)
            (div_ceil_end width tile_size hts) lines lines 0 (omega arith)
            (λ t. div_ceil_start height tile_size t hts)) in
        let few = d.few in
        let count = u16_value (length d.tiles) (omega (arith, few, fits)) in
        let u = d.draws 0 [] base (λ i j. rw (covered_none width height tile_size i j) refl) in
        let all : length d.tiles + 0 ≡ length d.tiles = omega arith in
        let drawn = rw (all, append-nil (tile_bytes d.tiles)) at u.done in
        let positive : (tile_size == 0) ≡ false = ground arith in
        record {
          after = u.pic;
          done = rw (positive, d.done, inverse (delta_bytes d.tiles), count, drawn) refl;
          pixels = λ i j.
              u.mixed i j
              ∙ rw
                  (covered_all width height tile_size (lines * tile_size) i j
                    (div_ceil_end height tile_size hts))
                  refl;
        }
