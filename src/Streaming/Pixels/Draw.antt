-- ===== src/Streaming/Pixels/Draw.antt =====
-- crates/streaming/src/protocol.rs: the viewer draws the pixels that the loops push.
use mathlib.Core.List.{append_assoc}
use mgba_server.Common.{
  ℕ, zero, suc, ◌+◌, ◌≤◌, ◌<◌, ◌≡◌, refl, ap, ◌∙◌, Bool, ◌&&◌, List, [], ◌∷◌, ◌++◌, Option, some,
  leb, ltb, ◌==◌, if◌then◌else◌, arith, Bool-cases, inl, inr,
}
use mgba_server.Streaming.Pixels.{offset, tile_cols, tile_rows}
use mgba_server.Streaming.Pixels.Viewer.{Picture, Colour, set_pixel, draw_cols, draw_rows}
use mgba_server.Streaming.Pixels.Reads.{
  IsFrame, picture, colour, byte, rgba_at-colour, offset-inside,
}

abbrev pub in_rect : ℕ → ℕ → ℕ → ℕ → ℕ → ℕ → Bool
in_rect x y w h i j = leb x i && ltb i (x + w) && leb y j && ltb j (y + h)

-- One more column on the left, one more row at the top.
paint_col :
    (x y n i j : ℕ) (c here old : Colour)
    → ((i ≡ x) × (j ≡ y) → c ≡ here)
    → (if in_rect (x + 1) y n 1 i j then here else if i == x && j == y then c else old)
      ≡ (if in_rect x y (suc n) 1 i j then here else old)
paint_col x y n i j c here old hit = elim (Bool-cases (i == x && j == y)) [
  | inl p ↦
      let same = hit (ground (arith, p), ground (arith, p)) in rw (p, same) (ground (arith, p))
  | inr p ↦ rw p (ground (arith, p))
]

paint_row :
    (x y w n i j : ℕ) (here old : Colour)
    → (if in_rect x (y + 1) w n i j then here else if in_rect x y w 1 i j then here else old)
      ≡ (if in_rect x y w (suc n) i j then here else old)
paint_row x y w n i j here old = ground arith

module _ (width height pitch : ℕ) (buf : List ℕ) (frame : IsFrame width height pitch buf) where
  -- The drawing ends with the rest of the bytes, and has painted the buffer's picture in the area.
  pub record Paints (area : ℕ → ℕ → Bool) (pic : Picture) (rest : List ℕ)
      (r : Option (Picture × List ℕ)) : Type 0 where
    pub after : Picture
    pub done : r ≡ some (after, rest)
    pub pixels : (i j : ℕ) → after i j ≡ (if area i j then picture buf pitch i j else pic i j)

  -- Bytes were pushed, and drawing them paints the area.
  pub record Pushed (area : ℕ → ℕ → Bool) (draw : List ℕ → Picture → Option (Picture × List ℕ))
      (r : Option (List ℕ)) : Type 0 where
    pub out : List ℕ
    pub done : r ≡ some out
    pub paints : (rest : List ℕ) (pic : Picture) → Paints area pic rest (draw (out ++ rest) pic)

  tile_cols-Pushed :
      (x y count col : ℕ)
      → x + col + count ≤ width
      → y < height
      → Pushed
          (in_rect (x + col) y count 1)
          (draw_cols count (x + col) y)
          (tile_cols buf pitch x y count col)
  unfolding tile_cols draw_cols
  tile_cols-Pushed x y zero col fits hy = record {
    out = [];
    done = refl;
    paints = λ rest pic. record { after = pic; done = refl; pixels = λ i j. ground arith };
  }
  tile_cols-Pushed x y (suc count) col fits hy =
      let (at, inside) = offset-inside width height pitch (x + col) y buf frame (omega arith) hy in
      let px = offset pitch (x + col) y in
      let next : x + col + 1 ≡ x + (col + 1) = omega arith in
      let found = rgba_at-colour buf px (omega (arith, at, inside)) in
      let tail = tile_cols-Pushed x y count (col + 1) (omega arith) hy in
      record {
        out = byte buf (px + 2) ∷ byte buf (px + 1) ∷ byte buf px ∷ 255 ∷ tail.out;
        done = rw (found, tail.done) refl;
        paints = λ rest pic.
            let t = tail.paints rest (set_pixel (x + col) y (colour buf px) pic) in
            record {
              after = t.after;
              done = rw next t.done;
              pixels = λ i j.
                  t.pixels i j
                  ∙ rw (← next) (
                      paint_col (x + col) y count i j (colour buf px) (picture buf pitch i j)
                        (pic i j) (λ h. ap (colour buf) (at ∙ rw (h.0, h.1) refl)));
            };
      }

  pub tile_rows-Pushed :
      (x y w count row : ℕ)
      → x + w ≤ width
      → y + row + count ≤ height
      → Pushed
          (in_rect x (y + row) w count)
          (draw_rows count x (y + row) w)
          (tile_rows buf pitch x y w count row)
  unfolding tile_rows draw_rows
  tile_rows-Pushed x y w zero row hx hy = record {
    out = [];
    done = refl;
    paints = λ rest pic. record { after = pic; done = refl; pixels = λ i j. ground arith };
  }
  tile_rows-Pushed x y w (suc count) row hx hy =
      let zero_col : x + 0 ≡ x = omega arith in
      let next : y + row + 1 ≡ y + (row + 1) = omega arith in
      let head = tile_cols-Pushed x (y + row) w 0 (omega arith) (omega arith) in
      let tail = tile_rows-Pushed x y w count (row + 1) hx (omega arith) in
      record {
        out = head.out ++ tail.out;
        done = rw (head.done, tail.done) refl;
        paints = λ rest pic.
            let h = rw zero_col at (head.paints (tail.out ++ rest) pic) in
            let t = tail.paints rest h.after in
            record {
              after = t.after;
              done = rw (append_assoc head.out tail.out rest) (rw h.done (rw next t.done));
              pixels = λ i j.
                  t.pixels i j
                  ∙ rw (h.pixels i j, ← next)
                      (paint_row x (y + row) w count i j (picture buf pitch i j) (pic i j));
            };
      }
