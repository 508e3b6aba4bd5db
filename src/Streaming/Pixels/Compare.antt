-- ===== src/Streaming/Pixels/Compare.antt =====
-- crates/streaming/src/protocol.rs: the search of `encode_delta` for a changed pixel in a tile.
use mgba_server.Common.{
  ℕ, zero, suc, ◌+◌, ◌≤◌, ◌<◌, ◌≡◌, refl, Bool, true, false, ◌&&◌, List, Option, some, take, drop,
  ◌==◌, arith, Bool-cases, inl, inr,
}
use mgba_server.Common.Text.{text_beq, text_beq_iff}
use mgba_server.Streaming.Pixels.{offset, cols_changed, rows_changed}
use mgba_server.Streaming.Pixels.Reads.{IsFrame, picture, colour-take, quad-take, offset-inside}
use mgba_server.Streaming.Pixels.Draw.{in_rect}

module _ (width height pitch : ℕ) (prev curr : List ℕ)
    (frame_prev : IsFrame width height pitch prev)
    (frame_curr : IsFrame width height pitch curr) where
  -- The search has an answer, and `false` means that the colours of the area are the same.
  pub record Compared (area : ℕ → ℕ → Bool) (r : Option Bool) : Type 0 where
    pub answer : Bool
    pub done : r ≡ some answer
    pub same :
        answer ≡ false
        → (i j : ℕ) → area i j ≡ true
        → picture prev pitch i j ≡ picture curr pitch i j

  cols_changed-Compared :
      (x y count col : ℕ)
      → x + col + count ≤ width
      → y < height
      → Compared (in_rect (x + col) y count 1) (cols_changed prev curr pitch x y count col)
  unfolding cols_changed
  cols_changed-Compared x y zero col fits hy = record {
    answer = false;
    done = refl;
    same = λ e i j h. absurd (ground (arith, h));
  }
  cols_changed-Compared x y (suc count) col fits hy =
      let (at, room) =
        offset-inside width height pitch (x + col) y prev frame_prev (omega arith) hy in
      let (at', room') =
        offset-inside width height pitch (x + col) y curr frame_curr (omega arith) hy in
      let px = offset pitch (x + col) y in
      let tail = cols_changed-Compared x y count (col + 1) (omega arith) hy in
      let first = quad-take prev px (omega (arith, at, room)) in
      let second = quad-take curr px (omega (arith, at, room')) in
      elim (Bool-cases (text_beq (take 4 (drop px prev)) (take 4 (drop px curr)))) [
        | inl e ↦
            let equal = (text_beq_iff _ _).0 e in
            record {
              answer = tail.answer;
              done = rw (first, second, e) tail.done;
              same = λ f i j h. elim (Bool-cases (i == x + col && j == y)) [
                | inl p ↦
                    let i_eq : i ≡ x + col = ground (arith, p) in
                    let j_eq : j ≡ y = ground (arith, p) in
                    rw (i_eq, j_eq, ← at) (colour-take prev curr px equal)
                | inr p ↦ tail.same f i j (ground (arith, p, h))
              ];
            }
        | inr e ↦ record {
          answer = true;
          done = rw (first, second, e) refl;
          same = λ f. absurd (cc f);
        }
      ]

  pub rows_changed-Compared :
      (x y w count row : ℕ)
      → x + w ≤ width
      → y + row + count ≤ height
      → Compared (in_rect x (y + row) w count) (rows_changed prev curr pitch x y w count row)
  unfolding rows_changed
  rows_changed-Compared x y w zero row hx hy = record {
    answer = false;
    done = refl;
    same = λ e i j h. absurd (ground (arith, h));
  }
  rows_changed-Compared x y w (suc count) row hx hy =
      let head = cols_changed-Compared x (y + row) w 0 (omega arith) (omega arith) in
      let tail = rows_changed-Compared x y w count (row + 1) hx (omega arith) in
      elim (Bool-cases head.answer) [
        | inl e ↦ record { answer = true; done = rw (head.done, e) refl; same = λ f. absurd (cc f) }
        | inr e ↦ record {
          answer = tail.answer;
          done = rw (head.done, e) tail.done;
          same = λ f i j h. elim (Bool-cases (in_rect (x + 0) (y + row) w 1 i j)) [
            | inl p ↦ head.same e i j p
            | inr p ↦ tail.same f i j (ground (arith, p, h))
          ];
        }
      ]
