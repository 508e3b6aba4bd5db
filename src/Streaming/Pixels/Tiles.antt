-- ===== src/Streaming/Pixels/Tiles.antt =====
-- crates/streaming/src/protocol.rs: the tiles of a delta, as they are written and drawn.
use native.Mathlib.Nat.{mod-eq_of_lt}
use mathlib.Core.List.{append_assoc}
use mgba_server.Common.{
  ℕ, ◌+◌, ◌*◌, ◌/◌, ◌%◌, ◌≤◌, ◌<◌, ◌≡◌, refl, ap, ◌∙◌, Bool, true, false, ◌&&◌, ◌||◌, List, [], ◌∷◌,
  ◌++◌, Option, some, length, length-append, ltb, if◌then◌else◌, arith,
}
use mgba_server.Common.Bytes.{be16, u16_mod}
use mgba_server.Streaming.Pixels.{Tile, tile_bytes, append_tiles}
use mgba_server.Streaming.Pixels.Viewer.{Picture, draw_tiles, inside}
use mgba_server.Streaming.Pixels.Reads.{picture}

pub u16_value : (n : ℕ) → n < u16_mod → n % u16_mod / 256 % 256 * 256 + n % u16_mod % 256 ≡ n
u16_value n h =
    let value : n / 256 % 256 * 256 + n % 256 ≡ n = omega arith in rw (mod-eq_of_lt h) value

tile_bytes-append : (a b : List Tile) → tile_bytes (a ++ b) ≡ tile_bytes a ++ tile_bytes b
unfolding tile_bytes be16
tile_bytes-append [] b = refl
tile_bytes-append (t ∷ a) b =
    rw (tile_bytes-append a b, append_assoc t.rgba (tile_bytes a) (tile_bytes b)) refl

pub if_or_true {ℓ} :
    {A : Type ℓ} (b : Bool) (x y : A) → y ≡ x → (if b then x else y) ≡ (if b || true then x else y)
if_or_true true x y e = refl
if_or_true false x y e = e

pub if_or_false {ℓ} :
    {A : Type ℓ} (b : Bool) (x y : A) → (if b then x else y) ≡ (if b || false then x else y)
if_or_false true x y = refl
if_or_false false x y = refl

-- The positions in the tiles before the one at (x, y), in the order of the loops.
abbrev pub covered : ℕ → ℕ → ℕ → ℕ → ℕ → ℕ → ℕ → Bool
covered width height ts x y i j =
    inside width height i j && (ltb j y || (ltb j (y + ts) && ltb i x))

module _ (pitch : ℕ) (base : Picture) (curr : List ℕ) where
  -- The colours of the new frame in the area, of the old picture elsewhere.
  abbrev pub IsMixed : (ℕ → ℕ → Bool) → Picture → Type 0
  IsMixed area pic = (i j : ℕ) → pic i j ≡ (if area i j then picture curr pitch i j else base i j)

  -- The drawing goes on with the rest of the bytes and a mixed picture.
  pub record Updated (area : ℕ → ℕ → Bool) (k : ℕ) (rest : List ℕ) (r : Option (Picture × List ℕ))
      : Type 0 where
    pub pic : Picture
    pub done : r ≡ draw_tiles k rest pic
    pub mixed : IsMixed area pic

  -- The loops find at most `n` tiles, which take a picture mixed in one area to one mixed in
  -- another.
  pub record Draws (n : ℕ) (before after : ℕ → ℕ → Bool) (r : Option (List Tile)) : Type 0 where
    pub tiles : List Tile
    pub done : r ≡ some tiles
    pub few : length tiles ≤ n
    pub draws :
        (k : ℕ) (rest : List ℕ) (pic : Picture)
        → IsMixed before pic
        → Updated after k rest (draw_tiles (length tiles + k) (tile_bytes tiles ++ rest) pic)

  pub no_tiles_drawn :
      (n : ℕ) (before after : ℕ → ℕ → Bool)
      → ((i j : ℕ)
          → (if before i j then picture curr pitch i j else base i j)
            ≡ (if after i j then picture curr pitch i j else base i j))
      → Draws n before after (some [])
  unfolding draw_tiles tile_bytes
  no_tiles_drawn n before after same = record {
    tiles = [];
    done = refl;
    few = omega arith;
    draws = λ k rest pic m. record {
      pic = pic;
      done = ap (λ n. draw_tiles n rest pic) (omega arith);
      mixed = λ i j. m i j ∙ same i j;
    };
  }

  pub both_tiles_drawn :
      (m n : ℕ) (before between after : ℕ → ℕ → Bool) (r s : Option (List Tile))
      → Draws m before between r
      → Draws n between after s
      → Draws (m + n) before after (append_tiles r s)
  both_tiles_drawn m n before between after r s a b =
      let few_a = a.few in
      let few_b = b.few in
      let total = length-append a.tiles b.tiles in
      record {
        tiles = a.tiles ++ b.tiles;
        done = rw (a.done, b.done) refl;
        few = omega (arith, few_a, few_b, total);
        draws = λ k rest pic mixed.
            let first = a.draws (length b.tiles + k) (tile_bytes b.tiles ++ rest) pic mixed in
            let second = b.draws k rest first.pic first.mixed in
            let counts : length (a.tiles ++ b.tiles) + k ≡ length a.tiles + (length b.tiles + k) =
              omega (arith, total) in
            record {
              pic = second.pic;
              done =
                  rw
                    (
                      counts,
                      tile_bytes-append a.tiles b.tiles,
                      append_assoc (tile_bytes a.tiles) (tile_bytes b.tiles) rest,
                    )
                    (first.done ∙ second.done);
              mixed = second.mixed;
            };
      }

  pub same_tiles_drawn :
      (n : ℕ) (before after after' : ℕ → ℕ → Bool) (r : Option (List Tile))
      → ((i j : ℕ) → after i j ≡ after' i j)
      → Draws n before after r
      → Draws n before after' r
  same_tiles_drawn n before after after' r same d = record {
    tiles = d.tiles;
    done = d.done;
    few = d.few;
    draws = λ k rest pic m.
        let u = d.draws k rest pic m in
        record { pic = u.pic; done = u.done; mixed = λ i j. u.mixed i j ∙ rw (same i j) refl };
  }
