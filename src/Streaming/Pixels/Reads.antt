-- ===== src/Streaming/Pixels/Reads.antt =====
-- crates/streaming/src/protocol.rs: reads of a pixel buffer within its bounds.
use native.Mathlib.Nat.{mod-eq_of_lt, mul-le-mul_right}
use mgba_server.Common.{
  ℕ, zero, suc, ◌+◌, ◌*◌, ◌≤◌, ◌<◌, ◌≡◌, refl, sym, ap, ◌∙◌, List, [], ◌∷◌, some, length, get_elem?,
  take, drop, arith,
}
use mgba_server.Common.Maybe.{unwrap_or}
use mgba_server.Common.Bytes.{u32_mod}
use mgba_server.Streaming.Pixels.{rgba_at, quad, offset}
use mgba_server.Streaming.Pixels.Viewer.{Colour, Picture}

unfoldable pub byte : List ℕ → ℕ → ℕ
byte xs i = unwrap_or (get_elem? xs i) 0

-- The picture in a buffer.
abbrev pub colour : List ℕ → ℕ → Colour
colour buf px = (byte buf (px + 2), byte buf (px + 1), byte buf px)

abbrev pub picture : List ℕ → ℕ → Picture
picture buf pitch = λ x y. colour buf (y * pitch + x * 4)

get_elem?-byte : (xs : List ℕ) (i : ℕ) → i < length xs → get_elem? xs i ≡ some (byte xs i)
unfolding byte
get_elem?-byte [] i h = absurd (omega arith)
get_elem?-byte (x ∷ xs) zero h = refl
get_elem?-byte (x ∷ xs) (suc i) h = get_elem?-byte xs i (omega arith)

pub rgba_at-colour :
    (buf : List ℕ) (px : ℕ)
    → px + 4 ≤ length buf
    → rgba_at buf px ≡ some (byte buf (px + 2) ∷ byte buf (px + 1) ∷ byte buf px ∷ 255 ∷ [])
unfolding rgba_at
rgba_at-colour buf px h =
    rw
      (
        get_elem?-byte buf px (omega (arith, h)),
        get_elem?-byte buf (px + 1) (omega (arith, h)),
        get_elem?-byte buf (px + 2) (omega (arith, h)),
      )
      refl

pub quad-take :
    (buf : List ℕ) (px : ℕ) → px + 4 ≤ length buf → quad buf px ≡ some (take 4 (drop px buf))
unfolding quad
quad-take buf px h = ground (arith, h)

byte-take : (n k : ℕ) (xs : List ℕ) → k < n → byte (take n xs) k ≡ byte xs k
unfolding byte
byte-take zero k xs h = absurd (omega arith)
byte-take (suc n) k [] h = refl
byte-take (suc n) zero (x ∷ xs) h = refl
byte-take (suc n) (suc k) (x ∷ xs) h = byte-take n k xs (omega arith)

byte-drop : (m k i : ℕ) (xs : List ℕ) → i ≡ k + m → byte (drop m xs) k ≡ byte xs i
unfolding byte
byte-drop zero k i xs e = ap (byte xs) (omega arith)
byte-drop (suc m) k i [] e = refl
byte-drop (suc m) k zero (x ∷ xs) e = absurd (omega arith)
byte-drop (suc m) k (suc i) (x ∷ xs) e = byte-drop m k i xs (omega arith)

byte_window :
    (a b : List ℕ) (px k i : ℕ)
    → take 4 (drop px a) ≡ take 4 (drop px b)
    → k < 4
    → i ≡ k + px
    → byte a i ≡ byte b i
byte_window a b px k i e h at =
    sym (byte-take 4 k (drop px a) h ∙ byte-drop px k i a at)
    ∙ ap (λ l. byte l k) e
    ∙ byte-take 4 k (drop px b) h
    ∙ byte-drop px k i b at

-- Equal windows have equal colours.
pub colour-take :
    (a b : List ℕ) (px : ℕ) → take 4 (drop px a) ≡ take 4 (drop px b) → colour a px ≡ colour b px
colour-take a b px e =
    let r = byte_window a b px 2 (px + 2) e (omega arith) (omega arith) in
    let g = byte_window a b px 1 (px + 1) e (omega arith) (omega arith) in
    let b' = byte_window a b px 0 px e (omega arith) (omega arith) in cc (r, g, b')

-- A buffer that has all rows of a frame, with addresses that are words of 32 bits.
pub record IsFrame (width height pitch : ℕ) (buf : List ℕ) : Type 0 where
  pub rows : height * pitch ≤ length buf
  pub wide : width * 4 ≤ pitch
  pub words : height * pitch < u32_mod

pub offset-inside :
    (width height pitch x y : ℕ) (buf : List ℕ)
    → IsFrame width height pitch buf
    → x < width
    → y < height
    → (offset pitch x y ≡ y * pitch + x * 4) × (y * pitch + x * 4 + 4 ≤ length buf)
offset-inside width height pitch x y buf f hx hy =
    let row : suc y * pitch ≤ height * pitch = mul-le-mul_right pitch hy in
    let inside : y * pitch + x * 4 + 4 ≤ height * pitch = omega (arith, row, f.wide, hx) in
    (mod-eq_of_lt (omega (arith, inside, f.words)), omega (arith, inside, f.rows))
