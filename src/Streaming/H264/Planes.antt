-- ===== src/Streaming/H264/Planes.antt =====
-- crates/streaming/src/h264.rs: the planes of a frame with even sides.
use mgba_server.Common.{
  ℕ, zero, suc, ◌+◌, ◌*◌, ◌/◌, ◌%◌, ◌≤◌, ◌<◌, ◌≡◌, refl, ap, ◌∙◌, ◌&&◌, List, [], ◌∷◌, Option, some,
  length, get_elem?, leb, ◌==◌, arith, Bool-cases, inl, inr,
}
use native.Mathlib.Nat.{mul-le-mul_right}
use mgba_server.Streaming.H264.{
  OpenH264, YuvPlanes, store, store_chroma, store_pixel, convert_cols, convert_rows, replicate,
  xrgb8888_to_yuv420,
}

-- The lists are as long as the planes of a frame.
pub record IsSized (width height : ℕ) (planes : YuvPlanes) : Type 0 where
  pub y_size : length planes.y ≡ width * height
  pub u_size : length planes.u ≡ width / 2 * (height / 2)
  pub v_size : length planes.v ≡ width / 2 * (height / 2)

-- No panic, and planes of the right size.
pub record Converts (width height : ℕ) (r : Option YuvPlanes) : Type 0 where
  pub planes : YuvPlanes
  pub done : r ≡ some planes
  pub sized : IsSized width height planes

store-length :
    (xs : List ℕ) (i x : ℕ)
    → i < length xs
    → (ys : List ℕ) × (store xs i x ≡ some ys) × (length ys ≡ length xs)
unfolding store
store-length [] i x h = absurd (omega arith)
store-length (y ∷ ys) zero x h = (x ∷ ys, refl, refl)
store-length (y ∷ ys) (suc i) x h =
    let (rest, e, l) = store-length ys i x (omega arith) in (y ∷ rest, rw e refl, ap suc l)

-- An address in a plane.
cell_inside : (w h x y : ℕ) → x < w → y < h → y * w + x < h * w
cell_inside w h x y hx hy = let le : suc y * w ≤ h * w = mul-le-mul_right w hy in omega (arith, le)

half_inside : (n x : ℕ) → n % 2 ≡ 0 → x < n → x / 2 < n / 2
half_inside n x e h = omega arith

module _ (openh264 : OpenH264) (width height : ℕ) (even_width : width % 2 ≡ 0)
    (even_height : height % 2 ≡ 0) where
  store_chroma-Converts :
      (row col r g b : ℕ) (planes : YuvPlanes)
      → row < height
      → col < width
      → IsSized width height planes
      → Converts width height (store_chroma openh264 width row col r g b planes)
  unfolding store_chroma
  store_chroma-Converts row col r g b planes hr hc s =
      let half =
        cell_inside (width / 2) (height / 2) (col / 2) (row / 2)
          (half_inside width col even_width hc) (half_inside height row even_height hr) in
      let u_size = s.u_size in
      let v_size = s.v_size in
      let (u, u_done, u_same) =
        store-length planes.u (row / 2 * (width / 2) + col / 2) (openh264.chroma_blue r g b)
          (grind (arith, half, u_size)) in
      let (v, v_done, v_same) =
        store-length planes.v (row / 2 * (width / 2) + col / 2) (openh264.chroma_red r g b)
          (grind (arith, half, v_size)) in
      record {
        planes = record planes { u = u; v = v };
        done = rw (u_done, v_done) refl;
        sized = record { y_size = s.y_size; u_size = u_same ∙ u_size; v_size = v_same ∙ v_size };
      }

  store_pixel-Converts :
      (row col r g b : ℕ) (planes : YuvPlanes)
      → row < height
      → col < width
      → IsSized width height planes
      → Converts width height (store_pixel openh264 width row col r g b planes)
  unfolding store_pixel
  store_pixel-Converts row col r g b planes hr hc s =
      let y_size = s.y_size in
      let cell = cell_inside width height col row hc hr in
      let (y, y_done, y_same) =
        store-length planes.y (row * width + col) (openh264.luma r g b)
          (grind (arith, cell, y_size)) in
      let sized : IsSized width height (record planes { y = y }) = record {
        y_size = y_same ∙ y_size;
        u_size = s.u_size;
        v_size = s.v_size;
      } in
      elim (Bool-cases (row % 2 == 0 && col % 2 == 0)) [
        | inl e ↦
            let c = store_chroma-Converts row col r g b (record planes { y = y }) hr hc sized in
            record { planes = c.planes; done = rw (y_done, e) c.done; sized = c.sized }
        | inr e ↦ record {
          planes = record planes { y = y };
          done = rw (y_done, e) refl;
          sized = sized;
        }
      ]

  get_some : (xs : List ℕ) (i : ℕ) → i < length xs → (x : ℕ) × (get_elem? xs i ≡ some x)
  get_some [] i h = absurd (omega arith)
  get_some (x ∷ xs) zero h = (x, refl)
  get_some (x ∷ xs) (suc i) h = get_some xs i (omega arith)

  convert_cols-Converts :
      (bytes : List ℕ) (p row count col : ℕ) (planes : YuvPlanes)
      → row < height
      → col + count ≤ width
      → IsSized width height planes
      → Converts width height (convert_cols openh264 bytes width p row count col planes)
  unfolding convert_cols
  convert_cols-Converts bytes p row zero col planes hr hc s = record {
    planes = planes;
    done = refl;
    sized = s;
  }
  convert_cols-Converts bytes p row (suc count) col planes hr hc s =
      let px = row * p + col * 4 in
      elim (Bool-cases (leb (length bytes) (px + 3))) [
        | inl e ↦ record { planes = planes; done = rw e refl; sized = s }
        | inr e ↦
            let long : px + 3 < length bytes = ground (arith, e) in
            let (b, b_read) = get_some bytes px (omega (arith, long)) in
            let (g, g_read) = get_some bytes (px + 1) (omega (arith, long)) in
            let (r, r_read) = get_some bytes (px + 2) (omega (arith, long)) in
            let c = store_pixel-Converts row col r g b planes hr (omega arith) s in
            let rest =
              convert_cols-Converts bytes p row count (col + 1) c.planes hr (omega arith) c.sized in
            record {
              planes = rest.planes;
              done = rw (e, b_read, g_read, r_read, c.done) rest.done;
              sized = rest.sized;
            }
      ]

  convert_rows-Converts :
      (bytes : List ℕ) (p count row : ℕ) (planes : YuvPlanes)
      → row + count ≤ height
      → IsSized width height planes
      → Converts width height (convert_rows openh264 bytes width p count row planes)
  unfolding convert_rows
  convert_rows-Converts bytes p zero row planes hr s = record {
    planes = planes;
    done = refl;
    sized = s;
  }
  convert_rows-Converts bytes p (suc count) row planes hr s =
      let c = convert_cols-Converts bytes p row width 0 planes (omega arith) (omega arith) s in
      let rest = convert_rows-Converts bytes p count (row + 1) c.planes (omega arith) c.sized in
      record { planes = rest.planes; done = rw c.done rest.done; sized = rest.sized }

  length-replicate : (n x : ℕ) → length (replicate n x) ≡ n
  length-replicate zero x = refl
  length-replicate (suc n) x = ap suc (length-replicate n x)

  -- The conversion of a frame whose width and height are even does not panic, whatever the pitch
  -- and the length of the data, and its planes have a byte for each pixel and for each square of
  -- two by two pixels.
  pub xrgb8888_to_yuv420-Converts :
      (bytes : List ℕ) (pitch : ℕ)
      → Converts width height (xrgb8888_to_yuv420 openh264 bytes width height pitch)
  unfolding xrgb8888_to_yuv420
  xrgb8888_to_yuv420-Converts bytes pitch =
      convert_rows-Converts bytes pitch height 0 _ (omega arith) (record {
        y_size = length-replicate (width * height) 0;
        u_size = length-replicate (width / 2 * (height / 2)) 128;
        v_size = length-replicate (width / 2 * (height / 2)) 128;
      })
