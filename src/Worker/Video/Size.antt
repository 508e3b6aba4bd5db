-- ===== src/Worker/Video/Size.antt =====
-- src/bin/worker.rs: which frames are converted, and the size of the result.
use mgba_server.Common.{
  ℕ, zero, suc, ◌+◌, ◌-◌, ◌*◌, ◌≤◌, ◌<◌, ◌≡◌, refl, ◌∙◌, List, [], ◌∷◌, ◌++◌, Option, some, length,
  take, drop, ltb, arith, true, false, lt→ltb, length-append, length-take, length-drop,
}
use mgba_server.Common.Maybe.{◌>>=◌}
use mgba_server.Common.Bytes.{u64_mod}
use mgba_server.Worker.Video.{
  VideoPixelFormat, checked, bytes_per_pixel, convert_xrgb1555_row, convert_rgb565_row, convert_row,
  get_range, row_at, convert_rows, convert_video_frame_to_xrgb8888,
}

length-convert_xrgb1555_row :
    (width : ℕ) (row : List ℕ)
    → length row ≡ width * 2
    → length (convert_xrgb1555_row row) ≡ width * 4
unfolding convert_xrgb1555_row
length-convert_xrgb1555_row zero [] h = refl
length-convert_xrgb1555_row (suc width) [] h = absurd (omega arith)
length-convert_xrgb1555_row width (a ∷ []) h = absurd (omega arith)
length-convert_xrgb1555_row zero (a ∷ b ∷ row) h = absurd (omega arith)
length-convert_xrgb1555_row (suc width) (a ∷ b ∷ row) h =
    omega (arith, length-convert_xrgb1555_row width row (omega arith))

length-convert_rgb565_row :
    (width : ℕ) (row : List ℕ)
    → length row ≡ width * 2
    → length (convert_rgb565_row row) ≡ width * 4
unfolding convert_rgb565_row
length-convert_rgb565_row zero [] h = refl
length-convert_rgb565_row (suc width) [] h = absurd (omega arith)
length-convert_rgb565_row width (a ∷ []) h = absurd (omega arith)
length-convert_rgb565_row zero (a ∷ b ∷ row) h = absurd (omega arith)
length-convert_rgb565_row (suc width) (a ∷ b ∷ row) h =
    omega (arith, length-convert_rgb565_row width row (omega arith))

length-convert_row :
    (format : VideoPixelFormat) (width : ℕ) (row : List ℕ)
    → length row ≡ width * bytes_per_pixel format
    → length (convert_row format row) ≡ width * 4
length-convert_row VideoPixelFormat.xrgb8888 width row h = h
length-convert_row VideoPixelFormat.xrgb1555 width row h = length-convert_xrgb1555_row width row h
length-convert_row VideoPixelFormat.rgb565 width row h = length-convert_rgb565_row width row h

-- A range that lies within the pixels is found.
range_inside :
    (pixels : List ℕ) (start n : ℕ)
    → start + n ≤ length pixels
    → length pixels < u64_mod
    → (do
      row_start ← checked start
      row_end ← checked (row_start + n)
      get_range row_start row_end pixels)
      ≡ some (take n (drop start pixels))
range_inside pixels start n h b =
    let same : start + n - start ≡ n = omega arith in
    let at : ltb start u64_mod ≡ true = lt→ltb start u64_mod (omega (arith, h, b)) in
    let end : ltb (start + n) u64_mod ≡ true = lt→ltb (start + n) u64_mod (omega (arith, h, b)) in
    rw (at, end, same) (ground (arith, h))

row_at-inside :
    (pixels : List ℕ) (pitch row_bytes row : ℕ)
    → row * pitch + row_bytes ≤ length pixels
    → length pixels < u64_mod
    → row_at pixels pitch row_bytes row ≡ some (take row_bytes (drop (row * pitch) pixels))
row_at-inside pixels pitch row_bytes row h b = range_inside pixels (row * pitch) row_bytes h b

-- A result of that length.
abbrev pub HasLength : ℕ → Option (List ℕ) → Type 0
HasLength n r = (out : List ℕ) × (r ≡ some out) × (length out ≡ n)

convert_rows-HasLength :
    (format : VideoPixelFormat) (pixels : List ℕ) (width pitch count row : ℕ)
    → width * bytes_per_pixel format ≤ pitch
    → (row + count) * pitch ≤ length pixels
    → length pixels < u64_mod
    → HasLength
        (count * (width * 4))
        (convert_rows format pixels pitch (width * bytes_per_pixel format) count row)
unfolding convert_rows
convert_rows-HasLength format pixels width pitch zero row fits inside b = ([], refl, omega arith)
convert_rows-HasLength format pixels width pitch (suc count) row fits inside b =
    let row_bytes = width * bytes_per_pixel format in
    let parts : (row + suc count) * pitch ≡ row * pitch + pitch + count * pitch = omega arith in
    let next : (row + 1 + count) * pitch ≡ row * pitch + pitch + count * pitch = omega arith in
    let here : row * pitch + row_bytes ≤ length pixels = omega (arith, parts, inside, fits) in
    let found = row_at-inside pixels pitch row_bytes row here b in
    let this = take row_bytes (drop (row * pitch) pixels) in
    let (out, e, l) =
      convert_rows-HasLength format pixels width pitch count (row + 1) fits
        (omega (arith, next, parts, inside)) b in
    let size : length this ≡ row_bytes =
      length-take row_bytes (drop (row * pitch) pixels)
        (omega (arith, length-drop (row * pitch) pixels, here)) in
    let wide = length-convert_row format width this size in
    (
      convert_row format this ++ out,
      rw (found, e) refl,
      length-append (convert_row format this) out ∙ omega (arith, wide, l),
    )

-- A frame whose rows are no longer than the pitch and whose rows all lie within the data is converted,
-- into four bytes for each pixel, if the pitch, the data's length and the result's length are words of
-- 64 bits.
pub convert_video_frame-HasLength :
    (format : VideoPixelFormat) (pixels : List ℕ) (width height pitch : ℕ)
    → width * bytes_per_pixel format ≤ pitch
    → height * pitch ≤ length pixels
    → length pixels < u64_mod
    → pitch < u64_mod
    → width * height * 4 < u64_mod
    → HasLength
        (height * (width * 4))
        (convert_video_frame_to_xrgb8888 pixels width height pitch format)
unfolding convert_video_frame_to_xrgb8888
convert_video_frame-HasLength format pixels width height pitch fits inside b p area =
    let bytes : ltb (width * bytes_per_pixel format) u64_mod ≡ true =
      lt→ltb (width * bytes_per_pixel format) u64_mod (omega (arith, fits, p)) in
    let total : ltb (height * pitch) u64_mod ≡ true =
      lt→ltb (height * pitch) u64_mod (omega (arith, inside, b)) in
    let wide : ltb pitch (width * bytes_per_pixel format) ≡ false = ground (arith, fits) in
    let enough : ltb (length pixels) (height * pitch) ≡ false = ground (arith, inside) in
    let pixels_fit : ltb (width * height) u64_mod ≡ true =
      lt→ltb (width * height) u64_mod (omega (arith, area)) in
    let out_fit : ltb (width * height * 4) u64_mod ≡ true =
      lt→ltb (width * height * 4) u64_mod area in
    rw (bytes, total, wide, enough, pixels_fit, out_fit)
      (convert_rows-HasLength format pixels width pitch height 0 fits (omega (arith, inside)) b)
