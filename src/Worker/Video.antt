-- ===== src/Worker/Video.antt =====
-- src/bin/worker.rs: the conversion of a video frame to XRGB8888. The
-- target is little-endian and has words of 64 bits.
pub mod Size
mod Runs
use Prim.Native.Nat.{bit_or}
use mgba_server.Common.{
  ℕ, zero, suc, ◌+◌, ◌-◌, ◌*◌, ◌/◌, ◌%◌, List, [], ◌∷◌, ◌++◌, Option, none, some, length, take,
  drop, ltb, leb, ◌==◌, if◌then◌else◌, Bool, ◌&&◌, ◌||◌,
}
use mgba_server.Common.Maybe.{◌>>=◌}
use mgba_server.Common.Bytes.{from_le16, u64_mod}

pub data VideoPixelFormat : Type 0 where
  xrgb1555 xrgb8888 rgb565 : VideoPixelFormat

-- The numbers of libretro's `retro_pixel_format`.
unfoldable pub pixel_format_from_u32 : ℕ → Option VideoPixelFormat
pixel_format_from_u32 format =
    if format == 0
    then some VideoPixelFormat.xrgb1555
    else if format == 1
    then some VideoPixelFormat.xrgb8888
    else if format == 2
    then some VideoPixelFormat.rgb565
    else none

abbrev pub checked : ℕ → Option ℕ
checked n = if ltb n u64_mod then some n else none

abbrev pub bytes_per_pixel : VideoPixelFormat → ℕ
bytes_per_pixel VideoPixelFormat.xrgb8888 = 4
bytes_per_pixel VideoPixelFormat.xrgb1555 = 2
bytes_per_pixel VideoPixelFormat.rgb565 = 2

-- `((value << 3) | (value >> 2)) as u8` on 16 bits, and its like for six bits.
unfoldable pub expand_5bit_to_8bit : ℕ → ℕ
expand_5bit_to_8bit value = bit_or ((value * 8) % 65536) (value / 4) % 256

unfoldable pub expand_6bit_to_8bit : ℕ → ℕ
expand_6bit_to_8bit value = bit_or ((value * 4) % 65536) (value / 16) % 256

-- The loop body over `chunks_exact(2)`: blue, green, red, and a full last byte.
unfoldable pub convert_xrgb1555_row : List ℕ → List ℕ
convert_xrgb1555_row [] = []
convert_xrgb1555_row (a ∷ []) = []
convert_xrgb1555_row (a ∷ b ∷ row) =
    let value = from_le16 a b in
    expand_5bit_to_8bit (value % 32)
    ∷ expand_5bit_to_8bit ((value / 32) % 32)
    ∷ expand_5bit_to_8bit ((value / 1024) % 32)
    ∷ 255
    ∷ convert_xrgb1555_row row

unfoldable pub convert_rgb565_row : List ℕ → List ℕ
convert_rgb565_row [] = []
convert_rgb565_row (a ∷ []) = []
convert_rgb565_row (a ∷ b ∷ row) =
    let value = from_le16 a b in
    expand_5bit_to_8bit (value % 32)
    ∷ expand_6bit_to_8bit ((value / 32) % 64)
    ∷ expand_5bit_to_8bit ((value / 2048) % 32)
    ∷ 255
    ∷ convert_rgb565_row row

abbrev pub convert_row : VideoPixelFormat → List ℕ → List ℕ
convert_row VideoPixelFormat.xrgb8888 row = row
convert_row VideoPixelFormat.xrgb1555 row = convert_xrgb1555_row row
convert_row VideoPixelFormat.rgb565 row = convert_rgb565_row row

-- `pixels.get(start..end)`
abbrev pub get_range : ℕ → ℕ → List ℕ → Option (List ℕ)
get_range start end pixels =
    if leb start end && leb end (length pixels)
    then some (take (end - start) (drop start pixels))
    else none

-- One round of the loop over the rows.
abbrev pub row_at : List ℕ → ℕ → ℕ → ℕ → Option (List ℕ)
row_at pixels pitch row_bytes row = do
  row_start ← checked (row * pitch)
  row_end ← checked (row_start + row_bytes)
  get_range row_start row_end pixels

abbrev pub join_rows : Option (List ℕ) → Option (List ℕ) → Option (List ℕ)
join_rows none rest = none
join_rows (some row) none = none
join_rows (some row) (some rest) = some (row ++ rest)

abbrev pub converted : VideoPixelFormat → Option (List ℕ) → Option (List ℕ)
converted format none = none
converted format (some row) = some (convert_row format row)

-- The rows from `row` on, `count` of them.
unfoldable pub convert_rows : VideoPixelFormat → List ℕ → ℕ → ℕ → ℕ → ℕ → Option (List ℕ)
convert_rows format pixels pitch row_bytes zero row = some []
convert_rows format pixels pitch row_bytes (suc count) row =
    join_rows (converted format (row_at pixels pitch row_bytes row))
      (convert_rows format pixels pitch row_bytes count (row + 1))

unfoldable pub convert_video_frame_to_xrgb8888 :
    List ℕ → ℕ → ℕ → ℕ → VideoPixelFormat → Option (List ℕ)
unfolding convert_rows
convert_video_frame_to_xrgb8888 pixels width height pitch format = do
  row_bytes ← checked (width * bytes_per_pixel format)
  all_bytes ← checked (height * pitch)
  area ←
      (if ltb pitch row_bytes || ltb (length pixels) all_bytes
        then none
        else checked (width * height))
  output_len ← checked (area * 4)
  convert_rows format pixels pitch row_bytes height 0
