-- ===== src/Surface/Copy.antt =====
-- surface/native_rgba_copy.cpp: painting into the memory of a buffer. A memory gives the byte at an
-- offset; the source has one too. Offsets are int64_t and stay below 2 ^ 63 for int32_t strides, and
-- a row of the target, of int32_t bytes, has fewer than 2 ^ 29 pixels, so that neither wraps; the column of
-- the source times 4 may, in uint32_t. A loop counts the rows or columns that are left and the current one.
pub mod Pixels
pub mod Rows
pub mod Memcpy
pub mod Image
pub mod Border
pub mod Stride
use harmony_windows_bridge.Base.{
  ℕ, zero, suc, ◌+◌, ◌-◌, ◌*◌, ◌/◌, Bool, true, false, ◌&&◌, ◌||◌, ltb, ◌==◌, if◌then◌else◌,
}
use harmony_windows_bridge.Surface.Types.{RenderViewport}
use harmony_windows_bridge.Surface.Geometry
use harmony_windows_bridge.Base.Word.{u32, u64}

-- The constants NATIVEBUFFER_PIXEL_FMT_*; `other_format` is every further one.
pub data PixelFormat : Type 0 where
  rgba_8888 : PixelFormat
  rgbx_8888 : PixelFormat
  bgra_8888 : PixelFormat
  bgrx_8888 : PixelFormat
  other_format : ℕ → PixelFormat

abbrev pub is_bgr : PixelFormat → Bool
is_bgr bgra_8888 = true
is_bgr bgrx_8888 = true
is_bgr _ = false

abbrev pub is_rgb : PixelFormat → Bool
is_rgb rgba_8888 = true
is_rgb rgbx_8888 = true
is_rgb _ = false

abbrev pub Memory : Type 0
Memory = ℕ → ℕ

abbrev pub write : ℕ → ℕ → Memory → Memory
write address value m a = if a == address then value else m a

-- The arguments r, g, b and a.
pub record Pixel : Type 0 where
  pub red : ℕ
  pub green : ℕ
  pub blue : ℕ
  pub alpha : ℕ

abbrev pub write_four : ℕ → (first second third fourth : ℕ) → Memory → Memory
write_four address first second third fourth m =
    write (address + 3) fourth
      (write (address + 2) third (write (address + 1) second (write address first m)))

unfoldable pub copy_rgba_pixel_to_native : ℕ → PixelFormat → Pixel → Memory → Memory
copy_rgba_pixel_to_native address format p m =
    if is_bgr format
    then write_four address p.blue p.green p.red p.alpha m
    else write_four address p.red p.green p.blue p.alpha m

-- Where the pixel at column `x` of row `y` lies.
abbrev pub pixel_address : (row_bytes x y : ℕ) → ℕ
pixel_address row_bytes x y = row_bytes * y + 4 * x

-- The four bytes of a pixel of the source.
abbrev pub pixel_at : ℕ → Memory → Pixel
pixel_at address source = record {
  red = source address;
  green = source (address + 1);
  blue = source (address + 2);
  alpha = source (address + 3);
}

-- A row of `columns` pixels, the first at column `x`; the pixel for a column is `colour` of its number
-- in the row.
unfoldable pub paint_columns :
    (columns column : ℕ) → PixelFormat → ℕ → (ℕ → Pixel) → Memory → Memory
unfolding copy_rgba_pixel_to_native
paint_columns zero column format target_row colour m = m
paint_columns (suc columns) column format target_row colour m =
    paint_columns columns (column + 1) format target_row colour
      (copy_rgba_pixel_to_native (target_row + column * 4) format (colour column) m)

-- Rows one after the other, each painted by its number.
unfoldable pub paint_rows : (rows row : ℕ) → (ℕ → Memory → Memory) → Memory → Memory
paint_rows zero row paint m = m
paint_rows (suc rows) row paint m = paint_rows rows (row + 1) paint (paint row m)

unfoldable pub fill_native_rect :
    PixelFormat → (row_bytes x y width height : ℕ) → Pixel → Memory → Memory
unfolding paint_columns paint_rows
fill_native_rect format row_bytes x y width height p m =
    if width == 0 || height == 0
    then m
    else paint_rows height 0
        (λ row. paint_columns width 0 format (pixel_address row_bytes x (y + row)) (λ column. p)) m

-- `std::memcpy`: the bytes from `at` on, `count` of them.
unfoldable pub memcpy : (count : ℕ) → (target source_at : ℕ) → Memory → Memory → Memory
memcpy zero target source_at source m = m
memcpy (suc count) target source_at source m =
    memcpy count (target + 1) (source_at + 1) source (write target (source source_at) m)

unfoldable pub copy_rgba_to_native :
    PixelFormat → ℕ → Memory → (source_stride width height : ℕ) → Memory → Memory
unfolding memcpy paint_columns paint_rows
copy_rgba_to_native format row_bytes source source_stride width height m =
    if is_rgb format
    then paint_rows height 0 (λ y. memcpy (width * 4) (row_bytes * y) (source_stride * y) source) m
    else paint_rows height 0
        (λ y.
          paint_columns width 0 format (row_bytes * y)
            (λ x. pixel_at (source_stride * y + x * 4) source))
        m

unfoldable pub is_supported_four_byte_format : PixelFormat → Bool
is_supported_four_byte_format format = is_rgb format || is_bgr format

unfoldable pub fit_frame_into_target : ℕ → ℕ → ℕ → ℕ → RenderViewport
unfolding Geometry.fit_remote_content_into_target
fit_frame_into_target target_width target_height source_width source_height =
    let g =
      Geometry.fit_remote_content_into_target target_width target_height source_width
        source_height in
    record { x = g.content_x; y = g.content_y; width = g.content_width; height = g.content_height }

unfoldable pub fill_native_letterbox :
    PixelFormat → (row_bytes width height : ℕ) → RenderViewport → Pixel → Memory → Memory
unfolding fill_native_rect
fill_native_letterbox format row_bytes width height v p m =
    let above = fill_native_rect format row_bytes 0 0 width v.y p m in
    let bottom_y = u32 (v.y + v.height) in
    let below =
      if ltb bottom_y height
      then fill_native_rect format row_bytes 0 bottom_y width (height - bottom_y) p above
      else above in
    let beside = fill_native_rect format row_bytes 0 v.y v.x v.height p below in
    let right_x = u32 (v.x + v.width) in
    if ltb right_x width
    then fill_native_rect format row_bytes right_x v.y (width - right_x) v.height p beside
    else beside

unfoldable pub copy_rgba_rect_to_native :
    PixelFormat → ℕ → Memory → (source_stride x y width height : ℕ) → Memory → Memory
unfolding memcpy paint_columns paint_rows
copy_rgba_rect_to_native format row_bytes source source_stride x y width height m =
    if width == 0 || height == 0
    then m
    else if is_rgb format
    then paint_rows height 0
        (λ row.
          memcpy (width * 4) (pixel_address row_bytes x (y + row))
            (pixel_address source_stride x (y + row)) source)
        m
    else paint_rows height 0
        (λ row.
          paint_columns width 0 format (pixel_address row_bytes x (y + row))
            (λ column. pixel_at (pixel_address source_stride x (y + row) + column * 4) source))
        m

-- The column or row of the source that is shown at one of the viewport.
abbrev pub scaled_index : (i source_size size : ℕ) → ℕ
scaled_index i source_size size = u32 (u64 (i * source_size) / size)

unfoldable pub copy_scaled_rgba_to_native :
    PixelFormat
    → ℕ
    → Memory
    → (source_stride source_width source_height : ℕ) → RenderViewport
    → Memory
    → Memory
unfolding copy_rgba_to_native paint_columns paint_rows
copy_scaled_rgba_to_native format row_bytes source source_stride source_width source_height v m =
    if source_width == v.width && (source_height == v.height && (v.x == 0 && v.y == 0))
    then copy_rgba_to_native format row_bytes source source_stride source_width source_height m
    else paint_rows v.height 0
        (λ y. paint_columns v.width 0 format (pixel_address row_bytes v.x (v.y + y)) (λ x.
          pixel_at
            (source_stride * scaled_index y source_height v.height
              + u32 (scaled_index x source_width v.width * 4))
            source))
        m
