-- ===== src/Surface/Copy/Image.antt =====
-- What surface/native_rgba_copy.cpp shows: a filled rectangle, a frame scaled into its viewport, and the
-- black border around it.
use harmony_windows_bridge.Base.Word.{u64, u32}
use harmony_windows_bridge.Base.{
  ℕ, zero, suc, ◌+◌, ◌-◌, ◌*◌, ◌/◌, ◌^◌, ◌≤◌, ◌<◌, ◌≡◌, refl, sym, ap, ◌∙◌, inl, inr, true, ◌&&◌,
  ◌||◌, arith, ◌==◌, if◌then◌else◌, Bool-cases, subst,
}
use harmony_windows_bridge.Surface.Types.{RenderViewport}
use harmony_windows_bridge.Surface.Copy.{
  Memory, PixelFormat, rgba_8888, rgbx_8888, bgra_8888, bgrx_8888, other_format, is_rgb, Pixel,
  pixel_at, fill_native_rect, paint_columns, memcpy, copy_rgba_to_native, pixel_address,
  scaled_index, copy_scaled_rgba_to_native,
}
use harmony_windows_bridge.Surface.Copy.Pixels.{byte_at, channel}
use harmony_windows_bridge.Surface.Copy.Rows.{is_between, paint_row-byte_at, paint_all-byte_at}
use harmony_windows_bridge.Surface.Copy.Memcpy.{memcpy-byte_at, replace}
use harmony_windows_bridge.Surface.Geometry.Fit.{mul-lt_u64}

-- `FillNativeRect` gives the pixels of its rectangle the colour and leaves every other pixel.
pub fill_native_rect-byte_at :
    (format : PixelFormat) (r left top width height : ℕ) (p : Pixel) (m : Memory) (x y c : ℕ)
    → 4 * x + 4 ≤ r
    → c < 4
    → 4 * (left + width) ≤ r
    → byte_at r x y c (fill_native_rect format r left top width height p m) ≡ (
        if is_between y top height && is_between x left width
        then channel format p c
        else byte_at r x y c m)
unfolding fill_native_rect
fill_native_rect-byte_at format r left top width height p m x y c a b w =
    elim (Bool-cases (width == 0 || height == 0)) [
      | inl e ↦ rw e (ground (arith, e))
      | inr e ↦ rw e (
          paint_all-byte_at r x y c top (is_between x left width) _ (λ row. channel format p c)
            (λ row m'.
              paint_row-byte_at r left (top + row) format (λ column. p) x y c width m' a b w)
            height m)
    ]

four_bytes :
    (source : Memory) (address c : ℕ)
    → c < 4
    → (if c == 0
        then source address
        else if c == 1
        then source (address + 1)
        else if c == 2
        then source (address + 2)
        else source (address + 3))
      ≡ source (address + c)
four_bytes source address zero b = ap (λ i. source i) (first address)
  where
    first : (n : ℕ) → n ≡ n + 0
    first n = omega arith
four_bytes source address (suc zero) b = refl
four_bytes source address (suc (suc zero)) b = refl
four_bytes source address (suc (suc (suc zero))) b = refl
four_bytes source address (suc (suc (suc (suc c)))) b = absurd (omega (arith, b))

-- In the formats that are copied as bytes, the channels of a pixel are its bytes.
channel-rgb :
    (format : PixelFormat) (address c : ℕ) (source : Memory)
    → is_rgb format ≡ true
    → c < 4
    → channel format (pixel_at address source) c ≡ source (address + c)
channel-rgb rgba_8888 address c source e b = four_bytes source address c b
channel-rgb rgbx_8888 address c source e b = four_bytes source address c b
channel-rgb bgra_8888 address c source e b = ground (arith, e)
channel-rgb bgrx_8888 address c source e b = ground (arith, e)
channel-rgb (other_format n) address c source e b = ground (arith, e)

divide-le : (a i n size : ℕ) → a ≤ i * n → i < size → a / size ≤ n
divide-le a i n size l h = grind arith

-- The column of a source that is not too wide has an offset of 32 bits.
unwrapped :
    (i source_size size : ℕ)
    → i < size
    → source_size < 2 ^ 30
    → u32 (scaled_index i source_size size * 4) ≡ scaled_index i source_size size * 4
unwrapped i n size h k =
    let less : u64 (i * n) ≤ i * n = omega arith in
    omega (arith, k, divide-le (u64 (i * n)) i n size less h)

same_index : (i n : ℕ) → i < n → n < 2 ^ 32 → scaled_index i n n ≡ i
same_index i n h k = grind (arith, mul-lt_u64 i n (omega (arith, h, k)) k, cancels)
  where
    cancels : i * n / n ≡ i
    cancels = grind arith

-- At its own size every pixel is shown at its own place.
unscaled_index :
    (x left size source_size : ℕ)
    → size < 2 ^ 32
    → left ≡ 0
    → size ≡ source_size
    → x < left + size
    → x ≡ scaled_index (x - left) source_size size
unscaled_index x left size source_size k e f h =
    subst (λ n. x ≡ scaled_index (x - left) n size) f
      (subst (λ z. z ≡ scaled_index (x - left) size size) (from_left e)
        (sym (same_index (x - left) size (omega (arith, e, h)) k)))
  where
    from_left : left ≡ 0 → x - left ≡ x
    from_left e = omega (arith, e)

-- The byte of the source that a viewport shows in column `x` and in its row `row`.
abbrev pub scaled :
    PixelFormat → Memory → (stride x c source_width source_height : ℕ) → RenderViewport → ℕ → ℕ
scaled format source stride x c source_width source_height v row =
    channel format
      (pixel_at
        (stride * scaled_index row source_height v.height
          + scaled_index (x - v.x) source_width v.width * 4)
        source)
      c

module _ (format : PixelFormat) (r : ℕ) (source : Memory) (stride x y c : ℕ) (a : 4 * x + 4 ≤ r)
    (b : c < 4) where
  -- The frame at its own size: one row of it, as bytes or pixel by pixel.
  abbrev unscaled : ℕ → ℕ
  unscaled row = channel format (pixel_at (stride * row + x * 4) source) c

  in_first_rows :
      (row width : ℕ) → (y == row && is_between x 0 width) ≡ (y == 0 + row && is_between x 0 width)
  in_first_rows row width = ap (λ z. y == z && is_between x 0 width) (from_zero row)
    where
      from_zero : (n : ℕ) → n ≡ 0 + n
      from_zero n = omega arith

  row_start : (row : ℕ) → pixel_address r 0 row ≡ r * row
  row_start row = omega arith

  -- The row that is shown is the one at hand.
  row_offset :
      (row width : ℕ)
      → (y == 0 + row && is_between x 0 width) ≡ true
      → stride * row + (x - 0) * 4 ≡ stride * (y - 0) + x * 4
  row_offset row width h =
      let same : row ≡ y - 0 = ground (arith, h) in
      let same' : stride * row ≡ stride * (y - 0) = ap (λ z. stride * z) same in
      omega (arith, same')

  byte_row :
      (width row : ℕ) (m : Memory)
      → is_rgb format ≡ true
      → 4 * width ≤ r
      → byte_at r x y c (memcpy (width * 4) (r * row) (stride * row) source m)
        ≡ (if y == 0 + row && is_between x 0 width then unscaled (y - 0) else byte_at r x y c m)
  byte_row width row m e w =
      subst
        (λ t.
          byte_at r x y c (memcpy (width * 4) t (stride * row) source m)
          ≡ (if y == 0 + row && is_between x 0 width then unscaled (y - 0) else byte_at r x y c m))
        (row_start row)
        (replace (y == row && is_between x 0 width) (y == 0 + row && is_between x 0 width)
          (source (stride * row + (x - 0) * 4 + c)) (unscaled (y - 0)) (byte_at r x y c m) _
          (memcpy-byte_at r x y c 0 row width (stride * row) source m a b (omega (arith, w)))
          (in_first_rows row width)
          (λ h.
            ap (λ i. source (i + c)) (row_offset row width h)
            ∙ sym (channel-rgb format (stride * (y - 0) + x * 4) c source e b)))

  pixel_row :
      (width row : ℕ) (m : Memory)
      → 4 * width ≤ r
      → byte_at r x y c (
          paint_columns width 0 format
            (r * row)
            (λ column. pixel_at (stride * row + column * 4) source)
            m)
        ≡ (if y == 0 + row && is_between x 0 width then unscaled (y - 0) else byte_at r x y c m)
  pixel_row width row m w =
      let colour : ℕ → Pixel = λ column. pixel_at (stride * row + column * 4) source in
      subst
        (λ t.
          byte_at r x y c (paint_columns width 0 format t colour m)
          ≡ (if y == 0 + row && is_between x 0 width then unscaled (y - 0) else byte_at r x y c m))
        (row_start row)
        (replace (y == row && is_between x 0 width) (y == 0 + row && is_between x 0 width)
          (channel format (colour (x - 0)) c) (unscaled (y - 0)) (byte_at r x y c m) _
          (paint_row-byte_at r 0 row format colour x y c width m a b (omega (arith, w)))
          (in_first_rows row width)
          (λ h. ap (λ i. channel format (pixel_at i source) c) (row_offset row width h)))

  copy_rgba-byte_at :
      (width height : ℕ) (m : Memory)
      → 4 * width ≤ r
      → byte_at r x y c (copy_rgba_to_native format r source stride width height m) ≡ (
          if is_between y 0 height && is_between x 0 width
          then unscaled (y - 0)
          else byte_at r x y c m)
  unfolding copy_rgba_to_native
  copy_rgba-byte_at width height m w = elim (Bool-cases (is_rgb format)) [
    | inl e ↦ rw e (
        paint_all-byte_at r x y c 0 (is_between x 0 width) _ unscaled
          (λ row m'. byte_row width row m' e w) height m)
    | inr e ↦ rw e (
        paint_all-byte_at r x y c 0 (is_between x 0 width) _ unscaled
          (λ row m'. pixel_row width row m' w) height m)
  ]

  scaled_row :
      (sw sh : ℕ) (v : RenderViewport) (row : ℕ) (m : Memory)
      → sw < 2 ^ 30
      → 4 * (v.x + v.width) ≤ r
      → byte_at r x y c (
          paint_columns v.width 0 format
            (pixel_address r v.x (v.y + row))
            (λ column.
              pixel_at
                (stride * scaled_index row sh v.height + u32 (scaled_index column sw v.width * 4))
                source)
            m)
        ≡ (if y == v.y + row && is_between x v.x v.width
            then scaled format source stride x c sw sh v (y - v.y)
            else byte_at r x y c m)
  scaled_row sw sh v row m k w =
      let colour : ℕ → Pixel = λ column.
        pixel_at (stride * scaled_index row sh v.height + u32 (scaled_index column sw v.width * 4))
          source in
      let shown = y == v.y + row && is_between x v.x v.width in
      replace shown shown (channel format (colour (x - v.x)) c)
        (scaled format source stride x c sw sh v (y - v.y)) (byte_at r x y c m) _
        (paint_row-byte_at r v.x (v.y + row) format colour x y c v.width m a b w) refl
        (λ h.
          ap (λ z. channel format (pixel_at (stride * scaled_index row sh v.height + z) source) c)
            (unwrapped (x - v.x) sw v.width (this_column h) k)
          ∙ ap (λ z. scaled format source stride x c sw sh v z) (this_row h))
    where
      this_row : (y == v.y + row && is_between x v.x v.width) ≡ true → row ≡ y - v.y
      this_row h = ground (arith, h)

      this_column : (y == v.y + row && is_between x v.x v.width) ≡ true → x - v.x < v.width
      this_column h = ground (arith, h)

  unscaled-same :
      (sw sh : ℕ) (v : RenderViewport)
      → v.width < 2 ^ 32
      → v.height < 2 ^ 32
      → (sw == v.width && (sh == v.height && (v.x == 0 && v.y == 0))) ≡ true
      → (is_between y v.y v.height && is_between x v.x v.width) ≡ true
      → unscaled (y - 0) ≡ scaled format source stride x c sw sh v (y - v.y)
  unscaled-same sw sh v p q e h =
      let column : x ≡ scaled_index (x - v.x) sw v.width =
        unscaled_index x v.x v.width sw p (ground (arith, e)) (ground (arith, e))
          (ground (arith, h)) in
      let line : y - 0 ≡ scaled_index (y - v.y) sh v.height =
        omega arith
        ∙ unscaled_index y v.y v.height sh q (ground (arith, e)) (ground (arith, e))
            (ground (arith, h)) in
      ap (λ i. channel format (pixel_at i source) c)
        (ap (λ z. stride * z + x * 4) line
          ∙ ap (λ z. stride * scaled_index (y - v.y) sh v.height + z * 4) column)

  unscaled-place :
      (sw sh : ℕ) (v : RenderViewport)
      → (sw == v.width && (sh == v.height && (v.x == 0 && v.y == 0))) ≡ true
      → (is_between y 0 sh && is_between x 0 sw)
        ≡ (is_between y v.y v.height && is_between x v.x v.width)
  unscaled-place sw sh v e = ground (arith, e)

  copied_as_it_is :
      (sw sh : ℕ) (v : RenderViewport) (m : Memory)
      → (sw == v.width && (sh == v.height && (v.x == 0 && v.y == 0))) ≡ true
      → copy_scaled_rgba_to_native format r source stride sw sh v m
        ≡ copy_rgba_to_native format r source stride sw sh m
  unfolding copy_scaled_rgba_to_native
  copied_as_it_is sw sh v m e = rw e refl

  -- `CopyScaledRgbaToNative` gives each pixel of the viewport the pixel of the source at the same place
  -- in proportion, rounded down, also where it copies the frame as it is, and leaves every other pixel. The
  -- source has fewer than 2 ^ 30 columns, so that the offset of one is a number of 32 bits.
  pub copy_scaled-byte_at :
      (source_width source_height : ℕ) (v : RenderViewport) (m : Memory)
      → source_width < 2 ^ 30
      → 4 * (v.x + v.width) ≤ r
      → v.width < 2 ^ 32
      → v.height < 2 ^ 32
      → byte_at r x y c
          (copy_scaled_rgba_to_native format r source stride source_width source_height v m)
        ≡ (if is_between y v.y v.height && is_between x v.x v.width
            then scaled format source stride x c source_width source_height v (y - v.y)
            else byte_at r x y c m)
  unfolding copy_scaled_rgba_to_native
  copy_scaled-byte_at sw sh v m k w p q =
      elim (Bool-cases (sw == v.width && (sh == v.height && (v.x == 0 && v.y == 0)))) [
        | inl e ↦
            subst
              (λ m'. byte_at r x y c m' ≡ (
                if is_between y v.y v.height && is_between x v.x v.width
                then scaled format source stride x c sw sh v (y - v.y)
                else byte_at r x y c m))
              (sym (copied_as_it_is sw sh v m e))
              (replace (is_between y 0 sh && is_between x 0 sw)
                (is_between y v.y v.height && is_between x v.x v.width) (unscaled (y - 0))
                (scaled format source stride x c sw sh v (y - v.y)) (byte_at r x y c m) _
                (copy_rgba-byte_at sw sh m (ground (arith, e, w))) (unscaled-place sw sh v e)
                (unscaled-same sw sh v p q e))
        | inr e ↦ rw e (
            paint_all-byte_at r x y c v.y (is_between x v.x v.width) _
              (scaled format source stride x c sw sh v) (λ row m'. scaled_row sw sh v row m' k w)
              v.height m)
      ]
