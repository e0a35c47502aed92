-- ===== src/Surface/Copy/Rows.antt =====
-- The loops of surface/native_rgba_copy.cpp over the columns of a row and over rows.
use harmony_windows_bridge.Base.{
  ℕ, zero, suc, ◌+◌, ◌-◌, ◌*◌, ◌≤◌, ◌<◌, ◌≡◌, ap, Bool, ◌&&◌, arith, ltb, leb, ◌==◌, if◌then◌else◌,
  subst,
}
use harmony_windows_bridge.Surface.Copy.{
  Pixel, PixelFormat, Memory, pixel_address, paint_columns, copy_rgba_pixel_to_native, paint_rows,
}
use harmony_windows_bridge.Surface.Copy.Pixels.{byte_at, channel, copy_pixel-byte_at}

-- `column` is one of the `columns` from `first` on.
abbrev pub is_between : (column first columns : ℕ) → Bool
is_between column first columns = leb first column && ltb column (first + columns)

-- One column is written, then the columns after it.
next_column :
    (x left column columns v u old written final : ℕ) (in_row : Bool)
    → final ≡ (if in_row && is_between x (left + (column + 1)) columns then v else written)
    → written ≡ (if x == left + column && in_row then u else old)
    → (x ≡ left + column → u ≡ v)
    → final ≡ (if in_row && is_between x (left + column) (suc columns) then v else old)
next_column x left column columns v u old written final in_row e f g = ground (arith, e, f, g)

-- What a row of the target shows: the pixel for the column's number in it, from column `left` on.
pub paint_columns-byte_at :
    (r left row : ℕ) (format : PixelFormat) (colour : ℕ → Pixel) (x y c : ℕ)
    → 4 * x + 4 ≤ r
    → c < 4
    → (columns column : ℕ) (m : Memory) → 4 * (left + column + columns) ≤ r
    → byte_at r x y c (paint_columns columns column format (pixel_address r left row) colour m) ≡ (
        if y == row && is_between x (left + column) columns
        then channel format (colour (x - left)) c
        else byte_at r x y c m)
unfolding paint_columns
paint_columns-byte_at r left row format colour x y c a b zero column m w = ground arith
paint_columns-byte_at r left row format colour x y c a b (suc columns) column m w =
    let at_column : pixel_address r (left + column) row ≡ pixel_address r left row + column * 4 =
      omega arith in
    let m' : Memory =
      copy_rgba_pixel_to_native (pixel_address r left row + column * 4) format (colour column) m in
    let one : byte_at r x y c m' ≡ (
        if x == left + column && y == row
        then channel format (colour column) c
        else byte_at r x y c m) =
      subst
        (λ t. byte_at r x y c (copy_rgba_pixel_to_native t format (colour column) m) ≡ (
          if x == left + column && y == row
          then channel format (colour column) c
          else byte_at r x y c m))
        at_column
        (copy_pixel-byte_at r x y (left + column) row c format (colour column) m a
          (omega (arith, w)) b) in
    next_column x left column columns (channel format (colour (x - left)) c)
      (channel format (colour column) c) (byte_at r x y c m) (byte_at r x y c m') _ (y == row)
      (paint_columns-byte_at r left row format colour x y c a b columns (column + 1) m'
        (omega (arith, w)))
      one (λ h. ap (λ i. channel format (colour i) c) (column_in_row h))
  where
    column_in_row : x ≡ left + column → column ≡ x - left
    column_in_row h = omega (arith, h)

-- One row is painted, then the rows after it.
next_row :
    (y top row rows v old written final : ℕ) (in_columns : Bool)
    → final ≡ (if is_between y (top + (row + 1)) rows && in_columns then v else written)
    → written ≡ (if y == top + row && in_columns then v else old)
    → final ≡ (if is_between y (top + row) (suc rows) && in_columns then v else old)
next_row y top row rows v old written final in_columns e f = ground (arith, e, f)

-- Rows that show `shown` for their number, in the columns of `in_columns`.
pub paint_rows-byte_at :
    (r x y c top : ℕ) (in_columns : Bool) (paint : ℕ → Memory → Memory) (shown : ℕ → ℕ)
    → ((row : ℕ) (m : Memory)
        → byte_at r x y c (paint row m)
          ≡ (if y == top + row && in_columns then shown (y - top) else byte_at r x y c m))
    → (rows row : ℕ) (m : Memory)
    → byte_at r x y c (paint_rows rows row paint m)
      ≡ (if is_between y (top + row) rows && in_columns then shown (y - top) else byte_at r x y c m)
unfolding paint_rows
paint_rows-byte_at r x y c top in_columns paint shown f zero row m = ground arith
paint_rows-byte_at r x y c top in_columns paint shown f (suc rows) row m =
    next_row y top row rows (shown (y - top)) (byte_at r x y c m) (byte_at r x y c (paint row m)) _
      in_columns
      (paint_rows-byte_at r x y c top in_columns paint shown f rows (row + 1) (paint row m))
      (f row m)

-- All columns, from the first one on.
pub paint_row-byte_at :
    (r left row : ℕ) (format : PixelFormat) (colour : ℕ → Pixel) (x y c columns : ℕ) (m : Memory)
    → 4 * x + 4 ≤ r
    → c < 4
    → 4 * (left + columns) ≤ r
    → byte_at r x y c (paint_columns columns 0 format (pixel_address r left row) colour m) ≡ (
        if y == row && is_between x left columns
        then channel format (colour (x - left)) c
        else byte_at r x y c m)
paint_row-byte_at r left row format colour x y c columns m a b w =
    let none_before : left + 0 ≡ left = omega arith in
    subst
      (λ z. byte_at r x y c (paint_columns columns 0 format (pixel_address r left row) colour m) ≡ (
        if y == row && is_between x z columns
        then channel format (colour (x - left)) c
        else byte_at r x y c m))
      none_before
      (paint_columns-byte_at r left row format colour x y c a b columns 0 m (omega (arith, w)))

-- All rows, from the first one on.
pub paint_all-byte_at :
    (r x y c top : ℕ) (in_columns : Bool) (paint : ℕ → Memory → Memory) (shown : ℕ → ℕ)
    → ((row : ℕ) (m : Memory)
        → byte_at r x y c (paint row m)
          ≡ (if y == top + row && in_columns then shown (y - top) else byte_at r x y c m))
    → (rows : ℕ) (m : Memory)
    → byte_at r x y c (paint_rows rows 0 paint m)
      ≡ (if is_between y top rows && in_columns then shown (y - top) else byte_at r x y c m)
paint_all-byte_at r x y c top in_columns paint shown f rows m =
    let none_before : top + 0 ≡ top = omega arith in
    subst
      (λ z.
        byte_at r x y c (paint_rows rows 0 paint m)
        ≡ (if is_between y z rows && in_columns then shown (y - top) else byte_at r x y c m))
      none_before (paint_rows-byte_at r x y c top in_columns paint shown f rows 0 m)
