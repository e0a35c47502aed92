-- ===== src/Surface/Copy/Memcpy.antt =====
-- The rows that surface/native_rgba_copy.cpp copies with `memcpy` show what the loop over their pixels
-- would show.
use harmony_windows_bridge.Base.{
  ℕ, zero, suc, ◌+◌, ◌-◌, ◌*◌, ◌/◌, ◌%◌, ◌≤◌, ◌<◌, ◌≡◌, refl, ap, inl, inr, Bool, true, false, ◌&&◌,
  arith, ◌==◌, if◌then◌else◌, Bool-cases, subst,
}
use harmony_windows_bridge.Surface.Copy.{Memory, write, pixel_address, memcpy}
use harmony_windows_bridge.Surface.Copy.Pixels.{byte_at, address-injective}
use harmony_windows_bridge.Surface.Copy.Rows.{is_between}

next_byte :
    (a target count source_value first_value old written final : ℕ)
    → final ≡ (if is_between a (target + 1) count then source_value else written)
    → written ≡ (if a == target then first_value else old)
    → (a ≡ target → first_value ≡ source_value)
    → final ≡ (if is_between a target (suc count) then source_value else old)
next_byte a target count v u old written final e f g = ground (arith, e, f, g)

memcpy-at :
    (source : Memory) (a count target source_at : ℕ) (m : Memory)
    → memcpy count target source_at source m a
      ≡ (if is_between a target count then source (source_at + a - target) else m a)
unfolding memcpy
memcpy-at source a zero target source_at m = ground arith
memcpy-at source a (suc count) target source_at m =
    next_byte a target count (source (source_at + a - target)) (source source_at) (m a)
      (write target (source source_at) m a) _
      (subst
        (λ i.
          memcpy count (target + 1) (source_at + 1) source (write target (source source_at) m) a ≡ (
            if is_between a (target + 1) count
            then source i
            else write target (source source_at) m a))
        later
        (memcpy-at source a count (target + 1) (source_at + 1) (write target (source source_at) m)))
      refl (λ h. ap (λ i. source i) (here h))
  where
    later : source_at + 1 + a - (target + 1) ≡ source_at + a - target
    later = omega arith

    here : a ≡ target → source_at ≡ source_at + a - target
    here h = omega (arith, h)

-- The bytes of the pixels from `left` on in one row are consecutive.
bytes_of_row :
    (r x y c left row columns : ℕ)
    → 4 * x + 4 ≤ r
    → c < 4
    → 4 * (left + columns) ≤ r
    → is_between (pixel_address r x y + c) (pixel_address r left row) (columns * 4)
      ≡ (y == row && is_between x left columns)
bytes_of_row r x y c left row columns a b w =
    elim (Bool-cases (y == row && is_between x left columns)) [
      | inl e ↦
          let same : y ≡ row = ground (arith, e) in
          let same' : r * y ≡ r * row = ap (λ z. r * z) same in rw e (ground (arith, e, same'))
      | inr e ↦
          elim (Bool-cases
            (is_between (pixel_address r x y + c) (pixel_address r left row) (columns * 4))) [
              | inr f ↦ rw (e, f) refl
              | inl f ↦ absurd (outside e f)
            ]
    ]
  where
    outside :
        (y == row && is_between x left columns) ≡ false
        → is_between (pixel_address r x y + c) (pixel_address r left row) (columns * 4) ≡ true
        → ⊥
    outside e f =
        let here = pixel_address r x y + c in
        let d = here - pixel_address r left row in
        let l : pixel_address r left row ≤ here = ground (arith, f) in
        let u : here < pixel_address r left row + columns * 4 = ground (arith, f) in
        let same =
          address-injective r x y (left + d / 4) row c (d % 4) a (omega (arith, l, u, w)) b
            (omega arith) (omega (arith, l)) in
        ground (arith, e, same.0, same.1, l, u)

-- A test and a value are replaced by equal ones.
pub replace :
    (g h : Bool) (v u old final : ℕ)
    → final ≡ (if g then v else old)
    → g ≡ h
    → (h ≡ true → v ≡ u)
    → final ≡ (if h then u else old)
replace g h v u old final e f k = ground (arith, e, f, k)

-- A row that is copied as bytes.
pub memcpy-byte_at :
    (r x y c left row columns source_at : ℕ) (source m : Memory)
    → 4 * x + 4 ≤ r
    → c < 4
    → 4 * (left + columns) ≤ r
    → byte_at r x y c (memcpy (columns * 4) (pixel_address r left row) source_at source m) ≡ (
        if y == row && is_between x left columns
        then source (source_at + (x - left) * 4 + c)
        else byte_at r x y c m)
memcpy-byte_at r x y c left row columns source_at source m a b w =
    let here = pixel_address r x y + c in
    let target = pixel_address r left row in
    replace (is_between here target (columns * 4)) (y == row && is_between x left columns)
      (source (source_at + here - target)) (source (source_at + (x - left) * 4 + c)) (m here) _
      (memcpy-at source here (columns * 4) target source_at m)
      (bytes_of_row r x y c left row columns a b w) (λ h. ap (λ i. source i) (same_offset h))
  where
    same_offset :
        (y == row && is_between x left columns) ≡ true
        → source_at + (pixel_address r x y + c) - pixel_address r left row
          ≡ source_at + (x - left) * 4 + c
    same_offset h =
        let same : y ≡ row = ground (arith, h) in
        let same' : r * y ≡ r * row = ap (λ z. r * z) same in ground (arith, h, same')
