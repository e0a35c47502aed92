-- ===== src/Surface/Copy/Stride.antt =====
-- ResolveRowBytes of surface/native_rgba_copy.cpp: how many bytes a row of a buffer has. Its products are
-- int64_t; they are taken exactly, which they are for buffers of less than 2 ^ 61 pixels.
use harmony_windows_bridge.Base.{
  ℕ, ◌*◌, ◌^◌, ◌≤◌, ◌<◌, ◌≡◌, refl, ◌⊎◌, inl, inr, Bool, true, false, not, ◌&&◌, ◌||◌, arith, leb,
  ◌==◌, if◌then◌else◌, Bool-cases,
}
use harmony_windows_bridge.Base.Int.{ℤ, pos, pos_part, ltb_ℤ, int32_of}
use harmony_windows_bridge.Base.Word.{u32}

-- The fields of BufferHandle that it reads.
pub record BufferHandle : Type 0 where
  pub width : ℤ
  pub stride : ℤ
  pub size : ℤ

abbrev pub is_positive : ℤ → Bool
is_positive n = ltb_ℤ (pos 0) n

-- A size that is not positive is unknown and sets no limit.
abbrev pub fits_size : BufferHandle → ℕ → Bool
fits_size handle total = not (is_positive handle.size) || leb total (pos_part handle.size)

-- A stride below 0 is compared as 0, which is less than a row too.
abbrev pub stride_of : BufferHandle → ℕ
stride_of handle = pos_part (if is_positive handle.stride then handle.stride else handle.width)

unfoldable pub resolve_row_bytes : BufferHandle → (draw_width draw_height : ℕ) → ℤ
resolve_row_bytes handle draw_width draw_height =
    let tight_row_bytes = draw_width * 4 in
    let stride = stride_of handle in
    if draw_width == 0 || draw_height == 0
    then pos 0
    else if leb tight_row_bytes stride && fits_size handle (stride * draw_height)
    then int32_of (u32 stride)
    else if leb tight_row_bytes (stride * 4) && fits_size handle (stride * 4 * draw_height)
    then int32_of (u32 (stride * 4))
    else if fits_size handle (tight_row_bytes * draw_height)
    then int32_of (u32 tight_row_bytes)
    else pos 0

-- A number of bytes that holds a row, and rows of which fit the buffer.
abbrev pub HoldsRows : BufferHandle → (draw_width draw_height row_bytes : ℕ) → Type 0
HoldsRows handle draw_width draw_height row_bytes =
    (draw_width * 4 ≤ row_bytes)
    × ((is_positive handle.size ≡ false) ⊎ (row_bytes * draw_height ≤ pos_part handle.size))

int32_of-small : (n : ℕ) → n < 2 ^ 31 → int32_of (u32 n) ≡ pos n
int32_of-small n h = let e : u32 n ≡ n = omega (arith, h) in rw e (below h)
  where
    below : n < 2 ^ 31 → int32_of n ≡ pos n
    below h = ground (arith, h)

fits :
    (handle : BufferHandle) (total : ℕ)
    → fits_size handle total ≡ true
    → (is_positive handle.size ≡ false) ⊎ (total ≤ pos_part handle.size)
fits handle total h = ground (arith, h)

-- Where the stride in pixels and the width drawn are below 2 ^ 29, the number of bytes is positive, holds a
-- row and keeps the rows drawn within the buffer, if its size is known; or it is 0, when not even rows
-- without a gap fit.
pub resolve_row_bytes-HoldsRows :
    (handle : BufferHandle) (draw_width draw_height : ℕ)
    → stride_of handle < 2 ^ 29
    → draw_width < 2 ^ 29
    → 0 < draw_width
    → 0 < draw_height
    → ((row_bytes : ℕ) × (resolve_row_bytes handle draw_width draw_height ≡ pos row_bytes)
        × HoldsRows handle draw_width draw_height row_bytes)
      ⊎ ((resolve_row_bytes handle draw_width draw_height ≡ pos 0)
          × (is_positive handle.size ≡ true)
          × (pos_part handle.size < draw_width * 4 * draw_height))
unfolding resolve_row_bytes
resolve_row_bytes-HoldsRows handle dw dh s w p q =
    let tight = dw * 4 in
    let stride = stride_of handle in
    let n : (dw == 0 || dh == 0) ≡ false = ground (arith, p, q) in
    elim (Bool-cases (leb tight stride && fits_size handle (stride * dh))) [
      | inl e ↦ inl (
        stride,
        rw (n, e) (int32_of-small stride (omega (arith, s))),
        (ground (arith, e), fits handle (stride * dh) (ground (arith, e))),
      )
      | inr e ↦ elim (Bool-cases (leb tight (stride * 4) && fits_size handle (stride * 4 * dh))) [
        | inl f ↦ inl (
          stride * 4,
          rw (n, e, f) (int32_of-small (stride * 4) (omega (arith, s))),
          (ground (arith, f), fits handle (stride * 4 * dh) (ground (arith, f))),
        )
        | inr f ↦ elim (Bool-cases (fits_size handle (tight * dh))) [
          | inl g ↦ inl (
            tight,
            rw (n, e, f, g) (int32_of-small tight (omega (arith, w))),
            (omega arith, fits handle (tight * dh) g),
          )
          | inr g ↦ inr (rw (n, e, f, g) refl, ground (arith, g), ground (arith, g))
        ]
      ]
    ]
