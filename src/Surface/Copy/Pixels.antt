-- ===== src/Surface/Copy/Pixels.antt =====
-- One pixel that surface/native_rgba_copy.cpp writes changes no other.
use harmony_windows_bridge.Base.{
  ℕ, ◌+◌, ◌-◌, ◌*◌, ◌≤◌, ◌<◌, ◌≡◌, sym, ap, ◌∙◌, ◌≢◌, ◌⊎◌, inl, inr, true, ◌&&◌, arith, ltb, leb,
  ◌==◌, if◌then◌else◌, ltb→lt, leb→le, Bool-cases, subst,
}
use harmony_windows_bridge.Surface.Copy.{
  Pixel, PixelFormat, is_bgr, Memory, pixel_address, copy_rgba_pixel_to_native,
}

-- The byte `c` of the pixel at column `x` of row `y`.
abbrev pub byte_at : (row_bytes x y c : ℕ) → Memory → ℕ
byte_at row_bytes x y c m = m (pixel_address row_bytes x y + c)

-- The byte `c` of a pixel in a format.
abbrev pub channel : PixelFormat → Pixel → ℕ → ℕ
channel format p c =
    if c == 0
    then if is_bgr format then p.blue else p.red
    else if c == 1
    then p.green
    else if c == 2
    then if is_bgr format then p.red else p.blue
    else p.alpha

row-below : (r y y' : ℕ) → y < y' → r * y + r ≤ r * y'
row-below r y y' h = grind (arith, mul-succ)
  where
    mul-succ : r * y + r ≡ r * (y + 1)
    mul-succ = grind arith

-- Bytes of different pixels of a buffer have different offsets.
pub address-injective :
    (r x y x' y' c c' : ℕ)
    → 4 * x + 4 ≤ r
    → 4 * x' + 4 ≤ r
    → c < 4
    → c' < 4
    → pixel_address r x y + c ≡ pixel_address r x' y' + c'
    → (x ≡ x') × (y ≡ y') × (c ≡ c')
address-injective r x y x' y' c c' a a' b b' e =
    let row : y ≡ y' = ground (arith, e, row-below r y y', row-below r y' y) in
    let e' : r * y' + 4 * x + c ≡ r * y' + 4 * x' + c' =
      subst (λ z. r * z + 4 * x + c ≡ r * y' + 4 * x' + c') row e in
    (omega (arith, e', b, b'), row, omega (arith, e', b, b'))

copy_pixel-channel :
    (address : ℕ) (format : PixelFormat) (p : Pixel) (m : Memory) (c : ℕ)
    → c < 4
    → copy_rgba_pixel_to_native address format p m (address + c) ≡ channel format p c
unfolding copy_rgba_pixel_to_native
copy_pixel-channel address format p m c h = elim (Bool-cases (is_bgr format)) [
  | inl e ↦ rw e (ground (arith, h))
  | inr e ↦ rw e (ground (arith, h))
]

copy_pixel-other :
    (address : ℕ) (format : PixelFormat) (p : Pixel) (m : Memory) (a : ℕ)
    → (a < address) ⊎ (address + 4 ≤ a)
    → copy_rgba_pixel_to_native address format p m a ≡ m a
unfolding copy_rgba_pixel_to_native
copy_pixel-other address format p m a h = elim (Bool-cases (is_bgr format)) [
  | inl e ↦ rw e (ground (arith, h))
  | inr e ↦ rw e (ground (arith, h))
]

pixels-apart :
    (r x y x' y' c : ℕ)
    → 4 * x + 4 ≤ r
    → 4 * x' + 4 ≤ r
    → c < 4
    → (x ≢ x') ⊎ (y ≢ y')
    → (pixel_address r x y + c < pixel_address r x' y')
      ⊎ (pixel_address r x' y' + 4 ≤ pixel_address r x y + c)
pixels-apart r x y x' y' c a a' b h =
    let from = pixel_address r x' y' in
    let here = pixel_address r x y + c in
    elim (Bool-cases (ltb here from)) [
      | inl e ↦ inl (ltb→lt here from e)
      | inr e ↦ elim (Bool-cases (leb (from + 4) here)) [
        | inl f ↦ inr (leb→le (from + 4) here f)
        | inr f ↦
            let l : from ≤ here = ground (arith, e) in
            let u : here < from + 4 = ground (arith, f) in
            let same =
              address-injective r x y x' y' c (here - from) a a' b (omega (arith, l, u))
                (omega (arith, l)) in
            absurd (ground (arith, h, same.0, same.1))
      ]
    ]

-- A pixel is written at its place, in the order of the format, and everywhere else nothing changes.
pub copy_pixel-byte_at :
    (r x y x' y' c : ℕ) (format : PixelFormat) (p : Pixel) (m : Memory)
    → 4 * x + 4 ≤ r
    → 4 * x' + 4 ≤ r
    → c < 4
    → byte_at r x y c (copy_rgba_pixel_to_native (pixel_address r x' y') format p m)
      ≡ (if x == x' && y == y' then channel format p c else byte_at r x y c m)
copy_pixel-byte_at r x y x' y' c format p m a a' b = elim (Bool-cases (x == x' && y == y')) [
  | inl e ↦
      let same : pixel_address r x y ≡ pixel_address r x' y' =
        ap (λ q. pixel_address r q.0 q.1) (same_place e) in
      rw e (
        subst
          (λ i.
            copy_rgba_pixel_to_native (pixel_address r x' y') format p m (i + c)
            ≡ channel format p c)
          (sym same) (copy_pixel-channel (pixel_address r x' y') format p m c b))
  | inr e ↦ rw e (
      copy_pixel-other (pixel_address r x' y') format p m (pixel_address r x y + c)
        (pixels-apart r x y x' y' c a a' b (ground (arith, e))))
]
  where
    same_place : (x == x' && y == y') ≡ true → ◌≡◌ {A = ℕ × ℕ} (x, y) (x', y')
    same_place e =
        let h : x ≡ x' = ground (arith, e) in
        let k : y ≡ y' = ground (arith, e) in ap (λ z. (z, y)) h ∙ ap (λ z. (x', z)) k
