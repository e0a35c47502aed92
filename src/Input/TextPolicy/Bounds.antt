-- ===== src/Input/TextPolicy/Bounds.antt =====
-- The bounds of the opaque pixels: input/remote_pointer_text_policy.cpp.
use harmony_windows_bridge.Base.Word.{u32}
use harmony_windows_bridge.Base.{
  ℕ, zero, suc, ◌+◌, ◌*◌, ◌≤◌, ◌<◌, ◌≡◌, sym, inl, inr, Bool, true, false, ◌||◌, some, arith, ltb,
  ◌==◌, Bool-cases, subst,
}
use harmony_windows_bridge.Input.TextPolicy.{
  Extremes, see_pixel, see_row, see_rows, no_extremes, is_opaque, judge_shape,
  is_remote_text_pointer_candidate,
}

-- The pixel is opaque, and within the extremes, which have counted it.
abbrev Holds : ℕ → ℕ → Extremes → Type 0
Holds x y e = (e.min_x ≤ x) × (x ≤ e.max_x) × (e.min_y ≤ y) × (y ≤ e.max_y) × (0 < e.opaque_pixels)

see_pixel-Holds :
    (b : Bool) (n m x y : ℕ) (e : Extremes) → Holds x y e → Holds x y (see_pixel b n m e)
unfolding see_pixel
see_pixel-Holds false n m x y e h = h
see_pixel-Holds true n m x y e h = ground arith

see_row-Holds :
    (shown : ℕ → ℕ → Bool) (m n x y : ℕ) (e : Extremes)
    → Holds x y e
    → Holds x y (see_row shown m n e)
unfolding see_row
see_row-Holds shown m zero x y e h = h
see_row-Holds shown m (suc n) x y e h =
    see_pixel-Holds (shown n m) n m x y (see_row shown m n e) (see_row-Holds shown m n x y e h)

seen-Holds : (x y : ℕ) (e : Extremes) → Holds x y (see_pixel true x y e)
unfolding see_pixel
seen-Holds x y e = ground arith

see_row-opaque :
    (shown : ℕ → ℕ → Bool) (n x y : ℕ) (e : Extremes)
    → shown x y ≡ true
    → x < n
    → Holds x y (see_row shown y n e)
unfolding see_row
see_row-opaque shown zero x y e s l = ground arith
see_row-opaque shown (suc n) x y e s l = elim (Bool-cases (x == n)) [
  | inl q ↦
      subst (λ k. Holds x y (see_pixel (shown k y) k y (see_row shown y n e))) (ground (arith, q))
        (subst (λ b. Holds x y (see_pixel b x y (see_row shown y n e))) (sym s)
          (seen-Holds x y (see_row shown y n e)))
  | inr q ↦
      see_pixel-Holds (shown n y) n y x y (see_row shown y n e)
        (see_row-opaque shown n x y e s (ground (arith, q)))
]

see_rows-opaque :
    (shown : ℕ → ℕ → Bool) (width n x y : ℕ) (e : Extremes)
    → shown x y ≡ true
    → x < width
    → y < n
    → Holds x y (see_rows shown width n e)
unfolding see_rows
see_rows-opaque shown width zero x y e s lx ly = ground arith
see_rows-opaque shown width (suc n) x y e s lx ly = elim (Bool-cases (y == n)) [
  | inl q ↦
      subst (λ k. Holds x y (see_row shown k width (see_rows shown width n e))) (ground (arith, q))
        (see_row-opaque shown width x y (see_rows shown width n e) s lx)
  | inr q ↦
      see_row-Holds shown n width x y (see_rows shown width n e)
        (see_rows-opaque shown width n x y e s lx (ground (arith, q)))
]

abbrev Inside : ℕ → ℕ → Extremes → Type 0
Inside width height e = (e.max_x < width) × (e.max_y < height)

see_pixel-Inside :
    (b : Bool) (width height x y : ℕ) (e : Extremes)
    → x < width
    → y < height
    → Inside width height e
    → Inside width height (see_pixel b x y e)
unfolding see_pixel
see_pixel-Inside false width height x y e lx ly h = h
see_pixel-Inside true width height x y e lx ly h = ground arith

see_row-Inside :
    (shown : ℕ → ℕ → Bool) (width height y n : ℕ) (e : Extremes)
    → n ≤ width
    → y < height
    → Inside width height e
    → Inside width height (see_row shown y n e)
unfolding see_row
see_row-Inside shown width height y zero e ln ly h = h
see_row-Inside shown width height y (suc n) e ln ly h =
    see_pixel-Inside (shown n y) width height n y (see_row shown y n e) (omega arith) ly
      (see_row-Inside shown width height y n e (omega arith) ly h)

see_rows-Inside :
    (shown : ℕ → ℕ → Bool) (width height n : ℕ) (e : Extremes)
    → n ≤ height
    → Inside width height e
    → Inside width height (see_rows shown width n e)
unfolding see_rows
see_rows-Inside shown width height zero e ln h = h
see_rows-Inside shown width height (suc n) e ln h =
    see_row-Inside shown width height n width (see_rows shown width n e) (omega arith) (omega arith)
      (see_rows-Inside shown width height n e (omega arith) h)

guards_pass :
    (width height stride : ℕ)
    → 0 < width
    → 0 < height
    → width ≤ 256
    → height ≤ 256
    → width * 4 ≤ stride
    → (width == 0 || height == 0 || ltb stride (u32 (width * 4)) || ltb 256 width || ltb 256 height)
      ≡ false
guards_pass width height stride pw ph lw lh ls =
    let four : u32 (width * 4) ≡ width * 4 = omega arith in rw four (ground arith)

positive-nonzero : (n : ℕ) → 0 < n → (n == 0) ≡ false
positive-nonzero n p = ground arith

judged :
    (rgba : ℕ → ℕ) (width height stride hotspot_x hotspot_y : ℕ)
    → 0 < width
    → 0 < height
    → width ≤ 256
    → height ≤ 256
    → width * 4 ≤ stride
    → let shown = is_opaque rgba stride in
      let e = see_rows shown width height (no_extremes width height) in
      0 < e.opaque_pixels
      → is_remote_text_pointer_candidate (some rgba) width height stride hotspot_x hotspot_y
        ≡ judge_shape shown e hotspot_x hotspot_y
unfolding is_remote_text_pointer_candidate
judged rgba width height stride hotspot_x hotspot_y pw ph lw lh ls c =
    let e = see_rows (is_opaque rgba stride) width height (no_extremes width height) in
    rw (guards_pass width height stride pw ph lw lh ls, positive-nonzero e.opaque_pixels c)

-- The bounds are those of a rectangle in the picture that holds every opaque pixel: of a picture of at most
-- 256 x 256 with rows that are long enough, two opaque pixels are less than the width of the bounds apart in
-- their columns, less than the height in their rows, and the bounds are no larger than the picture.
pub bounds_hold_pixels :
    (rgba : ℕ → ℕ) (width height stride hotspot_x hotspot_y x y x' y' : ℕ)
    → width ≤ 256
    → height ≤ 256
    → width * 4 ≤ stride
    → is_opaque rgba stride x y ≡ true
    → is_opaque rgba stride x' y' ≡ true
    → (x < width) × (y < height)
    → (x' < width) × (y' < height)
    → let m =
        (is_remote_text_pointer_candidate (some rgba) width height stride hotspot_x hotspot_y).1 in
      (x < x' + m.bounds_width)
      × (y < y' + m.bounds_height)
      × (m.bounds_width ≤ width)
      × (m.bounds_height ≤ height)
unfolding judge_shape
bounds_hold_pixels rgba width height stride hotspot_x hotspot_y x y x' y' lw lh ls o o' (lx, ly)
      (lx', ly') =
    let shown = is_opaque rgba stride in
    let h = see_rows-opaque shown width height x y (no_extremes width height) o lx ly in
    let h' = see_rows-opaque shown width height x' y' (no_extremes width height) o' lx' ly' in
    let i =
      see_rows-Inside shown width height height (no_extremes width height) (omega arith)
        (omega arith, omega arith) in
    subst
      (λ r.
        (x < x' + r.1.bounds_width)
        × (y < y' + r.1.bounds_height)
        × (r.1.bounds_width ≤ width)
        × (r.1.bounds_height ≤ height))
      (sym (
        judged rgba width height stride hotspot_x hotspot_y (omega arith) (omega arith) lw lh ls
          h.4))
      (omega arith, omega arith, omega arith, omega arith)
