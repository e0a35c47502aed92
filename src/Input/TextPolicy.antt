-- ===== src/Input/TextPolicy.antt =====
-- input/remote_pointer_text_policy.cpp: whether the picture of a remote pointer has the shape of a text
-- pointer. A picture is the function from an offset to its byte. After the guards a side is at most 256, so
-- that no sum or product of the bounds comes near 2 ^ 32; the hotspot may be any 32-bit number.
pub mod Bounds
use harmony_windows_bridge.Base.{
  ℕ, zero, suc, ◌+◌, ◌-◌, ◌*◌, ◌/◌, min, max, Bool, true, false, not, ◌&&◌, ◌||◌, Option, none,
  some, ltb, leb, ◌==◌, if◌then◌else◌,
}
use harmony_windows_bridge.Base.Word.{u32}

pub record RemotePointerTextMetrics : Type 0 where
  pub bounds_width : ℕ
  pub bounds_height : ℕ
  pub opaque_pixels : ℕ
  pub vertical_coverage : ℕ
  pub top_arm_width : ℕ
  pub bottom_arm_width : ℕ

abbrev pub no_metrics : RemotePointerTextMetrics
no_metrics = record {
  bounds_width = 0;
  bounds_height = 0;
  opaque_pixels = 0;
  vertical_coverage = 0;
  top_arm_width = 0;
  bottom_arm_width = 0;
}

abbrev pub is_opaque : (ℕ → ℕ) → ℕ → ℕ → ℕ → Bool
is_opaque rgba stride x y = not (rgba (y * stride + (x * 4 + 3)) == 0)

-- The locals of the first pass over the pixels.
pub record Extremes : Type 0 where
  pub min_x : ℕ
  pub min_y : ℕ
  pub max_x : ℕ
  pub max_y : ℕ
  pub opaque_pixels : ℕ

abbrev pub no_extremes : ℕ → ℕ → Extremes
no_extremes width height = record {
  min_x = width;
  min_y = height;
  max_x = 0;
  max_y = 0;
  opaque_pixels = 0;
}

unfoldable pub see_pixel : Bool → ℕ → ℕ → Extremes → Extremes
see_pixel false x y e = e
see_pixel true x y e = record {
  min_x = min e.min_x x;
  min_y = min e.min_y y;
  max_x = max e.max_x x;
  max_y = max e.max_y y;
  opaque_pixels = e.opaque_pixels + 1;
}

-- The first `n` pixels of row `y`.
unfoldable pub see_row : (ℕ → ℕ → Bool) → ℕ → ℕ → Extremes → Extremes
unfolding see_pixel
see_row shown y zero e = e
see_row shown y (suc n) e = see_pixel (shown n y) n y (see_row shown y n e)

-- The first `n` rows.
unfoldable pub see_rows : (ℕ → ℕ → Bool) → ℕ → ℕ → Extremes → Extremes
unfolding see_row
see_rows shown width zero e = e
see_rows shown width (suc n) e = see_row shown n width (see_rows shown width n e)

-- The second pass adds up the opaque pixels of each row and of each column within the bounds: here of the
-- row or column through `f`.
abbrev pub opaque_count : (ℕ → Bool) → ℕ → ℕ
opaque_count f zero = 0
opaque_count f (suc n) = opaque_count f n + (if f n then 1 else 0)

-- The first of the largest of `f 0` to `f n`: std::max_element.
abbrev pub max_element : (ℕ → ℕ) → ℕ → ℕ
max_element f zero = 0
max_element f (suc n) =
    let best = max_element f n in if ltb (f best) (f (suc n)) then suc n else best

-- The largest of the first `n`, or 0.
abbrev pub largest : (ℕ → ℕ) → ℕ → ℕ
largest f zero = 0
largest f (suc n) = max (largest f n) (f n)

unfoldable pub judge_shape : (ℕ → ℕ → Bool) → Extremes → ℕ → ℕ → Bool × RemotePointerTextMetrics
judge_shape shown e hotspot_x hotspot_y =
    let w = e.max_x - e.min_x + 1 in
    let h = e.max_y - e.min_y + 1 in
    let rows : ℕ → ℕ = λ i. opaque_count (λ j. shown (e.min_x + j) (e.min_y + i)) w in
    let columns : ℕ → ℕ = λ j. opaque_count (λ i. shown (e.min_x + j) (e.min_y + i)) h in
    let main_column = max_element columns (w - 1) in
    let band = min (max 2 (h / 5)) h in
    let m : RemotePointerTextMetrics = record {
      bounds_width = w;
      bounds_height = h;
      opaque_pixels = e.opaque_pixels;
      vertical_coverage = columns main_column;
      top_arm_width = largest rows band;
      bottom_arm_width = largest (λ i. rows (h - 1 - i)) band;
    } in
    let main_column_x = e.min_x + main_column in
    let center_y = e.min_y + h / 2 in
    let minimum_arm = max 3 (w * 3 / 5) in
    let shape =
      leb 9 h
      && leb (w * 3) (h * 2)
      && leb (e.opaque_pixels * 2) (w * h)
      && leb (h * 3) (m.vertical_coverage * 5)
      && leb minimum_arm m.top_arm_width
      && leb minimum_arm m.bottom_arm_width in
    let centered_hotspot =
      leb main_column_x (u32 (hotspot_x + 3))
      && leb hotspot_x (main_column_x + 3)
      && leb center_y (u32 (hotspot_y + max 3 (h / 3)))
      && leb hotspot_y (center_y + max 3 (h / 3)) in
    (shape && centered_hotspot, m)

-- `none` is a null picture. The second result is what `*metrics` is set to, if it is asked for.
unfoldable pub is_remote_text_pointer_candidate :
    Option (ℕ → ℕ) → (width height stride hotspot_x hotspot_y : ℕ) → Bool × RemotePointerTextMetrics
unfolding see_rows judge_shape
is_remote_text_pointer_candidate none width height stride hotspot_x hotspot_y = (false, no_metrics)
is_remote_text_pointer_candidate (some rgba) width height stride hotspot_x hotspot_y =
    if width == 0 || height == 0 || ltb stride (u32 (width * 4)) || ltb 256 width || ltb 256 height
    then (false, no_metrics)
    else let e = see_rows (is_opaque rgba stride) width height (no_extremes width height) in
      if e.opaque_pixels == 0
      then (false, no_metrics)
      else judge_shape (is_opaque rgba stride) e hotspot_x hotspot_y
