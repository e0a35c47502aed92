-- ===== src/Surface/Copy/Border.antt =====
-- A whole frame that surface/native_window_rgba_painter.cpp paints with the functions of
-- surface/native_rgba_copy.cpp: the frame in its viewport, and the border around it.
use harmony_windows_bridge.Base.{
  ℕ, ◌+◌, ◌-◌, ◌*◌, ◌^◌, ◌≤◌, ◌<◌, ◌≡◌, refl, ◌∙◌, inl, inr, Bool, true, false, not, ◌&&◌, ◌||◌,
  arith, ltb, if◌then◌else◌, Bool-cases,
}
use harmony_windows_bridge.Surface.Types.{RenderViewport}
use harmony_windows_bridge.Surface.Copy.{
  Memory, PixelFormat, Pixel, fill_native_rect, fill_native_letterbox, copy_scaled_rgba_to_native,
}
use harmony_windows_bridge.Surface.Copy.Pixels.{byte_at, channel}
use harmony_windows_bridge.Surface.Copy.Rows.{is_between}
use harmony_windows_bridge.Surface.Copy.Image.{
  fill_native_rect-byte_at, scaled, copy_scaled-byte_at,
}
use harmony_windows_bridge.Base.Word.{u32}

-- The viewport lies in a target of `width` by `height` pixels.
abbrev pub LiesIn : (width height : ℕ) → RenderViewport → Type 0
LiesIn width height v = (v.x + v.width ≤ width) × (v.y + v.height ≤ height)

-- Four fills, by the tests under which they reach a pixel.
four_fills :
    (q1 q2 q3 q4 inside : Bool) (black old above below beside final : ℕ)
    → above ≡ (if q1 then black else old)
    → below ≡ (if q2 then black else above)
    → beside ≡ (if q3 then black else below)
    → final ≡ (if q4 then black else beside)
    → inside ≡ not (q1 || (q2 || (q3 || q4)))
    → final ≡ (if inside then old else black)
four_fills true q2 q3 q4 inside black old above below beside final e f g h k =
    ground (arith, e, f, g, h, k)
four_fills false true q3 q4 inside black old above below beside final e f g h k =
    ground (arith, e, f, g, h, k)
four_fills false false q3 q4 inside black old above below beside final e f g h k =
    ground (arith, e, f, g, h, k)

-- The tests of the four sides together are those of the outside of the viewport.
sides :
    (x y width height vx vy vw vh right bottom : ℕ)
    → x < width
    → y < height
    → vx + vw ≤ width
    → vy + vh ≤ height
    → right ≡ vx + vw
    → bottom ≡ vy + vh
    → (is_between y vy vh && is_between x vx vw)
      ≡ not (
          is_between y 0 vy && is_between x 0 width
          || (ltb bottom height && (is_between y bottom (height - bottom) && is_between x 0 width)
              || (is_between y vy vh && is_between x 0 vx
                  || ltb right width
                    && (is_between y vy vh && is_between x right (width - right)))))
sides x y width height vx vy vw vh right bottom h k i j e f = elim (Bool-cases (ltb y vy)) [
  | inl p ↦ ground (arith, h, p)
  | inr p ↦ elim (Bool-cases (ltb y (vy + vh))) [
    | inr q ↦ ground (arith, h, k, j, f, p, q)
    | inl q ↦ ground (arith, h, i, e, f, p, q)
  ]
]

module _ (format : PixelFormat) (r : ℕ) (p : Pixel) (x y c : ℕ) (a : 4 * x + 4 ≤ r)
    (b : c < 4) where
  -- A rectangle that is filled where a test holds.
  fill_if :
      (test : Bool) (left top width height : ℕ) (m : Memory)
      → 4 * (left + width) ≤ r
      → byte_at r x y c (if test then fill_native_rect format r left top width height p m else m)
        ≡ (if test && (is_between y top height && is_between x left width)
            then channel format p c
            else byte_at r x y c m)
  fill_if true left top width height m w =
      fill_native_rect-byte_at format r left top width height p m x y c a b w
  fill_if false left top width height m w = refl

  -- `FillNativeLetterbox` fills the target outside of the viewport and leaves the viewport.
  pub fill_native_letterbox-byte_at :
      (width height : ℕ) (v : RenderViewport) (m : Memory)
      → x < width
      → y < height
      → width < 2 ^ 32
      → height < 2 ^ 32
      → LiesIn width height v
      → 4 * width ≤ r
      → byte_at r x y c (fill_native_letterbox format r width height v p m) ≡ (
          if is_between y v.y v.height && is_between x v.x v.width
          then byte_at r x y c m
          else channel format p c)
  unfolding fill_native_letterbox
  fill_native_letterbox-byte_at width height v m h k l n i w =
      let bottom_y = u32 (v.y + v.height) in
      let right_x = u32 (v.x + v.width) in
      let above : Memory = fill_native_rect format r 0 0 width v.y p m in
      let below : Memory =
        if ltb bottom_y height
        then fill_native_rect format r 0 bottom_y width (height - bottom_y) p above
        else above in
      let beside : Memory = fill_native_rect format r 0 v.y v.x v.height p below in
      four_fills (is_between y 0 v.y && is_between x 0 width)
        (ltb bottom_y height && (is_between y bottom_y (height - bottom_y) && is_between x 0 width))
        (is_between y v.y v.height && is_between x 0 v.x)
        (ltb right_x width && (is_between y v.y v.height && is_between x right_x (width - right_x)))
        (is_between y v.y v.height && is_between x v.x v.width) (channel format p c)
        (byte_at r x y c m) (byte_at r x y c above) (byte_at r x y c below) (byte_at r x y c beside)
        _ (fill_native_rect-byte_at format r 0 0 width v.y p m x y c a b (omega (arith, w)))
        (fill_if (ltb bottom_y height) 0 bottom_y width (height - bottom_y) above
          (omega (arith, w)))
        (fill_native_rect-byte_at format r 0 v.y v.x v.height p below x y c a b
          (omega (arith, w, i)))
        (fill_if (ltb right_x width) right_x v.y (width - right_x) v.height beside
          (omega (arith, w, i, l)))
        (sides x y width height v.x v.y v.width v.height right_x bottom_y h k i.0 i.1
          (omega (arith, l, i)) (omega (arith, n, i)))

overlay :
    (inside : Bool) (shown old black border final : ℕ)
    → final ≡ (if inside then shown else border)
    → border ≡ (if inside then old else black)
    → final ≡ (if inside then shown else black)
overlay true shown old black border final e f = e
overlay false shown old black border final e f = e ∙ f

-- A whole frame of fewer than 2 ^ 30 columns is painted: the pixels of the viewport show the frame, scaled,
-- and those around it the colour of the border.
pub painted_frame :
    (format : PixelFormat) (r : ℕ) (source : Memory) (stride sw sh width height : ℕ)
    (v : RenderViewport) (p : Pixel) (m : Memory) (x y c : ℕ)
    → sw < 2 ^ 30
    → 4 * width ≤ r
    → width < 2 ^ 32
    → height < 2 ^ 32
    → LiesIn width height v
    → x < width
    → y < height
    → c < 4
    → byte_at r x y c (
        copy_scaled_rgba_to_native format r source stride sw sh v
          (fill_native_letterbox format r width height v p m))
      ≡ (if is_between y v.y v.height && is_between x v.x v.width
          then scaled format source stride x c sw sh v (y - v.y)
          else channel format p c)
painted_frame format r source stride sw sh width height v p m x y c q w l n i h k b =
    let room : 4 * x + 4 ≤ r = omega (arith, w, h) in
    let border : Memory = fill_native_letterbox format r width height v p m in
    let inside = is_between y v.y v.height && is_between x v.x v.width in
    overlay inside (scaled format source stride x c sw sh v (y - v.y)) (byte_at r x y c m)
      (channel format p c) (byte_at r x y c border) _
      (copy_scaled-byte_at format r source stride x y c room b sw sh v border q
        (omega (arith, w, i)) (omega (arith, l, i)) (omega (arith, n, i)))
      (fill_native_letterbox-byte_at format r p x y c room b width height v m h k l n i w)
