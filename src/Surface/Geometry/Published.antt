-- ===== src/Surface/Geometry/Published.antt =====
-- A rectangle that the renderer has published takes the place of the fitted one, where it fits.
use harmony_windows_bridge.Base.{ℕ, ◌+◌, ◌^◌, ◌≤◌, ◌<◌, ◌≡◌, ◌↔◌, true, false, arith}
use harmony_windows_bridge.Surface.Geometry.{
  RemoteContentGeometry, fit_remote_content_into_target, is_published_rect_valid,
  resolve_remote_content_geometry, is_point_inside_remote_content,
}
use harmony_windows_bridge.Surface.Geometry.Fit.{fit_remote_content_into_target_lem, fit-positive}

-- What is published is a rectangle that is not empty, is of this remote size and lies in the target.
abbrev pub IsUsable : ℕ → ℕ → ℕ → ℕ → ℕ → ℕ → ℕ → ℕ → ℕ → ℕ → Type 0
IsUsable tw th sw sh x y width height pw ph =
    (0 < width) × (0 < height) × (pw ≡ sw) × (ph ≡ sh) × (x + width ≤ tw) × (y + height ≤ th)

is_published_rect_valid_iff :
    (tw th sw sh x y width height pw ph : ℕ)
    → x < 2 ^ 32
    → y < 2 ^ 32
    → width < 2 ^ 32
    → height < 2 ^ 32
    → (is_published_rect_valid tw th sw sh x y width height pw ph ≡ true)
      ↔ IsUsable tw th sw sh x y width height pw ph
unfolding is_published_rect_valid
is_published_rect_valid_iff tw th sw sh x y width height pw ph a b c d = ground arith

pub fits_within :
    (tw th sw sh : ℕ)
    → let g = fit_remote_content_into_target tw th sw sh in
      (g.content_x + g.content_width ≤ tw)
      × (g.content_y + g.content_height ≤ th)
      × (g.published ≡ false)
unfolding fit_remote_content_into_target
fits_within tw th sw sh = ground arith

valid_positive :
    (tw th sw sh : ℕ)
    → (fit_remote_content_into_target tw th sw sh).valid ≡ true
    → (0 < tw) × (0 < th) × (0 < sw) × (0 < sh)
unfolding fit_remote_content_into_target
valid_positive tw th sw sh h = ground arith

positive_valid :
    (tw th sw sh : ℕ)
    → tw < 2 ^ 32
    → th < 2 ^ 32
    → sw < 2 ^ 32
    → sh < 2 ^ 32
    → (0 < tw) × (0 < th) × (0 < sw) × (0 < sh)
    → (fit_remote_content_into_target tw th sw sh).valid ≡ true
positive_valid tw th sw sh a b c d (p, q, r, s) =
    (fit_remote_content_into_target_lem tw th sw sh p a q b r c s d).0

-- For 32-bit arguments: the published rectangle is taken exactly when neither the target nor the
-- remote desktop is empty and it is itself a rectangle, not empty, of this remote size, that lies in
-- the target; otherwise the fitted geometry is returned as it is. Either way the content lies in the
-- target.
pub resolve_remote_content_geometry_lem :
    (tw th sw sh x y width height pw ph : ℕ)
    → tw < 2 ^ 32
    → th < 2 ^ 32
    → sw < 2 ^ 32
    → sh < 2 ^ 32
    → x < 2 ^ 32
    → y < 2 ^ 32
    → width < 2 ^ 32
    → height < 2 ^ 32
    → let g = resolve_remote_content_geometry tw th sw sh x y width height pw ph in
      ((g.published ≡ true)
        ↔ ((0 < tw) × (0 < th) × (0 < sw) × (0 < sh) × IsUsable tw th sw sh x y width height pw ph))
      × (g.published ≡ true
          → (g.content_x ≡ x)
            × (g.content_y ≡ y)
            × (g.content_width ≡ width)
            × (g.content_height ≡ height))
      × (g.published ≡ false → g ≡ fit_remote_content_into_target tw th sw sh)
      × (g.content_x + g.content_width ≤ tw)
      × (g.content_y + g.content_height ≤ th)
unfolding resolve_remote_content_geometry
resolve_remote_content_geometry_lem tw th sw sh x y width height pw ph a b c d e f h k = ground (
  arith,
  valid_positive tw th sw sh,
  positive_valid tw th sw sh a b c d,
  is_published_rect_valid_iff tw th sw sh x y width height pw ph e f h k,
  fits_within tw th sw sh,
)

-- A point of the surface is taken for the remote desktop exactly when the geometry is valid and the
-- point lies in the content's rectangle.
pub is_point_inside_remote_content_iff :
    (g : RemoteContentGeometry) (x y : ℕ)
    → g.content_x < 2 ^ 32
    → g.content_y < 2 ^ 32
    → g.content_width < 2 ^ 32
    → g.content_height < 2 ^ 32
    → (is_point_inside_remote_content g x y ≡ true) ↔ (
        (g.valid ≡ true)
        × (g.content_x ≤ x)
        × (x < g.content_x + g.content_width)
        × (g.content_y ≤ y)
        × (y < g.content_y + g.content_height))
unfolding is_point_inside_remote_content
is_point_inside_remote_content_iff g x y a b c d = ground arith

-- In either case the content is not empty.
pub resolve-positive :
    (tw th sw sh x y width height pw ph : ℕ)
    → 0 < tw
    → tw < 2 ^ 32
    → 0 < th
    → th < 2 ^ 32
    → 0 < sw
    → sw < 2 ^ 32
    → 0 < sh
    → sh < 2 ^ 32
    → x < 2 ^ 32
    → y < 2 ^ 32
    → width < 2 ^ 32
    → height < 2 ^ 32
    → let g = resolve_remote_content_geometry tw th sw sh x y width height pw ph in
      (0 < g.content_width) × (0 < g.content_height)
unfolding resolve_remote_content_geometry
resolve-positive tw th sw sh x y width height pw ph p a q b r c t d e f h k = ground (
  arith,
  is_published_rect_valid_iff tw th sw sh x y width height pw ph e f h k,
  fit-positive tw th sw sh p a q b r c t d,
)
