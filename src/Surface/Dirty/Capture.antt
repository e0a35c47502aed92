-- ===== src/Surface/Dirty/Capture.antt =====
-- CaptureGdiDirtyStats of freerdp/freerdp_gdi_bridge.cpp: the regions that the library marks as invalid, as
-- one rectangle.
pub mod Bounds
use harmony_windows_bridge.Base.{
  ℕ, zero, suc, ◌+◌, ◌-◌, ◌*◌, min, max, Bool, true, not, ◌||◌, Option, none, some, List, [], ◌∷◌,
  leb, ◌==◌, if◌then◌else◌,
}
use harmony_windows_bridge.Base.Word.{u32, u64}
use harmony_windows_bridge.Base.Int.{pos, neg_part, ℤ, ltb_ℤ, pos_part}
use harmony_windows_bridge.Surface.Dirty.{permille, span, no_dirty, DirtyFrameStats}
use harmony_windows_bridge.Surface.Dirty.Cover.{Covers, permille-le}

-- GDI_RGN.
pub record Region : Type 0 where
  pub null : Bool
  pub x : ℤ
  pub y : ℤ
  pub w : ℤ
  pub h : ℤ

-- The captured variables of `addRegion`.
pub record Extent : Type 0 where
  pub min_x : ℕ
  pub min_y : ℕ
  pub max_x : ℕ
  pub max_y : ℕ
  pub dirty_area : ℕ
  pub rect_count : ℕ

-- `max(0, start)` and `min(limit, start + size)` for a positive size; an end below 0 counts as 0, which
-- makes the region as empty as the end itself does.
abbrev pub clamped_start : ℤ → ℕ
clamped_start start = pos_part start

abbrev pub clamped_end : ℕ → ℤ → ℤ → ℕ
clamped_end limit start size = min limit (pos_part start + pos_part size - neg_part start)

abbrev pub is_empty_region : Region → Bool
is_empty_region r = r.null || (not (ltb_ℤ (pos 0) r.w) || not (ltb_ℤ (pos 0) r.h))

unfoldable pub add_region : ℕ → ℕ → Region → Extent → Extent
add_region frame_width frame_height r e =
    let left = clamped_start r.x in
    let top = clamped_start r.y in
    let right = clamped_end frame_width r.x r.w in
    let bottom = clamped_end frame_height r.y r.h in
    if is_empty_region r || (leb right left || leb bottom top) then e else record {
      min_x = min e.min_x left;
      min_y = min e.min_y top;
      max_x = max e.max_x right;
      max_y = max e.max_y bottom;
      dirty_area = u64 (e.dirty_area + (right - left) * (bottom - top));
      rect_count = u32 (e.rect_count + 1);
    }

unfoldable pub add_regions : ℕ → ℕ → List Region → Extent → Extent
add_regions frame_width frame_height [] e = e
add_regions frame_width frame_height (r ∷ rs) e =
    add_regions frame_width frame_height rs (add_region frame_width frame_height r e)

-- The window's list of invalid regions, of which `ninvalid` are read where there is a list, and its one
-- invalid region, which may be a null pointer.
pub record Window : Type 0 where
  pub ninvalid : ℤ
  pub cinvalid : Option (List Region)
  pub invalid : Option Region

abbrev pub first_regions : ℕ → List Region → List Region
first_regions zero rs = []
first_regions (suc n) [] = []
first_regions (suc n) (r ∷ rs) = r ∷ first_regions n rs

abbrev one_region : Option Region → List Region
one_region none = []
one_region (some r) = r ∷ []

abbrev pub regions_of : Window → List Region
regions_of w = elim w.cinvalid [
  | none ↦ one_region w.invalid
  | some rs ↦
      if ltb_ℤ (pos 0) w.ninvalid
      then first_regions (pos_part w.ninvalid) rs
      else one_region w.invalid
]

-- `none` stands for a null pointer on the way to the window.
unfoldable pub stats_of : ℕ → ℕ → Extent → DirtyFrameStats
stats_of frame_width frame_height e = if e.rect_count == 0 then no_dirty else record {
  valid = true;
  rect_count = e.rect_count;
  x = e.min_x;
  y = e.min_y;
  width = span e.min_x e.max_x;
  height = span e.min_y e.max_y;
  area_permille = permille e.dirty_area (frame_width * frame_height);
}

abbrev pub no_extent : ℕ → ℕ → Extent
no_extent frame_width frame_height = record {
  min_x = frame_width;
  min_y = frame_height;
  max_x = 0;
  max_y = 0;
  dirty_area = 0;
  rect_count = 0;
}

unfoldable pub capture_gdi_dirty_stats : ℤ → ℤ → Option Window → DirtyFrameStats
capture_gdi_dirty_stats width height none = no_dirty
capture_gdi_dirty_stats width height (some window) =
    if not (ltb_ℤ (pos 0) width) || not (ltb_ℤ (pos 0) height)
    then no_dirty
    else stats_of (pos_part width) (pos_part height) (
        add_regions (pos_part width) (pos_part height) (regions_of window)
          (no_extent (pos_part width) (pos_part height)))
