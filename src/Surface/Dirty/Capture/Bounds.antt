-- ===== src/Surface/Dirty/Capture/Bounds.antt =====
-- The rectangle of CaptureGdiDirtyStats covers the invalid regions and stays in the frame.
use harmony_windows_bridge.Base.{
  ℕ, ◌+◌, ◌*◌, ◌^◌, ◌≤◌, ◌<◌, ◌≡◌, ◌⊎◌, inl, inr, false, Option, none, some, List, [], ◌∷◌, arith,
  length,
}
use harmony_windows_bridge.Surface.Dirty.Capture.{
  Region, Extent, add_region, add_regions, Window, regions_of, stats_of, no_extent,
  capture_gdi_dirty_stats,
}
use harmony_windows_bridge.Base.Int.{neg_part, pos_part, pos}
use harmony_windows_bridge.Surface.Dirty.Cover.{Covers, permille-le}

-- The pixel lies in a region that is not null.
abbrev pub RegionHas : ℕ → ℕ → Region → Type 0
RegionHas px py r =
    (r.null ≡ false)
    × (pos_part r.x ≤ px + neg_part r.x)
    × (px + neg_part r.x < pos_part r.x + pos_part r.w)
    × (pos_part r.y ≤ py + neg_part r.y)
    × (py + neg_part r.y < pos_part r.y + pos_part r.h)

abbrev Within : ℕ → ℕ → Extent → Type 0
Within px py e =
    (0 < e.rect_count) × (e.min_x ≤ px) × (px < e.max_x) × (e.min_y ≤ py) × (py < e.max_y)

abbrev pub AnyRegion : (Region → Type 0) → List Region → Type 0
AnyRegion P [] = ⊥
AnyRegion P (r ∷ rs) = P r ⊎ AnyRegion P rs

module _ (fw fh px py : ℕ) (in_width : px < fw) (in_height : py < fh) where
  region-Within :
      (r : Region) (e : Extent)
      → e.rect_count + 1 < 2 ^ 32
      → RegionHas px py r
      → Within px py (add_region fw fh r e)
  unfolding add_region
  region-Within r e b h = ground arith

  keeps-Within :
      (r : Region) (e : Extent)
      → e.rect_count + 1 < 2 ^ 32
      → Within px py e
      → Within px py (add_region fw fh r e)
  unfolding add_region
  keeps-Within r e b h = ground arith

  add_region-count :
      (r : Region) (e : Extent)
      → e.rect_count + 1 < 2 ^ 32
      → (add_region fw fh r e).rect_count ≤ e.rect_count + 1
  unfolding add_region
  add_region-count r e b = ground arith

  add_regions-Within :
      (rs : List Region) (e : Extent)
      → e.rect_count + length rs < 2 ^ 32
      → Within px py e ⊎ AnyRegion (RegionHas px py) rs
      → Within px py (add_regions fw fh rs e)
  unfolding add_regions
  add_regions-Within [] e b (inl h) = h
  add_regions-Within [] e b (inr k) = absurd k
  add_regions-Within (r ∷ rs) e b h =
      let c = add_region-count r e (omega arith) in
      add_regions-Within rs (add_region fw fh r e) (omega arith) (elim h [
        | inl k ↦ inl (keeps-Within r e (omega arith) k)
        | inr (inl k) ↦ inl (region-Within r e (omega arith) k)
        | inr (inr k) ↦ inr k
      ])

  stats_of-Covers : (e : Extent) → Within px py e → Covers (stats_of fw fh e) px py
  unfolding stats_of
  stats_of-Covers e h = ground arith

-- A pixel of the frame that lies in one of fewer than 2 ^ 32 invalid regions is covered by the rectangle
-- that is captured from them.
pub capture_gdi_dirty_stats-Covers :
    (width height : ℕ) (window : Window) (px py : ℕ)
    → px < width
    → py < height
    → length (regions_of window) < 2 ^ 32
    → AnyRegion (RegionHas px py) (regions_of window)
    → Covers (capture_gdi_dirty_stats (pos width) (pos height) (some window)) px py
unfolding capture_gdi_dirty_stats
capture_gdi_dirty_stats-Covers width height window px py w h b a =
    let covers =
      stats_of-Covers width height px py w h
        (add_regions width height (regions_of window) (no_extent width height))
        (add_regions-Within width height px py w h (regions_of window) (no_extent width height)
          (omega arith) (inr a)) in
    ground (arith, covers)

-- The extent is inside the frame.
abbrev Inside : ℕ → ℕ → Extent → Type 0
Inside fw fh e = (e.min_x ≤ fw) × (e.min_y ≤ fh) × (e.max_x ≤ fw) × (e.max_y ≤ fh)

add_regions-Inside :
    (fw fh : ℕ) (rs : List Region) (e : Extent)
    → Inside fw fh e
    → Inside fw fh (add_regions fw fh rs e)
unfolding add_regions add_region
add_regions-Inside fw fh [] e h = h
add_regions-Inside fw fh (r ∷ rs) e h =
    add_regions-Inside fw fh rs (add_region fw fh r e) (ground arith)

stats_of-bounds :
    (fw fh : ℕ) (e : Extent)
    → fw * fh < 2 ^ 48
    → Inside fw fh e
    → let d = stats_of fw fh e in
      (d.x + d.width ≤ fw) × (d.y + d.height ≤ fh) × (d.area_permille ≤ 1000)
unfolding stats_of
stats_of-bounds fw fh e a h = ground (arith, permille-le e.dirty_area (fw * fh) a)

-- In a frame of at most 2 ^ 48 pixels less one, the rectangle lies in the frame and its share is at most
-- 1000 per mille, whatever the regions are.
capture_gdi_dirty_stats_bounds :
    (width height : ℕ) (window : Option Window)
    → width * height < 2 ^ 48
    → let d = capture_gdi_dirty_stats (pos width) (pos height) window in
      (d.x + d.width ≤ width) × (d.y + d.height ≤ height) × (d.area_permille ≤ 1000)
unfolding capture_gdi_dirty_stats
capture_gdi_dirty_stats_bounds width height none a = ground arith
capture_gdi_dirty_stats_bounds width height (some window) a =
    let b =
      stats_of-bounds width height
        (add_regions width height (regions_of window) (no_extent width height)) a
        (add_regions-Inside width height (regions_of window) (no_extent width height)
          (omega arith)) in
    ground (arith, b)
