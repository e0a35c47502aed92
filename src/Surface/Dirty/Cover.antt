-- ===== src/Surface/Dirty/Cover.antt =====
-- Which pixels a dirty rectangle covers.
use harmony_windows_bridge.Base.{
  ℕ, ◌+◌, ◌*◌, ◌/◌, ◌%◌, ◌^◌, ◌≤◌, ◌<◌, min, ◌≡◌, refl, ◌⊎◌, inl, inr, true, arith,
}
use harmony_windows_bridge.Surface.Dirty.{DirtyFrameStats, merge_valid, merge_dirty_stats, permille}

-- The pixel lies in the rectangle.
abbrev pub Covers : DirtyFrameStats → ℕ → ℕ → Type 0
Covers d px py =
    (d.valid ≡ true) × (d.x ≤ px) × (px < d.x + d.width) × (d.y ≤ py) × (py < d.y + d.height)

merge_valid-Covers :
    (a b : DirtyFrameStats) (w h px py : ℕ)
    → w < 2 ^ 32
    → h < 2 ^ 32
    → px < w
    → py < h
    → Covers a px py ⊎ Covers b px py
    → Covers (merge_valid a b w h) px py
unfolding merge_valid
merge_valid-Covers a b w h px py p q s t (inl c) =
    (refl, omega arith, ground arith, omega arith, ground arith)
merge_valid-Covers a b w h px py p q s t (inr c) =
    (refl, omega arith, ground arith, omega arith, ground arith)

-- Every pixel of the frame that one of two rectangles covers is covered by their merger.
pub merge_dirty_stats-Covers :
    (a b : DirtyFrameStats) (w h px py : ℕ)
    → w < 2 ^ 32
    → h < 2 ^ 32
    → px < w
    → py < h
    → Covers a px py ⊎ Covers b px py
    → Covers (merge_dirty_stats a b w h) px py
unfolding merge_dirty_stats
merge_dirty_stats-Covers a b w h px py p q s t c =
    ground (arith, merge_valid-Covers a b w h px py p q s t)

quotient-le : (n d k : ℕ) → 0 < d → n < (k + 1) * d → n / d ≤ k
quotient-le n d k p h = grind arith

pub permille-le : (area frame_area : ℕ) → frame_area < 2 ^ 48 → permille area frame_area ≤ 1000
permille-le area frame_area h =
    ground (arith, quotient-le (min area frame_area * 1000 + frame_area / 2) frame_area 1000)

area-lt : (w h : ℕ) → w < 2 ^ 24 → h < 2 ^ 24 → w * h < 2 ^ 48
area-lt w h p q = grind arith

-- The merger of two valid rectangles in a frame that is not empty, of sides below 2 ^ 24, is valid, ends
-- within the frame unless it is empty, and has a share of the frame of at most 1000 per mille.
pub merge_dirty_stats_bounds :
    (a b : DirtyFrameStats) (w h : ℕ)
    → 0 < w
    → w < 2 ^ 24
    → 0 < h
    → h < 2 ^ 24
    → a.valid ≡ true
    → b.valid ≡ true
    → let d = merge_dirty_stats a b w h in
      (d.valid ≡ true)
      × ((d.width ≡ 0) ⊎ (d.x + d.width ≤ w))
      × ((d.height ≡ 0) ⊎ (d.y + d.height ≤ h))
      × (d.area_permille ≤ 1000)
merge_dirty_stats_bounds a b w h p p' q q' va vb =
    let e : merge_dirty_stats a b w h ≡ merge_valid a b w h =
      unfold merge_dirty_stats in ground arith in
    rw e (
      unfold merge_valid in
      (
        refl,
        ground arith,
        ground arith,
        permille-le _ (w * h % 2 ^ 64) (omega (arith, area-lt w h p' q')),
      ))
