-- ===== src/Surface/Dirty.antt =====
-- DirtyFrameStats of common/bridge_types.h, MergeDirtyStats of common/frame_utils.cpp and the helpers of
-- freerdp/freerdp_gdi_bridge.cpp: the part of a frame that changed, as one rectangle.
pub mod Cover
pub mod Capture
use harmony_windows_bridge.Base.{
  ℕ, ◌+◌, ◌-◌, ◌*◌, ◌/◌, min, max, Bool, true, false, not, ◌&&◌, ◌||◌, ltb, leb, ◌==◌,
  if◌then◌else◌,
}
use harmony_windows_bridge.Base.Word.{u32, u64, u32_max}

pub record DirtyFrameStats : Type 0 where
  pub valid : Bool
  pub rect_count : ℕ
  pub x : ℕ
  pub y : ℕ
  pub width : ℕ
  pub height : ℕ
  pub area_permille : ℕ

abbrev pub no_dirty : DirtyFrameStats
no_dirty = record {
  valid = false;
  rect_count = 0;
  x = 0;
  y = 0;
  width = 0;
  height = 0;
  area_permille = 0;
}

-- The count of rectangles sticks at its maximum.
abbrev pub add_saturated : ℕ → ℕ → ℕ
add_saturated a b = if ltb (u32 (a + b)) a then u32_max else u32 (a + b)

abbrev pub span : ℕ → ℕ → ℕ
span from to = if ltb from to then to - from else 0

-- `static_cast<uint64_t>` products, sums and the quotient, rounded to the nearest.
abbrev pub permille : ℕ → ℕ → ℕ
permille area frame_area =
    if frame_area == 0
    then 0
    else u32 (u64 (u64 (min area frame_area * 1000) + frame_area / 2) / frame_area)

-- Both are valid, and the frame is not empty.
unfoldable pub merge_valid : DirtyFrameStats → DirtyFrameStats → ℕ → ℕ → DirtyFrameStats
merge_valid first second frame_width frame_height =
    let x = min first.x second.x in
    let y = min first.y second.y in
    let right = u32 (min frame_width (max (first.x + first.width) (second.x + second.width))) in
    let bottom = u32 (min frame_height (max (first.y + first.height) (second.y + second.height))) in
    record {
      valid = true;
      rect_count = add_saturated first.rect_count second.rect_count;
      x = x;
      y = y;
      width = span x right;
      height = span y bottom;
      area_permille =
          permille (u64 (span x right * span y bottom)) (u64 (frame_width * frame_height));
    }

unfoldable pub merge_dirty_stats : DirtyFrameStats → DirtyFrameStats → ℕ → ℕ → DirtyFrameStats
merge_dirty_stats first second frame_width frame_height =
    if not first.valid
    then second
    else if not second.valid
    then first
    else if frame_width == 0 || frame_height == 0
    then no_dirty
    else merge_valid first second frame_width frame_height

unfoldable pub full_dirty_stats : ℕ → ℕ → DirtyFrameStats
full_dirty_stats width height = if width == 0 || height == 0 then no_dirty else record {
  valid = true;
  rect_count = 1;
  x = 0;
  y = 0;
  width = width;
  height = height;
  area_permille = 1000;
}

unfoldable pub dirty_covers_full_frame : DirtyFrameStats → ℕ → ℕ → Bool
dirty_covers_full_frame dirty width height =
    dirty.valid
    && (not (width == 0)
        && (not (height == 0)
            && (dirty.x == 0
                && (dirty.y == 0 && (leb width dirty.width && leb height dirty.height)))))
