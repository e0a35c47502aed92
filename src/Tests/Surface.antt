-- ===== src/Tests/Surface.antt =====
-- Geometry, dirty rectangles and the painter at concrete sizes.
use harmony_windows_bridge.Base.{
  ℕ, ◌+◌, ◌-◌, ◌*◌, ◌≤◌, ◌<◌, ◌≡◌, refl, ◌↔◌, true, some, arith, ltb, if◌then◌else◌,
}
use harmony_windows_bridge.Base.Int.{pos}
use harmony_windows_bridge.Surface.Geometry.Fit.{fit_remote_content_into_target_lem}
use harmony_windows_bridge.Surface.Geometry.Published.{
  resolve_remote_content_geometry_lem, is_point_inside_remote_content_iff,
}
use harmony_windows_bridge.Surface.Dirty.{DirtyFrameStats, merge_dirty_stats, merge_valid}
use harmony_windows_bridge.Surface.Types.{RgbaFrame, RenderViewport}
use harmony_windows_bridge.Surface.Painter.{
  Painter, destroy, find_sequence, record_buffer_frame, set_sequence, accumulate,
  can_use_partial_dirty, trim,
}
use harmony_windows_bridge.Surface.Geometry.{
  is_point_inside_remote_content, scaled_size, resolve_remote_content_geometry,
  fit_remote_content_into_target,
}
use harmony_windows_bridge.Surface.Painter.Complete.{partial_paint_is_complete}

fit_remote_content_into_target_lem_example :
    (fit_remote_content_into_target 1280 800 1920 1080).valid ≡ true
fit_remote_content_into_target_lem_example =
    (fit_remote_content_into_target_lem 1280 800 1920 1080 (omega arith) (omega arith) (omega arith)
      (omega arith) (omega arith) (omega arith) (omega arith) (omega arith)).0

wide_desktop_is_letterboxed : (fit_remote_content_into_target 1280 800 1920 1080).content_y ≡ 40
unfolding fit_remote_content_into_target scaled_size
wide_desktop_is_letterboxed = refl

resolve_remote_content_geometry_lem_example :
    (resolve_remote_content_geometry 1280 800 1920 1080 0 40 1280 720 1920 1080).content_y
      + (resolve_remote_content_geometry 1280 800 1920 1080 0 40 1280 720 1920 1080).content_height
    ≤ 800
resolve_remote_content_geometry_lem_example =
    (resolve_remote_content_geometry_lem 1280 800 1920 1080 0 40 1280 720 1920 1080 (omega arith)
      (omega arith) (omega arith) (omega arith) (omega arith) (omega arith) (omega arith)
      (omega arith)).4

is_point_inside_remote_content_iff_example :
    (is_point_inside_remote_content (fit_remote_content_into_target 1280 800 1920 1080) 5 30 ≡ true)
    ↔ ((fit_remote_content_into_target 1280 800 1920 1080).valid ≡ true)
      × ((fit_remote_content_into_target 1280 800 1920 1080).content_x ≤ 5)
      × (5
          < (fit_remote_content_into_target 1280 800 1920 1080).content_x
            + (fit_remote_content_into_target 1280 800 1920 1080).content_width)
      × ((fit_remote_content_into_target 1280 800 1920 1080).content_y ≤ 30)
      × (30
          < (fit_remote_content_into_target 1280 800 1920 1080).content_y
            + (fit_remote_content_into_target 1280 800 1920 1080).content_height)
unfolding fit_remote_content_into_target scaled_size
is_point_inside_remote_content_iff_example =
    is_point_inside_remote_content_iff (fit_remote_content_into_target 1280 800 1920 1080) 5 30
      (omega arith) (omega arith) (omega arith) (omega arith)

abbrev box : ℕ → ℕ → DirtyFrameStats
box px py = record {
  valid = true;
  rect_count = 1;
  x = px;
  y = py;
  width = 10;
  height = 10;
  area_permille = 1;
}

abbrev frame_no : ℕ → RgbaFrame
frame_no n = record {
  address = 4096;
  width = 640;
  height = 480;
  stride_bytes = pos 2560;
  label = "gdi";
  dirty = box (n * 10) 0;
  sequence = n;
  dirty_sequence_start = n;
}

abbrev whole_window : RenderViewport
whole_window = record { x = 0; y = 0; width = 640; height = 480 }

-- Buffer 1 was painted with frame 1, and buffer 2 with frame 2.
abbrev two_painted : Painter
two_painted = record_buffer_frame 2 (frame_no 2) (record_buffer_frame 1 (frame_no 1) destroy)

-- What frames 2 and 3 changed.
abbrev two_boxes : DirtyFrameStats
two_boxes = record {
  valid = true;
  rect_count = 2;
  x = 20;
  y = 0;
  width = 20;
  height = 10;
  area_permille = 1;
}

abbrev pixel_at_15 : ℕ → ℕ
pixel_at_15 n = if ltb n 1 then 0 else 7

pixel_at_15_settled : (q : ℕ) → 2 ≤ q → pixel_at_15 q ≡ pixel_at_15 (q - 1)
pixel_at_15_settled q h = ground arith

both_frames_repainted :
    can_use_partial_dirty 1 (frame_no 3) 640 480 whole_window two_painted ≡ some two_boxes
unfolding can_use_partial_dirty accumulate merge_dirty_stats merge_valid record_buffer_frame destroy
    find_sequence set_sequence trim
both_frames_repainted = refl

partial_paint_is_complete_example : pixel_at_15 3 ≡ pixel_at_15 1
unfolding can_use_partial_dirty accumulate merge_dirty_stats merge_valid record_buffer_frame destroy
    find_sequence set_sequence trim
partial_paint_is_complete_example =
    partial_paint_is_complete pixel_at_15 1 (frame_no 3) 640 480 whole_window two_painted 1 15 5
      {d = two_boxes} refl refl (omega arith) (omega arith) (omega arith) (omega arith)
      (omega arith) (omega arith)
      (
        λ k q a b. absurd (k (refl, omega arith, omega arith, omega arith, omega arith)),
        (λ k q a b. pixel_at_15_settled q a, tt),
      )
      (λ k q a b. pixel_at_15_settled q (omega arith)) (λ k. omega arith)
