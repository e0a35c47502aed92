-- ===== src/Surface/Renderer.antt =====
-- surface/latest_frame_renderer.{h,cpp}: the queue of one frame between the graphics thread and the
-- render thread, its statistics and its pacing. `hasPending_` and `pending_` are one optional frame. Time
-- is in microseconds of a clock that starts above 0, which stands for `time_point{}`. The texts for the
-- log are not modelled.
pub mod Worker
pub mod Accounting
pub mod Damage
pub mod Reports
pub mod Pacing
use Prim.Native.String.{len, ◌++◌}
use harmony_windows_bridge.Base.{
  ℕ, ◌+◌, ◌*◌, Bool, true, false, not, ◌&&◌, ◌||◌, Option, none, some, String, ltb, leb, ◌==◌,
  if◌then◌else◌,
}
use harmony_windows_bridge.Surface.Dirty.{DirtyFrameStats, no_dirty, merge_dirty_stats}
use harmony_windows_bridge.Base.Word.{u32, u64}
use harmony_windows_bridge.Surface.Types.{RgbaFrame}
use harmony_windows_bridge.Base.Int.{pos, ltb_ℤ, int32_of, ℤ}

-- `data` is named by the address of the pixels.
pub record PendingFrame : Type 0 where
  pub data_address : ℕ
  pub width : ℕ
  pub height : ℕ
  pub stride_bytes : ℤ
  pub label : String
  pub force_render : Bool
  pub dirty : DirtyFrameStats
  pub sequence : ℕ
  pub dirty_sequence_start : ℕ

pub record Renderer : Type 0 where
  pub running : Bool
  pub pending : Option PendingFrame
  pub queued_count : ℕ
  pub rendered_count : ℕ
  pub failed_count : ℕ
  pub replaced_count : ℕ
  pub throttled_count : ℕ
  pub full_rendered_count : ℕ
  pub partial_rendered_count : ℕ
  pub total_copy_us : ℕ
  pub total_render_us : ℕ
  pub last_copy_us : ℕ
  pub last_render_us : ℕ
  pub last_dirty : DirtyFrameStats
  pub last_rendered_width : ℕ
  pub last_rendered_height : ℕ
  pub frame_sequence : ℕ
  pub last_target_frame_interval_ms : ℕ
  pub last_render_finished_at : ℕ
  pub stats_started_at : ℕ

-- `ResetStatsLocked`, for a renderer that runs or not.
unfoldable pub reset_stats : Bool → ℕ → Renderer
reset_stats running now = record {
  running = running;
  pending = none;
  queued_count = 0;
  rendered_count = 0;
  failed_count = 0;
  replaced_count = 0;
  throttled_count = 0;
  full_rendered_count = 0;
  partial_rendered_count = 0;
  total_copy_us = 0;
  total_render_us = 0;
  last_copy_us = 0;
  last_render_us = 0;
  last_dirty = no_dirty;
  last_rendered_width = 0;
  last_rendered_height = 0;
  frame_sequence = 0;
  last_target_frame_interval_ms = 0;
  last_render_finished_at = 0;
  stats_started_at = now;
}

-- The flag is true where a worker thread is created.
unfoldable pub start : ℕ → Renderer → Renderer × Bool
start now r = if r.running then (r, false) else (reset_stats true now, true)

-- `Stop` up to the join of the worker.
unfoldable pub stop : Renderer → Renderer
stop r = record r { running = false; pending = none }

unfoldable pub drop_pending : Renderer → Renderer × Bool
drop_pending r = elim r.pending [
  | none ↦ (r, false)
  | some frame ↦ (record r { pending = none; replaced_count = u64 (r.replaced_count + 1) }, true)
]

-- `static_cast<int32_t>(frame.width * 4U)`.
abbrev pub row_bytes : ℕ → ℤ
row_bytes width = int32_of (u32 (width * 4))

abbrev pub source_stride : RgbaFrame → ℤ
source_stride frame =
    if ltb_ℤ (pos 0) frame.stride_bytes then frame.stride_bytes else row_bytes frame.width

abbrev pub is_frame_invalid : RgbaFrame → Bool
is_frame_invalid frame =
    frame.address == 0
    || (frame.width == 0
        || (frame.height == 0 || ltb_ℤ (source_stride frame) (row_bytes frame.width)))

abbrev pub queued_label : String → String
queued_label label = if len label == 0 then "freerdp gdi queued" else label ++ " queued"

abbrev pub next_frame : RgbaFrame → Bool → ℕ → PendingFrame
next_frame frame force_render sequence = record {
  data_address = frame.address;
  width = frame.width;
  height = frame.height;
  stride_bytes = source_stride frame;
  label = queued_label frame.label;
  force_render = force_render;
  dirty = frame.dirty;
  sequence = sequence;
  dirty_sequence_start = sequence;
}

-- The next frame takes over what the frame that it replaces had to show.
unfoldable pub replacing : PendingFrame → PendingFrame → PendingFrame
replacing old next =
    let forced = record next { force_render = next.force_render || old.force_render } in
    if old.width == next.width && old.height == next.height
    then record forced {
      dirty = merge_dirty_stats old.dirty next.dirty next.width next.height;
      dirty_sequence_start =
          if ltb 0 old.dirty_sequence_start
          then old.dirty_sequence_start
          else next.dirty_sequence_start;
    }
    else forced

abbrev pub after_pending : Option PendingFrame → PendingFrame → PendingFrame
after_pending none next = next
after_pending (some old) next = replacing old next

unfoldable pub has_pending : Renderer → ℕ
has_pending r = elim r.pending [ none ↦ 0 | some frame ↦ 1 ]

-- `copyUs` is 0.
unfoldable pub enqueue : RgbaFrame → Bool → Renderer → Renderer × Bool
enqueue frame force_render r =
    if is_frame_invalid frame
    then (r, false)
    else if not r.running
    then (r, false)
    else let sequence = u64 (r.frame_sequence + 1) in
      let next = after_pending r.pending (next_frame frame force_render sequence) in
      (
        record r {
          frame_sequence = sequence;
          replaced_count = u64 (r.replaced_count + has_pending r);
          last_copy_us = 0;
          total_copy_us = u64 (r.total_copy_us + 0);
          last_dirty = next.dirty;
          queued_count = u64 (r.queued_count + 1);
          pending = some next;
        },
        true,
      )

abbrev pub target_frame_interval_ms : ℕ
target_frame_interval_ms = 16

abbrev pub large_dirty_frame_interval_ms : ℕ
large_dirty_frame_interval_ms = 16

abbrev pub large_dirty_area_permille : ℕ
large_dirty_area_permille = 700

unfoldable pub resolve_target_frame_interval_ms : PendingFrame → Bool → ℕ
resolve_target_frame_interval_ms frame size_changed =
    if frame.force_render || size_changed
    then 0
    else if frame.dirty.valid && leb large_dirty_area_permille frame.dirty.area_permille
    then large_dirty_frame_interval_ms
    else target_frame_interval_ms
