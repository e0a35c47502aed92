-- ===== src/Surface/Renderer/Pacing.antt =====
-- When the worker paints the frame that waits.
use harmony_windows_bridge.Surface.Renderer.Worker.{waiting, rendering, Machine, is_paced, wake}
use harmony_windows_bridge.Base.{
  ◌+◌, ◌≤◌, ◌≡◌, ◌≢◌, ◌⊎◌, inl, inr, true, none, some, arith, Bool-cases,
}
use harmony_windows_bridge.Base.Word.{u64}
use harmony_windows_bridge.Surface.Renderer.{PendingFrame, resolve_target_frame_interval_ms}

-- Why a frame is painted at once.
abbrev pub MustPaint : PendingFrame → Machine → Type 0
MustPaint f m =
    (f.force_render ≡ true)
    ⊎ (f.width ≢ m.core.last_rendered_width)
    ⊎ (f.height ≢ m.core.last_rendered_height)
    ⊎ (m.core.rendered_count ≡ 0)
    ⊎ (m.core.last_render_finished_at ≡ 0)
    ⊎ (m.core.last_render_finished_at + 16000 ≤ m.now)

-- A thread that wakes with a frame waiting takes it for painting, so that none waits, exactly if the frame is
-- forced or of another size than the frame painted last, no paint has succeeded since `Start`, no paint has
-- ended, or 16 ms have passed since the end of the last paint. Otherwise the thread waits again, the same
-- frame goes on waiting, and the pacing is counted.
pub wake_paints_iff_due :
    (f : PendingFrame) (m : Machine)
    → m.core.pending ≡ some f
    → let m' = wake m.core.pending m in
      (MustPaint f m
        × (m'.place ≡ rendering f m.now)
        × (m'.core.pending ≡ none)
        × (m'.core.throttled_count ≡ m.core.throttled_count))
      ⊎ (¬ MustPaint f m
          × (m'.place ≡ waiting)
          × (m'.core.pending ≡ some f)
          × (m'.core.throttled_count ≡ u64 (m.core.throttled_count + 1)))
unfolding wake is_paced resolve_target_frame_interval_ms
wake_paints_iff_due f m e = elim (Bool-cases (is_paced f m.now m.core)) [
  | inl p ↦ inr (λ due. ground arith, ground arith, ground arith, ground arith)
  | inr p ↦ inl (ground arith, ground arith, ground arith, ground arith)
]
