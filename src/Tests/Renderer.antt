-- ===== src/Tests/Renderer.antt =====
-- Two frames of 4x2 pixels pass through the renderer, the second replacing the first.
use harmony_windows_bridge.Base.{
  ℕ, ◌+◌, ◌≡◌, refl, ◌⊎◌, inl, true, false, none, some, [], arith, if◌then◌else◌,
}
use harmony_windows_bridge.Surface.Renderer.Worker
use harmony_windows_bridge.Surface.Renderer.Worker.{
  Step, absent, waiting, rendering, Machine, is_paced, wake, accept, starts, enqueues, wakes,
  Reachable, begins, goes_on, snapshot,
}
use harmony_windows_bridge.Surface.Dirty.{merge_valid, merge_dirty_stats, DirtyFrameStats}
use harmony_windows_bridge.Surface.Renderer.Damage.{pending-StandsFor_replaced}
use harmony_windows_bridge.Surface.Renderer.Accounting.{snapshot_accounts_for_all, in_flight}
use harmony_windows_bridge.Surface.Renderer.{
  resolve_target_frame_interval_ms, next_frame, start, PendingFrame, reset_stats, replacing,
  enqueue,
}
use harmony_windows_bridge.Base.Word.{u64}
use harmony_windows_bridge.Surface.Types.{RgbaFrame}
use harmony_windows_bridge.Surface.Renderer.Pacing.{MustPaint, wake_paints_iff_due}
use harmony_windows_bridge.Base.Int.{pos}
use harmony_windows_bridge.Surface.Renderer.Reports.{painted_span_is_complete}
use harmony_windows_bridge.Surface.Dirty.Cover.{Covers}

abbrev at_pixel : ℕ → DirtyFrameStats
at_pixel px = record {
  valid = true;
  rect_count = 1;
  x = px;
  y = 0;
  width = 1;
  height = 1;
  area_permille = 125;
}

abbrev tiny : ℕ → RgbaFrame
tiny px = record {
  address = 4096;
  width = 4;
  height = 2;
  stride_bytes = pos 16;
  label = "gdi";
  dirty = at_pixel px;
  sequence = 0;
  dirty_sequence_start = 0;
}

abbrev started : Machine
started =
    let m = Worker.new 1 in
    record m {
      core = (start m.now m.core).0;
      place = if (start m.now m.core).1 then waiting else m.place;
      accepted = if (start m.now m.core).1 then [] else m.accepted;
      taken = if (start m.now m.core).1 then 0 else m.taken;
    }

abbrev one : Machine
one = accept (tiny 0) false started (enqueue (tiny 0) false started.core)

abbrev two : Machine
two = accept (tiny 3) false one (enqueue (tiny 3) false one.core)

abbrev taking : Machine
taking = wake two.core.pending two

two_reached : Reachable 3 two
unfolding Worker.new reset_stats
two_reached =
    goes_on
      (goes_on (goes_on (begins 1) (starts (inl refl)))
        (enqueues (tiny 0) false (omega arith) (omega arith)))
      (enqueues (tiny 3) false (omega arith) (omega arith))

abbrev both : PendingFrame
both = replacing (next_frame (tiny 0) false 1) (next_frame (tiny 3) false 2)

two_waits : two.core.pending ≡ some both
unfolding Worker.new reset_stats start enqueue replacing
two_waits = refl

taking_reached : Reachable 4 taking
unfolding Worker.new reset_stats start enqueue
taking_reached = goes_on two_reached (wakes refl)

taking_renders : taking.place ≡ rendering both 1
unfolding Worker.new reset_stats start enqueue wake is_paced resolve_target_frame_interval_ms
    replacing
taking_renders = refl

two_runs : (snapshot two.now two.core).running ≡ true
unfolding Worker.new reset_stats start enqueue snapshot
two_runs = refl

snapshot_accounts_for_all_example :
    (snapshot two.now two.core).queued
    ≡ (snapshot two.now two.core).rendered
      + (snapshot two.now two.core).failed
      + (snapshot two.now two.core).replaced
      + (snapshot two.now two.core).pending
      + in_flight two.place
snapshot_accounts_for_all_example = (snapshot_accounts_for_all two_reached (omega arith) two_runs).0

pending-StandsFor_replaced_example : both.sequence ≡ two.core.frame_sequence
pending-StandsFor_replaced_example =
    (pending-StandsFor_replaced 0 0 two_reached (omega arith) two_waits).0

bottom_row_is_uncovered : ¬ Covers both.dirty 2 1
unfolding replacing merge_dirty_stats merge_valid
bottom_row_is_uncovered c = omega arith

-- A pixel of the bottom row, which neither frame changes.
abbrev steady : ℕ → ℕ
steady q = 9

painted_span_is_complete_example : steady 2 ≡ steady 1
unfolding wake enqueue start Worker.new is_paced replacing
painted_span_is_complete_example =
    painted_span_is_complete steady 2 1 2 taking_reached (omega arith) taking_renders
      (λ c. refl, (λ c. refl, tt)) (omega arith) (omega arith) bottom_row_is_uncovered (omega arith)
      (omega arith)

wake_paints_iff_due_example :
    (MustPaint both two
      × (taking.place ≡ rendering both two.now)
      × (taking.core.pending ≡ none)
      × (taking.core.throttled_count ≡ two.core.throttled_count))
    ⊎ (¬ MustPaint both two
        × (taking.place ≡ waiting)
        × (taking.core.pending ≡ some both)
        × (taking.core.throttled_count ≡ u64 (two.core.throttled_count + 1)))
wake_paints_iff_due_example = wake_paints_iff_due both two two_waits

pixel_0_of_both : (both.dirty.x ≡ 0) × (both.dirty.width ≡ 4)
unfolding replacing merge_dirty_stats merge_valid
pixel_0_of_both = (refl, refl)
