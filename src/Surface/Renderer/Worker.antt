-- ===== src/Surface/Renderer/Worker.antt =====
-- The render thread of surface/latest_frame_renderer.cpp, and `Snapshot`. The thread is at one of its waits
-- on the condition variable, which it may leave at any time, or in the paint callback with the mutex
-- released. The callback is some code that returns a SurfacePaintResult after some time.
use harmony_windows_bridge.Base.{
  ℕ, ◌+◌, ◌-◌, ◌*◌, ◌/◌, ◌^◌, ◌<◌, ◌≡◌, ◌⊎◌, Bool, true, false, not, ◌&&◌, ◌||◌, Option, none, some,
  List, [], ◌∷◌, ltb, ◌==◌, if◌then◌else◌,
}
use harmony_windows_bridge.Surface.Renderer.{
  enqueue, drop_pending, stop, next_frame, resolve_target_frame_interval_ms, PendingFrame,
  reset_stats, start, has_pending, Renderer,
}
use harmony_windows_bridge.Surface.Types.{RgbaFrame}
use harmony_windows_bridge.Surface.Dirty.{DirtyFrameStats}
use harmony_windows_bridge.Base.Word.{u64, u32}

-- SurfacePaintResult without its texts.
pub record SurfacePaintResult : Type 0 where
  pub ok : Bool
  pub partial : Bool

pub data Place : Type 0 where
  absent : Place  -- no thread runs
  waiting : Place
  rendering : (frame : PendingFrame) (render_start : ℕ) → Place

pub record Machine : Type 0 where
  pub core : Renderer
  pub place : Place
  pub now : ℕ
  pub accepted : List PendingFrame  -- the frames enqueued since `Start`, as they were, newest first
  pub taken : ℕ  -- the number of the frame that the worker took last, 0 if none

abbrev pub size_changed : PendingFrame → Renderer → Bool
size_changed frame r =
    not (frame.width == r.last_rendered_width) || not (frame.height == r.last_rendered_height)

-- The test that makes the worker wait until the next frame is due.
unfoldable pub is_paced : PendingFrame → ℕ → Renderer → Bool
is_paced frame now r =
    let interval = resolve_target_frame_interval_ms frame (size_changed frame r) in
    not frame.force_render
    && (not (size_changed frame r)
        && (ltb 0 interval
            && (ltb 0 r.rendered_count
                && (not (r.last_render_finished_at == 0)
                    && ltb now (r.last_render_finished_at + interval * 1000)))))

abbrev pub note_interval : PendingFrame → Renderer → Renderer
note_interval frame r = record r {
  last_target_frame_interval_ms = resolve_target_frame_interval_ms frame (size_changed frame r);
}

-- One turn of the inner loop, from a wait to the next wait, the paint callback or the end.
unfoldable pub wake : Option PendingFrame → Machine → Machine
wake none m = if m.core.running then record m { place = waiting } else record m { place = absent }
wake (some frame) m =
    let noted = note_interval frame m.core in
    if is_paced frame m.now m.core
    then record m {
      core = record noted { throttled_count = u64 (noted.throttled_count + 1) };
      place = waiting;
    }
    else record m {
      core = record noted { pending = none };
      place = rendering frame m.now;
      taken = frame.sequence;
    }

-- `++renderedCount_` and what follows it, or `++failedCount_`.
unfoldable pub count_result : SurfacePaintResult → ℕ → Renderer → Renderer
count_result paint render_us r =
    if paint.ok
    then record r {
      rendered_count = u64 (r.rendered_count + 1);
      partial_rendered_count =
          if paint.partial then u64 (r.partial_rendered_count + 1) else r.partial_rendered_count;
      full_rendered_count =
          if paint.partial then r.full_rendered_count else u64 (r.full_rendered_count + 1);
      total_render_us = u64 (r.total_render_us + render_us);
    }
    else record r { failed_count = u64 (r.failed_count + 1) }

unfoldable pub finish : PendingFrame → ℕ → SurfacePaintResult → ℕ → Renderer → Renderer
finish frame render_start paint now r =
    let render_us = u32 (now - render_start) in
    count_result paint render_us (record r {
      last_render_us = render_us;
      last_rendered_width = frame.width;
      last_rendered_height = frame.height;
      last_render_finished_at = now;
    })

unfoldable pub new : ℕ → Machine
unfolding reset_stats
new now = record {
  core = reset_stats false now;
  place = absent;
  now = now;
  accepted = [];
  taken = 0;
}

abbrev pub accept : RgbaFrame → Bool → Machine → Renderer × Bool → Machine
accept frame force_render m (r, false) = record m { core = r }
accept frame force_render m (r, true) = record m {
  core = r;
  accepted = next_frame frame force_render r.frame_sequence ∷ m.accepted;
}

-- What the threads do, one turn at a time. One thread controls the renderer: its `Start` finds the renderer
-- running, or follows the join of the worker, so that no worker is left.
pub data Step : Machine → Machine → Type 0 where
  starts :
      {m : Machine}
      → (m.place ≡ absent) ⊎ (m.core.running ≡ true)
      → Step m (record m {
        core = (start m.now m.core).0;
        place = if (start m.now m.core).1 then waiting else m.place;
        accepted = if (start m.now m.core).1 then [] else m.accepted;
        taken = if (start m.now m.core).1 then 0 else m.taken;
      })
  stops : {m : Machine} → Step m (record m { core = stop m.core })
  drops : {m : Machine} → Step m (record m { core = (drop_pending m.core).0 })
  enqueues :
      {m : Machine} (frame : RgbaFrame) (force_render : Bool)
      → frame.width < 2 ^ 32
      → frame.height < 2 ^ 32
      → Step m (accept frame force_render m (enqueue frame force_render m.core))
  wakes : {m : Machine} → m.place ≡ waiting → Step m (wake m.core.pending m)
  finishes :
      {m : Machine} {frame : PendingFrame} {render_start : ℕ} (paint : SurfacePaintResult)
      → m.place ≡ rendering frame render_start
      → Step m (record m { core = finish frame render_start paint m.now m.core; place = waiting })
  passes : {m : Machine} (us : ℕ) → Step m (record m { now = m.now + us })

-- The machines that the new renderer reaches in a number of steps.
pub data Reachable : ℕ → Machine → Type 0 where
  begins : (now : ℕ) → Reachable 0 (new now)
  goes_on : {n : ℕ} {m m' : Machine} → Reachable n m → Step m m' → Reachable (n + 1) m'

pub record RenderStatsSnapshot : Type 0 where
  pub running : Bool
  pub queued : ℕ
  pub rendered : ℕ
  pub failed : ℕ
  pub replaced : ℕ
  pub throttled : ℕ
  pub full_rendered : ℕ
  pub partial_rendered : ℕ
  pub pending : ℕ
  pub last_width : ℕ
  pub last_height : ℕ
  pub last_copy_us : ℕ
  pub last_render_us : ℕ
  pub avg_copy_us : ℕ
  pub avg_render_us : ℕ
  pub fps_x100 : ℕ
  pub last_dirty : DirtyFrameStats
  pub target_frame_interval_ms : ℕ

unfoldable pub snapshot : ℕ → Renderer → RenderStatsSnapshot
unfolding has_pending
snapshot now r =
    let elapsed_ms = u64 ((now - r.stats_started_at) / 1000) in
    record {
      running = r.running;
      queued = r.queued_count;
      rendered = r.rendered_count;
      failed = r.failed_count;
      replaced = r.replaced_count;
      throttled = r.throttled_count;
      full_rendered = r.full_rendered_count;
      partial_rendered = r.partial_rendered_count;
      pending = has_pending r;
      last_width = r.last_rendered_width;
      last_height = r.last_rendered_height;
      last_copy_us = r.last_copy_us;
      last_render_us = r.last_render_us;
      avg_copy_us = if r.queued_count == 0 then 0 else u32 (r.total_copy_us / r.queued_count);
      avg_render_us =
          if r.rendered_count == 0 then 0 else u32 (r.total_render_us / r.rendered_count);
      fps_x100 = if ltb 0 elapsed_ms then u32 (u64 (r.rendered_count * 100000) / elapsed_ms) else 0;
      last_dirty = r.last_dirty;
      target_frame_interval_ms = r.last_target_frame_interval_ms;
    }
