-- ===== src/Surface/Renderer/Accounting.antt =====
-- No frame is lost from the statistics of the renderer.
use harmony_windows_bridge.Surface.Renderer.Worker.{
  Place, SurfacePaintResult, absent, waiting, rendering, Machine, wake, count_result, finish, new,
  accept, Step, starts, stops, drops, enqueues, wakes, finishes, passes, Reachable, begins,
  snapshot, goes_on,
}
use harmony_windows_bridge.Base.{
  ℕ, ◌+◌, ◌^◌, ◌≤◌, ◌<◌, ◌≡◌, refl, ◌⊎◌, Bool, true, false, arith, if◌then◌else◌, subst,
}
use harmony_windows_bridge.Surface.Renderer.{
  reset_stats, PendingFrame, start, has_pending, Renderer, stop, drop_pending, enqueue,
}
use harmony_windows_bridge.Surface.Types.{RgbaFrame}

-- The frames in the paint callback.
unfoldable pub in_flight : Place → ℕ
in_flight absent = 0
in_flight waiting = 0
in_flight (rendering frame render_start) = 1

abbrev settled : Renderer → ℕ
settled r = r.rendered_count + r.failed_count + r.replaced_count

-- The counts after at most `n` steps, with `k` frames in the paint callback.
abbrev Counts : (n k : ℕ) → Renderer → Type 0
Counts n k r =
    (r.running ≡ true → r.queued_count ≡ settled r + has_pending r + k)
    × (settled r + has_pending r + k ≤ r.queued_count)
    × (r.queued_count ≤ n)
    × (r.frame_sequence ≡ r.queued_count)
    × (r.full_rendered_count + r.partial_rendered_count ≡ r.rendered_count)

stop-Counts : (n k : ℕ) (r : Renderer) → Counts n k r → Counts (n + 1) k (stop r)
unfolding stop has_pending
stop-Counts n k r c = ground arith

drop-Counts :
    (n k : ℕ) (r : Renderer) → n < 2 ^ 63 → Counts n k r → Counts (n + 1) k (drop_pending r).0
unfolding drop_pending has_pending
drop-Counts n k r p c = ground arith

enqueue-Counts :
    (n k : ℕ) (frame : RgbaFrame) (force_render : Bool) (r : Renderer)
    → n < 2 ^ 63
    → Counts n k r
    → Counts (n + 1) k (enqueue frame force_render r).0
unfolding enqueue has_pending
enqueue-Counts n k frame force_render r p c = ground arith

wake-Counts :
    (n : ℕ) (m : Machine)
    → n < 2 ^ 63
    → Counts n 0 m.core
    → Counts (n + 1) (in_flight (wake m.core.pending m).place) (wake m.core.pending m).core
unfolding wake in_flight has_pending
wake-Counts n m p c = ground arith

finish-Counts :
    (n : ℕ) (frame : PendingFrame) (t : ℕ) (paint : SurfacePaintResult) (now : ℕ) (r : Renderer)
    → n < 2 ^ 63
    → Counts n 1 r
    → Counts (n + 1) 0 (finish frame t paint now r)
unfolding finish count_result has_pending
finish-Counts n frame t paint now r p c = ground arith

accept-Counts :
    (n k : ℕ) (frame : RgbaFrame) (force_render : Bool) (m : Machine) (r : Renderer × Bool)
    → Counts n k r.0
    → Counts n k (accept frame force_render m r).core
accept-Counts n k frame force_render m (r, false) c = c
accept-Counts n k frame force_render m (r, true) c = c

accept-place :
    (frame : RgbaFrame) (force_render : Bool) (m : Machine) (r : Renderer × Bool)
    → (accept frame force_render m r).place ≡ m.place
accept-place frame force_render m (r, false) = refl
accept-place frame force_render m (r, true) = refl

starts-Counts :
    (n : ℕ) (m : Machine)
    → (m.place ≡ absent) ⊎ (m.core.running ≡ true)
    → Counts n (in_flight m.place) m.core
    → Counts
        (n + 1)
        (in_flight (if (start m.now m.core).1 then waiting else m.place))
        (start m.now m.core).0
unfolding start reset_stats has_pending in_flight
starts-Counts n m e c = ground arith

pub Step-Counts :
    {n : ℕ} {m m' : Machine}
    → n < 2 ^ 63
    → Counts n (in_flight m.place) m.core
    → Step m m'
    → Counts (n + 1) (in_flight m'.place) m'.core
unfolding in_flight
Step-Counts {n} {m} p c (starts e) = starts-Counts n m e c
Step-Counts {n} {m} p c stops = stop-Counts n (in_flight m.place) m.core c
Step-Counts {n} {m} p c drops = drop-Counts n (in_flight m.place) m.core p c
Step-Counts {n} {m} p c (enqueues frame force_render w h) =
    rw (accept-place frame force_render m (enqueue frame force_render m.core)) (
      accept-Counts (n + 1) (in_flight m.place) frame force_render m _
        (enqueue-Counts n (in_flight m.place) frame force_render m.core p c))
Step-Counts {n} {m} p c (wakes e) =
    wake-Counts n m p (subst (λ p. Counts n (in_flight p) m.core) e c)
Step-Counts {n} {m} p c (finishes {frame = frame} {render_start = t} paint e) =
    finish-Counts n frame t paint m.now m.core p (subst (λ p. Counts n (in_flight p) m.core) e c)
Step-Counts {n} {m} p c (passes us) = ground arith

new-Counts : (now : ℕ) → Counts 0 0 (new now).core
unfolding new has_pending
new-Counts now = ground arith

pub Reachable-Counts :
    {n : ℕ} {m : Machine} → Reachable n m → n < 2 ^ 63 → Counts n (in_flight m.place) m.core
unfolding in_flight new
Reachable-Counts (begins now) p = new-Counts now
Reachable-Counts (goes_on r s) p = Step-Counts (omega arith) (Reachable-Counts r (omega arith)) s

-- After fewer than 2 ^ 63 steps, where the snapshot says that the renderer runs, it accounts for every frame
-- that `Enqueue` accepted since `Start`: the frames rendered, failed, replaced or dropped, and pending, and
-- the one in the paint callback, add up to the frames queued. Full and partial paints add up to the frames
-- rendered.
pub snapshot_accounts_for_all :
    {n : ℕ} {m : Machine}
    → Reachable n m
    → n < 2 ^ 63
    → (snapshot m.now m.core).running ≡ true
    → let s = snapshot m.now m.core in
      (s.queued ≡ s.rendered + s.failed + s.replaced + s.pending + in_flight m.place)
      × (s.full_rendered + s.partial_rendered ≡ s.rendered)
unfolding snapshot
snapshot_accounts_for_all r p e = ground (arith, Reachable-Counts r p)
