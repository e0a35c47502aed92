-- ===== src/Surface/Renderer/Reports.antt =====
-- What the renderer hands to the painter tells of every change since the frame before its span: the renderer
-- keeps what the painter's damage history relies on.
use harmony_windows_bridge.Surface.Renderer.Worker
use harmony_windows_bridge.Surface.Renderer.{
  start, stop, PendingFrame, Renderer, reset_stats, drop_pending, is_frame_invalid, enqueue,
}
use harmony_windows_bridge.Base.{
  ℕ, ◌+◌, ◌-◌, ◌^◌, ◌≤◌, ◌<◌, ◌≡◌, refl, sym, ap, inl, inr, Bool, Option, none, some, List, [], ◌∷◌,
  arith, ltb, if◌then◌else◌, Bool-cases, All, subst,
}
use harmony_windows_bridge.Surface.Renderer.Worker.{
  SurfacePaintResult, rendering, Step, Reachable, accept, count_result, is_paced, Machine, wake,
  finish, starts, stops, drops, enqueues, wakes, finishes, passes, begins, goes_on,
}
use harmony_windows_bridge.Surface.Dirty.Cover.{Covers}
use harmony_windows_bridge.Surface.Types.{RgbaFrame}
use harmony_windows_bridge.Surface.Renderer.Damage.{Reachable-Inv, Flies, StandsFor}
use harmony_windows_bridge.Base.Word.{u64}
use harmony_windows_bridge.Surface.Renderer.Accounting.{Reachable-Counts}

-- The frames accepted since `Start` are numbered without a gap, the newest first.
abbrev Numbered : ℕ → List PendingFrame → Type 0
Numbered s [] = s ≡ 0
Numbered s (g ∷ gs) = (g.sequence ≡ s) × (0 < s) × Numbered (s - 1) gs

accept-Numbered :
    (n : ℕ) (frame : RgbaFrame) (force_render : Bool) (m : Machine)
    → n < 2 ^ 63
    → m.core.frame_sequence ≤ n
    → Numbered m.core.frame_sequence m.accepted
    → let m' = accept frame force_render m (enqueue frame force_render m.core) in
      Numbered m'.core.frame_sequence m'.accepted
unfolding enqueue
accept-Numbered n frame force_render m p b k = elim (Bool-cases (is_frame_invalid frame)) [
  | inl e ↦ rw e k
  | inr e ↦ elim (Bool-cases m.core.running) [
    | inl r ↦
        let same : m.core.frame_sequence ≡ u64 (m.core.frame_sequence + 1) - 1 = omega arith in
        rw (e, r) (refl, omega arith, subst (λ s. Numbered s m.accepted) same k)
    | inr r ↦ rw (e, r) k
  ]
]

start-Numbered :
    (m : Machine)
    → Numbered m.core.frame_sequence m.accepted
    → Numbered
        (start m.now m.core).0.frame_sequence
        (if (start m.now m.core).1 then [] else m.accepted)
unfolding start reset_stats
start-Numbered m k = elim (Bool-cases m.core.running) [ inl e ↦ rw e k | inr e ↦ rw e refl ]

wake-keeps :
    (o : Option PendingFrame) (m : Machine)
    → ((wake o m).core.frame_sequence ≡ m.core.frame_sequence) × ((wake o m).accepted ≡ m.accepted)
unfolding wake
wake-keeps none m = elim (Bool-cases m.core.running) [
  | inl e ↦ rw e (refl, refl)
  | inr e ↦ rw e (refl, refl)
]
wake-keeps (some f) m = elim (Bool-cases (is_paced f m.now m.core)) [
  | inl e ↦ rw e (refl, refl)
  | inr e ↦ rw e (refl, refl)
]

drop-keeps : (r : Renderer) → (drop_pending r).0.frame_sequence ≡ r.frame_sequence
unfolding drop_pending
drop-keeps r = ground arith

finish-sequence :
    (f : PendingFrame) (t : ℕ) (paint : SurfacePaintResult) (now : ℕ) (r : Renderer)
    → (finish f t paint now r).frame_sequence ≡ r.frame_sequence
unfolding finish count_result
finish-sequence f t paint now r = ground arith

Step-Numbered :
    {n : ℕ} {m m' : Machine}
    → n < 2 ^ 63
    → m.core.frame_sequence ≤ n
    → Numbered m.core.frame_sequence m.accepted
    → Step m m'
    → Numbered m'.core.frame_sequence m'.accepted
unfolding stop
Step-Numbered {n} {m} p b k (starts e) = start-Numbered m k
Step-Numbered {n} {m} p b k stops = k
Step-Numbered {n} {m} p b k drops = subst (λ s. Numbered s m.accepted) (sym (drop-keeps m.core)) k
Step-Numbered {n} {m} p b k (enqueues frame force_render w h) =
    accept-Numbered n frame force_render m p b k
Step-Numbered {n} {m} p b k (wakes e) = let (a, c) = wake-keeps m.core.pending m in rw (a, c) k
Step-Numbered {n} {m} p b k (finishes {frame = f} {render_start = t} paint e) =
    subst (λ s. Numbered s m.accepted) (sym (finish-sequence f t paint m.now m.core)) k
Step-Numbered {n} {m} p b k (passes us) = k

Reachable-Numbered :
    {n : ℕ} {m : Machine} → Reachable n m → n < 2 ^ 63 → Numbered m.core.frame_sequence m.accepted
unfolding Worker.new reset_stats
Reachable-Numbered (begins now) p = refl
Reachable-Numbered (goes_on {n = n} {m = m} r s) p =
    let (a, b, c, d, e) = Reachable-Counts r (omega arith) in
    Step-Numbered {n = n} (omega arith) (omega arith) (Reachable-Numbered r (omega arith)) s

-- The pixel, of value `G q` after the frame of number q, does not change with the frame unless the frame's
-- rectangle covers it.
abbrev pub Tells : (ℕ → ℕ) → ℕ → ℕ → PendingFrame → Type 0
Tells G px py g = ¬ Covers g.dirty px py → G g.sequence ≡ G (g.sequence - 1)

module _ (G : ℕ → ℕ) (px py : ℕ) (f : PendingFrame) (n : ¬ Covers f.dirty px py) where
  tells :
      (s : ℕ) (acc : List PendingFrame)
      → px < f.width
      → py < f.height
      → Numbered s acc
      → All (StandsFor px py f) acc
      → All (Tells G px py) acc
      → (q : ℕ) → f.dirty_sequence_start ≤ q
      → q ≤ f.sequence
      → q ≤ s
      → G q ≡ G (q - 1)
  tells s [] w h k c a q from to le = ap G (omega arith)
  tells s (g ∷ gs) w h k c a q from to le = elim (Bool-cases (ltb q s)) [
    | inl e ↦ tells (s - 1) gs w h k.2 c.1 a.1 q from to (ground arith)
    | inr e ↦
        let same : g.sequence ≡ q = ground arith in
        subst (λ k. G k ≡ G (k - 1)) same
          (a.0 (λ covers. n ((c.0 (omega arith) (omega arith)).2 w h covers)))
  ]

-- After fewer than 2 ^ 63 steps, let a frame be in the paint callback, and take a pixel of it. Suppose that
-- each frame that `Enqueue` accepted tells of its own change: the pixel is the same as before it, or is
-- covered by its rectangle. Then the painted frame tells of all changes in its span: unless its rectangle
-- covers the pixel, no number of the span changes the pixel. Frames that were replaced are not lost.
pub painted_span_is_complete :
    (G : ℕ → ℕ) {n : ℕ} {m : Machine} {f : PendingFrame} {t : ℕ} (px py q : ℕ)
    → Reachable n m
    → n < 2 ^ 63
    → m.place ≡ rendering f t
    → All (Tells G px py) m.accepted
    → px < f.width
    → py < f.height
    → ¬ Covers f.dirty px py
    → f.dirty_sequence_start ≤ q
    → q ≤ f.sequence
    → G q ≡ G (q - 1)
painted_span_is_complete G {n} {m} {f} {t} px py q r p e a w h c from to =
    let flies =
      subst (Flies px py m.core.frame_sequence m.accepted) e (Reachable-Inv px py r p).1 in
    tells G px py f c m.core.frame_sequence m.accepted w h (Reachable-Numbered r p) flies.1 a q from
      to (omega arith)
