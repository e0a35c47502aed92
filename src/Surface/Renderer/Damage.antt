-- ===== src/Surface/Renderer/Damage.antt =====
-- A frame that waits stands for the damage of the frames that it replaced.
use harmony_windows_bridge.Surface.Renderer.Worker.{
  Place, absent, waiting, rendering, SurfacePaintResult, Machine, is_paced, wake, count_result,
  finish, new, accept, Step, starts, stops, drops, enqueues, wakes, finishes, passes, Reachable,
  begins, goes_on,
}
use harmony_windows_bridge.Base.Word.{u64}
use harmony_windows_bridge.Base.{
  ℕ, ◌+◌, ◌^◌, ◌≤◌, ◌<◌, ◌≡◌, refl, ◌⊎◌, inl, inr, Bool, true, Option, none, some, List, [], ◌∷◌,
  arith, if◌then◌else◌, Bool-cases, Option-cases, All, All-zip, All-map, subst,
}
use harmony_windows_bridge.Surface.Renderer.{
  replacing, PendingFrame, start, after_pending, Renderer, reset_stats, stop, drop_pending,
  is_frame_invalid, enqueue, next_frame,
}
use harmony_windows_bridge.Surface.Dirty.Cover.{merge_dirty_stats-Covers, Covers}
use harmony_windows_bridge.Surface.Types.{RgbaFrame}
use harmony_windows_bridge.Surface.Renderer.Accounting.{Reachable-Counts}

-- If the number of frame `g` is in the span of `f`, then `g` has the size of `f`, and the rectangle of `f`
-- covers the pixel when that of `g` does.
abbrev pub StandsFor : ℕ → ℕ → PendingFrame → PendingFrame → Type 0
StandsFor px py f g =
    f.dirty_sequence_start ≤ g.sequence
    → g.sequence ≤ f.sequence
    → (g.width ≡ f.width)
      × (g.height ≡ f.height)
      × (px < f.width → py < f.height → Covers g.dirty px py → Covers f.dirty px py)

module _ (px py : ℕ) where
  replacing-StandsFor :
      (old new_frame g : PendingFrame)
      → new_frame.width < 2 ^ 32
      → new_frame.height < 2 ^ 32
      → old.sequence < new_frame.sequence
      → new_frame.dirty_sequence_start ≡ new_frame.sequence
      → g.sequence ≤ old.sequence
      → StandsFor px py old g
      → StandsFor px py (replacing old new_frame) g
  unfolding replacing
  replacing-StandsFor old new_frame g w h lt start le s = ground (
    arith,
    merge_dirty_stats-Covers old.dirty new_frame.dirty new_frame.width new_frame.height px py w h,
  )

  replacing-StandsFor-new_frame :
      (old new_frame : PendingFrame)
      → new_frame.width < 2 ^ 32
      → new_frame.height < 2 ^ 32
      → StandsFor px py (replacing old new_frame) new_frame
  unfolding replacing
  replacing-StandsFor-new_frame old new_frame w h = ground (
    arith,
    merge_dirty_stats-Covers old.dirty new_frame.dirty new_frame.width new_frame.height px py w h,
  )

  replacing-sequence :
      (old new_frame : PendingFrame)
      → new_frame.dirty_sequence_start ≡ new_frame.sequence
      → old.sequence < new_frame.sequence
      → old.dirty_sequence_start ≤ old.sequence
      → (t : ℕ) → t < old.dirty_sequence_start
      → ((replacing old new_frame).sequence ≡ new_frame.sequence)
        × (t < (replacing old new_frame).dirty_sequence_start)
        × ((replacing old new_frame).dirty_sequence_start ≤ new_frame.sequence)
  unfolding replacing
  replacing-sequence old new_frame e lt le t p = ground arith

  -- The frame is the newest, none of its span has been taken, and it stands for all of it.
  abbrev Held : (sequence taken : ℕ) → List PendingFrame → PendingFrame → Type 0
  Held sequence taken accepted f =
      (f.sequence ≡ sequence)
      × (taken < f.dirty_sequence_start)
      × (f.dirty_sequence_start ≤ f.sequence)
      × All (StandsFor px py f) accepted

  abbrev Waits : (sequence taken : ℕ) → List PendingFrame → Option PendingFrame → Type 0
  Waits sequence taken accepted none = Unit
  Waits sequence taken accepted (some f) = Held sequence taken accepted f

  abbrev pub Flies : (sequence : ℕ) → List PendingFrame → Place → Type 0
  Flies sequence accepted (rendering f t) =
      (f.sequence ≤ sequence) × All (StandsFor px py f) accepted
  Flies sequence accepted waiting = Unit
  Flies sequence accepted absent = Unit

  abbrev Past : ℕ → List PendingFrame → Type 0
  Past sequence accepted = All (λ g. g.sequence ≤ sequence) accepted

  StandsFor-later :
      (f : PendingFrame) (s : ℕ) (acc : List PendingFrame)
      → s < f.dirty_sequence_start
      → Past s acc
      → All (StandsFor px py f) acc
  StandsFor-later f s acc lt p = All-map acc (λ g le a. absurd (omega arith)) p

  after_pending-Held :
      (o : Option PendingFrame) (new_frame : PendingFrame) (s taken : ℕ) (acc : List PendingFrame)
      → new_frame.width < 2 ^ 32
      → new_frame.height < 2 ^ 32
      → new_frame.dirty_sequence_start ≡ new_frame.sequence
      → s < new_frame.sequence
      → taken ≤ s
      → Past s acc
      → Waits s taken acc o
      → Held new_frame.sequence taken (new_frame ∷ acc) (after_pending o new_frame)
  after_pending-Held none f s taken acc w h e lt t p k = (
    refl,
    omega arith,
    omega arith,
    ((λ a b. (refl, refl, λ _ _ c. c)), StandsFor-later f s acc (omega arith) p),
  )
  after_pending-Held (some old) f s taken acc w h e lt t p k =
      let (a, b, c) = replacing-sequence old f e (omega arith) k.2 taken k.1 in
      (
        a,
        b,
        omega arith,
        (
          replacing-StandsFor-new_frame old f w h,
          All-zip acc (λ g le. replacing-StandsFor old f g w h (omega arith) e (omega arith)) p k.3,
        ),
      )

  abbrev Inv : Machine → Type 0
  Inv m =
      Waits m.core.frame_sequence m.taken m.accepted m.core.pending
      × Flies m.core.frame_sequence m.accepted m.place
      × Past m.core.frame_sequence m.accepted
      × (m.taken ≤ m.core.frame_sequence)

  start-Inv :
      (m : Machine)
      → (m.place ≡ absent) ⊎ (m.core.running ≡ true)
      → Inv m
      → Inv (record m {
        core = (start m.now m.core).0;
        place = if (start m.now m.core).1 then waiting else m.place;
        accepted = if (start m.now m.core).1 then [] else m.accepted;
        taken = if (start m.now m.core).1 then 0 else m.taken;
      })
  unfolding start reset_stats
  start-Inv m a v = elim (Bool-cases m.core.running) [
    | inl e ↦ rw e v
    | inr e ↦ rw e (tt, tt, tt, omega arith)
  ]

  stop-Inv : (m : Machine) → Inv m → Inv (record m { core = stop m.core })
  unfolding stop
  stop-Inv m v = (tt, v.1, v.2, v.3)

  drop-Inv : (m : Machine) → Inv m → Inv (record m { core = (drop_pending m.core).0 })
  unfolding drop_pending
  drop-Inv m v = elim (Option-cases m.core.pending) [
    | inl e ↦ rw e (tt, v.1, v.2, v.3)
    | inr e ↦ rw e.1 (tt, v.1, v.2, v.3)
  ]

  wake-Inv :
      (m : Machine) (o : Option PendingFrame)
      → m.core.pending ≡ o
      → Inv m
      → Waits m.core.frame_sequence m.taken m.accepted o
      → Inv (wake o m)
  unfolding wake
  wake-Inv m none e v k = elim (Bool-cases m.core.running) [
    | inl r ↦ rw r (v.0, tt, v.2, v.3)
    | inr r ↦ rw r (v.0, tt, v.2, v.3)
  ]
  wake-Inv m (some f) e v k = elim (Bool-cases (is_paced f m.now m.core)) [
    | inl r ↦ rw r (v.0, tt, v.2, v.3)
    | inr r ↦ rw r (tt, (omega arith, k.3), v.2, omega arith)
  ]

  finish-keeps :
      (f : PendingFrame) (t : ℕ) (paint : SurfacePaintResult) (now : ℕ) (r : Renderer)
      → ((finish f t paint now r).pending ≡ r.pending)
        × ((finish f t paint now r).frame_sequence ≡ r.frame_sequence)
  unfolding finish count_result
  finish-keeps f t paint now r = ground arith

  Flies-later :
      (s : ℕ) (acc : List PendingFrame) (f : PendingFrame)
      → s < f.sequence
      → (p : Place) → Flies s acc p
      → Flies f.sequence (f ∷ acc) p
  Flies-later s acc f lt (rendering g t) (le, k) =
      (omega arith, ((λ _ le'. absurd (omega arith)), k))
  Flies-later s acc f lt waiting k = tt
  Flies-later s acc f lt absent k = tt

  enqueue-Inv :
      (n : ℕ) (frame : RgbaFrame) (force_render : Bool) (m : Machine)
      → frame.width < 2 ^ 32
      → frame.height < 2 ^ 32
      → n < 2 ^ 63
      → m.core.frame_sequence ≤ n
      → Inv m
      → Inv (accept frame force_render m (enqueue frame force_render m.core))
  unfolding enqueue
  enqueue-Inv n frame force_render m w h p b v = elim (Bool-cases (is_frame_invalid frame)) [
    | inl e ↦ rw e v
    | inr e ↦ elim (Bool-cases m.core.running) [
      | inl r ↦
          let f = next_frame frame force_render (u64 (m.core.frame_sequence + 1)) in
          rw (e, r)
            (
              after_pending-Held m.core.pending f m.core.frame_sequence m.taken m.accepted w h refl
                  (omega arith) v.3 v.2 v.0,
              Flies-later m.core.frame_sequence m.accepted f (omega arith) m.place v.1,
              (omega arith, All-map m.accepted (λ g le. omega arith) v.2),
              omega arith,
            )
      | inr r ↦ rw (e, r) v
    ]
  ]

  Step-Inv :
      {n : ℕ} {m m' : Machine} → n < 2 ^ 63 → m.core.frame_sequence ≤ n → Inv m → Step m m' → Inv m'
  Step-Inv {n} {m} p b v (starts e) = start-Inv m e v
  Step-Inv {n} {m} p b v stops = stop-Inv m v
  Step-Inv {n} {m} p b v drops = drop-Inv m v
  Step-Inv {n} {m} p b v (enqueues frame force_render w h) =
      enqueue-Inv n frame force_render m w h p b v
  Step-Inv {n} {m} p b v (wakes e) = wake-Inv m m.core.pending refl v v.0
  Step-Inv {n} {m} p b v (finishes {frame = frame} {render_start = t} paint e) =
      let (a, c) = finish-keeps frame t paint m.now m.core in rw (a, c) (v.0, tt, v.2, v.3)
  Step-Inv {n} {m} p b v (passes us) = v

  pub Reachable-Inv : {n : ℕ} {m : Machine} → Reachable n m → n < 2 ^ 63 → Inv m
  unfolding new reset_stats
  Reachable-Inv (begins now) p = (tt, tt, tt, omega arith)
  Reachable-Inv (goes_on {n = n} {m = m} r s) p =
      let (a, b, c, d, e) = Reachable-Counts r (omega arith) in
      Step-Inv {n = n} (omega arith) (omega arith) (Reachable-Inv r (omega arith)) s

-- After fewer than 2 ^ 63 steps: a frame that waits is the newest one accepted, and its span of numbers
-- starts after the frame that the worker took last. Every frame accepted since `Start` whose number lies in
-- that span has its size, and each of its pixels that the rectangle of such a frame covers is covered by
-- the rectangle of the waiting frame.
pub pending-StandsFor_replaced :
    {n : ℕ} {m : Machine} {f : PendingFrame} (px py : ℕ)
    → Reachable n m
    → n < 2 ^ 63
    → m.core.pending ≡ some f
    → (f.sequence ≡ m.core.frame_sequence)
      × (m.taken < f.dirty_sequence_start)
      × (f.dirty_sequence_start ≤ f.sequence)
      × All (StandsFor px py f) m.accepted
pending-StandsFor_replaced {n} {m} {f} px py r p e =
    let v = Reachable-Inv px py r p in
    subst (Waits px py m.core.frame_sequence m.taken m.accepted) e v.0
