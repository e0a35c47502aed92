-- ===== src/Surface/Painter/Complete.antt =====
-- Painting the rectangle that `CanUsePartialDirty` finds is as good as painting the whole frame.
use harmony_windows_bridge.Base.{
  ℕ, zero, suc, ◌+◌, ◌-◌, ◌^◌, ◌≤◌, ◌<◌, ◌≡◌, refl, ap, ◌∙◌, ◌⊎◌, inl, inr, Bool, true, false, not,
  Option, none, some, List, [], ◌∷◌, arith, ltb, leb, if◌then◌else◌, ltb→lt, Bool-cases, All,
}
use harmony_windows_bridge.Surface.Dirty.Cover.{Covers, merge_dirty_stats-Covers}
use harmony_windows_bridge.Surface.Painter.{
  ◌>>=◌, since, DirtyHistoryEntry, accumulate, Painter, find_sequence, admit, can_use_partial_dirty,
  is_partial_candidate,
}
use harmony_windows_bridge.Surface.Dirty.{merge_dirty_stats, DirtyFrameStats, no_dirty}
use harmony_windows_bridge.Base.Word.{u64}
use harmony_windows_bridge.Surface.Types.{RenderViewport, RgbaFrame}

-- A pixel whose value at each sequence number is `G`: the entry's rectangle covers it where its value
-- changes within the entry's span.
abbrev pub Reports : (ℕ → ℕ) → ℕ → ℕ → DirtyHistoryEntry → Type 0
Reports G px py e =
    ¬ Covers e.dirty px py → (q : ℕ) → e.from_sequence ≤ q → q ≤ e.to_sequence → G q ≡ G (q - 1)

-- The value has not changed from `last` up to, and without, `next`.
Constant : (ℕ → ℕ) → ℕ → ℕ → Type 0
Constant G last next = (r : ℕ) → last ≤ r → r < next → G r ≡ G last

module _ (G : ℕ → ℕ) (last : ℕ) where
  -- A span with no change of its own that meets or overlaps a constant stretch makes it longer.
  extend :
      (from to next : ℕ)
      → Constant G last next
      → last < next
      → from ≤ next
      → ((q : ℕ) → from ≤ q → q ≤ to → G q ≡ G (q - 1))
      → (r : ℕ) → last ≤ r
      → r ≤ to
      → G r ≡ G last
  unfolding Constant
  extend from to next c l f k zero lr rt = c zero lr (omega arith)
  extend from to next c l f k (suc r) lr rt = elim (Bool-cases (ltb (suc r) next)) [
    | inl e ↦ c (suc r) lr (ltb→lt (suc r) next e)
    | inr e ↦
        k (suc r) (ground arith) rt
        ∙ ap G (omega arith)
        ∙ extend from to next c l f k r (ground arith) (omega arith)
  ]

accumulate_nil :
    (last w h : ℕ) (merged : DirtyFrameStats) (expected : ℕ) (found : DirtyFrameStats × ℕ)
    → accumulate last w h merged expected [] ≡ some found
    → (found.0 ≡ merged) × (found.1 ≡ expected)
unfolding accumulate
accumulate_nil last w h merged expected found r = ground arith

-- The three ways of one turn of the loop.
accumulate_cases :
    (last w h : ℕ) (merged : DirtyFrameStats) (expected : ℕ) (e : DirtyHistoryEntry)
    (es : List DirtyHistoryEntry) (found : DirtyFrameStats × ℕ)
    → accumulate last w h merged expected (e ∷ es) ≡ some found
    → (accumulate last w h merged expected es ≡ some found)
      ⊎ ((last < e.to_sequence)
          × (e.from_sequence ≤ expected)
          × (accumulate last w h (merge_dirty_stats merged e.dirty w h) (u64 (e.to_sequence + 1)) es
              ≡ some found))
unfolding accumulate
accumulate_cases last w h merged expected e es found r =
    elim (Bool-cases (leb e.to_sequence last)) [
      | inl s ↦ inl (rw s at r)
      | inr s ↦ elim (Bool-cases (ltb expected e.from_sequence)) [
        | inl g ↦ absurd (let x : none ≡ some found = rw (s, g) at r in cc x)
        | inr g ↦ inr (ground arith, ground arith, rw (s, g) at r)
      ]
    ]

module _ (last w h px py : ℕ) (w32 : w < 2 ^ 32) (h32 : h < 2 ^ 32) (pw : px < w)
    (ph : py < h) where
  accumulate-Covers :
      (merged : DirtyFrameStats) (expected : ℕ) (es : List DirtyHistoryEntry)
      (found : DirtyFrameStats × ℕ)
      → accumulate last w h merged expected es ≡ some found
      → Covers merged px py
      → Covers found.0 px py
  accumulate-Covers merged expected [] found r c =
      rw (accumulate_nil last w h merged expected found r).0 c
  accumulate-Covers merged expected (e ∷ es) found r c =
      elim (accumulate_cases last w h merged expected e es found r) [
        | inl s ↦ accumulate-Covers merged expected es found s c
        | inr (_, _, s) ↦
            accumulate-Covers (merge_dirty_stats merged e.dirty w h) (u64 (e.to_sequence + 1)) es
              found s (merge_dirty_stats-Covers merged e.dirty w h px py w32 h32 pw ph (inl c))
      ]

  longer :
      (G : ℕ → ℕ) (merged : DirtyFrameStats) (expected : ℕ) (e : DirtyHistoryEntry)
      → last < expected
      → Constant G last expected
      → e.from_sequence ≤ expected
      → e.to_sequence + 1 < 2 ^ 64
      → ((q : ℕ) → e.from_sequence ≤ q → q ≤ e.to_sequence → G q ≡ G (q - 1))
      → Constant G last (u64 (e.to_sequence + 1))
  unfolding Constant
  longer G merged expected e l c meets bound k r lr rt =
      extend G last e.from_sequence e.to_sequence expected c l meets k r lr (omega arith)

  accumulate-Constant :
      (G : ℕ → ℕ) (merged : DirtyFrameStats) (expected : ℕ) (es : List DirtyHistoryEntry)
      (found : DirtyFrameStats × ℕ)
      → accumulate last w h merged expected es ≡ some found
      → ¬ Covers found.0 px py
      → All (Reports G px py) es
      → All (λ e. e.to_sequence + 1 < 2 ^ 64) es
      → last < expected
      → Constant G last expected
      → (last < found.1) × Constant G last found.1
  accumulate-Constant G merged expected [] found r n rep bound l c =
      rw (accumulate_nil last w h merged expected found r).1 (l, c)
  accumulate-Constant G merged expected (e ∷ es) found r n rep bound l c =
      elim (accumulate_cases last w h merged expected e es found r) [
        | inl s ↦ accumulate-Constant G merged expected es found s n rep.1 bound.1 l c
        | inr (after, meets, s) ↦
            accumulate-Constant G (merge_dirty_stats merged e.dirty w h) (u64 (e.to_sequence + 1))
              es found s n rep.1 bound.1 (omega arith)
              (longer G merged expected e l c meets bound.0 (
                rep.0 (λ k. n (
                  accumulate-Covers (merge_dirty_stats merged e.dirty w h) (u64 (e.to_sequence + 1))
                    es found s
                    (merge_dirty_stats-Covers merged e.dirty w h px py w32 h32 pw ph (inr k))))))
      ]

admit_facts :
    (frame : RgbaFrame) (tw th : ℕ) (found : DirtyFrameStats × ℕ) {d : DirtyFrameStats}
    → admit frame tw th found ≡ some d
    → (d ≡ merge_dirty_stats found.0 frame.dirty frame.width frame.height)
      × (frame.dirty_sequence_start ≤ found.1)
admit_facts frame tw th found h = ground arith

since_facts :
    (last : ℕ) (frame : RgbaFrame) (p : Painter) {found : DirtyFrameStats × ℕ}
    → since last frame p ≡ some found
    → (last < frame.sequence)
      × (accumulate last frame.width frame.height no_dirty (u64 (last + 1)) p.dirty_history
          ≡ some found)
since_facts last frame p h = ground arith

>>=-eq_some {ℓ κ} :
    {A : Type ℓ} {B : Type κ} (m : Option A) (f : A → Option B) {b : B}
    → (m >>= f) ≡ some b
    → (a : A) × (m ≡ some a) × (f a ≡ some b)
>>=-eq_some none f h = cc
>>=-eq_some (some a) f h = (a, refl, h)

if-eq_some {ℓ} :
    {A : Type ℓ} (b : Bool) (m : Option A) {a : A} → (if b then none else m) ≡ some a → m ≡ some a
if-eq_some true m h = cc
if-eq_some false m h = h

abbrev Found : RgbaFrame → ℕ → ℕ → Painter → ℕ → DirtyFrameStats → Type 0
Found frame tw th p last d =
    (found : DirtyFrameStats × ℕ) × (since last frame p ≡ some found)
    × (admit frame tw th found ≡ some d)

-- What the code has gone through when it returns a rectangle.
can_use_facts :
    (key : ℕ) (frame : RgbaFrame) (tw th : ℕ) (viewport : RenderViewport) (p : Painter) (last : ℕ)
    {d : DirtyFrameStats}
    → can_use_partial_dirty key frame tw th viewport p ≡ some d
    → find_sequence key p.buffer_frame_sequences ≡ some last
    → Found frame tw th p last d
unfolding can_use_partial_dirty
can_use_facts key frame tw th viewport p last {d} h f =
    let (l, e, k) =
      >>=-eq_some (find_sequence key p.buffer_frame_sequences)
        (λ l. since l frame p >>= admit frame tw th)
        (if-eq_some (not (is_partial_candidate key frame tw th viewport p)) _ h) in
    let same : l ≡ last = cc in rw (← same) (>>=-eq_some (since l frame p) (admit frame tw th) k)

-- Take a buffer that shows the frame of number `last`, and any pixel of the new frame, of value `G q` in
-- the frame of number q. Suppose that every span of numbers in the history, and the new frame's own,
-- reports its changes: where the pixel changes within the span, its rectangle covers the pixel. If
-- `CanUsePartialDirty` then gives a rectangle to paint, the pixel lies in it, or has the same value in
-- the buffer as in the new frame: painting the rectangle leaves the buffer showing the new frame.
pub partial_paint_is_complete :
    (G : ℕ → ℕ) (key : ℕ) (frame : RgbaFrame) (tw th : ℕ) (viewport : RenderViewport) (p : Painter)
    (last px py : ℕ) {d : DirtyFrameStats}
    → can_use_partial_dirty key frame tw th viewport p ≡ some d
    → find_sequence key p.buffer_frame_sequences ≡ some last
    → frame.width < 2 ^ 32
    → frame.height < 2 ^ 32
    → frame.sequence < 2 ^ 64
    → All (λ e. e.to_sequence + 1 < 2 ^ 64) p.dirty_history
    → px < frame.width
    → py < frame.height
    → All (Reports G px py) p.dirty_history
    → Reports G px py (record {
      from_sequence = frame.dirty_sequence_start;
      to_sequence = frame.sequence;
      dirty = frame.dirty;
    })
    → ¬ Covers d px py
    → G frame.sequence ≡ G last
unfolding Constant
partial_paint_is_complete G key frame tw th viewport p last px py {d} h f w32 h32 s64 bound pw ph
      reports own n =
    let (found, e, a) = can_use_facts key frame tw th viewport p last h f in
    let (older, acc) = since_facts last frame p e in
    let (de, meets) = admit_facts frame tw th found a in
    let grown : Covers found.0 px py ⊎ Covers frame.dirty px py → Covers d px py =
      λ c. rw de (merge_dirty_stats-Covers found.0 frame.dirty _ _ px py w32 h32 pw ph c) in
    let (l, c) =
      accumulate-Constant last frame.width frame.height px py w32 h32 pw ph G no_dirty
        (u64 (last + 1)) p.dirty_history found acc (λ k. n (grown (inl k))) reports bound
        (omega arith) (λ r lr rt. ap G (omega arith)) in
    extend G last frame.dirty_sequence_start frame.sequence found.1 c l meets
      (own (λ k. n (grown (inr k)))) frame.sequence (omega arith) (omega arith)
