-- ===== src/Surface/Painter/Record.antt =====
-- What `RecordBufferFrame` keeps of the frames painted.
use harmony_windows_bridge.Base.{
  ℕ, ◌≤◌, ◌<◌, ◌≡◌, refl, ◌∙◌, ◌≢◌, ◌⊎◌, inl, inr, none, some, List, [], ◌∷◌, ◌++◌, arith, ltb,
  ◌==◌, if◌then◌else◌, Bool-cases, length,
}
use harmony_windows_bridge.Surface.Types.{RgbaFrame}
use harmony_windows_bridge.Surface.Painter.{
  Painter, DirtyHistoryEntry, trim, find_sequence, set_sequence, dirty_history_limit, entry_of,
  record_buffer_frame, resized,
}

length-trim-le : (limit : ℕ) (es : List DirtyHistoryEntry) → length (trim limit es) ≤ limit
unfolding trim
length-trim-le limit [] = omega arith
length-trim-le limit (e ∷ es) = ground (arith, length-trim-le limit es)

-- The newest entry stays, whatever is dropped at the front.
trim-append :
    (limit : ℕ) (es : List DirtyHistoryEntry) (e : DirtyHistoryEntry)
    → 0 < limit
    → (kept : List DirtyHistoryEntry) × (trim limit (es ++ e ∷ []) ≡ kept ++ e ∷ [])
unfolding trim
trim-append limit [] e h = ([], ground arith)
trim-append limit (x ∷ es) e h = elim (Bool-cases (ltb limit (length (x ∷ es ++ e ∷ [])))) [
  | inl drop ↦ rw drop (trim-append limit es e h)
  | inr keep ↦ (x ∷ es, rw keep)
]

find_sequence-set_sequence :
    (key other value : ℕ) (m : List (ℕ × ℕ))
    → find_sequence other (set_sequence key value m)
      ≡ (if key == other then some value else find_sequence other m)
unfolding find_sequence set_sequence
find_sequence-set_sequence key other value [] = refl
find_sequence-set_sequence key other value ((k, v) ∷ m) =
    ground (arith, find_sequence-set_sequence key other value m)

find_sequence-set_sequence_self :
    (key value : ℕ) (m : List (ℕ × ℕ)) → find_sequence key (set_sequence key value m) ≡ some value
find_sequence-set_sequence_self key value m =
    ground (arith, find_sequence-set_sequence key key value m)

recorded :
    (key : ℕ) (frame : RgbaFrame) (p : Painter)
    → 0 < key
    → 0 < frame.sequence
    → record_buffer_frame key frame p ≡ record (resized frame p) {
      dirty_history =
          trim dirty_history_limit ((resized frame p).dirty_history ++ entry_of frame ∷ []);
      buffer_frame_sequences =
          set_sequence key frame.sequence (resized frame p).buffer_frame_sequences;
    }
unfolding record_buffer_frame
recorded key frame p k s = ground arith

-- A frame with a number, painted into a buffer: the history then ends with the frame's entry and has
-- 240 entries at most; the buffer has the frame's number; and any other buffer keeps its own, unless
-- the frame has another size than the frames before, when the numbers of all other buffers are lost.
pub record_buffer_frame_lem :
    (key other : ℕ) (frame : RgbaFrame) (p : Painter)
    → 0 < key
    → 0 < frame.sequence
    → let q = record_buffer_frame key frame p in
      (length q.dirty_history ≤ dirty_history_limit)
      × ((kept : List DirtyHistoryEntry) × (q.dirty_history ≡ kept ++ entry_of frame ∷ []))
      × (find_sequence key q.buffer_frame_sequences ≡ some frame.sequence)
      × (other ≢ key
          → p.dirty_history_width ≡ frame.width
          → p.dirty_history_height ≡ frame.height
          → find_sequence other q.buffer_frame_sequences
            ≡ find_sequence other p.buffer_frame_sequences)
      × (other ≢ key
          → (p.dirty_history_width ≢ frame.width) ⊎ (p.dirty_history_height ≢ frame.height)
          → find_sequence other q.buffer_frame_sequences ≡ none)
record_buffer_frame_lem key other frame p k s = rw (recorded key frame p k s) (
  length-trim-le dirty_history_limit _,
  trim-append dirty_history_limit (resized frame p).dirty_history (entry_of frame) (omega arith),
  find_sequence-set_sequence_self key frame.sequence _,
  λ ne w h. set_other ne ∙ same_size w h,
  λ ne d. set_other ne ∙ other_size d,
)
  where
    set_other :
        other ≢ key
        → find_sequence other
            (set_sequence key frame.sequence (resized frame p).buffer_frame_sequences)
          ≡ find_sequence other (resized frame p).buffer_frame_sequences
    set_other ne = ground (
      arith,
      find_sequence-set_sequence key other frame.sequence (resized frame p).buffer_frame_sequences,
    )

    same_size :
        p.dirty_history_width ≡ frame.width
        → p.dirty_history_height ≡ frame.height
        → find_sequence other (resized frame p).buffer_frame_sequences
          ≡ find_sequence other p.buffer_frame_sequences
    same_size w h = ground arith

    other_size :
        (p.dirty_history_width ≢ frame.width) ⊎ (p.dirty_history_height ≢ frame.height)
        → find_sequence other (resized frame p).buffer_frame_sequences ≡ none
    other_size d = unfold find_sequence in ground arith
