-- ===== src/Surface/Painter.antt =====
-- The damage history of surface/native_window_rgba_painter.{h,cpp}: which part of a buffer of the window
-- has to be painted, given what was painted since that buffer was last used. The map from buffers to
-- sequence numbers is an association list, the history is oldest first.
pub mod Complete
pub mod Record
use harmony_windows_bridge.Base.{
  ℕ, ◌+◌, Bool, not, ◌&&◌, ◌||◌, Option, none, some, List, [], ◌∷◌, ◌++◌, ltb, leb, ◌==◌,
  if◌then◌else◌, length,
}
use harmony_windows_bridge.Base.Word.{u32, u64}
use harmony_windows_bridge.Surface.Dirty.{DirtyFrameStats, no_dirty, merge_dirty_stats}
use harmony_windows_bridge.Surface.Types.{RgbaFrame, RenderViewport}

pub record DirtyHistoryEntry : Type 0 where
  pub from_sequence : ℕ
  pub to_sequence : ℕ
  pub dirty : DirtyFrameStats

pub record Painter : Type 0 where
  pub buffer_frame_sequences : List (ℕ × ℕ)
  pub dirty_history : List DirtyHistoryEntry
  pub dirty_history_width : ℕ
  pub dirty_history_height : ℕ

-- `Destroy`, for the fields modelled.
unfoldable pub destroy : Painter
destroy = record {
  buffer_frame_sequences = [];
  dirty_history = [];
  dirty_history_width = 0;
  dirty_history_height = 0;
}

unfoldable pub find_sequence : ℕ → List (ℕ × ℕ) → Option ℕ
find_sequence key [] = none
find_sequence key ((k, v) ∷ m) = if k == key then some v else find_sequence key m

unfoldable pub set_sequence : ℕ → ℕ → List (ℕ × ℕ) → List (ℕ × ℕ)
set_sequence key value [] = (key, value) ∷ []
set_sequence key value ((k, v) ∷ m) =
    if k == key then (key, value) ∷ m else (k, v) ∷ set_sequence key value m

-- The loop over the history: the rectangle merged so far and the sequence number expected next. `none`
-- is the `return false` at a gap.
unfoldable pub accumulate :
    ℕ → ℕ → ℕ → DirtyFrameStats → ℕ → List DirtyHistoryEntry → Option (DirtyFrameStats × ℕ)
accumulate last width height merged expected [] = some (merged, expected)
accumulate last width height merged expected (e ∷ es) =
    let skip = accumulate last width height merged expected es in
    let take =
      accumulate last width height (merge_dirty_stats merged e.dirty width height)
        (u64 (e.to_sequence + 1)) es in
    if leb e.to_sequence last then skip else if ltb expected e.from_sequence then none else take

abbrev pub max_partial_dirty_area_permille : ℕ
max_partial_dirty_area_permille = 650

-- The tests after the loop.
abbrev pub admit : RgbaFrame → ℕ → ℕ → DirtyFrameStats × ℕ → Option DirtyFrameStats
admit frame target_width target_height (merged, expected) =
    let d = merge_dirty_stats merged frame.dirty frame.width frame.height in
    if ltb expected frame.dirty_sequence_start
      || (not d.valid
          || (d.width == 0
              || (d.height == 0
                  || (ltb target_width (u32 (d.x + d.width))
                      || (ltb target_height (u32 (d.y + d.height))
                          || ltb max_partial_dirty_area_permille d.area_permille)))))
    then none
    else some d

-- The tests before it, other than the one for the buffer.
abbrev pub is_partial_candidate : ℕ → RgbaFrame → ℕ → ℕ → RenderViewport → Painter → Bool
is_partial_candidate key frame target_width target_height viewport p =
    not (key == 0)
    && (not (frame.sequence == 0)
        && (not (frame.dirty_sequence_start == 0)
            && (frame.dirty.valid
                && (frame.width == target_width
                    && (frame.height == target_height
                        && (viewport.x == 0
                            && (viewport.y == 0
                                && (viewport.width == frame.width
                                    && (viewport.height == frame.height
                                        && (p.dirty_history_width == frame.width
                                            && p.dirty_history_height == frame.height))))))))))

-- What was painted since the buffer was.
abbrev since : ℕ → RgbaFrame → Painter → Option (DirtyFrameStats × ℕ)
since last frame p =
    if leb frame.sequence last
    then none
    else accumulate last frame.width frame.height no_dirty (u64 (last + 1)) p.dirty_history

infixl 5 ◌>>=◌
abbrev ◌>>=◌ {ℓ κ} : {A : Type ℓ} {B : Type κ} → Option A → (A → Option B) → Option B
none >>= f = none
some a >>= f = f a

-- `some` rectangle is the value true with the out parameter `dirty`.
unfoldable pub can_use_partial_dirty :
    ℕ → RgbaFrame → ℕ → ℕ → RenderViewport → Painter → Option DirtyFrameStats
can_use_partial_dirty key frame target_width target_height viewport p =
    if not (is_partial_candidate key frame target_width target_height viewport p) then none else do
      last ← find_sequence key p.buffer_frame_sequences
      found ←
          if leb frame.sequence last
          then none
          else accumulate last frame.width frame.height no_dirty (u64 (last + 1)) p.dirty_history
      admit frame target_width target_height found

abbrev pub dirty_history_limit : ℕ
dirty_history_limit = 240

-- `while (size > limit) pop_front();`
unfoldable pub trim : ℕ → List DirtyHistoryEntry → List DirtyHistoryEntry
trim limit [] = []
trim limit (e ∷ es) = if ltb limit (length (e ∷ es)) then trim limit es else e ∷ es

abbrev pub entry_of : RgbaFrame → DirtyHistoryEntry
entry_of frame = record {
  from_sequence =
      if frame.dirty_sequence_start == 0 then frame.sequence else frame.dirty_sequence_start;
  to_sequence = frame.sequence;
  dirty = frame.dirty;
}

-- A frame of another size than the last one starts the history anew.
abbrev pub resized : RgbaFrame → Painter → Painter
resized frame p =
    if not (p.dirty_history_width == frame.width) || not (p.dirty_history_height == frame.height)
    then record p {
      dirty_history = [];
      buffer_frame_sequences = [];
      dirty_history_width = frame.width;
      dirty_history_height = frame.height;
    }
    else p

unfoldable pub record_buffer_frame : ℕ → RgbaFrame → Painter → Painter
record_buffer_frame key frame p =
    if frame.sequence == 0
    then p
    else let q = resized frame p in
      record q {
        dirty_history = trim dirty_history_limit (q.dirty_history ++ entry_of frame ∷ []);
        buffer_frame_sequences =
            if key == 0
            then q.buffer_frame_sequences
            else set_sequence key frame.sequence q.buffer_frame_sequences;
      }
