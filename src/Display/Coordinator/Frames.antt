-- ===== src/Display/Coordinator/Frames.antt =====
-- Which frames a coordinator lets through, and what a resize result does to it.
use harmony_windows_bridge.Base.{ℕ, ◌+◌, ◌<◌, ◌≡◌, ◌≢◌, ◌↔◌, ◌⊎◌, true, false, none, arith, String}
use harmony_windows_bridge.Base.Word.{u32, u64}
use harmony_windows_bridge.Display.Types.{sent, unchanged, DisplayResizeResult}
use harmony_windows_bridge.Display.Coordinator.{
  Coordinator, idle, waiting_for_target, fallback, reset, apply_result, sent_or, should_queue_frame,
  frame_matches_target, is_fallback_generation,
}

-- A size lies within the tolerance of a target: less than 16 pixels to either side.
abbrev pub IsNear : ℕ → ℕ → Type 0
IsNear a b = (a < b + 16) × (b < a + 16)

abbrev pub MeetsTarget : Coordinator → ℕ → ℕ → Type 0
MeetsTarget c width height =
    (0 < width) × (0 < height) × IsNear width c.target_width × IsNear height c.target_height

frame_matches_target_iff :
    (c : Coordinator) (width height : ℕ)
    → (frame_matches_target c width height ≡ true) ↔ MeetsTarget c width height
unfolding frame_matches_target
frame_matches_target_iff c width height = ground arith

-- While no target is awaited every frame is queued, nothing is written and nothing changes.
pub should_queue_frame-not_waiting :
    (c : Coordinator) (width height : ℕ) (label : String)
    → c.state ≢ waiting_for_target
    → should_queue_frame width height label c ≡ (c, true, none)
unfolding should_queue_frame
should_queue_frame-not_waiting c width height label h = ground arith

-- While a target is awaited a frame is queued exactly when it is not empty and both its sides are
-- within 16 pixels of the target. A queued frame ends the wait and clears the count of skipped frames;
-- a skipped one is counted and the wait goes on. Either way the target, its generation and its
-- deadline stay.
should_queue_frame-waiting :
    (c : Coordinator) (width height : ℕ) (label : String)
    → c.state ≡ waiting_for_target
    → let (c', queued, m) = should_queue_frame width height label c in
      ((queued ≡ true) ↔ MeetsTarget c width height)
      × (queued ≡ true → (c'.state ≡ idle) × (c'.skipped_frame_count ≡ 0))
      × (queued ≡ false
          → (c'.state ≡ waiting_for_target)
            × (c'.skipped_frame_count ≡ u32 (c.skipped_frame_count + 1)))
      × (c'.target_generation ≡ c.target_generation)
      × (c'.target_width ≡ c.target_width)
      × (c'.target_height ≡ c.target_height)
      × (c'.deadline ≡ c.deadline)
unfolding should_queue_frame
should_queue_frame-waiting c width height label h = ground arith

-- The size that a result asks to wait for.
abbrev result_width : DisplayResizeResult → ℕ
result_width r = sent_or r.sent_width r.normalized_width

abbrev result_height : DisplayResizeResult → ℕ
result_height r = sent_or r.sent_height r.normalized_height

-- A result starts a wait exactly when it says `Sent` and has a size that is not empty; any other but
-- `Unchanged` falls back, and `Unchanged` changes nothing. A wait is for the size sent, or where a side
-- of that is 0 the normalized one, and ends a timeout from now.
apply_result_cases :
    (now : ℕ) (r : DisplayResizeResult) (reason : String) (c : Coordinator)
    → let c' = apply_result now r reason c in
      ((r.status ≡ unchanged) × (c' ≡ c))
      ⊎ ((r.status ≡ sent)
          × (0 < result_width r)
          × (0 < result_height r)
          × (c'.state ≡ waiting_for_target)
          × (c'.target_width ≡ result_width r)
          × (c'.target_height ≡ result_height r)
          × (c'.deadline ≡ now + c.sent_timeout)
          × (c'.target_generation ≡ u64 (c.target_generation + 1)))
      ⊎ ((r.status ≢ unchanged)
          × ((r.status ≡ sent) → (result_width r ≡ 0) ⊎ (result_height r ≡ 0))
          × (c'.state ≡ fallback)
          × (c'.target_generation ≡ u64 (c.target_generation + 1)))
unfolding apply_result
apply_result_cases now r reason c = ground arith

-- A late timeout callback for the present generation is ignored once the display was reset or another
-- result than `Unchanged` came in.
pub is_fallback_generation-superseded :
    (now : ℕ) (r : DisplayResizeResult) (reason : String) (c : Coordinator)
    → r.status ≢ unchanged
    → (is_fallback_generation c.target_generation (apply_result now r reason c) ≡ false)
      × (is_fallback_generation c.target_generation (reset reason c) ≡ false)
unfolding is_fallback_generation apply_result reset
is_fallback_generation-superseded now r reason c h = ground arith
