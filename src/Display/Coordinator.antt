-- ===== src/Display/Coordinator.antt =====
-- session/rdp_display_resize_coordinator.{h,cpp}. A method under the mutex is one step. Time is a
-- count of milliseconds that the caller reads; `uint64_t` and `uint32_t` counters wrap. The text of a
-- message is its parts, in order, and `reason` is the parts that the source joins.
pub mod Worker
pub mod Frames
pub mod Invariant
pub mod Timeouts
use harmony_windows_bridge.Base.{
  ℕ, ◌+◌, ◌-◌, Bool, true, false, not, ◌&&◌, ◌||◌, Option, none, some, String, ltb, ◌==◌,
  if◌then◌else◌,
}
use harmony_windows_bridge.Base.Word.{u32, u64}
use harmony_windows_bridge.Display.Types.{
  DisplayResizeStatus, sent, deferred, unchanged, unsupported, failed, DisplayResizeResult,
}

pub data WaitState : Type 0 where
  idle waiting_for_target fallback : WaitState

abbrev pub is_waiting : WaitState → Bool
is_waiting waiting_for_target = true
is_waiting _ = false

abbrev pub is_fallback : WaitState → Bool
is_fallback fallback = true
is_fallback _ = false

-- The reasons that the source composes.
pub data Reason : Type 0 where
  given : String → Reason
  with_status : String → DisplayResizeStatus → Reason
  sent_timeout_after : ℕ → Reason

pub record Coordinator : Type 0 where
  pub sent_timeout : ℕ
  pub stopping : Bool
  pub state : WaitState
  pub target_generation : ℕ  -- uint64_t
  pub target_width : ℕ
  pub target_height : ℕ
  pub skipped_frame_count : ℕ  -- uint32_t
  pub reason : Reason
  pub deadline : ℕ
  pub timeout_callback : Option ℕ  -- `some` number names a callback

unfoldable pub new : ℕ → Coordinator
new timeout = record {
  sent_timeout = timeout;
  stopping = false;
  state = idle;
  target_generation = 0;
  target_width = 0;
  target_height = 0;
  skipped_frame_count = 0;
  reason = given "";
  deadline = 0;
  timeout_callback = none;
}

unfoldable pub set_timeout_callback : Option ℕ → Coordinator → Coordinator
set_timeout_callback callback c = record c { timeout_callback = callback }

-- The destructor, up to the join of the worker.
unfoldable pub stop : Coordinator → Coordinator
stop c = record c {
  stopping = true;
  target_generation = u64 (c.target_generation + 1);
  state = idle;
}

unfoldable pub reset : String → Coordinator → Coordinator
reset reason c = record c {
  target_generation = u64 (c.target_generation + 1);
  state = idle;
  target_width = 0;
  target_height = 0;
  skipped_frame_count = 0;
  reason = given reason;
}

unfoldable pub begin_sent : ℕ → ℕ → ℕ → String → Coordinator → Coordinator
begin_sent now width height reason c = record c {
  target_generation = u64 (c.target_generation + 1);
  state = waiting_for_target;
  target_width = width;
  target_height = height;
  skipped_frame_count = 0;
  reason = given reason;
  deadline = now + c.sent_timeout;
}

unfoldable pub use_fallback : Reason → Coordinator → Coordinator
use_fallback reason c = record c {
  target_generation = u64 (c.target_generation + 1);
  state = fallback;
  target_width = 0;
  target_height = 0;
  skipped_frame_count = 0;
  reason = reason;
}

-- `sent > 0 ? sent : normalized`.
abbrev pub sent_or : ℕ → ℕ → ℕ
sent_or sent_size normalized = if ltb 0 sent_size then sent_size else normalized

apply_status : DisplayResizeStatus → ℕ → DisplayResizeResult → String → Coordinator → Coordinator
unfolding begin_sent use_fallback
apply_status unchanged now r reason c = c
apply_status sent now r reason c =
    let width = sent_or r.sent_width r.normalized_width in
    let height = sent_or r.sent_height r.normalized_height in
    if ltb 0 width && ltb 0 height
    then begin_sent now width height reason c
    else use_fallback (with_status reason sent) c
apply_status status now r reason c = use_fallback (with_status reason status) c

unfoldable pub apply_result : ℕ → DisplayResizeResult → String → Coordinator → Coordinator
unfolding apply_status
apply_result now r reason c = apply_status r.status now r reason c

abbrev pub frame_alignment_tolerance : ℕ
frame_alignment_tolerance = 16

abbrev pub delta : ℕ → ℕ → ℕ
delta a b = if ltb b a then a - b else b - a

unfoldable pub frame_matches_target : Coordinator → ℕ → ℕ → Bool
frame_matches_target c width height =
    if width == 0 || height == 0
    then false
    else ltb (delta width c.target_width) frame_alignment_tolerance
      && ltb (delta height c.target_height) frame_alignment_tolerance

-- What `ShouldQueueFrame` writes to its out parameter; `none` leaves it as it was.
pub data FrameMessage : Type 0 where
  accepted_by_frame :
      (generation target_width target_height width height : ℕ) → String → FrameMessage
  resize_waiting :
      (generation target_width target_height width height : ℕ)
      → String
      → (skipped : ℕ) → FrameMessage

unfoldable pub should_queue_frame :
    ℕ → ℕ → String → Coordinator → Coordinator × Bool × Option FrameMessage
unfolding frame_matches_target
should_queue_frame width height label c =
    if not (is_waiting c.state)
    then (c, true, none)
    else if frame_matches_target c width height
    then (
      record c { state = idle; skipped_frame_count = 0 },
      true,
      some
          (accepted_by_frame c.target_generation c.target_width c.target_height width height label),
    )
    else let skipped = u32 (c.skipped_frame_count + 1) in
      (
        record c { skipped_frame_count = skipped },
        false,
        some (
            resize_waiting c.target_generation c.target_width c.target_height width height label
              skipped),
      )

unfoldable pub is_fallback_generation : ℕ → Coordinator → Bool
is_fallback_generation generation c = is_fallback c.state && c.target_generation == generation
