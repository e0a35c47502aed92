-- ===== src/Display/Coordinator/Worker.antt =====
-- WorkerMain of session/rdp_display_resize_coordinator.cpp as a machine: where the worker stands, and
-- one step for each stretch of its code that holds the mutex. Other threads act in between.
use harmony_windows_bridge.Base.{
  ℕ, ◌+◌, Bool, not, ◌||◌, Option, none, some, List, [], ◌∷◌, String, leb, ◌==◌, if◌then◌else◌,
}
use harmony_windows_bridge.Display.Types.{DisplayResizeResult}
use harmony_windows_bridge.Display.Coordinator.{
  Coordinator, Reason, fallback, sent_timeout_after, is_waiting, new, stop, reset, apply_result,
  should_queue_frame, set_timeout_callback,
}

-- Waiting for a target; in `wait_until` with a generation and a deadline; about to call back, with
-- the lock released; past the loop.
pub data Place : Type 0 where
  awaiting : Place
  timing : (generation deadline : ℕ) → Place
  calling : (generation : ℕ) → Reason → Option ℕ → Place
  done : Place

pub record Machine : Type 0 where
  pub core : Coordinator
  pub place : Place
  pub now : ℕ
  pub calls : List (ℕ × Reason)  -- what the timeout callback was called with, newest first

unfoldable pub start : ℕ → Machine
unfolding new
start timeout = record { core = new timeout; place = awaiting; now = 0; calls = [] }

-- `if (callback) { callback(generation, timeoutReason); }`
abbrev pub called : Option ℕ → ℕ → Reason → List (ℕ × Reason) → List (ℕ × Reason)
called none generation reason calls = calls
called (some callback) generation reason calls = (generation, reason) ∷ calls

-- The second predicate of `wait_until`.
abbrev pub interrupted : Coordinator → ℕ → Bool
interrupted c generation =
    c.stopping || (not (is_waiting c.state) || not (c.target_generation == generation))

abbrev timed_out : Coordinator → Reason
timed_out c = sent_timeout_after c.sent_timeout

worker_at : Place → Machine → Machine
worker_at awaiting m =
    if m.core.stopping
    then record m { place = done }
    else if is_waiting m.core.state
    then record m { place = timing m.core.target_generation m.core.deadline }
    else m
worker_at (timing generation deadline) m =
    if interrupted m.core generation
    then record m { place = awaiting }
    else if leb deadline m.now
    then record m {
      core = record m.core { state = fallback; reason = timed_out m.core };
      place = calling generation (timed_out m.core) m.core.timeout_callback;
    }
    else m
worker_at (calling generation reason callback) m = record m {
  calls = called callback generation reason m.calls;
  place = awaiting;
}
worker_at done m = m

unfoldable pub worker : Machine → Machine
unfolding worker_at
worker m = worker_at m.place m

pub data Event : Type 0 where
  sets_callback : Option ℕ → Event
  resets : String → Event
  applies : DisplayResizeResult → String → Event
  frames : (width height : ℕ) → String → Event
  stops : Event
  waits : ℕ → Event  -- time passes
  works : Event  -- the worker runs up to its next wait

unfoldable pub step : Machine → Event → Machine
unfolding worker
step m (sets_callback callback) = record m { core = set_timeout_callback callback m.core }
step m (resets reason) = record m { core = reset reason m.core }
step m (applies r reason) = record m { core = apply_result m.now r reason m.core }
step m (frames width height label) = record m {
  core = (should_queue_frame width height label m.core).0;
}
step m stops = record m { core = stop m.core }
step m (waits ms) = record m { now = m.now + ms }
step m works = worker m

unfoldable pub run : Machine → List Event → Machine
run m [] = m
run m (e ∷ es) = run (step m e) es
