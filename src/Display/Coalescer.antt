-- ===== src/Display/Coalescer.antt =====
-- session/rdp_display_request_coalescer.{h,cpp}: the methods as functions on the fields, and WorkerMain
-- as a machine with one step for each stretch of its code that holds the mutex. Time is in
-- milliseconds; `generation_` is a uint64_t and wraps. A callback is `some` number that names it.
pub mod Delivery
pub mod Quiet
use harmony_windows_bridge.Base.{
  ℕ, ◌+◌, Bool, true, false, not, ◌||◌, Option, none, some, List, [], ◌∷◌, leb, ◌==◌, if◌then◌else◌,
}
use harmony_windows_bridge.Base.Word.{u64}
use harmony_windows_bridge.Display.Types.{DisplayResizeRequest}

abbrev pub empty_request : DisplayResizeRequest
empty_request = record {
  width = 0;
  height = 0;
  physical_width = 0;
  physical_height = 0;
  orientation = 0;
  desktop_scale_factor = 100;
  device_scale_factor = 100;
  reason = "";
}

pub record Coalescer : Type 0 where
  pub delay : ℕ
  pub stopping : Bool
  pub pending : Bool
  pub generation : ℕ
  pub request : DisplayResizeRequest
  pub callback : Option ℕ

unfoldable pub new : ℕ → Coalescer
new delay = record {
  delay = delay;
  stopping = false;
  pending = false;
  generation = 0;
  request = empty_request;
  callback = none;
}

-- The destructor, up to the join of the worker.
unfoldable pub stop : Coalescer → Coalescer
stop c = record c { stopping = true; pending = false; generation = u64 (c.generation + 1) }

unfoldable pub set_callback : Option ℕ → Coalescer → Coalescer
set_callback callback c = record c { callback = callback }

unfoldable pub schedule : DisplayResizeRequest → Coalescer → Coalescer
schedule request c = record c {
  request = request;
  pending = true;
  generation = u64 (c.generation + 1);
}

unfoldable pub flush : DisplayResizeRequest → Coalescer → Coalescer
flush request c = record c {
  request = request;
  pending = false;
  generation = u64 (c.generation + 1);
}

unfoldable pub cancel : Coalescer → Coalescer
cancel c = record c { pending = false; generation = u64 (c.generation + 1) }

-- Waiting for a request; in `wait_until` with a generation and a deadline; about to call back, with the
-- lock released; past the loop.
pub data Place : Type 0 where
  awaiting : Place
  delaying : (generation deadline : ℕ) → Place
  calling : DisplayResizeRequest → Option ℕ → Place
  done : Place

pub record Machine : Type 0 where
  pub core : Coalescer
  pub place : Place
  pub now : ℕ
  pub delivered : List DisplayResizeRequest  -- what callbacks were called with, newest first

unfoldable pub start : ℕ → Machine
unfolding new
start delay = record { core = new delay; place = awaiting; now = 0; delivered = [] }

-- `if (callback) { callback(request); }`
abbrev pub deliver :
    Option ℕ → DisplayResizeRequest → List DisplayResizeRequest → List DisplayResizeRequest
deliver none request delivered = delivered
deliver (some callback) request delivered = request ∷ delivered

abbrev pub interrupted : Coalescer → ℕ → Bool
interrupted c generation = c.stopping || (not c.pending || not (c.generation == generation))

worker_at : Place → Machine → Machine
worker_at awaiting m =
    if m.core.stopping
    then record m { place = done }
    else if m.core.pending
    then record m { place = delaying m.core.generation (m.now + m.core.delay) }
    else m
worker_at (delaying generation deadline) m =
    if interrupted m.core generation
    then record m { place = awaiting }
    else if leb deadline m.now
    then record m {
      core = record m.core { pending = false };
      place = calling m.core.request m.core.callback;
    }
    else m
worker_at (calling request callback) m = record m {
  delivered = deliver callback request m.delivered;
  place = awaiting;
}
worker_at done m = m

unfoldable pub worker : Machine → Machine
unfolding worker_at
worker m = worker_at m.place m

pub data Event : Type 0 where
  sets_callback : Option ℕ → Event
  schedules : DisplayResizeRequest → Event
  flushes : DisplayResizeRequest → Event
  cancels : Event
  stops : Event
  waits : ℕ → Event
  works : Event  -- the worker runs up to its next wait

-- `Flush` calls back on the caller's thread, with the callback that it read under the lock.
unfoldable pub step : Machine → Event → Machine
unfolding worker
step m (sets_callback callback) = record m { core = set_callback callback m.core }
step m (schedules request) = record m { core = schedule request m.core }
step m (flushes request) = record m {
  core = flush request m.core;
  delivered = deliver m.core.callback request m.delivered;
}
step m cancels = record m { core = cancel m.core }
step m stops = record m { core = stop m.core }
step m (waits ms) = record m { now = m.now + ms }
step m works = worker m

unfoldable pub run : Machine → List Event → Machine
run m [] = m
run m (e ∷ es) = run (step m e) es
