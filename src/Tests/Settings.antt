-- ===== src/Tests/Settings.antt =====
-- Requests through the coalescer and a change through the settings, at concrete times.
use harmony_windows_bridge.Display.Settings.{
  Call, begins, Settings, begin, result, presented, blocks_pointer, results, calls,
}
use harmony_windows_bridge.Base.{ℕ, ◌+◌, ◌≤◌, ◌≡◌, refl, false, none, some, List, [], ◌∷◌, arith}
use harmony_windows_bridge.Display.Types.{sent, DisplayResizeResult, DisplayResizeRequest}
use harmony_windows_bridge.Display.Coalescer
use harmony_windows_bridge.Display.Coalescer.Quiet.{taken_is_latest, latest, changed_at}
use harmony_windows_bridge.Display.Coalescer.Delivery.{quiet_request_is_delivered}
use harmony_windows_bridge.Display.Settings
use harmony_windows_bridge.Display.Settings.Progress.{
  begin_unblocks_pointer, begin-result-presented_commute,
}
use harmony_windows_bridge.Display.Coalescer.{
  waits, schedules, works, sets_callback, Coalescer, set_callback, schedule, Machine, start, worker,
  Event, step, run,
}

abbrev request : ℕ → DisplayResizeRequest
request w = record {
  width = w;
  height = 1080;
  physical_width = 300;
  physical_height = 200;
  orientation = 0;
  desktop_scale_factor = 100;
  device_scale_factor = 100;
  reason = "surface_changed_stable";
}

abbrev two_requests : List Coalescer.Event
two_requests =
    sets_callback (some 1)
    ∷ schedules (request 1600)
    ∷ works
    ∷ waits 50
    ∷ schedules (request 1920)
    ∷ works
    ∷ works
    ∷ waits 200
    ∷ []

abbrev after_two : Coalescer.Machine
after_two = Coalescer.run (Coalescer.start 200) two_requests

taken_is_latest_example :
    (latest none two_requests ≡ some (request 1920))
    × (changed_at 0 0 two_requests + 200 ≤ after_two.now)
unfolding Coalescer.run Coalescer.start Coalescer.step Coalescer.worker Coalescer.schedule
    Coalescer.set_callback
taken_is_latest_example =
    taken_is_latest 200 two_requests after_two (request 1920) (some 1) (omega arith) refl refl

abbrev pending_one : Coalescer.Machine
pending_one =
    Coalescer.run (Coalescer.start 200) (sets_callback (some 1) ∷ schedules (request 1600) ∷ [])

abbrev early_and_late : List Event
early_and_late = waits 150 ∷ works ∷ waits 40 ∷ works ∷ waits 10 ∷ []

quiet_request_is_delivered_example :
    (Coalescer.worker
      (Coalescer.worker (Coalescer.run (Coalescer.worker pending_one) early_and_late))).delivered
    ≡ request 1600 ∷ []
unfolding Coalescer.run Coalescer.start Coalescer.step Coalescer.worker Coalescer.schedule
    Coalescer.set_callback
quiet_request_is_delivered_example =
    (quiet_request_is_delivered pending_one 1 early_and_late refl refl refl refl refl
      (omega arith)).0

abbrev shown_hd : DisplayResizeResult
shown_hd = record {
  status = sent;
  normalized_width = 1920;
  normalized_height = 1080;
  sent_width = 1920;
  sent_height = 1080;
  orientation = 0;
  message = "sent";
}

abbrev before_frame : List (ℕ × Call)
before_frame = (0, begins 1920 1080) ∷ (50, results 1 shown_hd) ∷ []

begin_unblocks_pointer_example :
    (blocks_pointer 8000
      (calls ((5, results 1 shown_hd) ∷ []) (begin 0 1920 1080 (Settings.new 8000)).0)).1
    ≡ false
unfolding Settings.new
begin_unblocks_pointer_example =
    begin_unblocks_pointer 0 1920 1080 8000 (Settings.new 8000) ((5, results 1 shown_hd) ∷ [])
      (refl, tt) (omega arith)

begin-result-presented_commute_example :
    presented (begin 0 1920 1080 (Settings.new 8000)).1 1920 1072 (
      result
        (begin 0 1920 1080 (Settings.new 8000)).1
        shown_hd
        (begin 0 1920 1080 (Settings.new 8000)).0)
    ≡ result (begin 0 1920 1080 (Settings.new 8000)).1 shown_hd (
        presented
          (begin 0 1920 1080 (Settings.new 8000)).1
          1920
          1072
          (begin 0 1920 1080 (Settings.new 8000)).0)
begin-result-presented_commute_example =
    begin-result-presented_commute 0 1920 1080 1920 1072 shown_hd (Settings.new 8000) (λ e. cc)
      (omega arith) (omega arith)
