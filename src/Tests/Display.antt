-- ===== src/Tests/Display.antt =====
-- A resize to 1920x1080, followed through the coordinator, the coalescer and the settings.
use harmony_windows_bridge.Base.{◌≤◌, ◌≡◌, refl, true, false, List, [], ◌∷◌, arith}
use harmony_windows_bridge.Display.Types.{sent, DisplayResizeResult, DisplayResizeRequest}
use harmony_windows_bridge.Display.Coordinator
use harmony_windows_bridge.Display.Coordinator.{
  Coordinator, waiting_for_target, fallback, new, reset, begin_sent, apply_result,
  should_queue_frame, is_fallback_generation,
}
use harmony_windows_bridge.Display.Coordinator.Worker
use harmony_windows_bridge.Display.Coordinator.Worker.{
  Event, start, worker, applies, waits, works, step, run,
}
use harmony_windows_bridge.Display.Coordinator.Timeouts.{timeout_is_due, timeout_happens}

abbrev full_hd : DisplayResizeResult
full_hd = record {
  status = sent;
  normalized_width = 1920;
  normalized_height = 1080;
  sent_width = 1920;
  sent_height = 1080;
  orientation = 0;
  message = "sent";
}

abbrev full_hd_request : DisplayResizeRequest
full_hd_request = record {
  width = 1920;
  height = 1080;
  physical_width = 300;
  physical_height = 200;
  orientation = 0;
  desktop_scale_factor = 100;
  device_scale_factor = 100;
  reason = "surface_changed_stable";
}

abbrev awaiting_hd : Coordinator
awaiting_hd = begin_sent 5 1920 1080 "toolbar" (Coordinator.new 2000)

near_frame_is_queued : (should_queue_frame 1920 1072 "gdi" awaiting_hd).1 ≡ true
unfolding begin_sent Coordinator.new should_queue_frame
near_frame_is_queued = refl

far_frame_is_skipped : (should_queue_frame 1280 800 "gdi" awaiting_hd).1 ≡ false
unfolding begin_sent Coordinator.new should_queue_frame
far_frame_is_skipped = refl

abbrev overdue : List Event
overdue = applies full_hd "toolbar" ∷ works ∷ waits 2000 ∷ []

timeout_is_due_example :
    (Worker.run (Worker.start 2000) overdue).core.deadline
    ≤ (Worker.run (Worker.start 2000) overdue).now
unfolding Worker.run Worker.start Worker.step Worker.worker apply_result Coordinator.new
timeout_is_due_example =
    (timeout_is_due 2000 overdue (Worker.run (Worker.start 2000) overdue) (omega arith) refl
      (λ e. cc) refl).1

timeout_happens_example :
    (Worker.run (Worker.run (Worker.start 2000) overdue) (works ∷ works ∷ works ∷ [])).core.state
    ≡ fallback
unfolding Worker.run Worker.start Worker.step Worker.worker apply_result Coordinator.new
timeout_happens_example =
    timeout_happens 2000 overdue (Worker.run (Worker.start 2000) overdue) (omega arith) refl refl
      refl (omega arith)
