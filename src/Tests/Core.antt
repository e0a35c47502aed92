-- ===== src/Tests/Core.antt =====
-- A session of session/rdp_session_core.cpp: its first graphics mode fails, the second one connects.
use native.Mathlib.Nat.{le_refl}
use harmony_windows_bridge.Session.Core.{
  shows_desktop, keyboard_input, ConnectParams, absent, attempts, Core, fresh, start_worker,
}
use harmony_windows_bridge.Session.Core.Worker.{
  login_waits, desktop_is_ready, unprepared, ran, AttemptEvent, on_connected, pump_input, ended,
  World, mode_at, wait,
}
use harmony_windows_bridge.Session.Core.Life.{IsConnected, IsOver, last_state}
use harmony_windows_bridge.Base.{
  ℕ, zero, suc, ◌+◌, ◌≤◌, ◌≡◌, refl, sym, ◌↔◌, Bool, true, false, ◌&&◌, none, some, List, [], ◌∷◌,
  arith, String, ltb, All, subst,
}
use harmony_windows_bridge.Text.{bytes, parse_resolution}
use harmony_windows_bridge.Session.Input
use harmony_windows_bridge.Session.Input.{
  FreerdpRuntimeApi, SurfaceSnapshot, enqueue_pointer, enqueue_key, enqueue_unicode,
  enqueue_focus_in, enqueue_release_all_keys,
}
use harmony_windows_bridge.Session.Graphics.{
  GraphicsHelpers, should_retry_graphics_fallback, NativeConfig, graphics_mode_validation_error,
  graphics_mode_validation_error_iff, build_graphics_fallback_modes,
}
use harmony_windows_bridge.Session.Core.Sends.{sends_key}
use harmony_windows_bridge.Session.Core.Run.{
  Action, works, connects, sends, run, requests_disconnect, act, returned-IsOver,
  connected_is_announced,
}
use harmony_windows_bridge.Session.Core.Returns.{StopsAtLast, worker_returns}
use harmony_windows_bridge.Input.Events.{button_up, LocalPointerEvent, no_buttons}
use harmony_windows_bridge.Session.Core.Ends.{is_connect, ticks}
use harmony_windows_bridge.Session.Core.Sends.Once.{reported_once, report_count}
use harmony_windows_bridge.Session.Core.Resolution.{wait-parse_resolution}
use harmony_windows_bridge.Base.Int.{pos}

abbrev accepts : ℕ → ℕ × Bool × String
accepts n = (n + 1, true, "")

-- A queue that counts what it takes.
abbrev counting : FreerdpRuntimeApi ℕ
counting = record {
  runtime_error = none;
  complete = true;
  queue_new = some 0;
  enqueue_pointer = λ v e. accepts;
  enqueue_pointer_packet = λ f x y. accepts;
  enqueue_key_scancode = λ k d r. accepts;
  enqueue_key = λ e. accepts;
  enqueue_unicode = λ c d. accepts;
  enqueue_text = λ t. accepts;
  enqueue_focus_in = λ f. accepts;
  enqueue_release_all_keys = accepts;
  queue_clear = λ n. 0;
  queue_reset = λ n. 0;
  queue_drain = λ n. (0, true, "");
}

abbrev two_modes : GraphicsHelpers
two_modes = record {
  loaded = true;
  config_from_mode =
      some (λ mode. record { invalid_mode = false; enabled = true; h264 = true; mode_name = none });
  fallback_modes = some (λ mode. some (bytes "avc444") ∷ none ∷ some (bytes "avc420") ∷ []);
  should_retry_fallback =
      some (λ failed connected mode attempt count message. failed && ltb (attempt + 1) count);
}

two_modes-StopsAtLast : StopsAtLast two_modes
unfolding should_retry_graphics_fallback
two_modes-StopsAtLast r c mode attempt count h = ground arith

abbrev screen : SurfaceSnapshot
screen = record {
  ready = true;
  width = 1280;
  height = 800;
  viewport_x = 0;
  viewport_y = 0;
  viewport_width = 0;
  viewport_height = 0;
  viewport_remote_width = 0;
  viewport_remote_height = 0;
}

abbrev world : AttemptEvent → Action
world event = works (record { tcp_ok = true; tcp_message = []; surface = screen; event = event })

abbrev account : ConnectParams
account = record {
  host = bytes "pc";
  port = bytes "3389";
  username = bytes "me";
  password = bytes "secret";
  resolution = bytes "auto";
  graphics_mode = bytes "rdpgfx-h264";
}

abbrev many : ℕ → Action → List Action → List Action
many zero a actions = actions
many (suc n) a actions = a ∷ many n a actions

-- The worker up to the first attempt, which fails; the second one connects and takes a key.
abbrev until_connected : List Action
until_connected =
    connects 1 account
    ∷ many 27 (world pump_input) (
        world (ended (unprepared (bytes "no decoder")))
        ∷ world pump_input
        ∷ world on_connected
        ∷ world pump_input
        ∷ world pump_input
        ∷ world login_waits
        ∷ world desktop_is_ready
        ∷ sends (sends_key 30 true false)
        ∷ sends (sends_key 30 false false)
        ∷ [])

reaches_second_mode :
    (run counting two_modes until_connected fresh).phase ≡ attempts 1 shows_desktop
unfolding run fresh mode_at Input.enqueue_by Input.ensure_queue
reaches_second_mode = refl

sends_two_keys : (run counting two_modes until_connected fresh).input.queue ≡ some 3
unfolding run fresh mode_at Input.enqueue_by Input.ensure_queue
sends_two_keys = refl

connected_is_announced_example :
    IsConnected (last_state (run counting two_modes until_connected fresh).emitted)
unfolding run fresh mode_at Input.enqueue_by Input.ensure_queue
connected_is_announced_example = connected_is_announced counting two_modes until_connected refl refl

-- A session that is stopped while the worker pauses.
abbrev cancelled_early : List Action
cancelled_early =
    connects 1 account
    ∷ world pump_input
    ∷ world pump_input
    ∷ requests_disconnect
    ∷ world pump_input
    ∷ []

returned-IsOver_example :
    let s = run counting two_modes cancelled_early fresh in
    (s.connected ≡ false) × (s.running ≡ false) × IsOver (last_state s.emitted)
unfolding run fresh
returned-IsOver_example = returned-IsOver counting two_modes cancelled_early refl

abbrev ending_world : World
ending_world = record {
  tcp_ok = true;
  tcp_message = [];
  surface = screen;
  event = ended (ran true true []);
}

abbrev ending : Action
ending = works ending_world

all_tick :
    ticks counting two_modes (many 274 ending []) (start_worker counting 1 account fresh) ≡ 274
unfolding run fresh act start_worker build_graphics_fallback_modes mode_at
    should_retry_graphics_fallback
all_tick = refl

no_connect : (n : ℕ) → All (λ a. is_connect a ≡ false) (many n ending [])
no_connect zero = tt
no_connect (suc n) = (refl, no_connect n)

worker_returns_example :
    (run counting two_modes (many 274 ending []) (start_worker counting 1 account fresh)).phase
    ≡ absent
unfolding start_worker build_graphics_fallback_modes
worker_returns_example =
    worker_returns counting two_modes two_modes-StopsAtLast 1 account fresh (many 274 ending [])
      (no_connect 274) (subst (λ t. 274 ≤ t) (sym all_tick) (le_refl 274))

reported_once_example :
    report_count true keyboard_input
      (run counting two_modes
        (sends (sends_key 30 true false) ∷ sends (sends_key 30 false false) ∷ [])
        (start_worker counting 1 account fresh)).diagnosed
    ≤ report_count true keyboard_input (fresh {Q = ℕ}).diagnosed + 1
reported_once_example =
    reported_once counting two_modes true keyboard_input 1 account fresh
      (sends (sends_key 30 true false) ∷ sends (sends_key 30 false false) ∷ []) (refl, (refl, tt))

abbrev online : Core ℕ
online = record fresh { connected = true; running = true; active_diagnostic_session_id = 7 }

abbrev release : LocalPointerEvent
release = record {
  action = button_up;
  buttons = no_buttons;
  x = 40;
  y = 30;
  delta = pos 0;
  allow_clamp = false;
}

abbrev sees_screen : World
sees_screen = record { tcp_ok = true; tcp_message = []; surface = screen; event = pump_input }

wait-parse_resolution_example :
    (parse_resolution (wait sees_screen 50 online).params.resolution ≡ some (1280, 800))
    × (screen.ready ≡ true)
    × (320 ≤ screen.width)
    × (240 ≤ screen.height)
unfolding wait
wait-parse_resolution_example =
    wait-parse_resolution sees_screen 50 online (omega arith) (omega arith) refl

graphics_mode_validation_error_iff_example :
    (graphics_mode_validation_error two_modes (bytes "gdi") ≡ []) ↔ (
      (two_modes.loaded ≡ true)
      × ((f : List ℕ → NativeConfig) × (two_modes.config_from_mode ≡ some f)
          × ((f (bytes "gdi")).invalid_mode ≡ false)))
graphics_mode_validation_error_iff_example =
    graphics_mode_validation_error_iff two_modes (bytes "gdi")
