-- ===== src/Tests/Input.antt =====
-- A pan, a click and a mouse press on their way to a session that accepts everything, and to the queue.
use harmony_windows_bridge.Base.{
  ℕ, ◌+◌, ◌≡◌, refl, Bool, true, false, not, none, some, List, [], ◌∷◌, arith, ltb, ◌==◌,
  if◌then◌else◌,
}
use harmony_windows_bridge.Session.Input
use harmony_windows_bridge.Session.Input.{
  RdpSessionInput, SurfaceSnapshot, build_ohos_pointer_viewport, Answer, FreerdpRuntimeApi,
  ensure_queue, enqueue_by, enqueue_pointer, enqueue_key, enqueue_unicode, enqueue_focus_in,
  enqueue_release_all_keys, enqueue_local_pointer,
}
use harmony_windows_bridge.Input.Release.{
  pen_event, mouse_event, release_all_releases, unreleased_is_Held, release_all, input_step,
  gesture_event, no_input, InputEvent, Held, InputState, input_run,
}
use harmony_windows_bridge.Input.Touch.Binding.{one_finger_pan_accept, handle, Binding, actions_of}
use harmony_windows_bridge.Input.Events.{
  no_buttons, left_button, right_button, pen_down, move, Session, unreleased, LocalPenEvent,
  LocalPointerEvent, send_native_pointer, send_local_pen,
}
use harmony_windows_bridge.Session.Input.Pointer.{enqueue_local_pointer_lem, FitsSurface}
use harmony_windows_bridge.Session.Input.Failures.{enqueue_local_pointer-Counted, Counted}
use harmony_windows_bridge.Input.Mouse.{
  mouse_right, mouse_press, MouseEvent, native_mouse_button_mask, pointer_of, send_mouse,
  dispatch_native_mouse_pointer,
}
use harmony_windows_bridge.Surface.Geometry.{
  dimension_delta, is_one_to_one, scaled_size, is_published_rect_valid,
  fit_remote_content_into_target, resolve_remote_content_geometry,
}
use harmony_windows_bridge.Base.Int.{pos}
use harmony_windows_bridge.Input.Touch.{dispatch_action, dispatch, pan_accept}
use harmony_windows_bridge.Input.Pen.{send_pointer_fallback, put, fallback_of, dispatch_pen}

abbrev willing : Session ℕ
willing = record { accepts_pointer = λ log event. true; accepts_pen = λ log event. false }

abbrev same : ℕ → ℕ
same n = n

abbrev differ : ℕ → ℕ → Bool
differ a b = not (a == b)

abbrev left_press : MouseEvent ℕ
left_press = record { x = 3; y = 4; action = mouse_press; button = mouse_right }

abbrev pen_touch : LocalPenEvent ℕ
pen_touch = record {
  action = pen_down;
  device_id = pos 1;
  x = 5;
  y = 6;
  pressure = 1;
  tilt_x = pos 0;
  tilt_y = pos 0;
  eraser = false;
  allow_clamp = false;
}

abbrev busy : List (InputEvent ℕ)
busy =
    gesture_event (one_finger_pan_accept 1 1 2 2)
    ∷ mouse_event left_press
    ∷ pen_event (pos 7) pen_touch
    ∷ []

abbrev busy_state : InputState ℕ
busy_state = input_run 0 differ same same willing busy (no_input 0 differ same same willing)

right_is_held : unreleased right_button busy_state.log ≡ true
unfolding input_run input_step handle actions_of pan_accept dispatch dispatch_action
    send_native_pointer unreleased dispatch_native_mouse_pointer send_mouse pointer_of
    native_mouse_button_mask dispatch_pen fallback_of put send_local_pen send_pointer_fallback
    no_input
right_is_held = refl

unreleased_is_Held_example : Held 0 differ same same willing right_button busy_state
unreleased_is_Held_example =
    unreleased_is_Held 0 differ same same willing right_button busy right_is_held

release_all_releases_example :
    unreleased left_button (release_all 0 differ same same willing busy_state).log ≡ false
release_all_releases_example = release_all_releases 0 differ same same willing left_button busy

abbrev idle_binding : Binding ℕ
idle_binding = record {
  tap_policy = record { first_accepted = false; first_x = 0; first_y = 0 };
  pan_policy = record { active = false; last_x = 0; last_y = 0 };
}

-- A queue that counts what it took, up to 2.
abbrev counting : ℕ → Answer ℕ
counting n = (if ltb n 2 then n + 1 else n, ltb n 2, "detail")

abbrev counting_api : FreerdpRuntimeApi ℕ
counting_api = record {
  runtime_error = none;
  complete = true;
  queue_new = some 0;
  enqueue_pointer = λ v e. counting;
  enqueue_pointer_packet = λ flags x y. counting;
  enqueue_key_scancode = λ scancode down repeat. counting;
  enqueue_key = λ e. counting;
  enqueue_unicode = λ code down. counting;
  enqueue_text = λ text. counting;
  enqueue_focus_in = λ states. counting;
  enqueue_release_all_keys = counting;
  queue_clear = λ n. 0;
  queue_reset = λ n. 0;
  queue_drain = λ n. (0, true, "");
}

abbrev full_surface : SurfaceSnapshot
full_surface = record {
  ready = true;
  width = 1280;
  height = 720;
  viewport_x = 0;
  viewport_y = 0;
  viewport_width = 0;
  viewport_height = 0;
  viewport_remote_width = 0;
  viewport_remote_height = 0;
}

abbrev a_move : LocalPointerEvent
a_move = record {
  action = move;
  buttons = no_buttons;
  x = 10;
  y = 20;
  delta = pos 0;
  allow_clamp = false;
}

abbrev new_input : RdpSessionInput ℕ
new_input = Input.new

a_move_is_queued :
    (enqueue_local_pointer counting_api true a_move full_surface 1920 1080 new_input).1 ≡ true
unfolding enqueue_local_pointer ensure_queue build_ohos_pointer_viewport
    resolve_remote_content_geometry fit_remote_content_into_target is_published_rect_valid
    scaled_size is_one_to_one Input.new dimension_delta
a_move_is_queued = refl

enqueue_local_pointer_lem_example : FitsSurface (build_ohos_pointer_viewport full_surface 1920 1080)
enqueue_local_pointer_lem_example =
    (enqueue_local_pointer_lem counting_api true a_move full_surface 1920 1080 new_input
      (omega arith) (omega arith) (omega arith) refl (omega arith) (omega arith) (omega arith)
      (omega arith)).0

enqueue_local_pointer-Counted_example :
    Counted new_input
      (enqueue_local_pointer counting_api true a_move full_surface 1920 1080 new_input)
enqueue_local_pointer-Counted_example =
    enqueue_local_pointer-Counted counting_api true a_move full_surface 1920 1080 new_input
