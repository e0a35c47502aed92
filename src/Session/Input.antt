-- ===== src/Session/Input.antt =====
-- session/rdp_session_input.{h,cpp}: local input on its way to the input queue of the FreeRDP library. The
-- queue is a value of a type `Q`, and its functions are parameters, as is whether the runtime could be
-- loaded at a call. Each answers with success and a text.
pub mod Failures
pub mod Pointer
use Prim.Native.String.{len}
use harmony_windows_bridge.Base.{
  ℕ, ◌+◌, ◌%◌, Bool, true, false, not, ◌&&◌, ◌||◌, Option, none, some, List, [], ◌∷◌, String, ltb,
  ◌==◌, if◌then◌else◌,
}
use harmony_windows_bridge.Input.Events.{
  LocalPointerEvent, Buttons, LocalPointerAction, move, button_down, button_up, wheel_vertical,
  wheel_horizontal,
}
use harmony_windows_bridge.Surface.Geometry.{resolve_remote_content_geometry}
use harmony_windows_bridge.Base.Word.{u32}
use harmony_windows_bridge.Base.Int.{ℤ}

-- The fields of SurfaceSnapshot that the input reads.
pub record SurfaceSnapshot : Type 0 where
  pub ready : Bool
  pub width : ℕ
  pub height : ℕ
  pub viewport_x : ℕ
  pub viewport_y : ℕ
  pub viewport_width : ℕ
  pub viewport_height : ℕ
  pub viewport_remote_width : ℕ
  pub viewport_remote_height : ℕ

-- FREERDP_OHOS_POINTER_VIEWPORT.
pub record PointerViewport : Type 0 where
  pub surface_width : ℕ
  pub surface_height : ℕ
  pub viewport_x : ℕ
  pub viewport_y : ℕ
  pub viewport_width : ℕ
  pub viewport_height : ℕ
  pub desktop_width : ℕ
  pub desktop_height : ℕ

-- The constants FREERDP_OHOS_POINTER_ACTION_*.
pub data OhosPointerAction : Type 0 where
  ohos_move : OhosPointerAction
  ohos_button_down : OhosPointerAction
  ohos_button_up : OhosPointerAction
  ohos_wheel_vertical : OhosPointerAction
  ohos_wheel_horizontal : OhosPointerAction

pub record OhosPointerEvent : Type 0 where
  pub action : OhosPointerAction
  pub buttons : Buttons
  pub x : ℕ
  pub y : ℕ
  pub delta : ℤ
  pub allow_clamp : Bool

pub record OhosKeyEvent : Type 0 where
  pub key_code : ℕ
  pub down : Bool
  pub repeat : Bool
  pub ctrl : Bool
  pub shift : Bool
  pub alt : Bool
  pub meta : Bool

unfoldable pub to_ohos_pointer_action : LocalPointerAction → OhosPointerAction
to_ohos_pointer_action button_down = ohos_button_down
to_ohos_pointer_action button_up = ohos_button_up
to_ohos_pointer_action wheel_vertical = ohos_wheel_vertical
to_ohos_pointer_action wheel_horizontal = ohos_wheel_horizontal
to_ohos_pointer_action move = ohos_move

-- The flags FREERDP_OHOS_POINTER_BUTTON_* of the same buttons.
unfoldable pub to_ohos_pointer_buttons : Buttons → Buttons
to_ohos_pointer_buttons b = record { left = b.left; right = b.right; middle = b.middle }

unfoldable pub build_ohos_pointer_viewport : SurfaceSnapshot → ℕ → ℕ → PointerViewport
build_ohos_pointer_viewport surface desktop_width desktop_height =
    let g =
      resolve_remote_content_geometry surface.width surface.height desktop_width desktop_height
        surface.viewport_x surface.viewport_y surface.viewport_width surface.viewport_height
        surface.viewport_remote_width surface.viewport_remote_height in
    record {
      surface_width = surface.width;
      surface_height = surface.height;
      viewport_x = g.content_x;
      viewport_y = g.content_y;
      viewport_width = g.content_width;
      viewport_height = g.content_height;
      desktop_width = desktop_width;
      desktop_height = desktop_height;
    }

-- What a function of the queue leaves of it, and its answer.
abbrev pub Answer : Type 0 → Type 0
Answer Q = Q × Bool × String

pub record FreerdpRuntimeApi (Q : Type 0) : Type 0 where
  pub runtime_error : Option String  -- of EnsureFreerdpRuntimeLoaded
  pub complete : Bool  -- all functions of the queue were found
  pub queue_new : Option Q
  pub enqueue_pointer : PointerViewport → OhosPointerEvent → Q → Answer Q
  pub enqueue_pointer_packet : (flags x y : ℕ) → Q → Answer Q
  pub enqueue_key_scancode : ℕ → (down repeat : Bool) → Q → Answer Q
  pub enqueue_key : OhosKeyEvent → Q → Answer Q
  pub enqueue_unicode : ℕ → Bool → Q → Answer Q
  pub enqueue_text : List ℕ → Q → Answer Q
  pub enqueue_focus_in : ℕ → Q → Answer Q
  pub enqueue_release_all_keys : Q → Answer Q
  pub queue_clear : Q → Q
  pub queue_reset : Q → Q
  pub queue_drain : Q → Answer Q

-- `queueApi_` is there when the queue is. `logged` is what was logged, newest first.
pub record RdpSessionInput (Q : Type 0) : Type 0 where
  pub queue : Option Q
  pub input_failure_log_count : ℕ
  pub logged : List String

module _ {Q : Type 0} where
  unfoldable pub new : RdpSessionInput Q
  new = record { queue = none; input_failure_log_count = 0; logged = [] }

  unfoldable pub log_input_failure : String → Bool → RdpSessionInput Q → RdpSessionInput Q
  log_input_failure message has_log s =
      let index = s.input_failure_log_count in
      record s {
        input_failure_log_count = u32 (index + 1);
        logged =
            if has_log && (ltb index 5 || index % 100 == 0) then message ∷ s.logged else s.logged;
      }

  -- `some` message is the value false.
  unfoldable pub ensure_queue :
      FreerdpRuntimeApi Q → Bool → RdpSessionInput Q → RdpSessionInput Q × Option String
  ensure_queue api has_log s = elim api.runtime_error [
    | some error ↦ (log_input_failure error has_log s, some error)
    | none ↦
        let incomplete : String = "FreeRDP OHOS input queue symbols are not loaded" in
        let failed : String = "FreeRDP OHOS input queue allocation failed" in
        if not api.complete
        then (log_input_failure incomplete has_log s, some incomplete)
        else elim s.queue [
          | some q ↦ (s, none)
          | none ↦ elim api.queue_new [
            | some q ↦ (record s { queue = some q }, none)
            | none ↦ (log_input_failure failed has_log s, some failed)
          ]
        ]
  ]

  abbrev pub failed_if :
      Bool → String → Bool → RdpSessionInput Q → RdpSessionInput Q × Bool × String
  failed_if true message has_log s = (log_input_failure message has_log s, false, message)
  failed_if false message has_log s = (s, true, message)

  abbrev pub on_queue :
      (Q → Answer Q) → Bool → RdpSessionInput Q × Option String → RdpSessionInput Q × Bool × String
  on_queue f has_log (s, some message) = (s, false, message)
  on_queue f has_log (s, none) = elim s.queue [
    | none ↦ (s, false, "")  -- not reached: `ensure_queue` answered with a queue
    | some q ↦
        let (q', ok, detail) = f q in
        failed_if (not ok) detail has_log (record s { queue = some q' })
  ]

  -- What every Enqueue function does with its own function of the queue.
  unfoldable pub enqueue_by :
      (Q → Answer Q)
      → FreerdpRuntimeApi Q
      → Bool
      → RdpSessionInput Q
      → RdpSessionInput Q × Bool × String
  enqueue_by f api has_log s = on_queue f has_log (ensure_queue api has_log s)

  abbrev pub on_each : (Q → Q) → Option Q → Option Q
  on_each f none = none
  on_each f (some q) = some (f q)

  module _ (api : FreerdpRuntimeApi Q) (has_log : Bool) where
    unfoldable pub enqueue_pointer :
        (flags x y : ℕ) → RdpSessionInput Q → RdpSessionInput Q × Bool × String
    enqueue_pointer flags x y = enqueue_by (api.enqueue_pointer_packet flags x y) api has_log

    unfoldable pub enqueue_key :
        ℕ → (down repeat : Bool) → RdpSessionInput Q → RdpSessionInput Q × Bool × String
    enqueue_key scancode down repeat =
        enqueue_by (api.enqueue_key_scancode scancode down repeat) api has_log

    unfoldable pub enqueue_platform_key :
        OhosKeyEvent → RdpSessionInput Q → RdpSessionInput Q × Bool × String
    enqueue_platform_key event = enqueue_by (api.enqueue_key event) api has_log

    unfoldable pub enqueue_unicode :
        ℕ → Bool → RdpSessionInput Q → RdpSessionInput Q × Bool × String
    enqueue_unicode code down = enqueue_by (api.enqueue_unicode code down) api has_log

    unfoldable pub enqueue_committed_text :
        List ℕ → RdpSessionInput Q → RdpSessionInput Q × Bool × String
    enqueue_committed_text text = enqueue_by (api.enqueue_text text) api has_log

    unfoldable pub enqueue_focus_in : ℕ → RdpSessionInput Q → RdpSessionInput Q × Bool × String
    enqueue_focus_in toggle_states = enqueue_by (api.enqueue_focus_in toggle_states) api has_log

    unfoldable pub enqueue_release_all_keys : RdpSessionInput Q → RdpSessionInput Q × Bool × String
    enqueue_release_all_keys = enqueue_by api.enqueue_release_all_keys api has_log

    abbrev pub is_unavailable : SurfaceSnapshot → ℕ → ℕ → Bool
    is_unavailable surface desktop_width desktop_height =
        not surface.ready
        || (surface.width == 0
            || (surface.height == 0 || (desktop_width == 0 || desktop_height == 0)))

    abbrev pub ohos_event : LocalPointerEvent → OhosPointerEvent
    ohos_event p = record {
      action = to_ohos_pointer_action p.action;
      buttons = to_ohos_pointer_buttons p.buttons;
      x = p.x;
      y = p.y;
      delta = p.delta;
      allow_clamp = p.allow_clamp;
    }

    -- After the queue was found or made.
    abbrev pub enqueue_in :
        LocalPointerEvent
        → PointerViewport
        → RdpSessionInput Q × Option String
        → RdpSessionInput Q × Bool × String
    enqueue_in p v (s, some message) = (s, false, message)
    enqueue_in p v (s, none) =
        if v.viewport_width == 0 || v.viewport_height == 0
        then failed_if true "pointer rejected: remote content geometry is invalid" has_log s
        else on_queue (api.enqueue_pointer v (ohos_event p)) has_log (s, none)

    unfoldable pub enqueue_local_pointer :
        LocalPointerEvent
        → SurfaceSnapshot
        → ℕ
        → ℕ
        → RdpSessionInput Q
        → RdpSessionInput Q × Bool × String
    enqueue_local_pointer p surface desktop_width desktop_height s =
        if is_unavailable surface desktop_width desktop_height
        then failed_if true "pointer rejected: surface or remote geometry is unavailable" has_log s
        else enqueue_in p (build_ohos_pointer_viewport surface desktop_width desktop_height)
            (ensure_queue api has_log s)

    unfoldable pub clear : RdpSessionInput Q → RdpSessionInput Q
    clear s = record s { queue = on_each api.queue_clear s.queue }

    unfoldable pub reset : RdpSessionInput Q → RdpSessionInput Q
    reset s = record s { queue = on_each api.queue_reset s.queue; input_failure_log_count = 0 }

    unfoldable pub drain : RdpSessionInput Q → RdpSessionInput Q
    drain s = elim s.queue [
      | none ↦ s
      | some q ↦
          let (q', ok, detail) = api.queue_drain q in
          let s' : RdpSessionInput Q = record s { queue = some q' } in
          if not ok && not (len detail == 0) then log_input_failure detail has_log s' else s'
    ]
