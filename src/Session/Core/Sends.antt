-- ===== src/Session/Core/Sends.antt =====
-- The input of session/rdp_session_core.cpp: what is sent to the queue, and the first use and the first
-- refusal of each kind of input, which are reported once in a session.
pub mod Kept
pub mod Once
use harmony_windows_bridge.Base.{ℕ, Bool, true, false, not, List, ◌∷◌, String, ◌==◌, if◌then◌else◌}
use harmony_windows_bridge.Input.Events.{
  LocalPointerEvent, LocalPointerAction, move, button_down, button_up, wheel_vertical,
  wheel_horizontal,
}
use harmony_windows_bridge.Display.Settings
use harmony_windows_bridge.Display.Settings.{Settings}
use harmony_windows_bridge.Session.Input
use harmony_windows_bridge.Session.Input.{
  RdpSessionInput, SurfaceSnapshot, OhosKeyEvent, FreerdpRuntimeApi,
}
use harmony_windows_bridge.Session.Core.{
  Core, InputKind, pointer_input, keyboard_input, unicode_input, ime_input, DiagnosticMask,
  has_kind, with_kind,
}

abbrev pub no_session : String
no_session = "no active FreeRDP session"

abbrev pub is_button_up : LocalPointerAction → Bool
is_button_up button_up = true
is_button_up move = false
is_button_up button_down = false
is_button_up wheel_vertical = false
is_button_up wheel_horizontal = false

module _ {Q : Type 0} where
  abbrev pub mask_of : Bool → Core Q → DiagnosticMask
  mask_of accepted s = if accepted then s.accepted_mask else s.rejected_mask

  -- The call of EmitCoreDiagnostic, which is left out without a session.
  abbrev pub diagnose : Bool → InputKind → Core Q → Core Q
  diagnose accepted kind s =
      if s.active_diagnostic_session_id == 0
      then s
      else record s { diagnosed = (s.active_diagnostic_session_id, accepted, kind) ∷ s.diagnosed }

  abbrev pub set_mask : Bool → InputKind → Core Q → Core Q
  set_mask true kind s = record s { accepted_mask = with_kind kind s.accepted_mask }
  set_mask false kind s = record s { rejected_mask = with_kind kind s.rejected_mask }

  unfoldable pub emit_input_diagnostic : InputKind → Bool → Core Q → Core Q
  emit_input_diagnostic kind accepted s =
      if has_kind kind (mask_of accepted s)
      then s
      else diagnose accepted kind (set_mask accepted kind s)

  -- What an Enqueue function of the input leaves, and the report of its answer.
  abbrev pub reported :
      InputKind → Core Q → RdpSessionInput Q × Bool × String → Core Q × Bool × String
  reported kind s (i, accepted, message) =
      (emit_input_diagnostic kind accepted (record s { input = i }), accepted, message)

  -- The guard of every function that sends.
  abbrev pub if_connected : (Core Q → Core Q × Bool × String) → Core Q → Core Q × Bool × String
  if_connected f s = if s.connected then f s else (s, false, no_session)

  module _ (api : FreerdpRuntimeApi Q) where
    unfoldable pub send_pointer : (flags x y : ℕ) → Core Q → Core Q × Bool × String
    unfolding emit_input_diagnostic Input.enqueue_pointer
    send_pointer flags x y =
        if_connected
          (λ s. reported pointer_input s (Input.enqueue_pointer api true flags x y s.input))

    unfoldable pub send_key : ℕ → (down repeat : Bool) → Core Q → Core Q × Bool × String
    unfolding emit_input_diagnostic Input.enqueue_key
    send_key scancode down repeat =
        if_connected
          (λ s. reported keyboard_input s (Input.enqueue_key api true scancode down repeat s.input))

    unfoldable pub send_platform_key : OhosKeyEvent → Core Q → Core Q × Bool × String
    unfolding emit_input_diagnostic Input.enqueue_platform_key
    send_platform_key event =
        if_connected
          (λ s. reported keyboard_input s (Input.enqueue_platform_key api true event s.input))

    unfoldable pub send_unicode : ℕ → Bool → Core Q → Core Q × Bool × String
    unfolding emit_input_diagnostic Input.enqueue_unicode
    send_unicode code down =
        if_connected
          (λ s. reported unicode_input s (Input.enqueue_unicode api true code down s.input))

    unfoldable pub send_committed_text : List ℕ → Core Q → Core Q × Bool × String
    unfolding emit_input_diagnostic Input.enqueue_committed_text
    send_committed_text text =
        if_connected
          (λ s. reported ime_input s (Input.enqueue_committed_text api true text s.input))

    abbrev pub unreported : Core Q → RdpSessionInput Q × Bool × String → Core Q × Bool × String
    unreported s (i, accepted, message) = (record s { input = i }, accepted, message)

    unfoldable pub send_focus_in : ℕ → Core Q → Core Q × Bool × String
    unfolding Input.enqueue_focus_in
    send_focus_in toggle_states =
        if_connected (λ s. unreported s (Input.enqueue_focus_in api true toggle_states s.input))

    unfoldable pub release_all_keys : Core Q → Core Q × Bool × String
    unfolding Input.enqueue_release_all_keys Input.clear
    release_all_keys s =
        if not s.connected
        then (record s { input = Input.clear api true s.input }, false, no_session)
        else unreported s (Input.enqueue_release_all_keys api true s.input)

    -- The answer of the display settings first.
    abbrev pub held_or :
        Settings × Bool → Core Q × Bool × String → Core Q → Settings × (Core Q × Bool × String)
    held_or (settings, true) sent s = (settings, (s, false, "display transition: pointer held"))
    held_or (settings, false) sent s = (settings, sent)

    -- The display settings at the time `now`; the surface and the desktop are as the callbacks give them.
    unfoldable pub send_local_pointer :
        ℕ
        → LocalPointerEvent
        → SurfaceSnapshot
        → ℕ
        → ℕ
        → Settings
        → Core Q
        → Settings × (Core Q × Bool × String)
    unfolding emit_input_diagnostic Settings.blocks_pointer Input.enqueue_local_pointer
    send_local_pointer now p surface desktop_width desktop_height settings s =
        let asked =
          if is_button_up p.action
          then (settings, false)
          else Settings.blocks_pointer now settings in
        held_or asked
          (if_connected
            (λ s.
              reported pointer_input s (
                Input.enqueue_local_pointer api true p surface desktop_width desktop_height
                  s.input))
            s)
          s

-- The calls of other threads that send input.
pub data Send : Type 0 where
  sends_pointer : (flags x y : ℕ) → Send
  sends_local_pointer :
      (now : ℕ)
      → LocalPointerEvent
      → SurfaceSnapshot
      → (desktop_width desktop_height : ℕ) → Settings
      → Send
  sends_key : ℕ → (down repeat : Bool) → Send
  sends_platform_key : OhosKeyEvent → Send
  sends_unicode : ℕ → Bool → Send
  sends_committed_text : List ℕ → Send
  sends_focus_in : ℕ → Send
  releases_all_keys : Send

unfoldable pub send : {Q : Type 0} → FreerdpRuntimeApi Q → Send → Core Q → Core Q
unfolding send_pointer send_local_pointer send_key send_platform_key send_unicode
    send_committed_text send_focus_in release_all_keys
send api (sends_pointer flags x y) s = (send_pointer api flags x y s).0
send api (sends_local_pointer now p surface desktop_width desktop_height settings) s =
    (send_local_pointer api now p surface desktop_width desktop_height settings s).1.0
send api (sends_key scancode down repeat) s = (send_key api scancode down repeat s).0
send api (sends_platform_key event) s = (send_platform_key api event s).0
send api (sends_unicode code down) s = (send_unicode api code down s).0
send api (sends_committed_text text) s = (send_committed_text api text s).0
send api (sends_focus_in toggle_states) s = (send_focus_in api toggle_states s).0
send api releases_all_keys s = (release_all_keys api s).0
