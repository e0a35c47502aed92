-- ===== src/Input/Mouse.antt =====
-- input/xcomponent_mouse.cpp: DispatchNativeMousePointer on the state `g_nativeMouse`, and what it does to
-- the buttons held at the remote computer. The log is not modelled.
use harmony_windows_bridge.Base.{
  ℕ, ◌≡◌, ◌⊎◌, Bool, true, false, not, ◌&&◌, ◌||◌, Option, none, some, List, arith, if◌then◌else◌,
}
use harmony_windows_bridge.Input.Events.{
  move, button_down, button_up, right_button, left_button, middle_button, send_native_pointer, has,
  make_native_pointer, unreleased, LocalPointerEvent, Button, flag, no_buttons, Sent, Session,
  Buttons,
}
use harmony_windows_bridge.Base.Int.{pos}

pub record NativeMouseState (F : Type 0) : Type 0 where
  pub buttons : Buttons
  pub last_x : F
  pub last_y : F

pub data MouseEventAction : Type 0 where
  mouse_press : MouseEventAction
  mouse_release : MouseEventAction
  mouse_move : MouseEventAction
  mouse_cancel : MouseEventAction
  other_action : MouseEventAction

pub data MouseEventButton : Type 0 where
  mouse_left : MouseEventButton
  mouse_right : MouseEventButton
  mouse_middle : MouseEventButton
  other_button : MouseEventButton

pub record MouseEvent (F : Type 0) : Type 0 where
  pub x : F
  pub y : F
  pub action : MouseEventAction
  pub button : MouseEventButton

unfoldable pub native_mouse_button_mask : MouseEventButton → Buttons
native_mouse_button_mask mouse_left = flag left_button
native_mouse_button_mask mouse_right = flag right_button
native_mouse_button_mask mouse_middle = flag middle_button
native_mouse_button_mask other_button = no_buttons

-- `b != LocalPointerButtonNone`, `a | b` and `a & ~b`.
abbrev pub any : Buttons → Bool
any b = b.left || (b.right || b.middle)

abbrev pub union : Buttons → Buttons → Buttons
union a b = record {
  left = a.left || b.left;
  right = a.right || b.right;
  middle = a.middle || b.middle;
}

abbrev pub without : Buttons → Buttons → Buttons
without a b = record {
  left = a.left && not b.left;
  right = a.right && not b.right;
  middle = a.middle && not b.middle;
}

module _ {F : Type 0} (origin : F) (round : F → ℕ) (s : Session F) where
  -- `NativeMouseState{}`; the origin is 0.0f.
  abbrev pub no_mouse : NativeMouseState F
  no_mouse = record { buttons = no_buttons; last_x = origin; last_y = origin }

  abbrev release_button : Button → NativeMouseState F → List (Sent F) → List (Sent F)
  release_button b m log =
      let released =
        (send_native_pointer s
          (make_native_pointer round button_up m.last_x m.last_y (flag b) (pos 0) true) log).0 in
      if has b m.buttons then released else log

  -- The state is cleared, and the buttons that it had are released, the left one first.
  unfoldable pub release_mouse :
      NativeMouseState F → List (Sent F) → NativeMouseState F × List (Sent F)
  release_mouse m log = (
    no_mouse,
    release_button middle_button m
        (release_button right_button m (release_button left_button m log)),
  )

  -- `none` is a return without an event.
  unfoldable pub pointer_of : MouseEvent F → Buttons → Option LocalPointerEvent
  pointer_of e current = elim e.action [
    | mouse_press ↦
        if not (any (native_mouse_button_mask e.button))
        then none
        else some (
            make_native_pointer round button_down e.x e.y (native_mouse_button_mask e.button)
              (pos 0) false)
    | mouse_release ↦
        let buttons =
          if any (native_mouse_button_mask e.button)
          then native_mouse_button_mask e.button
          else current in
        if not (any buttons)
        then none
        else some (make_native_pointer round button_up e.x e.y buttons (pos 0) true)
    | mouse_move ↦ some (make_native_pointer round move e.x e.y current (pos 0) (any current))
    | _ ↦ none
  ]

  -- What is done where the session accepted the event.
  abbrev moved : MouseEvent F → LocalPointerEvent → NativeMouseState F → NativeMouseState F
  moved e event m = record {
    last_x = e.x;
    last_y = e.y;
    buttons = elim e.action [
      | mouse_press ↦ union m.buttons (native_mouse_button_mask e.button)
      | mouse_release ↦ without m.buttons event.buttons
      | _ ↦ m.buttons
    ];
  }

  unfoldable pub send_mouse :
      MouseEvent F
      → Option LocalPointerEvent
      → NativeMouseState F
      → List (Sent F)
      → NativeMouseState F × List (Sent F)
  send_mouse e none m log = (m, log)
  send_mouse e (some event) m log =
      let (log', ok) = send_native_pointer s event log in (if ok then moved e event m else m, log')

  unfoldable pub dispatch_native_mouse_pointer :
      MouseEvent F → NativeMouseState F → List (Sent F) → NativeMouseState F × List (Sent F)
  dispatch_native_mouse_pointer e m log = elim e.action [
    | mouse_cancel ↦ release_mouse m log
    | _ ↦ send_mouse e (pointer_of e m.buttons) m log
  ]

  -- A button unreleased after the call is in the state, or was unreleased before and is not taken out of
  -- the state.
  abbrev pub MouseKeeps :
      Button → NativeMouseState F → List (Sent F) → NativeMouseState F → List (Sent F) → Type 0
  MouseKeeps b m log m' log' =
      unreleased b log' ≡ true
      → (has b m'.buttons ≡ true)
        ⊎ ((unreleased b log ≡ true) × (has b m.buttons ≡ true → has b m'.buttons ≡ true))

  pub release_mouse-MouseKeeps :
      (b : Button) (m : NativeMouseState F) (log : List (Sent F))
      → MouseKeeps b m log (release_mouse m log).0 (release_mouse m log).1
  unfolding release_mouse unreleased send_native_pointer
  release_mouse-MouseKeeps left_button m log h = ground arith
  release_mouse-MouseKeeps right_button m log h = ground arith
  release_mouse-MouseKeeps middle_button m log h = ground arith

  press_or_move-MouseKeeps :
      (b : Button) (e : MouseEvent F) (m : NativeMouseState F) (log : List (Sent F))
      → MouseKeeps b m log
          (send_mouse e (pointer_of e m.buttons) m log).0
          (send_mouse e (pointer_of e m.buttons) m log).1
  unfolding send_mouse pointer_of unreleased send_native_pointer native_mouse_button_mask
  press_or_move-MouseKeeps left_button e m log h = ground arith
  press_or_move-MouseKeeps right_button e m log h = ground arith
  press_or_move-MouseKeeps middle_button e m log h = ground arith

  pub dispatch_native_mouse_pointer-MouseKeeps :
      (b : Button) (e : MouseEvent F) (m : NativeMouseState F) (log : List (Sent F))
      → MouseKeeps b m log
          (dispatch_native_mouse_pointer e m log).0
          (dispatch_native_mouse_pointer e m log).1
  unfolding dispatch_native_mouse_pointer
  dispatch_native_mouse_pointer-MouseKeeps b e m log =
      ground (arith, release_mouse-MouseKeeps b m log, press_or_move-MouseKeeps b e m log)
