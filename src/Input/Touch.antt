-- ===== src/Input/Touch.antt =====
-- NativeSystemTapPolicy and NativeSystemPanPolicy of input/xcomponent_touch_policy.{h,cpp},
-- DispatchNativeGestureActions of input/xcomponent_touch_gesture.cpp, and the gestures of one finger of
-- input/xcomponent_native_gesture.cpp. The two-finger scroll, which adds up floating-point offsets, is not
-- modelled. `differs` is `!=` on floats.
pub mod Binding
use harmony_windows_bridge.Input.Events.{
  Button, LocalPointerAction, move, button_down, button_up, wheel_vertical, wheel_horizontal,
  no_buttons, left_button, right_button, flag, Sent, Session, send_native_pointer,
  make_native_pointer,
}
use harmony_windows_bridge.Base.{
  ℕ, zero, suc, ◌+◌, Bool, true, false, not, ◌||◌, List, [], ◌∷◌, if◌then◌else◌,
}
use harmony_windows_bridge.Base.Int.{neg_part, pos, pos_part, ℤ, negsuc}

pub data NativeGestureActionType : Type 0 where
  gesture_move : NativeGestureActionType
  left_down : NativeGestureActionType
  left_up : NativeGestureActionType
  left_click : NativeGestureActionType
  right_click : NativeGestureActionType
  gesture_wheel_vertical : NativeGestureActionType
  gesture_wheel_horizontal : NativeGestureActionType

pub record NativeGestureAction (F : Type 0) : Type 0 where
  pub kind : NativeGestureActionType
  pub x : F
  pub y : F
  pub steps : ℤ
  pub held : Bool

pub record TapPolicy (F : Type 0) : Type 0 where
  pub first_accepted : Bool
  pub first_x : F
  pub first_y : F

pub record PanPolicy (F : Type 0) : Type 0 where
  pub active : Bool
  pub last_x : F
  pub last_y : F

module _ {F : Type 0} where
  abbrev pub gesture_action : NativeGestureActionType → F → F → Bool → NativeGestureAction F
  gesture_action kind x y held = record { kind = kind; x = x; y = y; steps = pos 0; held = held }

  unfoldable pub build_native_click_actions : ℕ → F → F → List (NativeGestureAction F)
  build_native_click_actions zero x y = []
  build_native_click_actions (suc n) x y =
      gesture_action left_click x y false ∷ build_native_click_actions n x y

  abbrev pub build_native_right_click_actions : F → F → List (NativeGestureAction F)
  build_native_right_click_actions x y = gesture_action right_click x y false ∷ []

  unfoldable pub single_accepted : F → F → TapPolicy F → TapPolicy F × List (NativeGestureAction F)
  single_accepted x y p =
      (record { first_accepted = true; first_x = x; first_y = y }, build_native_click_actions 1 x y)

  unfoldable pub double_accepted : F → F → TapPolicy F → TapPolicy F × List (NativeGestureAction F)
  double_accepted x y p =
      let click_x = if p.first_accepted then p.first_x else x in
      let click_y = if p.first_accepted then p.first_y else y in
      (record p { first_accepted = false }, build_native_click_actions 1 click_x click_y)

  unfoldable pub cancel_tap : TapPolicy F → TapPolicy F
  cancel_tap p = record p { first_accepted = false }

  unfoldable pub pan_accept :
      (F → F → Bool) → F → F → F → F → PanPolicy F → PanPolicy F × List (NativeGestureAction F)
  pan_accept differs start_x start_y x y p = (
    record { active = true; last_x = x; last_y = y },
    gesture_action gesture_move start_x start_y false
        ∷ gesture_action left_down start_x start_y false
        ∷ (if differs x start_x || differs y start_y
            then gesture_action gesture_move x y true ∷ []
            else []),
  )

  unfoldable pub pan_update : F → F → PanPolicy F → PanPolicy F × List (NativeGestureAction F)
  pan_update x y p =
      if not p.active
      then (p, [])
      else (record p { last_x = x; last_y = y }, gesture_action gesture_move x y true ∷ [])

  unfoldable pub pan_end : F → F → PanPolicy F → PanPolicy F × List (NativeGestureAction F)
  pan_end x y p = if not p.active then (p, []) else (
    record { active = false; last_x = x; last_y = y },
    gesture_action gesture_move x y true ∷ gesture_action left_up x y true ∷ [],
  )

  unfoldable pub pan_cancel : PanPolicy F → PanPolicy F × List (NativeGestureAction F)
  pan_cancel p =
      if not p.active
      then (p, [])
      else (record p { active = false }, gesture_action left_up p.last_x p.last_y true ∷ [])

  module _ (round : F → ℕ) (s : Session F) where
    abbrev pub send_touch_button :
        Button → Bool → F → F → Bool → List (Sent F) → List (Sent F) × Bool
    send_touch_button button down x y allow_clamp log =
        send_native_pointer s
          (make_native_pointer round (if down then button_down else button_up) x y (flag button)
            (pos 0) allow_clamp)
          log

    abbrev send_move : F → F → Bool → List (Sent F) → List (Sent F)
    send_move x y held log =
        (send_native_pointer s
          (make_native_pointer round move x y (if held then flag left_button else no_buttons)
            (pos 0) held)
          log).0

    -- The loop over the steps of a wheel.
    unfoldable pub send_wheel : LocalPointerAction → F → F → ℤ → ℕ → List (Sent F) → List (Sent F)
    unfolding send_native_pointer
    send_wheel wheel x y direction zero log = log
    send_wheel wheel x y direction (suc n) log =
        send_wheel wheel x y direction n
          (send_native_pointer s (make_native_pointer round wheel x y no_buttons direction false)
            log).0

    -- Down and, if that is accepted, up.
    unfoldable pub click : Button → F → F → List (Sent F) → List (Sent F)
    click button x y log =
        let moved = send_move x y false log in
        let (pressed, ok) = send_touch_button button true x y false moved in
        let released = (send_touch_button button false x y true pressed).0 in
        if ok then released else pressed

    abbrev direction_of : ℤ → ℤ
    direction_of (pos n) = pos 1
    direction_of (negsuc n) = negsuc 0

    -- One action, with the value of `remoteLeftDownAccepted` before and after.
    unfoldable pub dispatch_action :
        NativeGestureAction F → Bool → List (Sent F) → List (Sent F) × Bool
    dispatch_action a ok log = elim a.kind [
      | gesture_move ↦ (if ok then send_move a.x a.y a.held log else log, ok)
      | left_down ↦ send_touch_button left_button true a.x a.y false log
      | left_up ↦ (if ok then (send_touch_button left_button false a.x a.y true log).0 else log, ok)
      | left_click ↦ (click left_button a.x a.y log, ok)
      | right_click ↦ (click right_button a.x a.y log, ok)
      | gesture_wheel_vertical ↦ (
        send_wheel wheel_vertical a.x a.y (direction_of a.steps)
            (pos_part a.steps + neg_part a.steps) log,
        ok,
      )
      | gesture_wheel_horizontal ↦ (
        send_wheel wheel_horizontal a.x a.y (direction_of a.steps)
            (pos_part a.steps + neg_part a.steps) log,
        ok,
      )
    ]

    unfoldable pub dispatch :
        List (NativeGestureAction F) → Bool → List (Sent F) → List (Sent F) × Bool
    dispatch [] ok log = (log, ok)
    dispatch (a ∷ rest) ok log =
        let (log', ok') = dispatch_action a ok log in dispatch rest ok' log'

    -- `remoteLeftDownAccepted` starts as true.
    abbrev pub dispatch_native_gesture_actions :
        List (NativeGestureAction F) → List (Sent F) → List (Sent F) × Bool
    dispatch_native_gesture_actions actions log = dispatch actions true log
