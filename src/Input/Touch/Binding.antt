-- ===== src/Input/Touch/Binding.antt =====
-- `Handle` and `Cancel` of the gesture binding of input/xcomponent_native_gesture.cpp: what a recognizer
-- reports, through the policies, to the session; and what that does to the buttons held at the remote
-- computer.
use harmony_windows_bridge.Base.{ℕ, ◌≡◌, refl, ◌⊎◌, inr, Bool, true, List, arith}
use harmony_windows_bridge.Input.Touch.{
  pan_update, pan_accept, dispatch_action, build_native_right_click_actions, cancel_tap, dispatch,
  double_accepted, dispatch_native_gesture_actions, click, pan_cancel, PanPolicy, single_accepted,
  NativeGestureAction, TapPolicy, pan_end, build_native_click_actions,
}
use harmony_windows_bridge.Input.Events.{
  left_button, send_native_pointer, unreleased, Sent, Button, Session, right_button, middle_button,
}

pub record Binding (F : Type 0) : Type 0 where
  pub tap_policy : TapPolicy F
  pub pan_policy : PanPolicy F

-- A gesture with the action type that its recognizer is registered for, at the centre of the pointers. An
-- accepted pan says where it started, which is the centre less the pan's offset.
pub data Gesture (F : Type 0) : Type 0 where
  single_tap : (x y : F) → Gesture F
  double_tap : (x y : F) → Gesture F
  long_press : (x y : F) → Gesture F
  one_finger_pan_accept : (start_x start_y x y : F) → Gesture F
  one_finger_pan_update : (x y : F) → Gesture F
  one_finger_pan_end : (x y : F) → Gesture F
  one_finger_pan_cancel : Gesture F

module _ {F : Type 0} (differs : F → F → Bool) where
  -- The part of `Handle` under the mutex.
  unfoldable pub actions_of : Gesture F → Binding F → Binding F × List (NativeGestureAction F)
  actions_of (single_tap x y) b =
      let (tap, actions) = single_accepted x y b.tap_policy in
      (record b { tap_policy = tap }, actions)
  actions_of (double_tap x y) b =
      let (tap, actions) = double_accepted x y b.tap_policy in
      (record b { tap_policy = tap }, actions)
  actions_of (long_press x y) b =
      (record b { tap_policy = cancel_tap b.tap_policy }, build_native_right_click_actions x y)
  actions_of (one_finger_pan_accept start_x start_y x y) b =
      let (pan, actions) = pan_accept differs start_x start_y x y b.pan_policy in
      (record { tap_policy = cancel_tap b.tap_policy; pan_policy = pan }, actions)
  actions_of (one_finger_pan_update x y) b =
      let (pan, actions) = pan_update x y b.pan_policy in
      (record { tap_policy = cancel_tap b.tap_policy; pan_policy = pan }, actions)
  actions_of (one_finger_pan_end x y) b =
      let (pan, actions) = pan_end x y b.pan_policy in
      (record { tap_policy = cancel_tap b.tap_policy; pan_policy = pan }, actions)
  actions_of one_finger_pan_cancel b =
      let (pan, actions) = pan_cancel b.pan_policy in
      (record { tap_policy = cancel_tap b.tap_policy; pan_policy = pan }, actions)

  module _ (round : F → ℕ) (s : Session F) where
    unfoldable pub handle : Gesture F → Binding F → List (Sent F) → Binding F × List (Sent F)
    handle g b log =
        let (b', actions) = actions_of g b in
        (b', (dispatch_native_gesture_actions round s actions log).0)

module _ {F : Type 0} (round : F → ℕ) (s : Session F) where
  unfoldable pub cancel_gestures : Binding F → List (Sent F) → Binding F × List (Sent F)
  cancel_gestures b log =
      let (pan, actions) = pan_cancel b.pan_policy in
      (
        record { tap_policy = cancel_tap b.tap_policy; pan_policy = pan },
        (dispatch_native_gesture_actions round s actions log).0,
      )

  -- A button unreleased after a gesture is the left button of an active pan, or was unreleased before it.
  abbrev pub Keeps : Button → Binding F → List (Sent F) → Binding F → List (Sent F) → Type 0
  Keeps button b log b' log' =
      unreleased button log' ≡ true
      → ((button ≡ left_button) × (b'.pan_policy.active ≡ true))
        ⊎ ((unreleased button log ≡ true)
            × (button ≡ left_button → b.pan_policy.active ≡ true → b'.pan_policy.active ≡ true))

  click-unreleased :
      (b button : Button) (x y : F) (log : List (Sent F))
      → unreleased b (click round s button x y log) ≡ true
      → unreleased b log ≡ true
  unfolding click unreleased send_native_pointer
  click-unreleased left_button left_button x y log h = ground arith
  click-unreleased left_button right_button x y log h = ground arith
  click-unreleased left_button middle_button x y log h = ground arith
  click-unreleased right_button left_button x y log h = ground arith
  click-unreleased right_button right_button x y log h = ground arith
  click-unreleased right_button middle_button x y log h = ground arith
  click-unreleased middle_button left_button x y log h = ground arith
  click-unreleased middle_button right_button x y log h = ground arith
  click-unreleased middle_button middle_button x y log h = ground arith

  pub cancel_gestures-Keeps :
      (button : Button) (b : Binding F) (log : List (Sent F))
      → Keeps button b log (cancel_gestures b log).0 (cancel_gestures b log).1
  unfolding cancel_gestures pan_cancel dispatch dispatch_action unreleased send_native_pointer
  cancel_gestures-Keeps left_button b log h = ground arith
  cancel_gestures-Keeps right_button b log h = ground arith
  cancel_gestures-Keeps middle_button b log h = ground arith

module _ {F : Type 0} (differs : F → F → Bool) (round : F → ℕ) (s : Session F) where
  pan_accept-Keeps :
      (button : Button) (start_x start_y x y : F) (b : Binding F) (log : List (Sent F))
      → let g = one_finger_pan_accept start_x start_y x y in
        Keeps round s button b log
          (handle differs round s g b log).0
          (handle differs round s g b log).1
  unfolding handle actions_of pan_accept dispatch dispatch_action unreleased send_native_pointer
  pan_accept-Keeps left_button start_x start_y x y b log h = ground arith
  pan_accept-Keeps right_button start_x start_y x y b log h = ground arith
  pan_accept-Keeps middle_button start_x start_y x y b log h = ground arith

  pan_end-Keeps :
      (button : Button) (x y : F) (b : Binding F) (log : List (Sent F))
      → let g = one_finger_pan_end x y in
        Keeps round s button b log
          (handle differs round s g b log).0
          (handle differs round s g b log).1
  unfolding handle actions_of pan_end dispatch dispatch_action unreleased send_native_pointer
  pan_end-Keeps left_button x y b log h = ground arith
  pan_end-Keeps right_button x y b log h = ground arith
  pan_end-Keeps middle_button x y b log h = ground arith

  pan_update-Keeps :
      (button : Button) (x y : F) (b : Binding F) (log : List (Sent F))
      → let g = one_finger_pan_update x y in
        Keeps round s button b log
          (handle differs round s g b log).0
          (handle differs round s g b log).1
  unfolding handle actions_of pan_update dispatch dispatch_action unreleased send_native_pointer
  pan_update-Keeps button x y b log h = ground arith

  pub handle-Keeps :
      (button : Button) (g : Gesture F) (b : Binding F) (log : List (Sent F))
      → Keeps round s button b log
          (handle differs round s g b log).0
          (handle differs round s g b log).1
  unfolding handle actions_of single_accepted double_accepted build_native_click_actions dispatch
      dispatch_action cancel_gestures pan_cancel
  handle-Keeps button (single_tap x y) b log h =
      inr (click-unreleased round s button left_button x y log h, λ _ a. a)
  handle-Keeps button (double_tap x y) b log h =
      let p = b.tap_policy in inr (click-unreleased round s button left_button _ _ log h, λ _ a. a)
  handle-Keeps button (long_press x y) b log h =
      inr (click-unreleased round s button right_button x y log h, λ _ a. a)
  handle-Keeps button (one_finger_pan_accept start_x start_y x y) b log h =
      pan_accept-Keeps button start_x start_y x y b log h
  handle-Keeps button (one_finger_pan_update x y) b log h = pan_update-Keeps button x y b log h
  handle-Keeps button (one_finger_pan_end x y) b log h = pan_end-Keeps button x y b log h
  handle-Keeps button one_finger_pan_cancel b log h = cancel_gestures-Keeps round s button b log h

-- A double tap reported right after a single tap clicks where the single tap did, so that the two clicks
-- are at one point; one reported after a long press or after the end of a pan clicks at its own point.
pub double_tap_repeats_single :
    {F : Type 0} (differs : F → F → Bool) (b : Binding F) (x y x' y' : F)
    → let clicks =
        λ (g : Gesture F). (actions_of differs (double_tap x' y') (actions_of differs g b).0).1 in
      (clicks (single_tap x y) ≡ (actions_of differs (single_tap x y) b).1)
      × (clicks (long_press x y) ≡ build_native_click_actions 1 x' y')
      × (clicks (one_finger_pan_end x y) ≡ build_native_click_actions 1 x' y')
      × (clicks one_finger_pan_cancel ≡ build_native_click_actions 1 x' y')
unfolding actions_of single_accepted double_accepted cancel_tap pan_end pan_cancel
double_tap_repeats_single differs b x y x' y' = (refl, refl, refl, refl)
