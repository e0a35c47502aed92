-- ===== src/Input/Release.antt =====
-- ReleaseAllXComponentInput of input/xcomponent_input_registration.cpp, for the pens, the mouse and the
-- gestures, after any input from these sources in any order. The state of the axis and the keys that it
-- resets too are not modelled. `origin` is 0.0f.
use harmony_windows_bridge.Base.{ℕ, ◌≡◌, refl, ◌⊎◌, Bool, true, false, List, [], ◌∷◌, arith}
use harmony_windows_bridge.Input.Events.{
  Sent, left_button, has, unreleased, Button, LocalPenEvent, Session, right_button, middle_button,
}
use harmony_windows_bridge.Base.Int.{ℤ}
use harmony_windows_bridge.Input.Pen.{
  any_fallback, dispatch_pen-PenKeeps, cancel_pen_input, dispatch_pen, PenState,
  cancel_pen_input-PenKeeps,
}
use harmony_windows_bridge.Input.Mouse.{
  dispatch_native_mouse_pointer-MouseKeeps, MouseEvent, release_mouse, NativeMouseState,
  dispatch_native_mouse_pointer, no_mouse, release_mouse-MouseKeeps,
}
use harmony_windows_bridge.Input.Touch.Binding.{
  handle-Keeps, Binding, Gesture, cancel_gestures, handle, cancel_gestures-Keeps,
}
use harmony_windows_bridge.Input.Touch.{pan_cancel}

pub record InputState (F : Type 0) : Type 0 where
  pub pens : List (ℤ × PenState F)
  pub mouse : NativeMouseState F
  pub gestures : Binding F
  pub log : List (Sent F)

pub data InputEvent (F : Type 0) : Type 0 where
  pen_event : ℤ → LocalPenEvent F → InputEvent F
  mouse_event : MouseEvent F → InputEvent F
  gesture_event : Gesture F → InputEvent F
  releases_all : InputEvent F

module _ {F : Type 0} (origin : F) (differs : F → F → Bool) (round : F → ℕ) (float_of : ℕ → F)
    (s : Session F) where
  unfoldable pub no_input : InputState F
  no_input = record {
    pens = [];
    mouse = no_mouse origin round s;
    gestures = record {
      tap_policy = record { first_accepted = false; first_x = origin; first_y = origin };
      pan_policy = record { active = false; last_x = origin; last_y = origin };
    };
    log = [];
  }

  unfoldable pub release_all : InputState F → InputState F
  release_all i =
      let (pens, log1) = cancel_pen_input round float_of s i.pens i.log in
      let (mouse, log2) = release_mouse origin round s i.mouse log1 in
      let (gestures, log3) = cancel_gestures round s i.gestures log2 in
      record { pens = pens; mouse = mouse; gestures = gestures; log = log3 }

  unfoldable pub input_step : InputEvent F → InputState F → InputState F
  input_step (pen_event id p) i =
      let (pens, log) = dispatch_pen round float_of s id p i.pens i.log in
      record i { pens = pens; log = log }
  input_step (mouse_event e) i =
      let (mouse, log) = dispatch_native_mouse_pointer origin round s e i.mouse i.log in
      record i { mouse = mouse; log = log }
  input_step (gesture_event g) i =
      let (gestures, log) = handle differs round s g i.gestures i.log in
      record i { gestures = gestures; log = log }
  input_step releases_all i = release_all i

  unfoldable pub input_run : List (InputEvent F) → InputState F → InputState F
  input_run [] i = i
  input_run (e ∷ es) i = input_run es (input_step e i)

  -- What holds a button down: a state that will release it.
  abbrev pub Held : Button → InputState F → Type 0
  Held b i =
      (has b i.mouse.buttons ≡ true)
      ⊎ ((b ≡ left_button) × (i.gestures.pan_policy.active ≡ true))
      ⊎ ((b ≡ left_button) × (any_fallback i.pens ≡ true))

  abbrev Accounted : Button → InputState F → Type 0
  Accounted b i = unreleased b i.log ≡ true → Held b i

  cancel_gestures-inactive :
      (g : Binding F) (log : List (Sent F))
      → (cancel_gestures round s g log).0.pan_policy.active ≡ false
  unfolding cancel_gestures pan_cancel
  cancel_gestures-inactive g log = ground arith

  release_mouse-empty :
      (b : Button) (m : NativeMouseState F) (log : List (Sent F))
      → has b (release_mouse origin round s m log).0.buttons ≡ false
  unfolding release_mouse
  release_mouse-empty left_button m log = refl
  release_mouse-empty right_button m log = refl
  release_mouse-empty middle_button m log = refl

  release_all_lem :
      (b : Button) (i : InputState F) → Accounted b i → unreleased b (release_all i).log ≡ false
  unfolding release_all
  release_all_lem b i a =
      let (pens, log1) = cancel_pen_input round float_of s i.pens i.log in
      let (mouse, log2) = release_mouse origin round s i.mouse log1 in
      ground (
        arith,
        cancel_gestures-inactive i.gestures log2,
        cancel_gestures-Keeps round s b i.gestures log2,
        release_mouse-empty b i.mouse log1,
        release_mouse-MouseKeeps origin round s b i.mouse log1,
        cancel_pen_input-PenKeeps round float_of s b i.pens i.log,
      )

  step-Accounted :
      (b : Button) (e : InputEvent F) (i : InputState F)
      → Accounted b i
      → Accounted b (input_step e i)
  unfolding input_step
  step-Accounted b (pen_event id p) i a h =
      ground (arith, dispatch_pen-PenKeeps round float_of s b id p i.pens i.log h)
  step-Accounted b (mouse_event e) i a h =
      ground (arith, dispatch_native_mouse_pointer-MouseKeeps origin round s b e i.mouse i.log h)
  step-Accounted b (gesture_event g) i a h =
      ground (arith, handle-Keeps differs round s b g i.gestures i.log h)
  step-Accounted b releases_all i a h = absurd (ground (arith, release_all_lem b i a))

  run-Accounted :
      (b : Button) (es : List (InputEvent F)) (i : InputState F)
      → Accounted b i
      → Accounted b (input_run es i)
  unfolding input_run
  run-Accounted b [] i a = a
  run-Accounted b (e ∷ es) i a = run-Accounted b es (input_step e i) (step-Accounted b e i a)

  no_input-Accounted : (b : Button) → Accounted b no_input
  unfolding no_input unreleased
  no_input-Accounted b h = absurd (ground arith)

  -- After any sequence of mouse, pen and gesture events, whatever the session accepted of what it was sent,
  -- a button that went down with its consent and that it was not told to be up since is held by the state
  -- of the mouse, by an active pan or by a pen that falls back on the pointer.
  pub unreleased_is_Held :
      (b : Button) (es : List (InputEvent F))
      → unreleased b (input_run es no_input).log ≡ true
      → Held b (input_run es no_input)
  unreleased_is_Held b es = run-Accounted b es no_input (no_input-Accounted b)

  -- After any sequence of mouse, pen and gesture events, whatever the session accepted of what it was sent,
  -- releaseAllInput leaves no button held: each button that went down with the session's consent has been
  -- reported as up since.
  pub release_all_releases :
      (b : Button) (es : List (InputEvent F))
      → unreleased b (release_all (input_run es no_input)).log ≡ false
  release_all_releases b es = release_all_lem b (input_run es no_input) (unreleased_is_Held b es)
