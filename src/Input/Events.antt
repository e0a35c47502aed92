-- ===== src/Input/Events.antt =====
-- The events of common/bridge_types.h, and MakeNativePointer and SendNativePointer of
-- input/xcomponent_input_registration.cpp. `F` is the type float of surface coordinates and pressures. The
-- session is what answers `SendLocalPointer` and `SendLocalPen`, given all that was sent before; a null
-- session is the one that accepts nothing. The texts for the log are not modelled.
use harmony_windows_bridge.Base.{ℕ, Bool, true, false, ◌&&◌, List, [], ◌∷◌, if◌then◌else◌}
use harmony_windows_bridge.Base.Int.{ℤ}

pub data LocalPointerAction : Type 0 where
  move : LocalPointerAction
  button_down : LocalPointerAction
  button_up : LocalPointerAction
  wheel_vertical : LocalPointerAction
  wheel_horizontal : LocalPointerAction

-- The uint32_t of flags of LocalPointerButton.
pub record Buttons : Type 0 where
  pub left : Bool
  pub right : Bool
  pub middle : Bool

abbrev pub no_buttons : Buttons
no_buttons = record { left = false; right = false; middle = false }

pub data Button : Type 0 where
  left_button : Button
  right_button : Button
  middle_button : Button

-- `(buttons & button) != 0`.
abbrev pub has : Button → Buttons → Bool
has left_button b = b.left
has right_button b = b.right
has middle_button b = b.middle

abbrev pub flag : Button → Buttons
flag left_button = record { left = true; right = false; middle = false }
flag right_button = record { left = false; right = true; middle = false }
flag middle_button = record { left = false; right = false; middle = true }

pub record LocalPointerEvent : Type 0 where
  pub action : LocalPointerAction
  pub buttons : Buttons
  pub x : ℕ
  pub y : ℕ
  pub delta : ℤ
  pub allow_clamp : Bool

pub data LocalPenAction : Type 0 where
  pen_down : LocalPenAction
  pen_move : LocalPenAction
  pen_up : LocalPenAction
  pen_cancel : LocalPenAction

pub record LocalPenEvent (F : Type 0) : Type 0 where
  pub action : LocalPenAction
  pub device_id : ℤ
  pub x : ℕ
  pub y : ℕ
  pub pressure : F
  pub tilt_x : ℤ
  pub tilt_y : ℤ
  pub eraser : Bool  -- the flags
  pub allow_clamp : Bool

-- An event handed to the session, and the session's answer.
pub data Sent (F : Type 0) : Type 0 where
  pointer : LocalPointerEvent → Bool → Sent F
  pen : LocalPenEvent F → Bool → Sent F

-- What was sent before comes newest first.
pub record Session (F : Type 0) : Type 0 where
  pub accepts_pointer : List (Sent F) → LocalPointerEvent → Bool
  pub accepts_pen : List (Sent F) → LocalPenEvent F → Bool

module _ {F : Type 0} where
  unfoldable pub send_native_pointer :
      Session F → LocalPointerEvent → List (Sent F) → List (Sent F) × Bool
  send_native_pointer s event log =
      let ok = s.accepts_pointer log event in (pointer event ok ∷ log, ok)

  unfoldable pub send_local_pen : Session F → LocalPenEvent F → List (Sent F) → List (Sent F) × Bool
  send_local_pen s event log = let ok = s.accepts_pen log event in (pen event ok ∷ log, ok)

  -- The button went down with the session's consent, and the session was not told since that it is up.
  unfoldable pub unreleased : Button → List (Sent F) → Bool
  unreleased b [] = false
  unreleased b (pen event ok ∷ log) = unreleased b log
  unreleased b (pointer event ok ∷ log) =
      let before = unreleased b log in
      elim event.action [
        | button_down ↦ if has b event.buttons && ok then true else before
        | button_up ↦ if has b event.buttons then false else before
        | _ ↦ before
      ]

-- The rounding is RoundSurfaceCoordinate.
abbrev pub make_native_pointer :
    {F : Type 0} → (F → ℕ) → LocalPointerAction → F → F → Buttons → ℤ → Bool → LocalPointerEvent
make_native_pointer round action x y buttons delta allow_clamp = record {
  action = action;
  buttons = buttons;
  x = round x;
  y = round y;
  delta = delta;
  allow_clamp = allow_clamp;
}
