-- ===== src/Tests/TextPointer.antt =====
-- Touches, pointers and the requests they make: input/remote_pointer_text_detector.cpp.
use harmony_windows_bridge.Base.{
  ℕ, suc, ◌≤◌, ◌≡◌, refl, true, false, some, List, [], ◌∷◌, arith, length,
}
use harmony_windows_bridge.Input.TextPointer.{Detector, idle, configure, notify_direct_touch}
use harmony_windows_bridge.Input.TextPointer.Requests.{
  DetectorCall, configures, sets_pointer, sets_null, touches, wakes, detector_call, detector_calls,
  requests_le_touches,
}
use harmony_windows_bridge.Input.TextPointer.Answers.{touch_is_answered}

-- A text pointer is set, the desktop touched, a thread wakes too early and then in time, and a pointer comes
-- when the touch has been answered.
abbrev a_touch_on_text : List (ℕ × DetectorCall)
a_touch_on_text =
    (1000, configures true)
    ∷ (1000, sets_pointer (some true))
    ∷ (2000, touches)
    ∷ (2119, wakes 0)
    ∷ (2120, wakes 0)
    ∷ (2130, sets_pointer (some false))
    ∷ []

text_is_asked : (detector_calls a_touch_on_text idle).requests ≡ true ∷ []
unfolding detector_calls idle
text_is_asked = refl

requests_le_touches_example : length (detector_calls a_touch_on_text idle).requests ≤ 1
requests_le_touches_example = requests_le_touches a_touch_on_text

abbrev listening : Detector
listening = configure true idle

listens : listening.has_callback ≡ true
unfolding configure idle
listens = refl

abbrev too_early : List (ℕ × DetectorCall)
too_early = (2119, wakes 0) ∷ (2200, sets_null) ∷ []

abbrev too_late : List (ℕ × DetectorCall)
too_late = (2600, sets_pointer (some false)) ∷ (2700, wakes 0) ∷ []

touch_is_answered_example :
    length
      (detector_calls too_late (
        detector_call 2500
          (sets_pointer (some true))
          (detector_calls too_early (notify_direct_touch 2000 listening)))).requests
    ≡ suc (length listening.requests)
unfolding detector_calls detector_call
touch_is_answered_example =
    touch_is_answered 2000 2500 too_early (sets_pointer (some true)) too_late listening listens
      (omega arith) refl (omega arith) refl refl
