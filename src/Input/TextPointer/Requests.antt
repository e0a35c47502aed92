-- ===== src/Input/TextPointer/Requests.antt =====
-- How often the keyboard is asked for: input/remote_pointer_text_detector.cpp.
use harmony_windows_bridge.Base.{
  ℕ, ◌+◌, ◌≤◌, Bool, true, false, Option, none, some, List, [], ◌∷◌, arith, ◌==◌, if◌then◌else◌,
  length,
}
use harmony_windows_bridge.Input.TextPointer.{
  Detector, Fallback, idle, take_due, configure, consume_touch_intent_for_ime, pointer_set,
  pointer_set_null, pointer_set_default, notify_direct_touch, reset_detector, woken, fallback_wakes,
}

pub data DetectorCall : Type 0 where
  configures : Bool → DetectorCall
  sets_pointer : Option Bool → DetectorCall
  sets_null : DetectorCall
  sets_default : DetectorCall
  touches : DetectorCall
  wakes : ℕ → DetectorCall
  resets : DetectorCall

unfoldable pub detector_call : ℕ → DetectorCall → Detector → Detector
unfolding configure pointer_set pointer_set_null pointer_set_default notify_direct_touch
    fallback_wakes reset_detector
detector_call now (configures has_callback) s = configure has_callback s
detector_call now (sets_pointer p) s = (pointer_set now p s).0
detector_call now sets_null s = (pointer_set_null s).0
detector_call now sets_default s = (pointer_set_default s).0
detector_call now touches s = notify_direct_touch now s
detector_call now (wakes n) s = fallback_wakes now n s
detector_call now resets s = reset_detector s

unfoldable pub detector_calls : List (ℕ × DetectorCall) → Detector → Detector
unfolding detector_call
detector_calls [] s = s
detector_calls ((now, c) ∷ cs) s = detector_calls cs (detector_call now c s)

abbrev pub is_touch : DetectorCall → Bool
is_touch touches = true
is_touch _ = false

abbrev pub touch_count : List (ℕ × DetectorCall) → ℕ
touch_count [] = 0
touch_count ((now, c) ∷ cs) = (if is_touch c then 1 else 0) + touch_count cs

-- The requests made, and one more while a touch may still make one.
abbrev pub asked : Detector → ℕ
asked s = length s.requests + (if s.touch_intent_deadline_ms == 0 then 0 else 1)

consume-asked :
    (now : ℕ) (b : Bool) (s : Detector) → asked (consume_touch_intent_for_ime now b s) ≤ asked s
unfolding consume_touch_intent_for_ime
consume-asked now b s = ground arith

woken-asked :
    (now : ℕ) (o : Option (Fallback × List Fallback)) (s : Detector)
    → asked (woken now o s) ≤ asked s
woken-asked now none s = omega arith
woken-asked now (some (f, rest)) s =
    consume-asked now f.text_candidate (record s { fallbacks = rest })

pointer_set-asked :
    (now : ℕ) (p : Option Bool) (s : Detector) → asked (pointer_set now p s).0 ≤ asked s
unfolding pointer_set
pointer_set-asked now none s = omega arith
pointer_set-asked now (some b) s = consume-asked now b (record s { text_candidate = b })

call-asked :
    (now : ℕ) (c : DetectorCall) (s : Detector)
    → asked (detector_call now c s) ≤ asked s + touch_count ((now, c) ∷ [])
unfolding detector_call fallback_wakes
call-asked now (configures has_callback) s = omega arith
call-asked now (sets_pointer p) s = omega (arith, pointer_set-asked now p s)
call-asked now sets_null s = omega arith
call-asked now sets_default s = omega arith
call-asked now touches s = ground arith
call-asked now (wakes n) s = omega (arith, woken-asked now (take_due now n s.fallbacks) s)
call-asked now resets s = ground arith

calls-asked :
    (cs : List (ℕ × DetectorCall)) (s : Detector)
    → asked (detector_calls cs s) ≤ asked s + touch_count cs
unfolding detector_calls
calls-asked [] s = omega arith
calls-asked ((now, c) ∷ cs) s =
    omega (arith, call-asked now c s, calls-asked cs (detector_call now c s))

-- Whatever is called, in any order and at any times, no more requests for the keyboard are made than the
-- remote desktop was touched.
pub requests_le_touches :
    (cs : List (ℕ × DetectorCall)) → length (detector_calls cs idle).requests ≤ touch_count cs
unfolding idle
requests_le_touches cs = omega (arith, calls-asked cs idle)
