-- ===== src/Input/TextPointer/Answered.antt =====
-- After a touch was answered: input/remote_pointer_text_detector.cpp.
use harmony_windows_bridge.Input.TextPointer.{
  configure, reset_detector, Fallback, Detector, consume_touch_intent_for_ime, pointer_set,
  pointer_set_null, pointer_set_default, take_due, woken, fallback_wakes,
}
use harmony_windows_bridge.Input.TextPointer.Requests.{
  is_touch, touch_count, DetectorCall, configures, sets_pointer, sets_null, sets_default, touches,
  wakes, resets, detector_call, detector_calls, asked,
}
use harmony_windows_bridge.Base.{
  ℕ, ◌≡◌, refl, Bool, false, Option, none, some, List, [], ◌∷◌, arith, length,
}

-- The touch has been answered: as long as there is no other, nothing more is asked for.
abbrev pub Answered : ℕ → Detector → Type 0
Answered n s = (length s.requests ≡ n) × (s.touch_intent_deadline_ms ≡ 0)

consume-Answered :
    {n : ℕ} (now : ℕ) (b : Bool) (s : Detector)
    → Answered n s
    → Answered n (consume_touch_intent_for_ime now b s)
unfolding consume_touch_intent_for_ime
consume-Answered now b s (l, d) = (ground arith, ground arith)

pub answered : {n : ℕ} (s : Detector) → asked s ≡ n → length s.requests ≡ n → Answered n s
answered s a l = (l, ground arith)

woken-Answered :
    {n : ℕ} (now : ℕ) (o : Option (Fallback × List Fallback)) (s : Detector)
    → Answered n s
    → Answered n (woken now o s)
woken-Answered now none s h = h
woken-Answered now (some (f, rest)) s h =
    consume-Answered now f.text_candidate (record s { fallbacks = rest }) h

call-Answered :
    {n : ℕ} (now : ℕ) (c : DetectorCall) (s : Detector)
    → is_touch c ≡ false
    → Answered n s
    → Answered n (detector_call now c s)
unfolding detector_call fallback_wakes pointer_set pointer_set_null pointer_set_default configure
    reset_detector
call-Answered now (sets_pointer none) s q h = h
call-Answered now (sets_pointer (some b)) s q h =
    consume-Answered now b (record s { text_candidate = b }) h
call-Answered now sets_null s q h = h
call-Answered now sets_default s q h = h
call-Answered now (wakes n) s q h = woken-Answered now (take_due now n s.fallbacks) s h
call-Answered now (configures b) s q h = h
call-Answered now touches s q h = ground arith
call-Answered now resets s q h = (h.0, refl)

pub calls-Answered :
    {n : ℕ} (cs : List (ℕ × DetectorCall)) (s : Detector)
    → touch_count cs ≡ 0
    → Answered n s
    → Answered n (detector_calls cs s)
unfolding detector_calls
calls-Answered [] s q h = h
calls-Answered ((now, c) ∷ cs) s q h =
    calls-Answered cs (detector_call now c s) (ground arith)
      (call-Answered now c s (ground arith) h)
