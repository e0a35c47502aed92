-- ===== src/Input/TextPointer/Answers.antt =====
-- A touch is answered by the pointer or by its thread: input/remote_pointer_text_detector.cpp.
use harmony_windows_bridge.Input.TextPointer.Answered.{calls-Answered, answered}
use harmony_windows_bridge.Input.TextPointer.{
  direct_touch_intent_ms, Fallback, Detector, consume_touch_intent_for_ime, pointer_set,
  pointer_set_null, pointer_set_default, notify_direct_touch, take_due, woken, fallback_wakes,
}
use harmony_windows_bridge.Input.TextPointer.Requests.{
  touch_count, DetectorCall, configures, sets_pointer, sets_null, sets_default, touches, wakes,
  resets, detector_call, detector_calls, asked,
}
use harmony_windows_bridge.Base.{
  ℕ, suc, ◌+◌, ◌^◌, ◌≤◌, ◌<◌, ◌≡◌, refl, ◌⊎◌, inl, inr, Bool, true, false, ◌&&◌, Option, none, some,
  List, [], ◌∷◌, arith, leb, length,
}
use harmony_windows_bridge.Base.Word.{u64}

-- Calls that leave the callback and the deadline to the pointer and the threads, up to the deadline.
abbrev pub is_quiet : DetectorCall → Bool
is_quiet (sets_pointer p) = true
is_quiet sets_null = true
is_quiet sets_default = true
is_quiet (wakes n) = true
is_quiet _ = false

abbrev pub quiet_until : ℕ → List (ℕ × DetectorCall) → Bool
quiet_until t [] = true
quiet_until t ((now, c) ∷ cs) = leb now t && is_quiet c && quiet_until t cs

-- One request more than `n` was made, or it will be, with the deadline `t`.
abbrev Awaits : ℕ → ℕ → Detector → Type 0
Awaits n t s =
    (s.has_callback ≡ true)
    × (asked s ≡ suc n)
    × ((s.touch_intent_deadline_ms ≡ 0) ⊎ (s.touch_intent_deadline_ms ≡ t))

consume-Awaits :
    {n : ℕ} {t : ℕ} (now : ℕ) (b : Bool) (s : Detector)
    → now ≤ t
    → Awaits n t s
    → Awaits n t (consume_touch_intent_for_ime now b s)
unfolding consume_touch_intent_for_ime
consume-Awaits now b s le (cb, a, inl d) = (ground arith, ground arith, inl (ground arith))
consume-Awaits now b s le (cb, a, inr d) = (ground arith, ground arith, ground arith)

consumed :
    {n : ℕ} {t : ℕ} (now : ℕ) (b : Bool) (s : Detector)
    → now ≤ t
    → Awaits n t s
    → length (consume_touch_intent_for_ime now b s).requests ≡ suc n
unfolding consume_touch_intent_for_ime
consumed now b s le (cb, a, inl d) = ground arith
consumed now b s le (cb, a, inr d) = ground arith

woken-Awaits :
    {n : ℕ} {t : ℕ} (now : ℕ) (o : Option (Fallback × List Fallback)) (s : Detector)
    → now ≤ t
    → Awaits n t s
    → Awaits n t (woken now o s)
woken-Awaits now none s le h = h
woken-Awaits now (some (f, rest)) s le h =
    consume-Awaits now f.text_candidate (record s { fallbacks = rest }) le h

pointer_set-Awaits :
    {n : ℕ} {t : ℕ} (now : ℕ) (p : Option Bool) (s : Detector)
    → now ≤ t
    → Awaits n t s
    → Awaits n t (pointer_set now p s).0
unfolding pointer_set
pointer_set-Awaits now none s le h = h
pointer_set-Awaits now (some b) s le h = consume-Awaits now b (record s { text_candidate = b }) le h

call-Awaits :
    {n : ℕ} {t : ℕ} (now : ℕ) (c : DetectorCall) (s : Detector)
    → now ≤ t
    → is_quiet c ≡ true
    → Awaits n t s
    → Awaits n t (detector_call now c s)
unfolding detector_call fallback_wakes pointer_set_null pointer_set_default
call-Awaits now (sets_pointer p) s le q h = pointer_set-Awaits now p s le h
call-Awaits now sets_null s le q h = h
call-Awaits now sets_default s le q h = h
call-Awaits now (wakes n) s le q h = woken-Awaits now (take_due now n s.fallbacks) s le h
call-Awaits now (configures b) s le q h = ground arith
call-Awaits now touches s le q h = ground arith
call-Awaits now resets s le q h = ground arith

calls-Awaits :
    {n : ℕ} (t : ℕ) (cs : List (ℕ × DetectorCall)) (s : Detector)
    → quiet_until t cs ≡ true
    → Awaits n t s
    → Awaits n t (detector_calls cs s)
unfolding detector_calls
calls-Awaits t [] s q h = h
calls-Awaits t ((now, c) ∷ cs) s q h =
    calls-Awaits t cs (detector_call now c s) (ground arith)
      (call-Awaits now c s (ground arith) (ground arith) h)

abbrev pub is_found : Option (Fallback × List Fallback) → Bool
is_found none = false
is_found (some x) = true

-- Whether the call is one of a pointer's shape, or of a thread that has slept long enough.
abbrev pub judges : ℕ → DetectorCall → Detector → Bool
judges now (sets_pointer (some b)) s = true
judges now (wakes n) s = is_found (take_due now n s.fallbacks)
judges now _ s = false

woken_found :
    {n : ℕ} {t : ℕ} (now : ℕ) (o : Option (Fallback × List Fallback)) (s : Detector)
    → now ≤ t
    → is_found o ≡ true
    → Awaits n t s
    → length (woken now o s).requests ≡ suc n
woken_found now none s le j h = ground arith
woken_found now (some (f, rest)) s le j h =
    consumed now f.text_candidate (record s { fallbacks = rest }) le h

judging-asked :
    {n : ℕ} {t : ℕ} (now : ℕ) (c : DetectorCall) (s : Detector)
    → now ≤ t
    → judges now c s ≡ true
    → Awaits n t s
    → length (detector_call now c s).requests ≡ suc n
unfolding detector_call fallback_wakes pointer_set
judging-asked now (sets_pointer (some b)) s le j h =
    consumed now b (record s { text_candidate = b }) le h
judging-asked now (wakes n) s le j h = woken_found now (take_due now n s.fallbacks) s le j h
judging-asked now (sets_pointer none) s le j h = ground arith
judging-asked now sets_null s le j h = ground arith
judging-asked now sets_default s le j h = ground arith
judging-asked now (configures b) s le j h = ground arith
judging-asked now touches s le j h = ground arith
judging-asked now resets s le j h = ground arith

judged-Awaits :
    {n : ℕ} {t : ℕ} (now : ℕ) (c : DetectorCall) (s : Detector)
    → now ≤ t
    → judges now c s ≡ true
    → Awaits n t s
    → Awaits n t (detector_call now c s)
judged-Awaits now (sets_pointer p) s le j h = call-Awaits now (sets_pointer p) s le refl h
judged-Awaits now (wakes n) s le j h = call-Awaits now (wakes n) s le refl h
judged-Awaits now sets_null s le j h = ground arith
judged-Awaits now sets_default s le j h = ground arith
judged-Awaits now (configures b) s le j h = ground arith
judged-Awaits now touches s le j h = ground arith
judged-Awaits now resets s le j h = ground arith

touched-Awaits :
    (now : ℕ) (s : Detector)
    → s.has_callback ≡ true
    → now + direct_touch_intent_ms < 2 ^ 64
    → Awaits (length s.requests) (now + direct_touch_intent_ms) (notify_direct_touch now s)
unfolding notify_direct_touch
touched-Awaits now s cb b =
    let kept : u64 (now + direct_touch_intent_ms) ≡ now + direct_touch_intent_ms = omega arith in
    (cb, ground arith, inr kept)

-- A touch is answered once: let a callback be set, and let only pointers be set and threads wake up in the
-- 900 ms after the touch, up to a call that sets a pointer's shape or wakes a thread that has slept. Then
-- exactly one more request for the keyboard has been made, whatever calls of these came before it, and
-- however many calls but touches come after it.
pub touch_is_answered :
    (now : ℕ) (later : ℕ) (before : List (ℕ × DetectorCall)) (c : DetectorCall)
    (after : List (ℕ × DetectorCall)) (s : Detector)
    → s.has_callback ≡ true
    → now + direct_touch_intent_ms < 2 ^ 64
    → quiet_until (now + direct_touch_intent_ms) before ≡ true
    → later ≤ now + direct_touch_intent_ms
    → judges later c (detector_calls before (notify_direct_touch now s)) ≡ true
    → touch_count after ≡ 0
    → length
        (detector_calls after
          (detector_call later c (detector_calls before (notify_direct_touch now s)))).requests
      ≡ suc (length s.requests)
touch_is_answered now later before c after s cb b q le j n =
    let s' : Detector = detector_calls before (notify_direct_touch now s) in
    let h =
      calls-Awaits (now + direct_touch_intent_ms) before (notify_direct_touch now s) q
        (touched-Awaits now s cb b) in
    (calls-Answered after (detector_call later c s') n (
      answered (detector_call later c s') (judged-Awaits later c s' le j h).1
        (judging-asked later c s' le j h))).0
