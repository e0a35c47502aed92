-- ===== src/Input/TextPointer.antt =====
-- input/remote_pointer_text_detector.cpp: a touch on the remote desktop asks for the keyboard to be shown or
-- hidden, as the shape of the remote pointer is one for text or not. Times are those of MonotonicMs. A call is
-- one step: one that comes between the load of the deadline and the exchange after it is not modelled, and
-- neither is the log.
pub mod Answered
pub mod Answers
pub mod Requests
use harmony_windows_bridge.Input.TextPolicy.{is_remote_text_pointer_candidate}
use harmony_windows_bridge.Base.{
  ℕ, zero, suc, ◌+◌, ◌*◌, Bool, true, false, not, ◌||◌, Option, none, some, List, [], ◌∷◌, ltb, leb,
  ◌==◌, if◌then◌else◌,
}
use harmony_windows_bridge.Base.Word.{u64}

abbrev pub direct_touch_intent_ms : ℕ
direct_touch_intent_ms = 900

abbrev pub pointer_shape_fallback_ms : ℕ
pointer_shape_fallback_ms = 120

-- A thread of NotifyRemotePointerDirectTouch that sleeps until `due`.
pub record Fallback : Type 0 where
  pub due : ℕ
  pub text_candidate : Bool

-- `has_callback` is whether g_requestImeVisibility is set, `requests` what it was called with, newest first.
pub record Detector : Type 0 where
  pub has_callback : Bool
  pub text_candidate : Bool
  pub touch_intent_deadline_ms : ℕ
  pub fallbacks : List Fallback
  pub requests : List Bool

unfoldable pub idle : Detector
idle = record {
  has_callback = false;
  text_candidate = false;
  touch_intent_deadline_ms = 0;
  fallbacks = [];
  requests = [];
}

unfoldable pub configure : Bool → Detector → Detector
configure has_callback s = record s { has_callback = has_callback }

-- The answer of the callback is not used by its callers.
unfoldable pub consume_touch_intent_for_ime : ℕ → Bool → Detector → Detector
consume_touch_intent_for_ime now text_candidate s =
    if s.touch_intent_deadline_ms == 0 || ltb s.touch_intent_deadline_ms now
    then s
    else if s.has_callback
    then record s { touch_intent_deadline_ms = 0; requests = text_candidate ∷ s.requests }
    else record s { touch_intent_deadline_ms = 0 }

-- What PointerNew reads of an rdpPointer besides its masks.
pub record RdpPointer : Type 0 where
  pub width : ℕ
  pub height : ℕ
  pub x_pos : ℕ
  pub y_pos : ℕ

-- The flag of a new pointer, or `none` where FALSE is returned. `convert` is imageCopyFromPointerData, which
-- makes the picture of the masks or fails.
unfoldable pub pointer_new :
    (has_gdi has_convert : Bool) (convert : RdpPointer → Option (ℕ → ℕ))
    (pointer : Option RdpPointer)
    → Option Bool
unfolding is_remote_text_pointer_candidate
pointer_new has_gdi has_convert convert none = none
pointer_new has_gdi has_convert convert (some p) =
    if not has_gdi
      || not has_convert
      || p.width == 0
      || p.height == 0
      || ltb 256 p.width
      || ltb 256 p.height
    then none
    else elim (convert p) [
      | none ↦ none
      | some rgba ↦
          some
            (is_remote_text_pointer_candidate (some rgba) p.width p.height (p.width * 4) p.x_pos
              p.y_pos).0
    ]

-- `none` is a null pointer; otherwise whether the pointer is one for text.
unfoldable pub pointer_set : ℕ → Option Bool → Detector → Detector × Bool
unfolding consume_touch_intent_for_ime
pointer_set now none s = (s, false)
pointer_set now (some text_candidate) s = (
  consume_touch_intent_for_ime now text_candidate (record s { text_candidate = text_candidate }),
  true,
)

unfoldable pub pointer_set_null : Detector → Detector × Bool
pointer_set_null s = (record s { text_candidate = false }, true)

unfoldable pub pointer_set_default : Detector → Detector × Bool
pointer_set_default s = (record s { text_candidate = false }, true)

unfoldable pub notify_direct_touch : ℕ → Detector → Detector
notify_direct_touch now s =
    let fallback : Fallback = record {
      due = now + pointer_shape_fallback_ms;
      text_candidate = s.text_candidate;
    } in
    record s {
      touch_intent_deadline_ms = u64 (now + direct_touch_intent_ms);
      fallbacks = fallback ∷ s.fallbacks;
    }

unfoldable pub reset_detector : Detector → Detector
reset_detector s = record s { text_candidate = false; touch_intent_deadline_ms = 0 }

-- The threads are numbered from the newest; the one at `n` and the others, when it may have woken up.
abbrev pub take_due : ℕ → ℕ → List Fallback → Option (Fallback × List Fallback)
take_due now n [] = none
take_due now zero (f ∷ fs) = if leb f.due now then some (f, fs) else none
take_due now (suc n) (f ∷ fs) = elim (take_due now n fs) [
  | none ↦ none
  | some (woken, rest) ↦ some (woken, f ∷ rest)
]

abbrev pub woken : ℕ → Option (Fallback × List Fallback) → Detector → Detector
woken now none s = s
woken now (some (f, rest)) s =
    consume_touch_intent_for_ime now f.text_candidate (record s { fallbacks = rest })

-- The threads may wake up in any order.
unfoldable pub fallback_wakes : ℕ → ℕ → Detector → Detector
unfolding consume_touch_intent_for_ime
fallback_wakes now n s = woken now (take_due now n s.fallbacks) s
