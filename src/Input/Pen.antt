-- ===== src/Input/Pen.antt =====
-- input/xcomponent_pen.cpp: a pen's events under the mutex, on the map `g_activePens`, and what they do to
-- the buttons held at the remote computer. How the event is read from the component is not modelled, nor is
-- the log. The order in which `std::unordered_map` is walked through is that of the list.
use harmony_windows_bridge.Base.{
  ℕ, ◌≡◌, refl, ◌⊎◌, inl, inr, Bool, true, false, not, ◌&&◌, ◌||◌, List, [], ◌∷◌, arith,
  if◌then◌else◌, Bool-cases,
}
use harmony_windows_bridge.Base.Int.{pos, eq_ℤ, ℤ}
use harmony_windows_bridge.Input.Events.{
  button_up, move, pen_move, flag, make_native_pointer, pen_up, left_button, button_down,
  send_local_pen, LocalPointerAction, Button, Sent, send_native_pointer, unreleased, pen_cancel,
  pen_down, Session, LocalPenEvent, LocalPenAction, right_button, middle_button,
}

pub record PenState (F : Type 0) : Type 0 where
  pub last : LocalPenEvent F
  pub pointer_fallback : Bool

pub data TouchEventType : Type 0 where
  touch_down : TouchEventType
  touch_up : TouchEventType
  touch_move : TouchEventType
  touch_cancel : TouchEventType
  touch_unknown : TouchEventType

unfoldable pub to_pen_action : TouchEventType → LocalPenAction
to_pen_action touch_down = pen_down
to_pen_action touch_up = pen_up
to_pen_action touch_cancel = pen_cancel
to_pen_action touch_move = pen_move
to_pen_action touch_unknown = pen_move

abbrev is_down : LocalPenAction → Bool
is_down pen_down = true
is_down pen_move = false
is_down pen_up = false
is_down pen_cancel = false

-- `Up` or `Cancel`.
abbrev is_end : LocalPenAction → Bool
is_end pen_down = false
is_end pen_move = false
is_end pen_up = true
is_end pen_cancel = true

module _ {F : Type 0} where
  -- `g_activePens[id].pointerFallback`, false where the map gets a new entry.
  unfoldable pub fallback_of : ℤ → List (ℤ × PenState F) → Bool
  fallback_of id [] = false
  fallback_of id ((k, state) ∷ pens) =
      if eq_ℤ k id then state.pointer_fallback else fallback_of id pens

  unfoldable pub put : ℤ → PenState F → List (ℤ × PenState F) → List (ℤ × PenState F)
  put id new_state [] = (id, new_state) ∷ []
  put id new_state ((k, state) ∷ pens) =
      if eq_ℤ k id then (k, new_state) ∷ pens else (k, state) ∷ put id new_state pens

  unfoldable pub erase : ℤ → List (ℤ × PenState F) → List (ℤ × PenState F)
  erase id [] = []
  erase id ((k, state) ∷ pens) = if eq_ℤ k id then pens else (k, state) ∷ erase id pens

  unfoldable pub any_fallback : List (ℤ × PenState F) → Bool
  any_fallback [] = false
  any_fallback ((k, state) ∷ pens) = state.pointer_fallback || any_fallback pens

  put-any_fallback :
      (id : ℤ) (new_state : PenState F) (pens : List (ℤ × PenState F))
      → new_state.pointer_fallback ≡ true
      → any_fallback (put id new_state pens) ≡ true
  unfolding put any_fallback
  put-any_fallback id new_state [] h = ground arith
  put-any_fallback id new_state ((k, state) ∷ pens) h =
      ground (arith, put-any_fallback id new_state pens h)

  put-keeps_any :
      (id : ℤ) (new_state : PenState F) (pens : List (ℤ × PenState F))
      → fallback_of id pens ≡ false
      → any_fallback pens ≡ true
      → any_fallback (put id new_state pens) ≡ true
  unfolding put any_fallback fallback_of
  put-keeps_any id new_state [] e h = ground arith
  put-keeps_any id new_state ((k, state) ∷ pens) e h =
      ground (arith, put-keeps_any id new_state pens)

  erase-keeps_any :
      (id : ℤ) (pens : List (ℤ × PenState F))
      → fallback_of id pens ≡ false
      → any_fallback pens ≡ true
      → any_fallback (erase id pens) ≡ true
  unfolding erase any_fallback fallback_of
  erase-keeps_any id [] e h = h
  erase-keeps_any id ((k, state) ∷ pens) e h = ground (arith, erase-keeps_any id pens)

module _ {F : Type 0} (round : F → ℕ) (float_of : ℕ → F) (s : Session F) where
  abbrev fallback_action : LocalPenAction → LocalPointerAction
  fallback_action pen_down = button_down
  fallback_action pen_move = move
  fallback_action pen_up = button_up
  fallback_action pen_cancel = button_up

  -- `SendPointerFallback` with `wasFallback` true, as both callers have it.
  unfoldable pub send_pointer_fallback : LocalPenEvent F → List (Sent F) → List (Sent F)
  unfolding send_native_pointer
  send_pointer_fallback p log =
      (send_native_pointer s
        (make_native_pointer round (fallback_action p.action) (float_of p.x) (float_of p.y)
          (flag left_button) (pos 0) (not (is_down p.action)))
        log).0

  unfoldable pub dispatch_pen :
      ℤ
      → LocalPenEvent F
      → List (ℤ × PenState F)
      → List (Sent F)
      → List (ℤ × PenState F) × List (Sent F)
  dispatch_pen id p pens log =
      let was = fallback_of id pens in
      let (log', ok) = send_local_pen s p log in
      let fallback = was || (not ok && is_down p.action) in
      let sent = if was then log else log' in
      (
        if is_end p.action
            then erase id pens
            else put id (record { last = p; pointer_fallback = fallback }) pens,
        if fallback then send_pointer_fallback p sent else sent,
      )

  abbrev cancelled : LocalPenEvent F → LocalPenEvent F
  cancelled p = record p { action = pen_cancel; allow_clamp = true }

  unfoldable pub cancel_each : List (ℤ × PenState F) → List (Sent F) → List (Sent F)
  cancel_each [] log = log
  cancel_each ((k, state) ∷ pens) log = cancel_each pens (
      if state.pointer_fallback
      then send_pointer_fallback (cancelled state.last) log
      else (send_local_pen s (cancelled state.last) log).0)

  -- The map is cleared.
  unfoldable pub cancel_pen_input :
      List (ℤ × PenState F) → List (Sent F) → List (ℤ × PenState F) × List (Sent F)
  cancel_pen_input pens log = ([], cancel_each pens log)

  -- A button unreleased after the call is the left button of a pen that falls back on the pointer, or was
  -- unreleased before.
  abbrev pub PenKeeps :
      Button
      → List (ℤ × PenState F)
      → List (Sent F)
      → List (ℤ × PenState F)
      → List (Sent F)
      → Type 0
  PenKeeps b pens log pens' log' =
      unreleased b log' ≡ true
      → ((b ≡ left_button) × (any_fallback pens' ≡ true))
        ⊎ ((unreleased b log ≡ true)
            × (b ≡ left_button → any_fallback pens ≡ true → any_fallback pens' ≡ true))

  -- Each send's own effect.
  fallback-unreleased :
      (b : Button) (p : LocalPenEvent F) (log : List (Sent F))
      → unreleased b (send_pointer_fallback p log) ≡ true
      → ((b ≡ left_button) × (p.action ≡ pen_down))
        ⊎ ((unreleased b log ≡ true) × (b ≡ left_button → is_end p.action ≡ false))
  unfolding unreleased send_pointer_fallback
  fallback-unreleased left_button p log h = ground arith
  fallback-unreleased right_button p log h = ground arith
  fallback-unreleased middle_button p log h = ground arith

  pen-unreleased :
      (b : Button) (p : LocalPenEvent F) (log : List (Sent F))
      → unreleased b (send_local_pen s p log).0 ≡ unreleased b log
  unfolding unreleased send_local_pen
  pen-unreleased b p log = refl

  cancel_each-unreleased :
      (b : Button) (pens : List (ℤ × PenState F)) (log : List (Sent F))
      → unreleased b (cancel_each pens log) ≡ true
      → (unreleased b log ≡ true) × (b ≡ left_button → any_fallback pens ≡ false)
  unfolding cancel_each any_fallback
  cancel_each-unreleased b [] log h = (h, λ _. refl)
  cancel_each-unreleased b ((k, state) ∷ pens) log h = ground (
    arith,
    cancel_each-unreleased b pens _ h,
    fallback-unreleased b (cancelled state.last) log,
    pen-unreleased b (cancelled state.last) log,
  )

  -- One call on a pen that falls back already.
  fallen-PenKeeps :
      (b : Button) (id : ℤ) (p : LocalPenEvent F) (pens : List (ℤ × PenState F))
      (log : List (Sent F))
      → fallback_of id pens ≡ true
      → PenKeeps b pens log (dispatch_pen id p pens log).0 (dispatch_pen id p pens log).1
  unfolding dispatch_pen
  fallen-PenKeeps b id p pens log e h = ground (
    arith,
    fallback-unreleased b p log,
    put-any_fallback id (record { last = p; pointer_fallback = true }) pens refl,
  )

  fresh-PenKeeps :
      (b : Button) (id : ℤ) (p : LocalPenEvent F) (pens : List (ℤ × PenState F))
      (log : List (Sent F))
      → fallback_of id pens ≡ false
      → PenKeeps b pens log (dispatch_pen id p pens log).0 (dispatch_pen id p pens log).1
  unfolding dispatch_pen
  fresh-PenKeeps b id p pens log e h = ground (
    arith,
    fallback-unreleased b p (send_local_pen s p log).0,
    pen-unreleased b p log,
    put-any_fallback id (record { last = p; pointer_fallback = true }) pens refl,
    put-keeps_any id (record { last = p; pointer_fallback = false }) pens e,
    erase-keeps_any id pens e,
  )

  pub dispatch_pen-PenKeeps :
      (b : Button) (id : ℤ) (p : LocalPenEvent F) (pens : List (ℤ × PenState F))
      (log : List (Sent F))
      → PenKeeps b pens log (dispatch_pen id p pens log).0 (dispatch_pen id p pens log).1
  dispatch_pen-PenKeeps b id p pens log = elim (Bool-cases (fallback_of id pens)) [
    | inl e ↦ fallen-PenKeeps b id p pens log e
    | inr e ↦ fresh-PenKeeps b id p pens log e
  ]

  pub cancel_pen_input-PenKeeps :
      (b : Button) (pens : List (ℤ × PenState F)) (log : List (Sent F))
      → unreleased b (cancel_pen_input pens log).1 ≡ true
      → (unreleased b log ≡ true) × (b ≡ left_button → any_fallback pens ≡ false)
  unfolding cancel_pen_input
  cancel_pen_input-PenKeeps b pens log h = cancel_each-unreleased b pens log h
