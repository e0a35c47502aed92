-- ===== src/Input/Ime/Keys.antt =====
-- The keys that input/remote_ime_client.cpp sends: SendKeyPress, DeleteText, SendEnter and MoveCursor. The
-- session is what answers `SendPlatformKey`, given all that was sent before, newest first. The key codes are
-- those of the platform's header.
use harmony_windows_bridge.Base.{
  ℕ, zero, suc, ◌+◌, ◌≤◌, min, max, ◌≡◌, Bool, true, false, not, ◌&&◌, ◌||◌, List, [], ◌∷◌, arith,
  ◌==◌, if◌then◌else◌, length,
}
use harmony_windows_bridge.Base.Int.{pos_part, ℤ}

-- A key event of OhosKeyEvent, whose other flags are false here, and the session's answer.
pub record KeySent : Type 0 where
  pub key_code : ℕ
  pub down : Bool
  pub ok : Bool

pub record KeyCodes : Type 0 where
  pub key_enter : ℕ
  pub key_dpad_up : ℕ
  pub key_dpad_down : ℕ
  pub key_dpad_left : ℕ
  pub key_dpad_right : ℕ

pub data Direction : Type 0 where
  direction_up : Direction
  direction_down : Direction
  direction_left : Direction
  direction_right : Direction
  other_direction : Direction

module _ (accepts : List KeySent → ℕ → Bool → Bool) where
  abbrev pub send_platform_key : ℕ → Bool → List KeySent → List KeySent × Bool
  send_platform_key code down log =
      let ok = accepts log code down in (record { key_code = code; down = down; ok = ok } ∷ log, ok)

  -- Nothing is sent without a session.
  unfoldable pub send_key_press : Bool → ℕ → List KeySent → List KeySent × Bool
  send_key_press has_session code log =
      if not has_session
      then (log, false)
      else let (pressed, ok) = send_platform_key code true log in
        let released = send_platform_key code false pressed in
        if not ok then (pressed, false) else released

  -- `std::clamp(length, 1, 64)`.
  abbrev pub delete_count : ℤ → ℕ
  delete_count length = min (max (pos_part length) 1) 64

  -- The loop; it returns at the first press that fails.
  unfoldable pub press_times : ℕ → Bool → ℕ → List KeySent → List KeySent
  press_times zero has_session code log = log
  press_times (suc n) has_session code log =
      let (log', ok) = send_key_press has_session code log in
      let rest = press_times n has_session code log' in if not ok then log' else rest

  unfoldable pub delete_text : Bool → ℕ → ℤ → List KeySent → List KeySent
  delete_text has_session code length log = press_times (delete_count length) has_session code log

  unfoldable pub send_enter : KeyCodes → Bool → List KeySent → List KeySent
  send_enter codes has_session log = (send_key_press has_session codes.key_enter log).0

  unfoldable pub move_cursor : KeyCodes → Bool → Direction → List KeySent → List KeySent
  move_cursor codes has_session towards log = elim towards [
    | direction_up ↦ (send_key_press has_session codes.key_dpad_up log).0
    | direction_down ↦ (send_key_press has_session codes.key_dpad_down log).0
    | direction_left ↦ (send_key_press has_session codes.key_dpad_left log).0
    | direction_right ↦ (send_key_press has_session codes.key_dpad_right log).0
    | other_direction ↦ log
  ]

-- The key went down with the session's consent, and the session was not told since that it is up.
unfoldable pub is_stuck : ℕ → List KeySent → Bool
is_stuck code [] = false
is_stuck code (k ∷ log) =
    let before = is_stuck code log in
    if not (k.key_code == code) then before else if k.down then k.ok || before else false

-- The presses of a key that the session accepted.
unfoldable pub presses : ℕ → List KeySent → ℕ
presses code [] = 0
presses code (k ∷ log) =
    let before = presses code log in
    if k.key_code == code && (k.down && k.ok) then before + 1 else before

module _ (accepts : List KeySent → ℕ → Bool → Bool) where
  send_key_press-is_stuck :
      (code key : ℕ) (has_session : Bool) (log : List KeySent)
      → is_stuck code log ≡ false
      → is_stuck code (send_key_press accepts has_session key log).0 ≡ false
  unfolding send_key_press is_stuck
  send_key_press-is_stuck code key has_session log h = ground arith

  send_key_press-presses :
      (key : ℕ) (has_session : Bool) (log : List KeySent)
      → (presses key (send_key_press accepts has_session key log).0 ≤ presses key log + 1)
        × (presses key log ≤ presses key (send_key_press accepts has_session key log).0)
        × ((send_key_press accepts has_session key log).1 ≡ true
            → presses key (send_key_press accepts has_session key log).0 ≡ presses key log + 1)
  unfolding send_key_press presses
  send_key_press-presses key has_session log = ground arith

  send_key_press-ok :
      (key : ℕ) (log : List KeySent)
      → ((log : List KeySent) (code : ℕ) (down : Bool) → accepts log code down ≡ true)
      → (send_key_press accepts true key log).1 ≡ true
  unfolding send_key_press
  send_key_press-ok key log a = rw (a log key true) (a _ key false)

  press_times-is_stuck :
      (n code key : ℕ) (has_session : Bool) (log : List KeySent)
      → is_stuck code log ≡ false
      → is_stuck code (press_times accepts n has_session key log) ≡ false
  unfolding press_times
  press_times-is_stuck zero code key has_session log h = h
  press_times-is_stuck (suc n) code key has_session log h =
      let once = send_key_press-is_stuck code key has_session log h in
      ground (arith, once, press_times-is_stuck n code key has_session _ once)

  press_times-presses :
      (n key : ℕ) (has_session : Bool) (log : List KeySent)
      → presses key (press_times accepts n has_session key log) ≤ presses key log + n
  unfolding press_times
  press_times-presses zero key has_session log = omega arith
  press_times-presses (suc n) key has_session log = ground (
    arith,
    send_key_press-presses key has_session log,
    press_times-presses n key has_session (send_key_press accepts has_session key log).0,
  )

  -- Whatever the session answers, a deletion of any length presses its key 64 times at most, and leaves no
  -- key down that was not: each accepted press is followed by a release.
  pub delete_text_lem :
      (code key : ℕ) (has_session : Bool) (length : ℤ) (log : List KeySent)
      → is_stuck code log ≡ false
      → (is_stuck code (delete_text accepts has_session key length log) ≡ false)
        × (presses key (delete_text accepts has_session key length log) ≤ presses key log + 64)
  unfolding delete_text
  delete_text_lem code key has_session length log h = (
    press_times-is_stuck (delete_count accepts length) code key has_session log h,
    omega (arith, press_times-presses (delete_count accepts length) key has_session log),
  )

  press_times-exact :
      (n key : ℕ) (log : List KeySent)
      → ((log : List KeySent) (code : ℕ) (down : Bool) → accepts log code down ≡ true)
      → presses key (press_times accepts n true key log) ≡ presses key log + n
  unfolding press_times
  press_times-exact zero key log a = omega arith
  press_times-exact (suc n) key log a = ground (
    arith,
    send_key_press-ok key log a,
    send_key_press-presses key true log,
    press_times-exact n key (send_key_press accepts true key log).0 a,
  )

  -- A session that accepts every key gets as many presses of it as the length says, but at least 1 and at
  -- most 64.
  pub delete_text-presses :
      (key : ℕ) (length : ℤ) (log : List KeySent)
      → ((log : List KeySent) (code : ℕ) (down : Bool) → accepts log code down ≡ true)
      → presses key (delete_text accepts true key length log)
        ≡ presses key log + min (max (pos_part length) 1) 64
  unfolding delete_text
  delete_text-presses key length log a =
      press_times-exact (min (max (pos_part length) 1) 64) key log a

  -- Neither does any other key that the input method sends stay down.
  pub move_cursor-is_stuck :
      (codes : KeyCodes) (code : ℕ) (has_session : Bool) (towards : Direction) (log : List KeySent)
      → is_stuck code log ≡ false
      → (is_stuck code (move_cursor accepts codes has_session towards log) ≡ false)
        × (is_stuck code (send_enter accepts codes has_session log) ≡ false)
  unfolding move_cursor send_enter
  move_cursor-is_stuck codes code has_session towards log h = ground (
    arith,
    send_key_press-is_stuck code codes.key_dpad_up has_session log h,
    send_key_press-is_stuck code codes.key_dpad_down has_session log h,
    send_key_press-is_stuck code codes.key_dpad_left has_session log h,
    send_key_press-is_stuck code codes.key_dpad_right has_session log h,
    send_key_press-is_stuck code codes.key_enter has_session log h,
  )
