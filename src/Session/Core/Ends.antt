-- ===== src/Session/Core/Ends.antt =====
-- The worker of session/rdp_session_core.cpp returns: its loops and its attempts are bounded.
use harmony_windows_bridge.Session.Core.{
  Progress, not_connected, shows_nothing, waits_for_login, shows_desktop, announces, focuses, Phase,
  absent, begins, checks_tcp, pauses, authenticates, waits, dozes, chooses, attempts, attempted,
  past_the_end, finishes, Core, request_disconnect,
}
use harmony_windows_bridge.Session.Core.Worker.{
  login_waits, desktop_is_ready, announce, focus, mark_login_waiting, mark_desktop_ready,
  AttemptEvent, on_connected, pump_input, ended, World, mode_at, or_empty, is_large, cancelled_end,
  failed_end, if_running, wait, first_attempt, choose, on_connected_callback, attempt_step,
  after_attempt, finish, step_at, worker_step,
}
use harmony_windows_bridge.Base.{
  ℕ, zero, suc, ◌+◌, ◌-◌, ◌*◌, ◌/◌, ◌≤◌, ◌<◌, ◌≡◌, refl, ◌⊎◌, inl, inr, Bool, true, false, not,
  ◌||◌, some, List, [], ◌∷◌, ◌++◌, arith, ltb, leb, if◌then◌else◌, Bool-cases, Option-cases, length,
  All,
}
use harmony_windows_bridge.Session.Input.{FreerdpRuntimeApi}
use harmony_windows_bridge.Session.Graphics.{
  GraphicsHelpers, RdpSessionRunResult, build_graphics_fallback_modes,
  should_retry_graphics_fallback,
}
use harmony_windows_bridge.Text.{is_auto_resolution, bytes}
use harmony_windows_bridge.Session.Core.Run.{
  act, Action, works, connects, requests_disconnect, sends, run,
}
use harmony_windows_bridge.Session.Core.Sends.Kept.{send-keeps}
use harmony_windows_bridge.Session.Core.Sends.{send}

-- How many steps the worker has left at most: `n` is the number of modes that it will find and `m` the
-- number of those that it found.
abbrev pub rank_at : (n m : ℕ) → Phase → ℕ
rank_at n m absent = 0
rank_at n m begins = 2 * n + 270
rank_at n m checks_tcp = 2 * n + 269
rank_at n m (pauses false elapsed) = 2 * n + 258 + (274 - elapsed) / 25
rank_at n m (pauses true elapsed) = 2 * n + 247 + (274 - elapsed) / 25
rank_at n m authenticates = 2 * n + 246
rank_at n m (waits elapsed) = 2 * n + 5 + 4 * ((3049 - elapsed) / 50)
rank_at n m (dozes elapsed slept) =
    2 * n + 5 + 4 * ((3049 - elapsed) / 50 - 1) + 1 + (74 - slept) / 25
rank_at n m chooses = 2 * n + 4
rank_at n m (attempts attempt g) = 2 * (m - attempt) + 3
rank_at n m (announces attempt) = 2 * (m - attempt) + 3
rank_at n m (focuses attempt) = 2 * (m - attempt) + 3
rank_at n m (attempted attempt c session) = 2 * (m - attempt) + 2
rank_at n m past_the_end = 0
rank_at n m (finishes session) = 1

-- A step in which the FreeRDP session calls back and goes on.
abbrev pub is_callback_event : AttemptEvent → Bool
is_callback_event on_connected = true
is_callback_event pump_input = true
is_callback_event login_waits = true
is_callback_event desktop_is_ready = true
is_callback_event (ended e) = false

abbrev pub is_callback : World → Phase → Bool
is_callback w (attempts attempt g) = is_callback_event w.event
is_callback w (announces attempt) = true
is_callback w (focuses attempt) = true
is_callback w _ = false

abbrev pub is_halted : Phase → Bool
is_halted absent = true
is_halted past_the_end = true
is_halted _ = false

pub rank-halted : (n m : ℕ) (p : Phase) → rank_at n m p ≡ 0 → (p ≡ absent) ⊎ (p ≡ past_the_end)
rank-halted n m absent e = inl refl
rank-halted n m past_the_end e = inr refl
rank-halted n m begins e = absurd (omega (arith, e))
rank-halted n m checks_tcp e = absurd (omega (arith, e))
rank-halted n m (pauses false elapsed) e = absurd (omega (arith, e))
rank-halted n m (pauses true elapsed) e = absurd (omega (arith, e))
rank-halted n m authenticates e = absurd (omega (arith, e))
rank-halted n m (waits elapsed) e = absurd (omega (arith, e))
rank-halted n m (dozes elapsed slept) e = absurd (omega (arith, e))
rank-halted n m chooses e = absurd (omega (arith, e))
rank-halted n m (attempts attempt g) e = absurd (omega (arith, e))
rank-halted n m (announces attempt) e = absurd (omega (arith, e))
rank-halted n m (focuses attempt) e = absurd (omega (arith, e))
rank-halted n m (attempted attempt c session) e = absurd (omega (arith, e))
rank-halted n m (finishes session) e = absurd (omega (arith, e))

abbrev pub is_connect : Action → Bool
is_connect (connects next_id p) = true
is_connect _ = false

module _ {Q : Type 0} (api : FreerdpRuntimeApi Q) (helpers : GraphicsHelpers) where
  abbrev pub mode_count : Core Q → ℕ
  mode_count s = length (build_graphics_fallback_modes helpers s.params.graphics_mode)

  abbrev pub rank : Core Q → ℕ
  rank s = rank_at (mode_count s) (length s.graphics_modes) s.phase

  rank-if :
      (b : Bool) (x y : Core Q) (k : ℕ)
      → (b ≡ true → rank x < k)
      → (b ≡ false → rank y < k)
      → rank (if b then x else y) < k
  rank-if true x y k p q = p refl
  rank-if false x y k p q = q refl

  -- The worker goes on or returns.
  rank-if_running : (next s : Core Q) (k : ℕ) → rank next < k → rank (if_running next s) < k
  rank-if_running next s k p =
      rank-if s.running next (cancelled_end s) k (λ e. p) (λ e. omega (arith, p))

  first_attempt-shortens :
      (modes : List (List ℕ)) (s : Core Q) → rank (first_attempt modes s) < 2 * length modes + 4
  first_attempt-shortens [] s = omega arith
  first_attempt-shortens (mode ∷ modes) s = omega arith

  mode_at-range :
      (n : ℕ) (modes : List (List ℕ)) (mode : List ℕ)
      → mode_at n modes ≡ some mode
      → n < length modes
  unfolding mode_at
  mode_at-range n [] mode e = ground (arith, e)
  mode_at-range zero (m ∷ modes) mode e = omega arith
  mode_at-range (suc n) (m ∷ modes) mode e = omega (arith, mode_at-range n modes mode e)

  after_attempt-shortens :
      (attempt : ℕ) (c : Bool) (r : RdpSessionRunResult) (s : Core Q)
      → rank (after_attempt helpers attempt c r s) < 2 * (length s.graphics_modes - attempt) + 2
  unfolding after_attempt
  after_attempt-shortens attempt c r s =
      let mode = or_empty (mode_at attempt s.graphics_modes) in
      let count = length s.graphics_modes in
      rank-if (r.cancelled || not s.running) _ _ _ (λ e. omega arith)
        (λ e.
          rank-if (should_retry_graphics_fallback helpers r c mode attempt count) _ _ _
            (λ e. elim (Option-cases (mode_at (attempt + 1) s.graphics_modes)) [
              | inl n ↦ rw n (omega arith)
              | inr (next, n) ↦
                  rw n (omega (arith, mode_at-range (attempt + 1) s.graphics_modes next n))
            ])
            (λ e. omega arith))

  attempt-shortens :
      (e : AttemptEvent) (attempt : ℕ) (c : Progress) (s : Core Q)
      → is_callback_event e ≡ false
      → rank (attempt_step api e attempt c s) < 2 * (length s.graphics_modes - attempt) + 3
  unfolding attempt_step
  attempt-shortens on_connected attempt c s f = ground (arith, f)
  attempt-shortens pump_input attempt c s f = ground (arith, f)
  attempt-shortens login_waits attempt c s f = ground (arith, f)
  attempt-shortens desktop_is_ready attempt c s f = ground (arith, f)
  attempt-shortens (ended e) attempt c s f = omega arith

  marks-stay :
      (attempt : ℕ) (g : Progress) (s : Core Q)
      → s.phase ≡ attempts attempt g
      → (rank (mark_login_waiting attempt g s) ≤ 2 * (length s.graphics_modes - attempt) + 3)
        × (rank (mark_desktop_ready attempt g s) ≤ 2 * (length s.graphics_modes - attempt) + 3)
  marks-stay attempt not_connected s q = (rw q (omega arith), rw q (omega arith))
  marks-stay attempt shows_nothing s q = (omega arith, omega arith)
  marks-stay attempt waits_for_login s q = (rw q (omega arith), omega arith)
  marks-stay attempt shows_desktop s q = (rw q (omega arith), rw q (omega arith))

  -- A callback leaves the worker where it is.
  attempt-stays :
      (e : AttemptEvent) (attempt : ℕ) (c : Progress) (s : Core Q)
      → s.phase ≡ attempts attempt c
      → rank (attempt_step api e attempt c s) ≤ 2 * (length s.graphics_modes - attempt) + 3
  unfolding attempt_step on_connected_callback
  attempt-stays on_connected attempt c s q = omega arith
  attempt-stays pump_input attempt c s q = rw q (omega arith)
  attempt-stays login_waits attempt c s q = (marks-stay attempt c s q).0
  attempt-stays desktop_is_ready attempt c s q = (marks-stay attempt c s q).1
  attempt-stays (ended e) attempt c s q = omega arith

  step_at-shortens :
      (w : World) (p : Phase) (s : Core Q)
      → is_callback w p ≡ false
      → is_halted p ≡ false
      → rank (step_at api helpers w p s) < rank_at (mode_count s) (length s.graphics_modes) p
  unfolding step_at wait choose attempt_step finish
  step_at-shortens w absent s f a = ground (arith, a)
  step_at-shortens w begins s f a = rank-if_running _ s _ (omega arith)
  step_at-shortens w checks_tcp s f a = rank-if_running _ s _ (
      rank-if w.tcp_ok _ (failed_end (bytes "tcp check failed: " ++ w.tcp_message) s) _
        (λ e. omega arith) (λ e. omega arith))
  step_at-shortens w (pauses false elapsed) s f a =
      rank-if_running _ s _
        (rank-if (ltb elapsed 250) _ _ _ (λ e. ground (arith, e)) (λ e. omega arith))
  step_at-shortens w (pauses true elapsed) s f a =
      rank-if_running _ s _
        (rank-if (ltb elapsed 250) _ _ _ (λ e. ground (arith, e)) (λ e. omega arith))
  step_at-shortens w authenticates s f a =
      rank-if (is_auto_resolution s.params.resolution) _ _ _ (λ e. omega arith) (λ e. omega arith)
  step_at-shortens w (waits elapsed) s f a =
      rank-if (not s.running) _ _ _ (λ e. omega arith)
        (λ e.
          rank-if (is_large w.surface) _ _ _ (λ e. omega arith)
            (λ e. rank-if (leb 3000 elapsed) _ _ _ (λ e. omega arith) (λ e. ground (arith, e))))
  step_at-shortens w (dozes elapsed slept) s f a =
      rank-if_running _ s _
        (rank-if (ltb slept 50) _ _ _ (λ e. ground (arith, e)) (λ e. omega arith))
  step_at-shortens w chooses s f a = first_attempt-shortens _ s
  step_at-shortens w (attempts attempt c) s f a = attempt-shortens w.event attempt c s f
  step_at-shortens w (announces attempt) s f a = ground (arith, f)
  step_at-shortens w (focuses attempt) s f a = ground (arith, f)
  step_at-shortens w (attempted attempt c r) s f a = after_attempt-shortens attempt c r s
  step_at-shortens w past_the_end s f a = ground (arith, a)
  step_at-shortens w (finishes r) s f a =
      rank-if (r.cancelled || not s.running) _ _ _ (λ e. omega arith)
        (λ e. rank-if r.failed _ _ _ (λ e. omega arith) (λ e. omega arith))

  -- A step of the worker that is not a callback, until it has returned.
  abbrev pub tick : Action → Core Q → ℕ
  tick (works w) s = if is_callback w s.phase then 0 else 1
  tick _ s = 0

  abbrev pub ticks : List Action → Core Q → ℕ
  ticks [] s = 0
  ticks (a ∷ actions) s = tick a s + ticks actions (act api helpers a s)

  step-ranks :
      (w : World) (p : Phase) (s : Core Q)
      → is_callback w p ≡ false
      → is_halted p ≡ false
      → rank (step_at api helpers w p s) + 1 ≤ rank_at (mode_count s) (length s.graphics_modes) p
  step-ranks w p s f a = omega (arith, step_at-shortens w p s f a)

  callback-ranks :
      (w : World) (attempt : ℕ) (c : Progress) (s : Core Q)
      → s.phase ≡ attempts attempt c
      → rank (attempt_step api w.event attempt c s)
        ≤ 2 * (length s.graphics_modes - attempt) + 3 - (if is_callback_event w.event then 0 else 1)
  callback-ranks w attempt c s q = elim (Bool-cases (is_callback_event w.event)) [
    | inl f ↦ rw f (omega (arith, attempt-stays w.event attempt c s q))
    | inr f ↦ rw f (omega (arith, attempt-shortens w.event attempt c s f))
  ]

  step_at-rank :
      (w : World) (p : Phase) (s : Core Q)
      → s.phase ≡ p
      → rank (step_at api helpers w p s)
        ≤ rank_at (mode_count s) (length s.graphics_modes) p - (if is_callback w p then 0 else 1)
  unfolding step_at announce focus
  step_at-rank w absent s q = rw q (omega arith)
  step_at-rank w past_the_end s q = rw q (omega arith)
  step_at-rank w (attempts attempt c) s q = callback-ranks w attempt c s q
  step_at-rank w (announces attempt) s q = omega arith
  step_at-rank w (focuses attempt) s q = omega arith
  step_at-rank w begins s q = omega (arith, step-ranks w begins s refl refl)
  step_at-rank w checks_tcp s q = omega (arith, step-ranks w checks_tcp s refl refl)
  step_at-rank w (pauses second e) s q = omega (arith, step-ranks w (pauses second e) s refl refl)
  step_at-rank w authenticates s q = omega (arith, step-ranks w authenticates s refl refl)
  step_at-rank w (waits e) s q = omega (arith, step-ranks w (waits e) s refl refl)
  step_at-rank w (dozes e slept) s q = omega (arith, step-ranks w (dozes e slept) s refl refl)
  step_at-rank w chooses s q = omega (arith, step-ranks w chooses s refl refl)
  step_at-rank w (attempted attempt c r) s q =
      omega (arith, step-ranks w (attempted attempt c r) s refl refl)
  step_at-rank w (finishes r) s q = omega (arith, step-ranks w (finishes r) s refl refl)

  act-ranks :
      (a : Action) (s : Core Q)
      → is_connect a ≡ false
      → rank (act api helpers a s) ≤ rank s - tick a s
  unfolding act worker_step request_disconnect
  act-ranks (works w) s f = step_at-rank w s.phase s refl
  act-ranks requests_disconnect s f = omega arith
  act-ranks (connects next_id p) s f = ground (arith, f)
  act-ranks (sends x) s f =
      let kept : rank (send api x s) ≤ rank s =
        send-keeps (λ s'. rank s' ≤ rank s) (λ s' i a r d k. k) api x s (omega arith) in
      omega (arith, kept)

  pub run-ranks :
      (actions : List Action) (s : Core Q)
      → All (λ a. is_connect a ≡ false) actions
      → rank (run api helpers actions s) ≤ rank s - ticks actions s
  unfolding run
  run-ranks [] s n = omega arith
  run-ranks (a ∷ actions) s n =
      omega (arith, run-ranks actions (act api helpers a s) n.1, act-ranks a s n.0)
