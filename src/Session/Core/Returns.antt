-- ===== src/Session/Core/Returns.antt =====
-- The loop over the graphics modes of session/rdp_session_core.cpp stays within the list of modes, and its
-- worker returns.
use harmony_windows_bridge.Session.Core.{
  Progress, not_connected, shows_nothing, waits_for_login, shows_desktop, announces, focuses,
  ConnectParams, Phase, absent, begins, checks_tcp, pauses, authenticates, waits, dozes, chooses,
  attempts, attempted, past_the_end, finishes, Core, request_disconnect, start_worker,
}
use harmony_windows_bridge.Session.Core.Worker.{
  login_waits, desktop_is_ready, announce, focus, mark_login_waiting, mark_desktop_ready,
  AttemptEvent, on_connected, pump_input, ended, World, mode_at, or_empty, is_large, cancelled_end,
  failed_end, if_running, wait, first_attempt, choose, on_connected_callback, attempt_step, retry,
  after_attempt, finish, step_at, worker_step,
}
use harmony_windows_bridge.Base.{
  ℕ, zero, suc, ◌+◌, ◌-◌, ◌*◌, ◌≤◌, ◌<◌, ◌≡◌, refl, ◌≢◌, ◌⊎◌, inl, inr, Bool, true, false, not,
  ◌||◌, none, List, [], ◌∷◌, ◌++◌, arith, ltb, leb, if◌then◌else◌, Option-cases, length, All, subst,
}
use harmony_windows_bridge.Session.Input.{FreerdpRuntimeApi}
use harmony_windows_bridge.Session.Graphics.{
  GraphicsHelpers, RdpSessionRunResult, should_retry_graphics_fallback,
}
use harmony_windows_bridge.Session.Core.Sends.Kept.{send-keeps}
use harmony_windows_bridge.Session.Core.Run.{
  Action, works, requests_disconnect, connects, sends, act, run,
}
use harmony_windows_bridge.Session.Core.Ends.{
  rank, rank-halted, mode_count, ticks, is_connect, run-ranks,
}
use harmony_windows_bridge.Text.{is_auto_resolution, bytes}

-- The FreeRDP helper asks for no retry after the last of `count` attempts.
abbrev pub StopsAtLast : GraphicsHelpers → Type 0
StopsAtLast helpers =
    (r : RdpSessionRunResult) (c : Bool) (mode : List ℕ) (attempt count : ℕ)
    → count ≤ attempt + 1
    → should_retry_graphics_fallback helpers r c mode attempt count ≡ false

-- The attempt is one of `m`.
abbrev pub InRange : ℕ → Phase → Type 0
InRange m (attempts attempt c) = attempt < m
InRange m (announces attempt) = attempt < m
InRange m (focuses attempt) = attempt < m
InRange m (attempted attempt c session) = attempt < m
InRange m past_the_end = true ≡ false
InRange m _ = Unit

mode_at-some : (n : ℕ) (modes : List (List ℕ)) → n < length modes → mode_at n modes ≢ none
unfolding mode_at
mode_at-some n [] h = ground (arith, h)
mode_at-some zero (mode ∷ modes) h = λ e. ground (arith, e)
mode_at-some (suc n) (mode ∷ modes) h = mode_at-some n modes (omega (arith, h))

module _ {Q : Type 0} (api : FreerdpRuntimeApi Q) (helpers : GraphicsHelpers) where
  abbrev Stays : Core Q → Type 0
  Stays s = InRange (length s.graphics_modes) s.phase

  if-Stays :
      (b : Bool) (x y : Core Q)
      → (b ≡ true → Stays x)
      → (b ≡ false → Stays y)
      → Stays (if b then x else y)
  if-Stays true x y p q = p refl
  if-Stays false x y p q = q refl

  running-Stays : (next s : Core Q) → Stays next → Stays (if_running next s)
  running-Stays next s p = if-Stays s.running next (cancelled_end s) (λ e. p) (λ e. tt)

  first_attempt-Stays : (modes : List (List ℕ)) (s : Core Q) → Stays (first_attempt modes s)
  first_attempt-Stays [] s = tt
  first_attempt-Stays (mode ∷ modes) s = omega arith

  marks-Stay :
      (attempt : ℕ) (g : Progress) (s : Core Q)
      → s.phase ≡ attempts attempt g
      → attempt < length s.graphics_modes
      → Stays (mark_login_waiting attempt g s) × Stays (mark_desktop_ready attempt g s)
  marks-Stay attempt not_connected s q h = (rw q h, rw q h)
  marks-Stay attempt shows_nothing s q h = (h, h)
  marks-Stay attempt waits_for_login s q h = (rw q h, h)
  marks-Stay attempt shows_desktop s q h = (rw q h, rw q h)

  attempt-Stays :
      (e : AttemptEvent) (attempt : ℕ) (c : Progress) (s : Core Q)
      → s.phase ≡ attempts attempt c
      → attempt < length s.graphics_modes
      → Stays (attempt_step api e attempt c s)
  unfolding attempt_step on_connected_callback
  attempt-Stays on_connected attempt c s q h = h
  attempt-Stays pump_input attempt c s q h = rw q h
  attempt-Stays login_waits attempt c s q h = (marks-Stay attempt c s q h).0
  attempt-Stays desktop_is_ready attempt c s q h = (marks-Stay attempt c s q h).1
  attempt-Stays (ended e) attempt c s q h = h

  retry-Stays :
      (attempt : ℕ) (c : Bool) (r : RdpSessionRunResult) (s : Core Q)
      → attempt + 1 < length s.graphics_modes
      → Stays (retry (mode_at (attempt + 1) s.graphics_modes) attempt c r s)
  retry-Stays attempt c r s h = elim (Option-cases (mode_at (attempt + 1) s.graphics_modes)) [
    | inl n ↦ absurd (mode_at-some (attempt + 1) s.graphics_modes h n)
    | inr (next, n) ↦ rw n h
  ]

  module _ (law : StopsAtLast helpers) where
    after_attempt-Stays :
        (attempt : ℕ) (c : Bool) (r : RdpSessionRunResult) (s : Core Q)
        → Stays (after_attempt helpers attempt c r s)
    unfolding after_attempt
    after_attempt-Stays attempt c r s =
        let mode = or_empty (mode_at attempt s.graphics_modes) in
        let count = length s.graphics_modes in
        if-Stays (r.cancelled || not s.running) _ _ (λ e. tt)
          (λ e.
            if-Stays (should_retry_graphics_fallback helpers r c mode attempt count) _ _
              (λ e. retry-Stays attempt c r s (ground (arith, e, law r c mode attempt count)))
              (λ e. tt))

    step_at-Stays :
        (w : World) (p : Phase) (s : Core Q)
        → s.phase ≡ p
        → InRange (length s.graphics_modes) p
        → Stays (step_at api helpers w p s)
    unfolding step_at wait choose announce focus finish
    step_at-Stays w absent s q i = rw q tt
    step_at-Stays w begins s q i = running-Stays _ s tt
    step_at-Stays w checks_tcp s q i = running-Stays _ s (
        if-Stays w.tcp_ok _ (failed_end (bytes "tcp check failed: " ++ w.tcp_message) s) (λ e. tt)
          (λ e. tt))
    step_at-Stays w (pauses false elapsed) s q i =
        running-Stays _ s (if-Stays (ltb elapsed 250) _ _ (λ e. tt) (λ e. tt))
    step_at-Stays w (pauses true elapsed) s q i =
        running-Stays _ s (if-Stays (ltb elapsed 250) _ _ (λ e. tt) (λ e. tt))
    step_at-Stays w authenticates s q i =
        if-Stays (is_auto_resolution s.params.resolution) _ _ (λ e. tt) (λ e. tt)
    step_at-Stays w (waits elapsed) s q i =
        if-Stays (not s.running) _ _ (λ e. tt)
          (λ e.
            if-Stays (is_large w.surface) _ _ (λ e. tt)
              (λ e. if-Stays (leb 3000 elapsed) _ _ (λ e. tt) (λ e. tt)))
    step_at-Stays w (dozes elapsed slept) s q i =
        running-Stays _ s (if-Stays (ltb slept 50) _ _ (λ e. tt) (λ e. tt))
    step_at-Stays w chooses s q i = first_attempt-Stays _ s
    step_at-Stays w (attempts attempt c) s q i = attempt-Stays w.event attempt c s q i
    step_at-Stays w (announces attempt) s q i = i
    step_at-Stays w (focuses attempt) s q i = i
    step_at-Stays w (attempted attempt c r) s q i = after_attempt-Stays attempt c r s
    step_at-Stays w past_the_end s q i = ground (arith, i)
    step_at-Stays w (finishes r) s q i =
        if-Stays (r.cancelled || not s.running) _ _ (λ e. tt)
          (λ e. if-Stays r.failed _ _ (λ e. tt) (λ e. tt))

    act-Stays :
        (a : Action) (s : Core Q) → is_connect a ≡ false → Stays s → Stays (act api helpers a s)
    unfolding act worker_step request_disconnect
    act-Stays (works w) s n i = step_at-Stays w s.phase s refl i
    act-Stays requests_disconnect s n i = i
    act-Stays (connects next_id p) s n i = ground (arith, n)
    act-Stays (sends x) s n i = send-keeps Stays (λ s' j a r d k. k) api x s i

    run-Stays :
        (actions : List Action) (s : Core Q)
        → All (λ a. is_connect a ≡ false) actions
        → Stays s
        → Stays (run api helpers actions s)
    unfolding run
    run-Stays [] s n i = i
    run-Stays (a ∷ actions) s n i =
        run-Stays actions (act api helpers a s) n.1 (act-Stays a s n.0 i)

    in_range-returned :
        (s : Core Q) → (s.phase ≡ absent) ⊎ (s.phase ≡ past_the_end) → Stays s → s.phase ≡ absent
    in_range-returned s (inl e) i = e
    in_range-returned s (inr e) i =
        let i' : true ≡ false = subst (λ p. InRange (length s.graphics_modes) p) e i in
        ground (arith, i')

    -- Let the FreeRDP helper ask for no retry after the last attempt. After `Connect` has started a worker,
    -- it has returned once it was given two steps for each graphics mode and 270 more, the callbacks of
    -- a running FreeRDP session not counted, whatever other threads call in between but `Connect`.
    pub worker_returns :
        (next_id : ℕ) (p : ConnectParams) (s : Core Q) (actions : List Action)
        → All (λ a. is_connect a ≡ false) actions
        → let s' = start_worker api next_id p s in
          2 * mode_count api helpers s' + 270 ≤ ticks api helpers actions s'
          → (run api helpers actions s').phase ≡ absent
    unfolding start_worker
    worker_returns next_id p s actions n h =
        let s' : Core Q = start_worker api next_id p s in
        let t : Core Q = run api helpers actions s' in
        let r : rank api helpers t ≤ rank api helpers s' - ticks api helpers actions s' =
          run-ranks api helpers actions s' n in
        in_range-returned t
          (rank-halted (mode_count api helpers t) (length t.graphics_modes) t.phase
            (omega (arith, r, h)))
          (run-Stays actions s' n tt)
