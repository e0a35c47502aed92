-- ===== src/Session/Core/Invariant.antt =====
-- Every step of the worker of session/rdp_session_core.cpp keeps the invariant of Life.
use harmony_windows_bridge.Session.Core.{
  Progress, not_connected, shows_nothing, waits_for_login, shows_desktop, announces, focuses,
  logged_in, disconnected, failed, Emitted, Phase, absent, begins, checks_tcp, pauses,
  authenticates, waits, dozes, chooses, attempts, attempted, past_the_end, finishes, Core,
}
use harmony_windows_bridge.Session.Core.Worker.{
  login_waits, desktop_is_ready, announce, focus, mark_login_waiting, mark_desktop_ready,
  AttemptEvent, on_connected, pump_input, ended, World, mode_at, or_empty, not_ready, is_large,
  skip_log, cancelled_end, failed_end, if_running, pause, wait, doze, first_attempt, choose,
  focus_log, on_connected_callback, attempt_step, retry, after_attempt, finish, step_at,
}
use harmony_windows_bridge.Session.Core.Life.{
  at→tried, WasTried, last_state, may_follow, IsLife, IsTried, Place, disconnected_follows,
  tried→was, tried→connected, failed_follows, tried_again, logged_in_follows, resolving_follows,
  cancelled_means_stopped,
}
use harmony_windows_bridge.Base.{
  ℕ, ◌+◌, ◌≡◌, refl, ◌∙◌, ◌⊎◌, inl, inr, Bool, true, false, not, ◌&&◌, ◌||◌, Option, none, some,
  List, [], ◌∷◌, ◌++◌, arith, String, ltb, leb, if◌then◌else◌, length,
}
use harmony_windows_bridge.Text.{bytes, is_auto_resolution}
use harmony_windows_bridge.Session.Input
use harmony_windows_bridge.Session.Input.{FreerdpRuntimeApi, RdpSessionInput}
use harmony_windows_bridge.Session.Graphics.{
  RdpSessionRunResult, GraphicsHelpers, should_retry_graphics_fallback,
}

module _ {Q : Type 0} where
  abbrev pub Inv : Core Q → Type 0
  Inv s = Place s.phase s.connected s.running (last_state s.emitted) × IsLife s.emitted

  cancelled_end-Inv :
      (s : Core Q)
      → s.connected ≡ false
      → s.running ≡ false
      → IsLife s.emitted
      → Inv (cancelled_end s)
  cancelled_end-Inv s c r l =
      ((c, r, inr (inl refl)), (disconnected_follows (last_state s.emitted), l))

  failed_end-Inv :
      (message : List ℕ) (s : Core Q)
      → s.connected ≡ false
      → may_follow (last_state s.emitted) failed ≡ true
      → IsLife s.emitted
      → Inv (failed_end message s)
  failed_end-Inv message s c f l = ((c, refl, inr (inr refl)), (f, l))

  pub if-Inv :
      (b : Bool) (x y : Core Q)
      → (b ≡ true → Inv x)
      → (b ≡ false → Inv y)
      → Inv (if b then x else y)
  if-Inv true x y p q = p refl
  if-Inv false x y p q = q refl

  -- The worker goes on if it still runs.
  if_running-Inv :
      (next s : Core Q)
      → Inv next
      → s.connected ≡ false
      → IsLife s.emitted
      → Inv (if_running next s)
  if_running-Inv next s n c l =
      if-Inv s.running next (cancelled_end s) (λ e. n) (λ e. cancelled_end-Inv s c e l)

  pause-Inv :
      (second : Bool) (elapsed : ℕ) (s : Core Q)
      → Place (pauses second elapsed) s.connected s.running (last_state s.emitted)
      → IsLife s.emitted
      → Inv (pause second elapsed s)
  pause-Inv false elapsed s p l =
      if-Inv (ltb elapsed 250) _ _ (λ e. (p, l)) (λ e. ((p.0, refl), (rw p.1 refl, l)))
  pause-Inv true elapsed s p l =
      if-Inv (ltb elapsed 250) _ _ (λ e. (p, l)) (λ e. ((p.0, refl), (rw p.1 refl, l)))

  wait-Inv :
      (w : World) (elapsed : ℕ) (s : Core Q)
      → Place (waits elapsed) s.connected s.running (last_state s.emitted)
      → IsLife s.emitted
      → Inv (wait w elapsed s)
  unfolding wait
  wait-Inv w elapsed s p l =
      let fails : Inv (failed_end not_ready s) = failed_end-Inv not_ready s p.0 (rw p.1 refl) l in
      if-Inv (not s.running) _ _ (λ e. fails)
        (λ e.
          if-Inv (is_large w.surface) _ _ (λ e. (p, l))
            (λ e. if-Inv (leb 3000 elapsed) _ _ (λ e. fails) (λ e. (p, l))))

  doze-Inv :
      (elapsed slept : ℕ) (s : Core Q)
      → Place (dozes elapsed slept) s.connected s.running (last_state s.emitted)
      → IsLife s.emitted
      → Inv (doze elapsed slept s)
  doze-Inv elapsed slept s p l = if-Inv (ltb slept 50) _ _ (λ e. (p, l)) (λ e. (p, l))

  first_attempt-Inv :
      (modes : List (List ℕ)) (s : Core Q)
      → Place chooses s.connected s.running (last_state s.emitted)
      → IsLife s.emitted
      → Inv (first_attempt modes s)
  first_attempt-Inv [] s p l = ((refl, refl, inr (inr refl)), (rw p.1 refl, l))
  first_attempt-Inv (mode ∷ modes) s p l = ((inl p.0, inl p.1), l)

  focus_log-last :
      (sent : RdpSessionInput Q × Bool × String) (es : List Emitted)
      → last_state (focus_log sent es) ≡ last_state es
  focus_log-last (i, true, message) es = refl
  focus_log-last (i, false, message) es = refl

  focus_log-IsLife :
      (sent : RdpSessionInput Q × Bool × String) (es : List Emitted)
      → IsLife es
      → IsLife (focus_log sent es)
  focus_log-IsLife (i, true, message) es l = l
  focus_log-IsLife (i, false, message) es l = l

  module _ (api : FreerdpRuntimeApi Q) (helpers : GraphicsHelpers) where
    marks-Inv :
        (attempt : ℕ) (g : Progress) (s : Core Q)
        → s.phase ≡ attempts attempt g
        → Place (attempts attempt g) s.connected s.running (last_state s.emitted)
        → IsLife s.emitted
        → Inv (mark_login_waiting attempt g s) × Inv (mark_desktop_ready attempt g s)
    marks-Inv attempt not_connected s q p l = (rw q (p, l), rw q (p, l))
    marks-Inv attempt shows_nothing s q p l =
        (((inr refl, refl), (rw p.1 refl, l)), ((inr refl, refl), (rw p.1 refl, l)))
    marks-Inv attempt waits_for_login s q p l = (rw q (p, l), ((inr refl, refl), (rw p.1 refl, l)))
    marks-Inv attempt shows_desktop s q p l = (rw q (p, l), rw q (p, l))

    announce-Inv :
        (attempt : ℕ) (s : Core Q)
        → WasTried (last_state s.emitted)
        → IsLife s.emitted
        → Inv (announce attempt s)
    unfolding announce
    announce-Inv attempt s p l = (refl, (logged_in_follows (last_state s.emitted) p, l))

    focus-Inv :
        (attempt : ℕ) (s : Core Q)
        → last_state s.emitted ≡ some logged_in
        → IsLife s.emitted
        → Inv (focus api attempt s)
    unfolding focus
    focus-Inv attempt s p l =
        let sent =
          if s.connected
          then Input.enqueue_focus_in api true 0 s.input
          else (s.input, false, "no active FreeRDP session") in
        ((inr refl, focus_log-last sent s.emitted ∙ p), focus_log-IsLife sent s.emitted l)

    attempt-Inv :
        (e : AttemptEvent) (attempt : ℕ) (g : Progress) (s : Core Q)
        → s.phase ≡ attempts attempt g
        → Place (attempts attempt g) s.connected s.running (last_state s.emitted)
        → IsLife s.emitted
        → Inv (attempt_step api e attempt g s)
    unfolding attempt_step on_connected_callback
    attempt-Inv on_connected attempt g s q p l = (tried→was _ _ (at→tried g _ p.1), l)
    attempt-Inv pump_input attempt g s q p l = rw q (p, l)
    attempt-Inv login_waits attempt g s q p l = (marks-Inv attempt g s q p l).0
    attempt-Inv desktop_is_ready attempt g s q p l = (marks-Inv attempt g s q p l).1
    attempt-Inv (ended e) attempt g s q p l =
        ((cancelled_means_stopped s.running e, p.0, at→tried g _ p.1), l)

    skipped-Inv :
        (b : Bool) (m : List ℕ) (r : RdpSessionRunResult) (s : Core Q)
        → Place (finishes r) s.connected s.running (last_state s.emitted)
        → IsLife s.emitted
        → Inv (record s { phase = finishes r; emitted = skip_log b m s.emitted })
    skipped-Inv true m r s p l = (p, l)
    skipped-Inv false m r s p l = (p, l)

    retry-Inv :
        (next : Option (List ℕ)) (attempt : ℕ) (c : Bool) (r : RdpSessionRunResult) (s : Core Q)
        → ((s.connected ≡ false) ⊎ (c ≡ true)) × IsTried c (last_state s.emitted)
        → IsLife s.emitted
        → Inv (retry next attempt c r s)
    retry-Inv none attempt c r s p l =
        ((tried→connected c s.connected _ p.0 p.1, tried→was c _ p.1), l)
    retry-Inv (some next) attempt c r s p l =
        ((inl refl, inr refl), (tried_again _ (tried→was c _ p.1), l))

    after_attempt-Inv :
        (attempt : ℕ) (c : Bool) (r : RdpSessionRunResult) (s : Core Q)
        → Place (attempted attempt c r) s.connected s.running (last_state s.emitted)
        → IsLife s.emitted
        → Inv (after_attempt helpers attempt c r s)
    unfolding after_attempt
    after_attempt-Inv attempt c r s p l =
        let was : Place (finishes r) s.connected s.running (last_state s.emitted) =
          (p.0, tried→connected c s.connected _ p.1 p.2, tried→was c _ p.2) in
        let mode = or_empty (mode_at attempt s.graphics_modes) in
        let count = length s.graphics_modes in
        if-Inv (r.cancelled || not s.running) _ _ (λ e. (was, l))
          (λ e.
            if-Inv (should_retry_graphics_fallback helpers r c mode attempt count) _ _
              (λ e. retry-Inv (mode_at (attempt + 1) s.graphics_modes) attempt c r s (p.1, p.2) l)
              (λ e.
                skipped-Inv (r.failed && (not c && ltb (attempt + 1) count)) r.message r s was l))

    finish-Inv :
        (r : RdpSessionRunResult) (s : Core Q)
        → Place (finishes r) s.connected s.running (last_state s.emitted)
        → IsLife s.emitted
        → Inv (finish api r s)
    unfolding finish
    finish-Inv r s p l =
        let over : may_follow (last_state s.emitted) disconnected ≡ true =
          disconnected_follows (last_state s.emitted) in
        let fails : may_follow (last_state s.emitted) failed ≡ true =
          failed_follows (last_state s.emitted) p.2 in
        if-Inv (r.cancelled || not s.running) _ _
          (λ e. ((refl, ground (arith, p.0, e), inr (inl refl)), (over, l)))
          (λ e.
            if-Inv r.failed _ _ (λ e. ((refl, refl, inr (inr refl)), (fails, l)))
              (λ e. ((refl, refl, inr (inl refl)), (over, l))))

    pub step_at-Inv :
        (w : World) (p : Phase) (s : Core Q)
        → s.phase ≡ p
        → Place p s.connected s.running (last_state s.emitted)
        → IsLife s.emitted
        → Inv (step_at api helpers w p s)
    unfolding step_at choose
    step_at-Inv w absent s q p l = rw q (p, l)
    step_at-Inv w begins s q p l =
        if_running-Inv _ s ((p.0, refl), (resolving_follows _ p.1, l)) p.0 l
    step_at-Inv w checks_tcp s q p l =
        if_running-Inv _ s
          (if-Inv w.tcp_ok _ _ (λ e. ((p.0, refl), (rw p.1 refl, l)))
            (λ e.
              failed_end-Inv (bytes "tcp check failed: " ++ w.tcp_message) s p.0 (rw p.1 refl) l))
          p.0 l
    step_at-Inv w (pauses false elapsed) s q p l =
        if_running-Inv _ s (pause-Inv false elapsed s p l) p.0 l
    step_at-Inv w (pauses true elapsed) s q p l =
        if_running-Inv _ s (pause-Inv true elapsed s p l) p.0 l
    step_at-Inv w authenticates s q p l =
        if-Inv (is_auto_resolution s.params.resolution) _ _ (λ e. (p, l)) (λ e. (p, l))
    step_at-Inv w (waits elapsed) s q p l = wait-Inv w elapsed s p l
    step_at-Inv w (dozes elapsed slept) s q p l =
        if_running-Inv _ s (doze-Inv elapsed slept s p l) p.0 l
    step_at-Inv w chooses s q p l = first_attempt-Inv _ s p l
    step_at-Inv w (attempts attempt g) s q p l = attempt-Inv w.event attempt g s q p l
    step_at-Inv w (announces attempt) s q p l = announce-Inv attempt s p l
    step_at-Inv w (focuses attempt) s q p l = focus-Inv attempt s p l
    step_at-Inv w (attempted attempt c r) s q p l = after_attempt-Inv attempt c r s p l
    step_at-Inv w past_the_end s q p l = rw q (p, l)
    step_at-Inv w (finishes r) s q p l = finish-Inv r s p l
