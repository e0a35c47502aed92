-- ===== src/Session/Core/Worker/Kept.antt =====
-- The worker of session/rdp_session_core.cpp leaves the reports of the input as they are.
use harmony_windows_bridge.Session.Core.{
  Progress, not_connected, shows_nothing, waits_for_login, shows_desktop, announces, focuses,
  InputKind, DiagnosticMask, Phase, absent, begins, checks_tcp, pauses, authenticates, waits, dozes,
  chooses, attempts, attempted, past_the_end, finishes, Core,
}
use harmony_windows_bridge.Session.Core.Worker.{
  login_waits, desktop_is_ready, announce, focus, mark_login_waiting, mark_desktop_ready,
  AttemptEvent, on_connected, pump_input, ended, World, mode_at, or_empty, is_large, cancelled_end,
  failed_end, if_running, wait, first_attempt, choose, on_connected_callback, attempt_step, retry,
  after_attempt, finish, step_at,
}
use harmony_windows_bridge.Base.{
  ℕ, ◌+◌, ◌≡◌, refl, Bool, true, false, not, ◌||◌, Option, none, some, List, [], ◌∷◌, ◌++◌, ltb,
  leb, if◌then◌else◌, length,
}
use harmony_windows_bridge.Text.{bytes, is_auto_resolution}
use harmony_windows_bridge.Session.Input.{FreerdpRuntimeApi}
use harmony_windows_bridge.Session.Graphics.{
  GraphicsHelpers, RdpSessionRunResult, should_retry_graphics_fallback,
}

-- The reports, and what decides which are made.
abbrev pub Reports : Type 0
Reports = DiagnosticMask × DiagnosticMask × List (ℕ × Bool × InputKind)

module _ {Q : Type 0} where
  abbrev pub reports : Core Q → Reports
  reports s = (s.accepted_mask, s.rejected_mask, s.diagnosed)

  if-reports :
      (b : Bool) (x y : Core Q) (r : Reports)
      → reports x ≡ r
      → reports y ≡ r
      → reports (if b then x else y) ≡ r
  if-reports true x y r p q = p
  if-reports false x y r p q = q

  running-reports :
      (next s : Core Q) → reports next ≡ reports s → reports (if_running next s) ≡ reports s
  running-reports next s p = if-reports s.running next (cancelled_end s) _ p refl

  first_attempt-reports :
      (modes : List (List ℕ)) (s : Core Q) → reports (first_attempt modes s) ≡ reports s
  first_attempt-reports [] s = refl
  first_attempt-reports (mode ∷ modes) s = refl

  retry-reports :
      (next : Option (List ℕ)) (attempt : ℕ) (c : Bool) (r : RdpSessionRunResult) (s : Core Q)
      → reports (retry next attempt c r s) ≡ reports s
  retry-reports none attempt c r s = refl
  retry-reports (some next) attempt c r s = refl

  marks-reports :
      (attempt : ℕ) (g : Progress) (s : Core Q)
      → (reports (mark_login_waiting attempt g s) ≡ reports s)
        × (reports (mark_desktop_ready attempt g s) ≡ reports s)
  marks-reports attempt not_connected s = (refl, refl)
  marks-reports attempt shows_nothing s = (refl, refl)
  marks-reports attempt waits_for_login s = (refl, refl)
  marks-reports attempt shows_desktop s = (refl, refl)

  attempt-reports :
      (api : FreerdpRuntimeApi Q) (e : AttemptEvent) (attempt : ℕ) (g : Progress) (s : Core Q)
      → reports (attempt_step api e attempt g s) ≡ reports s
  unfolding attempt_step on_connected_callback
  attempt-reports api on_connected attempt c s = refl
  attempt-reports api pump_input attempt c s = refl
  attempt-reports api login_waits attempt g s = (marks-reports attempt g s).0
  attempt-reports api desktop_is_ready attempt g s = (marks-reports attempt g s).1
  attempt-reports api (ended e) attempt c s = refl

  pub step_at-reports :
      (api : FreerdpRuntimeApi Q) (helpers : GraphicsHelpers) (w : World) (p : Phase) (s : Core Q)
      → reports (step_at api helpers w p s) ≡ reports s
  unfolding step_at wait choose announce focus after_attempt finish
  step_at-reports api helpers w absent s = refl
  step_at-reports api helpers w begins s = running-reports _ s refl
  step_at-reports api helpers w checks_tcp s = running-reports _ s (
      if-reports w.tcp_ok _ (failed_end (bytes "tcp check failed: " ++ w.tcp_message) s) _ refl
        refl)
  step_at-reports api helpers w (pauses false elapsed) s =
      running-reports _ s (if-reports (ltb elapsed 250) _ _ _ refl refl)
  step_at-reports api helpers w (pauses true elapsed) s =
      running-reports _ s (if-reports (ltb elapsed 250) _ _ _ refl refl)
  step_at-reports api helpers w authenticates s =
      if-reports (is_auto_resolution s.params.resolution) _ _ _ refl refl
  step_at-reports api helpers w (waits elapsed) s =
      if-reports (not s.running) _ _ _ refl
        (if-reports (is_large w.surface) _ _ _ refl (if-reports (leb 3000 elapsed) _ _ _ refl refl))
  step_at-reports api helpers w (dozes elapsed slept) s =
      running-reports _ s (if-reports (ltb slept 50) _ _ _ refl refl)
  step_at-reports api helpers w chooses s = first_attempt-reports _ s
  step_at-reports api helpers w (attempts attempt g) s = attempt-reports api w.event attempt g s
  step_at-reports api helpers w (announces attempt) s = refl
  step_at-reports api helpers w (focuses attempt) s = refl
  step_at-reports api helpers w (attempted attempt c r) s =
      let mode = or_empty (mode_at attempt s.graphics_modes) in
      let count = length s.graphics_modes in
      if-reports (r.cancelled || not s.running) _ _ _ refl (
        if-reports (should_retry_graphics_fallback helpers r c mode attempt count) _ _ _
          (retry-reports (mode_at (attempt + 1) s.graphics_modes) attempt c r s) refl)
  step_at-reports api helpers w past_the_end s = refl
  step_at-reports api helpers w (finishes r) s =
      if-reports (r.cancelled || not s.running) _ _ _ refl (if-reports r.failed _ _ _ refl refl)
