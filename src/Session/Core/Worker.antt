-- ===== src/Session/Core/Worker.antt =====
-- `WorkerMain` of session/rdp_session_core.cpp with SleepInterruptibly and WaitForAutoInitialResolution,
-- one step at a time, and the results of RunFreerdpSession in session/freerdp_session_runner.cpp. A step
-- is the code from one call that takes time to the next; other calls come between the steps.
pub mod Kept
use harmony_windows_bridge.Session.Core.{
  was_connected, Progress, not_connected, shows_nothing, waits_for_login, shows_desktop,
  remote_login_waiting, remote_desktop_ready, announces, focuses, SessionState, resolving,
  tcp_connected, negotiating, authenticating, logged_in, disconnected, failed, Emitted, state, log,
  error, Phase, absent, begins, checks_tcp, pauses, authenticates, waits, dozes, chooses, attempts,
  attempted, past_the_end, finishes, Core,
}
use harmony_windows_bridge.Base.{
  ℕ, zero, suc, ◌+◌, Bool, true, false, not, ◌&&◌, ◌||◌, Option, none, some, List, [], ◌∷◌, ◌++◌,
  String, ltb, leb, if◌then◌else◌, length,
}
use harmony_windows_bridge.Text.{bytes, is_auto_resolution, to_string}
use harmony_windows_bridge.Session.Input
use harmony_windows_bridge.Session.Input.{RdpSessionInput, SurfaceSnapshot, FreerdpRuntimeApi}
use harmony_windows_bridge.Session.Graphics.{
  RdpSessionRunResult, GraphicsHelpers, build_graphics_fallback_modes,
  should_retry_graphics_fallback,
}

-- How RunFreerdpSession returns: without the runtime, before the session was made, or after
-- `ohosSessionConnect`, with its answer, whether it was connected, and the text found.
pub data Ending : Type 0 where
  unavailable : (message : List ℕ) → Ending
  unprepared : (message : List ℕ) → Ending
  ran : (connected ok : Bool) (message : List ℕ) → Ending

abbrev or_text : List ℕ → List ℕ → List ℕ
or_text [] text = text
or_text (c ∷ cs) text = c ∷ cs

-- `running` is as RunFreerdpSession finds it when the session has ended.
unfoldable pub run_result : Bool → Ending → RdpSessionRunResult
run_result running (unavailable message) = record {
  available = false;
  connected = false;
  cancelled = false;
  failed = true;
  message = message;
}
run_result running (unprepared message) = record {
  available = true;
  connected = false;
  cancelled = false;
  failed = true;
  message = message;
}
run_result running (ran connected ok message) = record {
  available = true;
  connected = connected;
  cancelled = not running;
  failed = running && not ok;
  message =
      if not running
      then or_text message (bytes "FreeRDP session cancelled")
      else if not ok
      then or_text message (bytes "FreeRDP OHOS session API failed")
      else or_text message (bytes "FreeRDP session ended");
}

-- What RunFreerdpSession does next: the callbacks onConnected and pumpInput, the states that its adapter
-- announces where it may, as the frames of the session tell it, or its return.
pub data AttemptEvent : Type 0 where
  on_connected : AttemptEvent
  pump_input : AttemptEvent
  login_waits : AttemptEvent
  desktop_is_ready : AttemptEvent
  ended : Ending → AttemptEvent

-- What a step learns from outside: the answer of TestTcpConnect, the surface, the event of the attempt.
pub record World : Type 0 where
  pub tcp_ok : Bool
  pub tcp_message : List ℕ
  pub surface : SurfaceSnapshot
  pub event : AttemptEvent

unfoldable pub mode_at : ℕ → List (List ℕ) → Option (List ℕ)
mode_at n [] = none
mode_at zero (mode ∷ modes) = some mode
mode_at (suc n) (mode ∷ modes) = mode_at n modes

abbrev pub or_empty : Option (List ℕ) → List ℕ
or_empty none = []
or_empty (some mode) = mode

abbrev pub not_ready : List ℕ
not_ready = bytes "FreeRDP initial resolution auto failed: XComponent surface is not ready"

abbrev pub no_modes : List ℕ
no_modes = bytes "FreeRDP OHOS graphics fallback helper returned no modes"

abbrev pub is_large : SurfaceSnapshot → Bool
is_large surface = surface.ready && (leb 320 surface.width && leb 240 surface.height)

abbrev pub retry_logs : Bool → List ℕ → List ℕ → List ℕ → List Emitted → List Emitted
retry_logs was_connected mode next message emitted =
    let phase_text : List ℕ =
      if was_connected
      then bytes " failed after connection: "
      else bytes " failed before connection: " in
    state negotiating
    ∷ log (bytes "graphics fallback retry: " ++ (mode ++ (bytes " -> " ++ next)))
    ∷ log (bytes "graphics mode " ++ (mode ++ (phase_text ++ message)))
    ∷ emitted

abbrev pub skip_log : Bool → List ℕ → List Emitted → List Emitted
skip_log true message emitted =
    log (bytes "graphics fallback skipped for non-graphics failure: " ++ message) ∷ emitted
skip_log false message emitted = emitted

module _ {Q : Type 0} where
  -- The worker returns after it found that it was cancelled.
  abbrev pub cancelled_end : Core Q → Core Q
  cancelled_end s = record s {
    phase = absent;
    emitted = log (bytes "native worker cancelled") ∷ state disconnected ∷ s.emitted;
  }

  -- The worker returns after a failure.
  abbrev pub failed_end : List ℕ → Core Q → Core Q
  failed_end message s = record s {
    running = false;
    phase = absent;
    emitted = error message ∷ log message ∷ state failed ∷ s.emitted;
  }

  abbrev pub enter : Phase → SessionState → Core Q → Core Q
  enter next name s = record s { phase = next; emitted = state name ∷ s.emitted }

  -- `continue` where `running` still holds.
  abbrev pub if_running : Core Q → Core Q → Core Q
  if_running continue s = if s.running then continue else cancelled_end s

  abbrev pub pause : Bool → ℕ → Core Q → Core Q
  pause second elapsed s =
      if ltb elapsed 250
      then record s { phase = pauses second (elapsed + 25) }
      else if second
      then enter authenticates authenticating s
      else enter (pauses true 0) negotiating s

  unfoldable pub wait : World → ℕ → Core Q → Core Q
  unfolding to_string
  wait w elapsed s =
      let surface = w.surface in
      if not s.running
      then failed_end not_ready s
      else if is_large surface
      then record s {
        phase = chooses;
        params = record s.params {
          resolution = to_string surface.width ++ (bytes "x" ++ to_string surface.height);
        };
      }
      else if leb 3000 elapsed
      then failed_end not_ready s
      else record s { phase = dozes elapsed 0 }

  abbrev pub doze : ℕ → ℕ → Core Q → Core Q
  doze elapsed slept s =
      if ltb slept 50
      then record s { phase = dozes elapsed (slept + 25) }
      else record s { phase = waits (elapsed + 50) }

  abbrev pub first_attempt : List (List ℕ) → Core Q → Core Q
  first_attempt [] s = failed_end no_modes (record s { connected = false })
  first_attempt (mode ∷ modes) s = record s {
    graphics_modes = mode ∷ modes;
    phase = attempts 0 not_connected;
  }

  unfoldable pub choose : GraphicsHelpers → Core Q → Core Q
  unfolding build_graphics_fallback_modes
  choose helpers s = first_attempt (build_graphics_fallback_modes helpers s.params.graphics_mode) s

  -- The log of a focus event that was refused.
  abbrev pub focus_log : RdpSessionInput Q × Bool × String → List Emitted → List Emitted
  focus_log (i, true, message) emitted = emitted
  focus_log (i, false, message) emitted =
      log (bytes "FreeRDP focus-in skipped after session connected: " ++ bytes message) ∷ emitted

  -- The callback onConnected, up to EmitState. `Connected` has reset the flags of its adapter.
  unfoldable pub on_connected_callback : ℕ → Core Q → Core Q
  on_connected_callback attempt s = record s { connected = true; phase = announces attempt }

  unfoldable pub announce : ℕ → Core Q → Core Q
  unfolding mode_at
  announce attempt s =
      let mode = or_empty (mode_at attempt s.graphics_modes) in
      record s {
        phase = focuses attempt;
        emitted = log (bytes "graphics mode selected: " ++ mode) ∷ state logged_in ∷ s.emitted;
      }

  -- `SendFocusIn`, which is refused where another thread has ended the session.
  unfoldable pub focus : FreerdpRuntimeApi Q → ℕ → Core Q → Core Q
  unfolding Input.enqueue_focus_in
  focus api attempt s =
      let sent =
        if s.connected
        then Input.enqueue_focus_in api true 0 s.input
        else (s.input, false, "no active FreeRDP session") in
      record s {
        input = sent.0;
        phase = attempts attempt shows_nothing;
        emitted = focus_log sent s.emitted;
      }

  -- MaybeMarkRemoteLoginWaiting, where the frames have come to a halt.
  abbrev pub mark_login_waiting : ℕ → Progress → Core Q → Core Q
  mark_login_waiting attempt shows_nothing s =
      enter (attempts attempt waits_for_login) remote_login_waiting s
  mark_login_waiting attempt _ s = s

  -- EmitRemoteDesktopReadyState or MarkRemoteDesktopReady, where there is a frame or no video.
  abbrev pub mark_desktop_ready : ℕ → Progress → Core Q → Core Q
  mark_desktop_ready attempt shows_nothing s =
      enter (attempts attempt shows_desktop) remote_desktop_ready s
  mark_desktop_ready attempt waits_for_login s =
      enter (attempts attempt shows_desktop) remote_desktop_ready s
  mark_desktop_ready attempt _ s = s

  unfoldable pub attempt_step : FreerdpRuntimeApi Q → AttemptEvent → ℕ → Progress → Core Q → Core Q
  unfolding on_connected_callback Input.drain Input.clear run_result
  attempt_step api on_connected attempt progress s = on_connected_callback attempt s
  attempt_step api pump_input attempt progress s = record s { input = Input.drain api true s.input }
  attempt_step api login_waits attempt progress s = mark_login_waiting attempt progress s
  attempt_step api desktop_is_ready attempt progress s = mark_desktop_ready attempt progress s
  attempt_step api (ended ending) attempt progress s = record s {
    input = Input.clear api true s.input;
    phase = attempted attempt (was_connected progress) (run_result s.running ending);
  }

  abbrev pub retry : Option (List ℕ) → ℕ → Bool → RdpSessionRunResult → Core Q → Core Q
  retry none attempt was_connected r s = record s { phase = past_the_end }
  retry (some next) attempt was_connected r s = record s {
    connected = false;
    phase = attempts (attempt + 1) not_connected;
    emitted =
        retry_logs was_connected (or_empty (mode_at attempt s.graphics_modes)) next r.message
          s.emitted;
  }

  -- The rest of the loop's body: the next attempt, or the end of the loop.
  unfoldable pub after_attempt : GraphicsHelpers → ℕ → Bool → RdpSessionRunResult → Core Q → Core Q
  unfolding mode_at should_retry_graphics_fallback
  after_attempt helpers attempt was_connected r s =
      let count = length s.graphics_modes in
      let mode = or_empty (mode_at attempt s.graphics_modes) in
      if r.cancelled || not s.running
      then record s { phase = finishes r }
      else if should_retry_graphics_fallback helpers r was_connected mode attempt count
      then retry (mode_at (attempt + 1) s.graphics_modes) attempt was_connected r s
      else record s {
        phase = finishes r;
        emitted =
            skip_log (r.failed && (not was_connected && ltb (attempt + 1) count)) r.message
              s.emitted;
      }

  unfoldable pub finish : FreerdpRuntimeApi Q → RdpSessionRunResult → Core Q → Core Q
  unfolding Input.clear
  finish api r s =
      let s' : Core Q = record s { input = Input.clear api true s.input; connected = false } in
      let message : List ℕ =
        if r.available then r.message else bytes "FreeRDP runtime unavailable: " ++ r.message in
      if r.cancelled || not s.running
      then cancelled_end s'
      else if r.failed
      then failed_end message s'
      else record s' {
        running = false;
        phase = absent;
        emitted = log r.message ∷ state disconnected ∷ s'.emitted;
      }

  unfoldable pub step_at : FreerdpRuntimeApi Q → GraphicsHelpers → World → Phase → Core Q → Core Q
  unfolding is_auto_resolution wait choose attempt_step announce focus after_attempt finish
  step_at api helpers w absent s = s
  step_at api helpers w begins s = if_running (enter checks_tcp resolving s) s
  step_at api helpers w checks_tcp s =
      if_running
        (if w.tcp_ok
          then enter (pauses false 0) tcp_connected s
          else failed_end (bytes "tcp check failed: " ++ w.tcp_message) s)
        s
  step_at api helpers w (pauses second elapsed) s = if_running (pause second elapsed s) s
  step_at api helpers w authenticates s =
      if is_auto_resolution s.params.resolution
      then record s { phase = waits 0 }
      else record s { phase = chooses }
  step_at api helpers w (waits elapsed) s = wait w elapsed s
  step_at api helpers w (dozes elapsed slept) s = if_running (doze elapsed slept s) s
  step_at api helpers w chooses s = choose helpers s
  step_at api helpers w (attempts attempt progress) s = attempt_step api w.event attempt progress s
  step_at api helpers w (announces attempt) s = announce attempt s
  step_at api helpers w (focuses attempt) s = focus api attempt s
  step_at api helpers w (attempted attempt was_connected r) s =
      after_attempt helpers attempt was_connected r s
  step_at api helpers w past_the_end s = s
  step_at api helpers w (finishes r) s = finish api r s

  unfoldable pub worker_step : FreerdpRuntimeApi Q → GraphicsHelpers → World → Core Q → Core Q
  unfolding step_at
  worker_step api helpers w s = step_at api helpers w s.phase s
