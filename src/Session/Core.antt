-- ===== src/Session/Core.antt =====
-- session/rdp_session_core.cpp: the life of a session and the guards of its input. `Core` is
-- RdpSession::Impl; its channels and the runner of the FreeRDP session are not part of it, and what the
-- worker learns from them is a `World`. A text of the worker is a list of bytes.
pub mod Worker
pub mod Life
pub mod Invariant
pub mod Run
pub mod Ends
pub mod Returns
pub mod Resolution
pub mod Sends
use harmony_windows_bridge.Base.{
  ℕ, Bool, true, false, not, ◌||◌, Option, none, some, List, [], ◌∷◌, if◌then◌else◌,
}
use harmony_windows_bridge.Text.{bytes, eq_bytes}
use harmony_windows_bridge.Session.Input.{RdpSessionInput, FreerdpRuntimeApi}
use harmony_windows_bridge.Session.Input
use harmony_windows_bridge.Session.Graphics.{
  RdpSessionRunResult, GraphicsHelpers, graphics_mode_validation_error,
}

-- The texts given to `EmitState`.
pub data SessionState : Type 0 where
  resolving : SessionState
  tcp_connected : SessionState
  negotiating : SessionState
  authenticating : SessionState
  logged_in : SessionState
  remote_login_waiting : SessionState
  remote_desktop_ready : SessionState
  disconnected : SessionState
  failed : SessionState

pub data Emitted : Type 0 where
  state : SessionState → Emitted
  log : List ℕ → Emitted
  error : List ℕ → Emitted

-- The bits k…InputDiagnostic.
pub data InputKind : Type 0 where
  pointer_input : InputKind
  keyboard_input : InputKind
  unicode_input : InputKind
  ime_input : InputKind

pub record DiagnosticMask : Type 0 where
  pub pointer : Bool
  pub keyboard : Bool
  pub unicode : Bool
  pub ime : Bool

abbrev pub empty_mask : DiagnosticMask
empty_mask = record { pointer = false; keyboard = false; unicode = false; ime = false }

abbrev pub has_kind : InputKind → DiagnosticMask → Bool
has_kind pointer_input m = m.pointer
has_kind keyboard_input m = m.keyboard
has_kind unicode_input m = m.unicode
has_kind ime_input m = m.ime

abbrev pub with_kind : InputKind → DiagnosticMask → DiagnosticMask
with_kind pointer_input m = record m { pointer = true }
with_kind keyboard_input m = record m { keyboard = true }
with_kind unicode_input m = record m { unicode = true }
with_kind ime_input m = record m { ime = true }

pub record ConnectParams : Type 0 where
  pub host : List ℕ
  pub port : List ℕ
  pub username : List ℕ
  pub password : List ℕ
  pub resolution : List ℕ
  pub graphics_mode : List ℕ

abbrev pub no_params : ConnectParams
no_params = record {
  host = [];
  port = [];
  username = [];
  password = [];
  resolution = [];
  graphics_mode = [];
}

-- `connected`, `remoteLoginWaiting` and `remoteDesktopReady` of OhosSessionAdapter, of which no two of the
-- last hold at once.
pub data Progress : Type 0 where
  not_connected : Progress
  shows_nothing : Progress
  waits_for_login : Progress
  shows_desktop : Progress

-- `attemptConnected`.
abbrev pub was_connected : Progress → Bool
was_connected not_connected = false
was_connected _ = true

-- Where the worker stands. `pauses` is in one of the two calls SleepInterruptibly(250), the second one
-- or the first; `waits` is at the head of the loop of WaitForAutoInitialResolution and `dozes` in the
-- call SleepInterruptibly(50) of its body; `attempts` runs a FreeRDP session, `announces` and
-- `focuses` are in its callback onConnected, before EmitState and before SendFocusIn, and `attempted` has its
-- result.
pub data Phase : Type 0 where
  absent : Phase  -- no worker, or one that returned
  begins : Phase
  checks_tcp : Phase
  pauses : (second : Bool) (elapsed : ℕ) → Phase
  authenticates : Phase
  waits : (elapsed : ℕ) → Phase
  dozes : (elapsed slept : ℕ) → Phase
  chooses : Phase
  attempts : (attempt : ℕ) (progress : Progress) → Phase
  announces : (attempt : ℕ) → Phase
  focuses : (attempt : ℕ) → Phase
  attempted : (attempt : ℕ) (attempt_connected : Bool) (session : RdpSessionRunResult) → Phase
  past_the_end : Phase  -- read graphicsModes[attempt + 1] past its end
  finishes : (session : RdpSessionRunResult) → Phase

-- What was emitted, diagnosed and tried is newest first. `params` and `graphics_modes` are the worker's.
pub record Core (Q : Type 0) : Type 0 where
  pub running : Bool
  pub connected : Bool
  pub active_diagnostic_session_id : ℕ
  pub accepted_mask : DiagnosticMask
  pub rejected_mask : DiagnosticMask
  pub input : RdpSessionInput Q
  pub phase : Phase
  pub params : ConnectParams
  pub graphics_modes : List (List ℕ)
  pub emitted : List Emitted
  pub diagnosed : List (ℕ × Bool × InputKind)

abbrev pub required : List ℕ
required = bytes "host, port, username, and password are required"

-- The tests of `Connect`: the message where it answers false.
unfoldable pub connect_error : GraphicsHelpers → ConnectParams → Option (List ℕ)
unfolding graphics_mode_validation_error
connect_error helpers p =
    let mode_error = graphics_mode_validation_error helpers p.graphics_mode in
    if eq_bytes p.host []
      || (eq_bytes p.port [] || (eq_bytes p.username [] || eq_bytes p.password []))
    then some required
    else if not (eq_bytes mode_error [])
    then some mode_error
    else none

abbrev pub is_absent : Phase → Bool
is_absent absent = true
is_absent _ = false

module _ {Q : Type 0} where
  unfoldable pub fresh : Core Q
  unfolding Input.new
  fresh = record {
    running = false;
    connected = false;
    active_diagnostic_session_id = 0;
    accepted_mask = empty_mask;
    rejected_mask = empty_mask;
    input = Input.new;
    phase = absent;
    params = no_params;
    graphics_modes = [];
    emitted = [];
    diagnosed = [];
  }

  abbrev pub emit : Emitted → Core Q → Core Q
  emit e s = record s { emitted = e ∷ s.emitted }

  -- `RequestDisconnect`, less what it does to the channels.
  unfoldable pub request_disconnect : FreerdpRuntimeApi Q → Core Q → Core Q
  unfolding Input.clear
  request_disconnect api s = record s {
    running = false;
    connected = false;
    input = Input.clear api true s.input;
  }

  -- The rest of `Connect`; `next_id` is the value of `g_nextDiagnosticSessionId`.
  unfoldable pub start_worker : FreerdpRuntimeApi Q → ℕ → ConnectParams → Core Q → Core Q
  unfolding Input.reset
  start_worker api next_id p s = record s {
    running = true;
    connected = false;
    input = Input.reset api true s.input;
    active_diagnostic_session_id = next_id;
    accepted_mask = empty_mask;
    rejected_mask = empty_mask;
    params = p;
    phase = begins;
  }

  abbrev start_if_valid :
      FreerdpRuntimeApi Q → ℕ → ConnectParams → Option (List ℕ) → Core Q → Core Q
  start_if_valid api next_id p (some message) s = emit (error message) s
  start_if_valid api next_id p none s = start_worker api next_id p (request_disconnect api s)

  -- `Connect` where `Disconnect` finds that the worker has returned. While it runs, `Connect` waits.
  unfoldable pub connect :
      FreerdpRuntimeApi Q → GraphicsHelpers → ℕ → ConnectParams → Core Q → Core Q
  unfolding connect_error start_worker request_disconnect
  connect api helpers next_id p s =
      if is_absent s.phase then start_if_valid api next_id p (connect_error helpers p) s else s
