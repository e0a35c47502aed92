-- ===== src/Display/Settings.antt =====
-- session/session_display_settings.{h,cpp}. Each method runs under the mutex and is one function. Time
-- is an argument in milliseconds, `generation` is a uint64_t and wraps, and the status texts are a data
-- type with a constructor for each.
pub mod Confirm
pub mod Applied
pub mod Progress
use harmony_windows_bridge.Base.{
  ℕ, ◌+◌, ◌-◌, ◌*◌, Bool, true, false, not, ◌&&◌, ◌||◌, List, [], ◌∷◌, ltb, leb, ◌==◌,
  if◌then◌else◌,
}
use harmony_windows_bridge.Base.Word.{u64}
use harmony_windows_bridge.Display.Types.{
  DisplayResizeStatus, sent, deferred, unchanged, unsupported, failed, DisplayResizeResult,
}

pub data Status : Type 0 where
  is_idle is_multimon is_applying is_failed is_unsupported : Status
  is_deferred is_waiting_frame is_applied is_timeout : Status

-- SessionDisplaySnapshot.
pub record Snapshot : Type 0 where
  pub fixed : Bool
  pub connected : Bool
  pub multimon : Bool
  pub pending : Bool
  pub requested_width : ℕ
  pub requested_height : ℕ
  pub actual_width : ℕ
  pub actual_height : ℕ
  pub generation : ℕ
  pub status : Status

abbrev pub empty_snapshot : Snapshot
empty_snapshot = record {
  fixed = false;
  connected = false;
  multimon = false;
  pending = false;
  requested_width = 0;
  requested_height = 0;
  actual_width = 0;
  actual_height = 0;
  generation = 0;
  status = is_idle;
}

-- SessionDisplaySettings: the snapshot `state_` and the fields that it does not show.
pub record Settings : Type 0 where
  pub state : Snapshot
  pub open state use *
  pub target_width : ℕ
  pub target_height : ℕ
  pub result_accepted : Bool
  pub presented_since_begin : Bool
  pub deadline : ℕ
  pub timeout : ℕ

unfoldable pub new : ℕ → Settings
new timeout = record {
  state = empty_snapshot;
  target_width = 0;
  target_height = 0;
  result_accepted = false;
  presented_since_begin = false;
  deadline = 0;
  timeout = timeout;
}

unfoldable pub near : ℕ → ℕ → Bool
near a b = ltb (if ltb b a then a - b else b - a) 16

unfoldable pub reset : Bool → Settings → Settings
reset connected s = record s {
  state = record empty_snapshot {
    generation = u64 (s.generation + 1);
    connected = connected;
    multimon = s.multimon;
  };
  target_width = 0;
  target_height = 0;
  result_accepted = false;
  presented_since_begin = false;
}

unfoldable pub invalidate_presentation : Settings → Settings
invalidate_presentation s = record s {
  state = record s.state {
    generation = u64 (s.generation + 1);
    actual_width = 0;
    actual_height = 0;
    pending = false;
    status = is_idle;
  };
  result_accepted = false;
  presented_since_begin = false;
}

unfoldable pub set_connected : Bool → Settings → Settings
set_connected connected s = record s { state = record s.state { connected = connected } }

unfoldable pub set_multimon : Bool → Settings → Settings
set_multimon multimon s =
    if multimon
    then record s {
      state = record s.state {
        multimon = multimon;
        fixed = false;
        pending = false;
        requested_width = 0;
        requested_height = 0;
        status = is_multimon;
        generation = u64 (s.generation + 1);
      };
      result_accepted = false;
      presented_since_begin = false;
    }
    else record s { state = record s.state { multimon = multimon } }

abbrev pub out_of_range : ℕ → ℕ → Bool
out_of_range width height = ltb width 200 || (ltb height 200 || (ltb 4096 width || ltb 4096 height))

unfoldable pub select : Bool → ℕ → ℕ → Settings → Settings × Bool
select fixed width height s =
    if not s.connected || (s.multimon || (fixed && out_of_range width height))
    then (s, false)
    else (
      record s {
        state = record s.state {
          fixed = fixed;
          requested_width = if fixed then width else 0;
          requested_height = if fixed then height else 0;
        };
      },
      true,
    )

unfoldable pub begin : ℕ → ℕ → ℕ → Settings → Settings × ℕ
begin now width height s = (
  record s {
    state = record s.state {
      generation = u64 (s.generation + 1);
      status = is_applying;
      pending = true;
    };
    target_width = width;
    target_height = height;
    result_accepted = false;
    presented_since_begin = false;
    deadline = now + s.timeout;
  },
  u64 (s.generation + 1),
)

unfoldable pub confirm_locked : Settings → Settings
unfolding near
confirm_locked s =
    if s.result_accepted
      && (s.presented_since_begin
          && (near s.target_width s.actual_width && near s.target_height s.actual_height))
    then record s { state = record s.state { pending = false; status = is_applied } }
    else s

-- `sent ? sent : (normalized ? normalized : target)`.
abbrev pub pick_size : ℕ → ℕ → ℕ → ℕ
pick_size sent_size normalized target =
    if not (sent_size == 0) then sent_size else if not (normalized == 0) then normalized else target

abbrev pub is_unchanged : DisplayResizeStatus → Bool
is_unchanged unchanged = true
is_unchanged _ = false

abbrev status_of : DisplayResizeStatus → Status
status_of deferred = is_deferred
status_of _ = is_waiting_frame

-- `Result` past its guards, up to `ConfirmLocked`.
abbrev accepted : DisplayResizeResult → Settings → Settings
accepted r s = record s {
  state = record s.state { status = status_of r.status };
  target_width = pick_size r.sent_width r.normalized_width s.target_width;
  target_height = pick_size r.sent_height r.normalized_height s.target_height;
  result_accepted = true;
  presented_since_begin =
      (is_unchanged r.status && (not (s.actual_width == 0) && not (s.actual_height == 0)))
      || s.presented_since_begin;
}

refuse : Status → Settings → Settings
refuse status s = record s { state = record s.state { pending = false; status = status } }

pub result_status : DisplayResizeStatus → DisplayResizeResult → Settings → Settings
unfolding refuse
result_status failed r s = refuse is_failed s
result_status unsupported r s = refuse is_unsupported s
result_status sent r s = confirm_locked (accepted r s)
result_status deferred r s = confirm_locked (accepted r s)
result_status unchanged r s = confirm_locked (accepted r s)

unfoldable pub result : ℕ → DisplayResizeResult → Settings → Settings
unfolding result_status
result generation r s = if not (generation == s.generation) then s else result_status r.status r s

-- `Presented` past its guards, up to `ConfirmLocked`.
abbrev shown : ℕ → ℕ → Settings → Settings
shown width height s = record s {
  state = record s.state { actual_width = width; actual_height = height };
  presented_since_begin = true;
}

unfoldable pub presented : ℕ → ℕ → ℕ → Settings → Settings
presented generation width height s =
    if not (generation == s.generation) || (width == 0 || height == 0)
    then s
    else confirm_locked (shown width height s)

unfoldable pub expire_locked : ℕ → Settings → Settings
expire_locked now s =
    if s.pending && leb s.deadline now
    then record s { state = record s.state { pending = false; status = is_timeout } }
    else s

unfoldable pub snapshot : ℕ → Settings → Settings × Snapshot
unfolding expire_locked
snapshot now s = let s' = expire_locked now s in (s', s'.state)

unfoldable pub blocks_pointer : ℕ → Settings → Settings × Bool
unfolding snapshot
blocks_pointer now s = let (s', state) = snapshot now s in (s', state.pending)

-- The calls that change the settings, each with its arguments, at a time.
pub data Call : Type 0 where
  resets : Bool → Call
  invalidates : Call
  connects : Bool → Call
  multimons : Bool → Call
  selects : Bool → ℕ → ℕ → Call
  begins : ℕ → ℕ → Call
  results : ℕ → DisplayResizeResult → Call
  presents : ℕ → ℕ → ℕ → Call
  snapshots : Call

unfoldable pub call : ℕ → Call → Settings → Settings
call now (resets connected) s = reset connected s
call now invalidates s = invalidate_presentation s
call now (connects connected) s = set_connected connected s
call now (multimons multimon) s = set_multimon multimon s
call now (selects fixed width height) s = (select fixed width height s).0
call now (begins width height) s = (begin now width height s).0
call now (results generation r) s = result generation r s
call now (presents generation width height) s = presented generation width height s
call now snapshots s = (snapshot now s).0

unfoldable pub calls : List (ℕ × Call) → Settings → Settings
calls [] s = s
calls ((now, c) ∷ cs) s = calls cs (call now c s)
