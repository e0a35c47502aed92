-- ===== src/Session/Core/Life.antt =====
-- The life of a session of session/rdp_session_core.cpp: which states it announces and what holds when
-- its worker has returned.
use harmony_windows_bridge.Session.Core.{
  was_connected, Progress, not_connected, shows_nothing, waits_for_login, shows_desktop,
  remote_login_waiting, remote_desktop_ready, announces, focuses, SessionState, resolving,
  tcp_connected, negotiating, authenticating, logged_in, disconnected, failed, Emitted, state, log,
  error, Phase, absent, begins, checks_tcp, pauses, authenticates, waits, dozes, chooses, attempts,
  attempted, past_the_end, finishes,
}
use harmony_windows_bridge.Base.{
  ◌≡◌, refl, ◌⊎◌, inl, inr, Bool, true, false, Option, none, some, List, [], ◌∷◌, arith,
}
use harmony_windows_bridge.Session.Core.Worker.{Ending, unavailable, unprepared, ran, run_result}
use harmony_windows_bridge.Session.Graphics.{RdpSessionRunResult}

-- The state announced last.
abbrev pub last_state : List Emitted → Option SessionState
last_state [] = none
last_state (state x ∷ es) = some x
last_state (log t ∷ es) = last_state es
last_state (error t ∷ es) = last_state es

-- The states of a session in the order in which a user sees them. A session begins anew after
-- `disconnected` and `failed` only.
abbrev pub may_follow : Option SessionState → SessionState → Bool
may_follow none resolving = true
may_follow none disconnected = true
may_follow none _ = false
may_follow (some resolving) tcp_connected = true
may_follow (some resolving) disconnected = true
may_follow (some resolving) failed = true
may_follow (some resolving) _ = false
may_follow (some tcp_connected) negotiating = true
may_follow (some tcp_connected) disconnected = true
may_follow (some tcp_connected) _ = false
may_follow (some negotiating) authenticating = true
may_follow (some negotiating) negotiating = true
may_follow (some negotiating) logged_in = true
may_follow (some negotiating) disconnected = true
may_follow (some negotiating) failed = true
may_follow (some negotiating) _ = false
may_follow (some authenticating) negotiating = true
may_follow (some authenticating) logged_in = true
may_follow (some authenticating) disconnected = true
may_follow (some authenticating) failed = true
may_follow (some authenticating) _ = false
may_follow (some logged_in) remote_login_waiting = true
may_follow (some logged_in) remote_desktop_ready = true
may_follow (some logged_in) negotiating = true
may_follow (some logged_in) logged_in = true
may_follow (some logged_in) disconnected = true
may_follow (some logged_in) failed = true
may_follow (some logged_in) _ = false
may_follow (some remote_login_waiting) remote_desktop_ready = true
may_follow (some remote_login_waiting) negotiating = true
may_follow (some remote_login_waiting) logged_in = true
may_follow (some remote_login_waiting) disconnected = true
may_follow (some remote_login_waiting) failed = true
may_follow (some remote_login_waiting) _ = false
may_follow (some remote_desktop_ready) negotiating = true
may_follow (some remote_desktop_ready) logged_in = true
may_follow (some remote_desktop_ready) disconnected = true
may_follow (some remote_desktop_ready) failed = true
may_follow (some remote_desktop_ready) _ = false
may_follow (some disconnected) resolving = true
may_follow (some disconnected) disconnected = true
may_follow (some disconnected) _ = false
may_follow (some failed) resolving = true
may_follow (some failed) disconnected = true
may_follow (some failed) _ = false

-- Each state announced may follow the one before it.
abbrev pub IsLife : List Emitted → Type 0
IsLife [] = Unit
IsLife (state x ∷ es) = (may_follow (last_state es) x ≡ true) × IsLife es
IsLife (log t ∷ es) = IsLife es
IsLife (error t ∷ es) = IsLife es

-- No session is under way.
abbrev pub IsOver : Option SessionState → Type 0
IsOver o = (o ≡ none) ⊎ ((o ≡ some disconnected) ⊎ (o ≡ some failed))

-- No session is connected yet.
abbrev pub IsBefore : Option SessionState → Type 0
IsBefore o = (o ≡ some authenticating) ⊎ (o ≡ some negotiating)

-- The session is connected, or was when this was announced.
abbrev pub IsConnected : Option SessionState → Type 0
IsConnected o =
    (o ≡ some logged_in) ⊎ ((o ≡ some remote_login_waiting) ⊎ (o ≡ some remote_desktop_ready))

-- What was announced last at a point of an attempt.
abbrev pub IsAt : Progress → Option SessionState → Type 0
IsAt not_connected o = IsBefore o
IsAt shows_nothing o = o ≡ some logged_in
IsAt waits_for_login o = o ≡ some remote_login_waiting
IsAt shows_desktop o = o ≡ some remote_desktop_ready

-- What was announced during an attempt that was connected or never was.
abbrev pub IsTried : Bool → Option SessionState → Type 0
IsTried true o = IsConnected o
IsTried false o = IsBefore o

abbrev pub WasTried : Option SessionState → Type 0
WasTried o = IsBefore o ⊎ IsConnected o

-- A result is called cancelled only if the session was stopped.
abbrev pub IsHonest : RdpSessionRunResult → Bool → Type 0
IsHonest r running = (r.cancelled ≡ false) ⊎ (running ≡ false)

abbrev pub WasConnected : Bool → Option SessionState → Type 0
WasConnected connected o = (connected ≡ false) ⊎ IsConnected o

-- Where the worker stands decides what was announced and whether the session may be connected.
abbrev pub Place : Phase → Bool → Bool → Option SessionState → Type 0
Place absent connected running o = (connected ≡ false) × (running ≡ false) × IsOver o
Place begins connected running o = (connected ≡ false) × IsOver o
Place checks_tcp connected running o = (connected ≡ false) × (o ≡ some resolving)
Place (pauses false elapsed) connected running o = (connected ≡ false) × (o ≡ some tcp_connected)
Place (pauses true elapsed) connected running o = (connected ≡ false) × (o ≡ some negotiating)
Place authenticates connected running o = (connected ≡ false) × (o ≡ some authenticating)
Place (waits elapsed) connected running o = (connected ≡ false) × (o ≡ some authenticating)
Place (dozes elapsed slept) connected running o = (connected ≡ false) × (o ≡ some authenticating)
Place chooses connected running o = (connected ≡ false) × (o ≡ some authenticating)
Place (attempts attempt g) connected running o =
    ((connected ≡ false) ⊎ (was_connected g ≡ true)) × IsAt g o
Place (announces attempt) connected running o = WasTried o
Place (focuses attempt) connected running o = o ≡ some logged_in
Place (attempted attempt c r) connected running o =
    IsHonest r running × ((connected ≡ false) ⊎ (c ≡ true)) × IsTried c o
Place past_the_end connected running o = WasConnected connected o × WasTried o
Place (finishes r) connected running o = IsHonest r running × WasConnected connected o × WasTried o

pub disconnected_follows : (o : Option SessionState) → may_follow o disconnected ≡ true
disconnected_follows none = refl
disconnected_follows (some resolving) = refl
disconnected_follows (some tcp_connected) = refl
disconnected_follows (some negotiating) = refl
disconnected_follows (some authenticating) = refl
disconnected_follows (some logged_in) = refl
disconnected_follows (some remote_login_waiting) = refl
disconnected_follows (some remote_desktop_ready) = refl
disconnected_follows (some disconnected) = refl
disconnected_follows (some failed) = refl

pub at→tried : (g : Progress) (o : Option SessionState) → IsAt g o → IsTried (was_connected g) o
at→tried not_connected o p = p
at→tried shows_nothing o p = inl p
at→tried waits_for_login o p = inr (inl p)
at→tried shows_desktop o p = inr (inr p)

pub tried→was : (c : Bool) (o : Option SessionState) → IsTried c o → WasTried o
tried→was true o p = inr p
tried→was false o p = inl p

pub tried→connected :
    (c connected : Bool) (o : Option SessionState)
    → (connected ≡ false) ⊎ (c ≡ true)
    → IsTried c o
    → WasConnected connected o
tried→connected true connected o k p = inr p
tried→connected false connected o (inl k) p = inl k
tried→connected false connected o (inr k) p = ground (arith, k)

pub failed_follows : (o : Option SessionState) → WasTried o → may_follow o failed ≡ true
failed_follows o (inl (inl e)) = rw e refl
failed_follows o (inl (inr e)) = rw e refl
failed_follows o (inr (inl e)) = rw e refl
failed_follows o (inr (inr (inl e))) = rw e refl
failed_follows o (inr (inr (inr e))) = rw e refl

pub tried_again : (o : Option SessionState) → WasTried o → may_follow o negotiating ≡ true
tried_again o (inl (inl e)) = rw e refl
tried_again o (inl (inr e)) = rw e refl
tried_again o (inr (inl e)) = rw e refl
tried_again o (inr (inr (inl e))) = rw e refl
tried_again o (inr (inr (inr e))) = rw e refl

pub logged_in_follows : (o : Option SessionState) → WasTried o → may_follow o logged_in ≡ true
logged_in_follows o (inl (inl e)) = rw e refl
logged_in_follows o (inl (inr e)) = rw e refl
logged_in_follows o (inr (inl e)) = rw e refl
logged_in_follows o (inr (inr (inl e))) = rw e refl
logged_in_follows o (inr (inr (inr e))) = rw e refl

pub resolving_follows : (o : Option SessionState) → IsOver o → may_follow o resolving ≡ true
resolving_follows o (inl e) = rw e refl
resolving_follows o (inr (inl e)) = rw e refl
resolving_follows o (inr (inr e)) = rw e refl

pub cancelled_means_stopped :
    (running : Bool) (e : Ending) → ((run_result running e).cancelled ≡ false) ⊎ (running ≡ false)
unfolding run_result
cancelled_means_stopped running (unavailable message) = inl refl
cancelled_means_stopped running (unprepared message) = inl refl
cancelled_means_stopped true (ran c ok message) = inl refl
cancelled_means_stopped false (ran c ok message) = inr refl
