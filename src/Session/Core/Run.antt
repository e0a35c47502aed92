-- ===== src/Session/Core/Run.antt =====
-- The worker of session/rdp_session_core.cpp with the calls of other threads between its steps, in any
-- order.
use harmony_windows_bridge.Session.Core.{
  was_connected, Progress, not_connected, shows_nothing, waits_for_login, shows_desktop, announces,
  focuses, SessionState, ConnectParams, Phase, absent, checks_tcp, pauses, authenticates, waits,
  dozes, chooses, attempts, attempted, past_the_end, finishes, Core, connect_error, is_absent,
  fresh, request_disconnect, start_worker, connect, start_if_valid, begins,
}
use harmony_windows_bridge.Session.Core.Life.{IsAt, IsConnected, last_state, IsOver, Place}
use harmony_windows_bridge.Base.{
  ℕ, ◌≡◌, refl, ◌⊎◌, inl, inr, Bool, true, false, Option, none, some, List, [], ◌∷◌, arith, subst,
}
use harmony_windows_bridge.Session.Input.{FreerdpRuntimeApi}
use harmony_windows_bridge.Session.Graphics.{GraphicsHelpers}
use harmony_windows_bridge.Session.Core.Worker.{World, worker_step}
use harmony_windows_bridge.Session.Core.Sends.{Send, send}
use harmony_windows_bridge.Session.Core.Invariant.{Inv, if-Inv, step_at-Inv}
use harmony_windows_bridge.Display.Settings.{begins}
use harmony_windows_bridge.Session.Core.Sends.Kept.{send-keeps}

pub data Action : Type 0 where
  works : World → Action
  requests_disconnect : Action
  connects : (next_id : ℕ) → ConnectParams → Action
  sends : Send → Action

-- The place of the worker stays right when the session is stopped.
Place-stopped :
    (p : Phase) (c r : Bool) (o : Option SessionState) → Place p c r o → Place p false false o
Place-stopped absent c r o i = (refl, refl, i.2)
Place-stopped begins c r o i = (refl, i.1)
Place-stopped checks_tcp c r o i = (refl, i.1)
Place-stopped (pauses false elapsed) c r o i = (refl, i.1)
Place-stopped (pauses true elapsed) c r o i = (refl, i.1)
Place-stopped authenticates c r o i = (refl, i.1)
Place-stopped (waits elapsed) c r o i = (refl, i.1)
Place-stopped (dozes elapsed slept) c r o i = (refl, i.1)
Place-stopped chooses c r o i = (refl, i.1)
Place-stopped (attempts attempt g) c r o i = (inl refl, i.1)
Place-stopped (announces attempt) c r o i = i
Place-stopped (focuses attempt) c r o i = i
Place-stopped (attempted attempt tried session) c r o i = (inr refl, inl refl, i.2)
Place-stopped past_the_end c r o i = (inl refl, i.1)
Place-stopped (finishes session) c r o i = (inr refl, inl refl, i.2)

Place-absent :
    (p : Phase) (c r : Bool) (o : Option SessionState)
    → is_absent p ≡ true
    → Place p c r o
    → (c ≡ false) × (r ≡ false) × IsOver o
Place-absent absent c r o e i = i
Place-absent begins c r o e i = ground (arith, e)
Place-absent checks_tcp c r o e i = ground (arith, e)
Place-absent (pauses second elapsed) c r o e i = ground (arith, e)
Place-absent authenticates c r o e i = ground (arith, e)
Place-absent (waits elapsed) c r o e i = ground (arith, e)
Place-absent (dozes elapsed slept) c r o e i = ground (arith, e)
Place-absent chooses c r o e i = ground (arith, e)
Place-absent (attempts attempt g) c r o e i = ground (arith, e)
Place-absent (announces attempt) c r o e i = ground (arith, e)
Place-absent (focuses attempt) c r o e i = ground (arith, e)
Place-absent (attempted attempt tried session) c r o e i = ground (arith, e)
Place-absent past_the_end c r o e i = ground (arith, e)
Place-absent (finishes session) c r o e i = ground (arith, e)

-- The worker has made the session connected and is about to announce it.
abbrev pub is_announcing : Phase → Bool
is_announcing (announces attempt) = true
is_announcing _ = false

IsConnected-IsAt :
    (g : Progress) (o : Option SessionState)
    → (true ≡ false) ⊎ (was_connected g ≡ true)
    → IsAt g o
    → IsConnected o
IsConnected-IsAt not_connected o (inl e) p = ground (arith, e)
IsConnected-IsAt not_connected o (inr e) p = ground (arith, e)
IsConnected-IsAt shows_nothing o e p = inl p
IsConnected-IsAt waits_for_login o e p = inr (inl p)
IsConnected-IsAt shows_desktop o e p = inr (inr p)

Place-IsConnected :
    (p : Phase) (r : Bool) (o : Option SessionState)
    → Place p true r o
    → is_announcing p ≡ false
    → IsConnected o
Place-IsConnected absent r o i n = ground (arith, i.0)
Place-IsConnected begins r o i n = ground (arith, i.0)
Place-IsConnected checks_tcp r o i n = ground (arith, i.0)
Place-IsConnected (pauses false elapsed) r o i n = ground (arith, i.0)
Place-IsConnected (pauses true elapsed) r o i n = ground (arith, i.0)
Place-IsConnected authenticates r o i n = ground (arith, i.0)
Place-IsConnected (waits elapsed) r o i n = ground (arith, i.0)
Place-IsConnected (dozes elapsed slept) r o i n = ground (arith, i.0)
Place-IsConnected chooses r o i n = ground (arith, i.0)
Place-IsConnected (attempts attempt g) r o i n = IsConnected-IsAt g o i.0 i.1
Place-IsConnected (announces attempt) r o i n = ground (arith, n)
Place-IsConnected (focuses attempt) r o i n = inl i
Place-IsConnected (attempted attempt true session) r o i n = i.2
Place-IsConnected (attempted attempt false session) r o i n = ground (arith, i.1)
Place-IsConnected past_the_end r o (inl e, q) n = ground (arith, e)
Place-IsConnected past_the_end r o (inr e, q) n = e
Place-IsConnected (finishes session) r o (h, inl e, q) n = ground (arith, e)
Place-IsConnected (finishes session) r o (h, inr e, q) n = e

module _ {Q : Type 0} (api : FreerdpRuntimeApi Q) (helpers : GraphicsHelpers) where
  unfoldable pub act : Action → Core Q → Core Q
  unfolding worker_step request_disconnect connect send
  act (works w) s = worker_step api helpers w s
  act requests_disconnect s = request_disconnect api s
  act (connects next_id p) s = connect api helpers next_id p s
  act (sends x) s = send api x s

  unfoldable pub run : List Action → Core Q → Core Q
  unfolding act
  run [] s = s
  run (a ∷ actions) s = run actions (act a s)

  start_if_valid-Inv :
      (next_id : ℕ) (p : ConnectParams) (message : Option (List ℕ)) (s : Core Q)
      → IsOver (last_state s.emitted)
      → Inv s
      → Inv (start_if_valid api next_id p message s)
  unfolding start_worker request_disconnect
  start_if_valid-Inv next_id p (some message) s over i = i
  start_if_valid-Inv next_id p none s over i = ((refl, over), i.1)

  connect-Inv :
      (next_id : ℕ) (p : ConnectParams) (s : Core Q) → Inv s → Inv (connect api helpers next_id p s)
  unfolding connect
  connect-Inv next_id p s i =
      if-Inv (is_absent s.phase) _ _
        (λ e.
          start_if_valid-Inv next_id p (connect_error helpers p) s
            (Place-absent s.phase s.connected s.running (last_state s.emitted) e i.0).2 i)
        (λ e. i)

  send-Inv : (x : Send) (s : Core Q) → Inv s → Inv (send api x s)
  send-Inv = send-keeps Inv (λ s i a r d k. k) api

  act-Inv : (a : Action) (s : Core Q) → Inv s → Inv (act a s)
  unfolding act worker_step request_disconnect
  act-Inv (works w) s i = step_at-Inv api helpers w s.phase s refl i.0 i.1
  act-Inv requests_disconnect s i =
      (Place-stopped s.phase s.connected s.running (last_state s.emitted) i.0, i.1)
  act-Inv (connects next_id p) s i = connect-Inv next_id p s i
  act-Inv (sends x) s i = send-Inv x s i

  run-Inv : (actions : List Action) (s : Core Q) → Inv s → Inv (run actions s)
  unfolding run
  run-Inv [] s i = i
  run-Inv (a ∷ actions) s i = run-Inv actions (act a s) (act-Inv a s i)

  fresh-Inv : Inv (fresh {Q = Q})
  unfolding fresh
  fresh-Inv = ((refl, refl, inl refl), tt)

  reached : (actions : List Action) → Inv (run actions fresh)
  reached actions = run-Inv actions fresh fresh-Inv

  -- When the worker has returned, the session is neither running nor connected, and the state announced
  -- last, if there is one, is `disconnected` or `failed`.
  pub returned-IsOver :
      (actions : List Action)
      → is_absent (run actions fresh).phase ≡ true
      → let s = run actions fresh in
        (s.connected ≡ false) × (s.running ≡ false) × IsOver (last_state s.emitted)
  returned-IsOver actions e = Place-absent _ _ _ _ e (reached actions).0

  -- While the session is connected, and but for the moment in which the worker has set that and is about to
  -- announce it, the state announced last is `logged_in`, `remote_login_waiting` or `remote_desktop_ready`.
  pub connected_is_announced :
      (actions : List Action)
      → (run actions fresh).connected ≡ true
      → is_announcing (run actions fresh).phase ≡ false
      → IsConnected (last_state (run actions fresh).emitted)
  connected_is_announced actions e n =
      Place-IsConnected _ _ _
        (subst
          (λ c.
            Place (run actions fresh).phase c (run actions fresh).running
              (last_state (run actions fresh).emitted))
          e (reached actions).0)
        n
