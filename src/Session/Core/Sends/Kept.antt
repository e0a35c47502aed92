-- ===== src/Session/Core/Sends/Kept.antt =====
-- What the functions of session/rdp_session_core.cpp that send input leave as it is: all but the input and
-- the reports of it.
use harmony_windows_bridge.Base.{ℕ, Bool, true, false, not, List, ◌∷◌, String, ◌==◌, if◌then◌else◌}
use harmony_windows_bridge.Display.Settings.{Settings}
use harmony_windows_bridge.Session.Input
use harmony_windows_bridge.Session.Input.{FreerdpRuntimeApi, RdpSessionInput}
use harmony_windows_bridge.Session.Core.{
  Core, InputKind, pointer_input, keyboard_input, unicode_input, ime_input, DiagnosticMask,
  has_kind, with_kind,
}
use harmony_windows_bridge.Session.Core.Sends.{
  Send, no_session, emit_input_diagnostic, reported, unreported, held_or, sends_pointer,
  sends_local_pointer, sends_key, sends_platform_key, sends_unicode, sends_committed_text,
  sends_focus_in, releases_all_keys, send,
}

-- A predicate that is kept by a report and by a change of the input is kept by all that is sent.
module _ {Q : Type 0} (P : Core Q → Type 0)
    (emits : (kind : InputKind) (accepted : Bool) (s : Core Q)
      → P s
      → P (emit_input_diagnostic kind accepted s))
    (inputs : (i : RdpSessionInput Q) (s : Core Q) → P s → P (record s { input = i }))
    (api : FreerdpRuntimeApi Q) where
  pick-keeps : (b : Bool) (x y : Core Q × Bool × String) → P x.0 → P y.0 → P (if b then x else y).0
  pick-keeps true x y p q = p
  pick-keeps false x y p q = q

  reported-keeps :
      (kind : InputKind) (s : Core Q) (sent : RdpSessionInput Q × Bool × String)
      → P s
      → P (if s.connected then reported kind s sent else (s, false, no_session)).0
  reported-keeps kind s (i, accepted, message) p =
      pick-keeps s.connected _ (s, false, no_session)
        (emits kind accepted (record s { input = i }) (inputs i s p)) p

  unreported-keeps :
      (s : Core Q) (sent : RdpSessionInput Q × Bool × String) → P s → P (unreported api s sent).0
  unreported-keeps s (i, accepted, message) p = inputs i s p

  held-keeps :
      (asked : Settings × Bool) (sent : Core Q × Bool × String) (s : Core Q)
      → P sent.0
      → P s
      → P (held_or api asked sent s).1.0
  held-keeps (settings, true) sent s p q = q
  held-keeps (settings, false) sent s p q = p

  pub send-keeps_by : (x : Send) (s : Core Q) → P s → P (send api x s)
  unfolding send
  send-keeps_by (sends_pointer flags x y) s p = reported-keeps pointer_input s _ p
  send-keeps_by (sends_local_pointer now e surface dw dh settings) s p =
      held-keeps _ _ s (reported-keeps pointer_input s _ p) p
  send-keeps_by (sends_key scancode down repeat) s p = reported-keeps keyboard_input s _ p
  send-keeps_by (sends_platform_key event) s p = reported-keeps keyboard_input s _ p
  send-keeps_by (sends_unicode code down) s p = reported-keeps unicode_input s _ p
  send-keeps_by (sends_committed_text text) s p = reported-keeps ime_input s _ p
  send-keeps_by (sends_focus_in toggle_states) s p =
      pick-keeps s.connected _ (s, false, no_session)
        (unreported-keeps s (Input.enqueue_focus_in api true toggle_states s.input) p) p
  send-keeps_by releases_all_keys s p =
      pick-keeps (not s.connected) (_, false, no_session) _
        (inputs (Input.clear api true s.input) s p)
        (unreported-keeps s (Input.enqueue_release_all_keys api true s.input) p)

-- In particular one that does not look at the input and its reports.
module _ {Q : Type 0} (P : Core Q → Type 0)
    (changes : (s : Core Q) (i : RdpSessionInput Q) (a r : DiagnosticMask)
        (d : List (ℕ × Bool × InputKind))
      → P s
      → P (record s { input = i; accepted_mask = a; rejected_mask = r; diagnosed = d }))
    (api : FreerdpRuntimeApi Q) where
  keeps-if : (b : Bool) (x y : Core Q) → P x → P y → P (if b then x else y)
  keeps-if true x y p q = p
  keeps-if false x y p q = q

  emit_input_diagnostic-keeps :
      (kind : InputKind) (accepted : Bool) (s : Core Q)
      → P s
      → P (emit_input_diagnostic kind accepted s)
  unfolding emit_input_diagnostic
  emit_input_diagnostic-keeps kind true s p = keeps-if (has_kind kind s.accepted_mask) _ _ p (
      keeps-if (s.active_diagnostic_session_id == 0) _ _
        (changes s s.input (with_kind kind s.accepted_mask) s.rejected_mask s.diagnosed p)
        (changes s s.input (with_kind kind s.accepted_mask) s.rejected_mask
          ((s.active_diagnostic_session_id, true, kind) ∷ s.diagnosed) p))
  emit_input_diagnostic-keeps kind false s p = keeps-if (has_kind kind s.rejected_mask) _ _ p (
      keeps-if (s.active_diagnostic_session_id == 0) _ _
        (changes s s.input s.accepted_mask (with_kind kind s.rejected_mask) s.diagnosed p)
        (changes s s.input s.accepted_mask (with_kind kind s.rejected_mask)
          ((s.active_diagnostic_session_id, false, kind) ∷ s.diagnosed) p))

  pub send-keeps : (x : Send) (s : Core Q) → P s → P (send api x s)
  send-keeps =
      send-keeps_by P emit_input_diagnostic-keeps
        (λ i s p. changes s i s.accepted_mask s.rejected_mask s.diagnosed p) api
