-- ===== src/Session/Core/Sends/Once.antt =====
-- EmitInputDiagnostic of session/rdp_session_core.cpp reports once.
use native.Mathlib.Nat.{le_refl}
use harmony_windows_bridge.Base.{
  ℕ, zero, suc, ◌+◌, ◌≤◌, ◌≡◌, refl, sym, ap, ◌∙◌, Bool, true, false, not, ◌&&◌, List, [], ◌∷◌,
  arith, ◌==◌, if◌then◌else◌, All, subst,
}
use harmony_windows_bridge.Session.Core.{
  Core, InputKind, pointer_input, keyboard_input, unicode_input, ime_input, DiagnosticMask,
  has_kind, with_kind, ConnectParams, request_disconnect, start_worker, empty_mask,
}
use harmony_windows_bridge.Session.Core.Sends.{emit_input_diagnostic, Send, send}
use harmony_windows_bridge.Session.Input.{FreerdpRuntimeApi}
use harmony_windows_bridge.Session.Core.Sends.Kept.{send-keeps_by}
use harmony_windows_bridge.Session.Graphics.{GraphicsHelpers}
use harmony_windows_bridge.Session.Core.Run.{
  run, act, Action, works, requests_disconnect, connects, sends,
}
use harmony_windows_bridge.Session.Core.Ends.{is_connect}
use harmony_windows_bridge.Session.Core.Worker.{worker_step}
use harmony_windows_bridge.Session.Core.Worker.Kept.{Reports, reports, step_at-reports}

abbrev kind_number : InputKind → ℕ
kind_number pointer_input = 0
kind_number keyboard_input = 1
kind_number unicode_input = 2
kind_number ime_input = 3

abbrev same_answer : Bool → Bool → Bool
same_answer true b = b
same_answer false b = not b

-- How many reports there are of one kind of input and one answer.
abbrev pub report_count : Bool → InputKind → List (ℕ × Bool × InputKind) → ℕ
report_count accepted kind [] = 0
report_count accepted kind ((id, a, k) ∷ reports) =
    if same_answer accepted a && kind_number kind == kind_number k
    then suc (report_count accepted kind reports)
    else report_count accepted kind reports

has_kind-with_kind :
    (k j : InputKind) (m : DiagnosticMask)
    → has_kind k (with_kind j m) ≡ (if kind_number k == kind_number j then true else has_kind k m)
has_kind-with_kind pointer_input pointer_input m = refl
has_kind-with_kind pointer_input keyboard_input m = refl
has_kind-with_kind pointer_input unicode_input m = refl
has_kind-with_kind pointer_input ime_input m = refl
has_kind-with_kind keyboard_input pointer_input m = refl
has_kind-with_kind keyboard_input keyboard_input m = refl
has_kind-with_kind keyboard_input unicode_input m = refl
has_kind-with_kind keyboard_input ime_input m = refl
has_kind-with_kind unicode_input pointer_input m = refl
has_kind-with_kind unicode_input keyboard_input m = refl
has_kind-with_kind unicode_input unicode_input m = refl
has_kind-with_kind unicode_input ime_input m = refl
has_kind-with_kind ime_input pointer_input m = refl
has_kind-with_kind ime_input keyboard_input m = refl
has_kind-with_kind ime_input unicode_input m = refl
has_kind-with_kind ime_input ime_input m = refl

kind_of : ℕ → InputKind
kind_of zero = pointer_input
kind_of (suc zero) = keyboard_input
kind_of (suc (suc zero)) = unicode_input
kind_of (suc (suc (suc n))) = ime_input

kind_of-kind_number : (k : InputKind) → kind_of (kind_number k) ≡ k
unfolding kind_of
kind_of-kind_number pointer_input = refl
kind_of-kind_number keyboard_input = refl
kind_of-kind_number unicode_input = refl
kind_of-kind_number ime_input = refl

kind_number-injective : (k j : InputKind) → kind_number k ≡ kind_number j → k ≡ j
kind_number-injective k j e =
    sym (kind_of-kind_number k) ∙ (ap (λ n. kind_of n) e ∙ kind_of-kind_number j)

has_kind-same :
    (k j : InputKind) (m : DiagnosticMask)
    → kind_number k ≡ kind_number j
    → has_kind k m ≡ has_kind j m
has_kind-same k j m e = ap (λ i. has_kind i m) (kind_number-injective k j e)

-- How many reports were made or may still be made.
abbrev pub allowance_of : Bool → InputKind → Reports → ℕ
allowance_of accepted kind (a, r, made) =
    report_count accepted kind made + (if has_kind kind (if accepted then a else r) then 0 else 1)

has_kind-empty : (kind : InputKind) → has_kind kind empty_mask ≡ false
has_kind-empty pointer_input = refl
has_kind-empty keyboard_input = refl
has_kind-empty unicode_input = refl
has_kind-empty ime_input = refl

module _ {Q : Type 0} where
  abbrev pub allowance : Bool → InputKind → Core Q → ℕ
  allowance accepted kind s = allowance_of accepted kind (reports s)

  allowance-emit :
      (accepted a : Bool) (kind k : InputKind) (s : Core Q)
      → allowance accepted kind (emit_input_diagnostic k a s) ≤ allowance accepted kind s
  unfolding emit_input_diagnostic
  allowance-emit true true kind k s =
      ground
        (arith, has_kind-with_kind kind k s.accepted_mask, has_kind-same kind k s.accepted_mask)
  allowance-emit true false kind k s = ground arith
  allowance-emit false true kind k s = ground arith
  allowance-emit false false kind k s =
      ground
        (arith, has_kind-with_kind kind k s.rejected_mask, has_kind-same kind k s.rejected_mask)

  send-allowance :
      (api : FreerdpRuntimeApi Q) (accepted : Bool) (kind : InputKind) (x : Send) (s : Core Q)
      → allowance accepted kind (send api x s) ≤ allowance accepted kind s
  send-allowance api accepted kind x s =
      send-keeps_by (λ s'. allowance accepted kind s' ≤ allowance accepted kind s)
        (λ k a s' h. omega (arith, h, allowance-emit accepted a kind k s')) (λ i s' h. h) api x s
        (omega arith)

  start_worker-allowance :
      (api : FreerdpRuntimeApi Q) (accepted : Bool) (kind : InputKind) (next_id : ℕ)
      (p : ConnectParams) (s : Core Q)
      → allowance accepted kind (start_worker api next_id p s)
        ≤ report_count accepted kind s.diagnosed + 1
  unfolding start_worker
  start_worker-allowance api true kind next_id p s = rw (has_kind-empty kind) (omega arith)
  start_worker-allowance api false kind next_id p s = rw (has_kind-empty kind) (omega arith)

  module _ (api : FreerdpRuntimeApi Q) (helpers : GraphicsHelpers) where
    act-allowance :
        (accepted : Bool) (kind : InputKind) (a : Action) (s : Core Q)
        → is_connect a ≡ false
        → allowance accepted kind (act api helpers a s) ≤ allowance accepted kind s
    unfolding act worker_step request_disconnect
    act-allowance accepted kind (works w) s n =
        subst (λ r. allowance_of accepted kind r ≤ allowance accepted kind s)
          (sym (step_at-reports api helpers w s.phase s)) (le_refl (allowance accepted kind s))
    act-allowance accepted kind requests_disconnect s n = omega arith
    act-allowance accepted kind (connects next_id p) s n = ground (arith, n)
    act-allowance accepted kind (sends x) s n = send-allowance api accepted kind x s

    run-allowance :
        (accepted : Bool) (kind : InputKind) (actions : List Action) (s : Core Q)
        → All (λ a. is_connect a ≡ false) actions
        → allowance accepted kind (run api helpers actions s) ≤ allowance accepted kind s
    unfolding run
    run-allowance accepted kind [] s n = omega arith
    run-allowance accepted kind (a ∷ actions) s n = omega (
      arith,
      run-allowance accepted kind actions (act api helpers a s) n.1,
      act-allowance accepted kind a s n.0,
    )

    -- Between one `Connect` and the next, whatever is sent and whatever else happens, a kind of input is
    -- reported at most once as accepted and at most once as rejected.
    pub reported_once :
        (accepted : Bool) (kind : InputKind) (next_id : ℕ) (p : ConnectParams) (s : Core Q)
        (actions : List Action)
        → All (λ a. is_connect a ≡ false) actions
        → report_count accepted kind
            (run api helpers actions (start_worker api next_id p s)).diagnosed
          ≤ report_count accepted kind s.diagnosed + 1
    unfolding start_worker
    reported_once accepted kind next_id p s actions n =
        let h : allowance accepted kind (run api helpers actions (start_worker api next_id p s))
            ≤ allowance accepted kind (start_worker api next_id p s) =
          run-allowance accepted kind actions (start_worker api next_id p s) n in
        omega (arith, h, start_worker-allowance api accepted kind next_id p s)
