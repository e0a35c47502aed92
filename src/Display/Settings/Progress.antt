-- ===== src/Display/Settings/Progress.antt =====
-- A resolution change is settled in time, by its own result and frame, in whichever order these come.
use harmony_windows_bridge.Base.{
  ℕ, ◌+◌, ◌≤◌, ◌<◌, ◌≡◌, refl, sym, ap, ◌∙◌, ◌≢◌, ◌⊎◌, inl, inr, Bool, true, false, List, [], ◌∷◌,
  arith, ==_refl,
}
use harmony_windows_bridge.Display.Types.{
  DisplayResizeResult, DisplayResizeStatus, failed, unsupported, unchanged,
}
use harmony_windows_bridge.Display.Settings.{
  refuse, shown, accepted, result_status, Settings, Call, call, calls, begins, reset,
  invalidate_presentation, set_connected, set_multimon, select, begin, confirm_locked, result,
  presented, snapshot, blocks_pointer, results, presents, Status, is_failed, is_unsupported,
}

abbrev pub not_begin : Call → Bool
not_begin (begins width height) = false
not_begin _ = true

abbrev pub NoBegin : List (ℕ × Call) → Type 0
NoBegin [] = Unit {0}
NoBegin ((now, c) ∷ cs) = (not_begin c ≡ true) × NoBegin cs

confirm_locked-deadline : (s : Settings) → (confirm_locked s).deadline ≡ s.deadline
unfolding confirm_locked
confirm_locked-deadline s = ground arith

result_status-deadline :
    (d : DisplayResizeStatus) (r : DisplayResizeResult) (s : Settings)
    → (result_status d r s).deadline ≡ s.deadline
unfolding result_status
result_status-deadline failed r s = refl
result_status-deadline unsupported r s = refl
result_status-deadline _ r s = confirm_locked-deadline (accepted r s)

-- Only `Begin` moves the deadline.
call-deadline :
    (now : ℕ) (c : Call) (s : Settings) → not_begin c ≡ true → (call now c s).deadline ≡ s.deadline
unfolding call reset invalidate_presentation set_connected set_multimon select result presented
    confirm_locked snapshot
call-deadline now (begins width height) s h = cc
call-deadline now (results generation r) s h = ground (arith, result_status-deadline r.status r s)
call-deadline now (presents generation width height) s h = ground arith
call-deadline now _ s h = ground arith

calls-deadline :
    (cs : List (ℕ × Call)) (s : Settings) → NoBegin cs → (calls cs s).deadline ≡ s.deadline
unfolding calls
calls-deadline [] s h = refl
calls-deadline ((now, c) ∷ cs) s h =
    calls-deadline cs (call now c s) h.1 ∙ call-deadline now c s h.0

blocks_pointer-late : (now : ℕ) (s : Settings) → s.deadline ≤ now → (blocks_pointer now s).1 ≡ false
unfolding blocks_pointer
blocks_pointer-late now s h = ground arith

-- A resolution change begun at time t blocks the pointer at no time from t plus the timeout on, whatever
-- other calls than a new `Begin` come in between.
pub begin_unblocks_pointer :
    (t width height now : ℕ) (s : Settings) (cs : List (ℕ × Call))
    → NoBegin cs
    → t + s.timeout ≤ now
    → (blocks_pointer now (calls cs (begin t width height s).0)).1 ≡ false
begin_unblocks_pointer t width height now s cs h late =
    blocks_pointer-late now _
      (rw (calls-deadline cs (begin t width height s).0 h) (unfold begin in late))

-- A result or a frame of another generation than the present one changes nothing.
pub stale_is_ignored :
    (generation width height : ℕ) (r : DisplayResizeResult) (s : Settings)
    → generation ≢ s.generation
    → (result generation r s ≡ s) × (presented generation width height s ≡ s)
unfolding result presented
stale_is_ignored generation width height r s h = ground arith

confirm_locked_early :
    (s : Settings)
    → (s.result_accepted ≡ false) ⊎ (s.presented_since_begin ≡ false)
    → confirm_locked s ≡ s
unfolding confirm_locked
confirm_locked_early s h = ground arith

presented_lem :
    (width height : ℕ) (s : Settings)
    → 0 < width
    → 0 < height
    → presented s.generation width height s ≡ confirm_locked (shown width height s)
unfolding presented
presented_lem width height s w h = ground (arith, ==_refl s.generation)

result_lem :
    (r : DisplayResizeResult) (s : Settings) → result s.generation r s ≡ result_status r.status r s
unfolding result
result_lem r s = rw (==_refl s.generation)

-- The settings from which `ConfirmLocked` runs last are the same in both orders.
accepted-not_shown :
    (r : DisplayResizeResult) (s : Settings)
    → r.status ≢ unchanged
    → s.presented_since_begin ≡ false
    → (accepted r s).presented_since_begin ≡ false
accepted-not_shown r s n p = ground arith

accepted-shown :
    (r : DisplayResizeResult) (width height : ℕ) (s : Settings)
    → r.status ≢ unchanged
    → accepted r (shown width height s) ≡ shown width height (accepted r s)
accepted-shown r width height s n = ground arith

-- Both orders of a result that is neither a refusal nor `Unchanged` and of a frame.
accept_commute :
    (r : DisplayResizeResult) (width height : ℕ) (s : Settings)
    → r.status ≢ unchanged
    → 0 < width
    → 0 < height
    → s.result_accepted ≡ false
    → s.presented_since_begin ≡ false
    → presented s.generation width height (confirm_locked (accepted r s))
      ≡ confirm_locked (accepted r (presented s.generation width height s))
accept_commute r width height s n w h a p =
    rw (confirm_locked_early (accepted r s) (inr (accepted-not_shown r s n p))) (
      rw (presented_lem width height (accepted r s) w h) (
        rw (presented_lem width height s w h) (
          rw (confirm_locked_early (shown width height s) (inl a))
            (ap confirm_locked (sym (accepted-shown r width height s n))))))

refuse_commute :
    (status : Status) (width height : ℕ) (s : Settings)
    → s.result_accepted ≡ false
    → presented s.generation width height (refuse status s)
      ≡ refuse status (presented s.generation width height s)
unfolding presented confirm_locked refuse
refuse_commute status width height s a = ground arith

result_status_commute :
    (d : DisplayResizeStatus) (r : DisplayResizeResult) (width height : ℕ) (s : Settings)
    → r.status ≢ unchanged
    → 0 < width
    → 0 < height
    → s.result_accepted ≡ false
    → s.presented_since_begin ≡ false
    → presented s.generation width height (result_status d r s)
      ≡ result_status d r (presented s.generation width height s)
unfolding result_status
result_status_commute failed r width height s n w h a p = refuse_commute is_failed width height s a
result_status_commute unsupported r width height s n w h a p =
    refuse_commute is_unsupported width height s a
result_status_commute _ r width height s n w h a p = accept_commute r width height s n w h a p

result_at :
    (generation : ℕ) (r : DisplayResizeResult) (s : Settings)
    → s.generation ≡ generation
    → result generation r s ≡ result_status r.status r s
result_at generation r s e = rw (← e) (result_lem r s)

presented-generation :
    (generation width height : ℕ) (s : Settings)
    → (presented generation width height s).generation ≡ s.generation
unfolding presented confirm_locked
presented-generation generation width height s = ground arith

fresh_commute :
    (r : DisplayResizeResult) (width height : ℕ) (s : Settings)
    → r.status ≢ unchanged
    → 0 < width
    → 0 < height
    → s.result_accepted ≡ false
    → s.presented_since_begin ≡ false
    → presented s.generation width height (result s.generation r s)
      ≡ result s.generation r (presented s.generation width height s)
fresh_commute r width height s n w h a p =
    ap (presented s.generation width height) (result_lem r s)
    ∙ result_status_commute r.status r width height s n w h a p
    ∙ sym (result_at s.generation r _ (presented-generation s.generation width height s))

-- After `Begin` the result of a change and the frame that shows it may come in either order: as long as
-- the result is not `Unchanged` and the frame is not empty, the settings end up the same.
pub begin-result-presented_commute :
    (now w h width height : ℕ) (r : DisplayResizeResult) (s : Settings)
    → r.status ≢ unchanged
    → 0 < width
    → 0 < height
    → presented (begin now w h s).1 width height (result (begin now w h s).1 r (begin now w h s).0)
      ≡ result
          (begin now w h s).1
          r
          (presented (begin now w h s).1 width height (begin now w h s).0)
unfolding begin
begin-result-presented_commute now w h width height r s n pw ph =
    fresh_commute r width height (begin now w h s).0 n pw ph refl refl
