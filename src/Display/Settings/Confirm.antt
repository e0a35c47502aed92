-- ===== src/Display/Settings/Confirm.antt =====
-- What it takes for a resolution change to be reported as applied.
use harmony_windows_bridge.Base.{
  ℕ, ◌+◌, ◌<◌, ◌≡◌, refl, sym, ◌≢◌, ◌⊎◌, inl, inr, Bool, true, false, not, ◌&&◌, ◌||◌, List, [],
  ◌∷◌, arith, ◌==◌, Bool-cases,
}
use harmony_windows_bridge.Display.Settings.{
  is_unchanged, is_applied, Settings, reset, invalidate_presentation, set_connected, set_multimon,
  select, begin, confirm_locked, result, presented, snapshot, Call, resets, invalidates, connects,
  multimons, selects, begins, results, presents, snapshots, call, result_status, status_of,
  accepted,
}
use harmony_windows_bridge.Display.Types.{
  sent, unchanged, DisplayResizeStatus, deferred, unsupported, failed, DisplayResizeResult,
}

-- One size is less than 16 pixels off the other.
abbrev pub IsNear : ℕ → ℕ → Type 0
IsNear a b = (a < b + 16) × (b < a + 16)

abbrev pub Confirmed : Settings → Type 0
Confirmed s =
    (s.pending ≡ false)
    × (s.result_accepted ≡ true)
    × (s.presented_since_begin ≡ true)
    × IsNear s.target_width s.actual_width
    × IsNear s.target_height s.actual_height

confirm_locked-Confirmed :
    (s : Settings)
    → s.status ≢ is_applied
    → (confirm_locked s).status ≡ is_applied
    → Confirmed (confirm_locked s)
unfolding confirm_locked
confirm_locked-Confirmed s n h = ground arith

status_of-ne : (d : DisplayResizeStatus) → status_of d ≢ is_applied
status_of-ne deferred e = cc
status_of-ne _ e = cc

result_status-Confirmed :
    (d : DisplayResizeStatus) (r : DisplayResizeResult) (s : Settings)
    → (result_status d r s).status ≡ is_applied
    → Confirmed (result_status d r s)
unfolding result_status
result_status-Confirmed failed r s h = cc
result_status-Confirmed unsupported r s h = cc
result_status-Confirmed _ r s h = confirm_locked-Confirmed (accepted r s) (status_of-ne r.status) h

result-Confirmed :
    (generation : ℕ) (r : DisplayResizeResult) (s : Settings)
    → s.status ≢ is_applied
    → (result generation r s).status ≡ is_applied
    → Confirmed (result generation r s)
result-Confirmed generation r s n h = elim (Bool-cases (generation == s.generation)) [
  | inl e ↦ unfold result in rw e (result_status-Confirmed r.status r s (rw (e, result) at h))
  | inr e ↦ absurd (n (unfold result in rw (e, result) at h))
]

pub call-Confirmed :
    (now : ℕ) (c : Call) (s : Settings)
    → s.status ≢ is_applied
    → (call now c s).status ≡ is_applied
    → Confirmed (call now c s)
unfolding call reset invalidate_presentation set_connected set_multimon select begin result
    presented snapshot
call-Confirmed now (resets connected) s n h = cc
call-Confirmed now invalidates s n h = cc
call-Confirmed now (connects connected) s n h = absurd (n h)
call-Confirmed now (multimons multimon) s n h = ground arith
call-Confirmed now (selects fixed width height) s n h = ground arith
call-Confirmed now (begins width height) s n h = cc
call-Confirmed now (results generation r) s n h = result-Confirmed generation r s n h
call-Confirmed now (presents generation width height) s n h = unfold confirm_locked in ground arith
call-Confirmed now snapshots s n h = ground arith

-- A result of `generation` that is neither a failure nor unsupported.
abbrev pub is_taken : DisplayResizeStatus → Bool
is_taken failed = false
is_taken unsupported = false
is_taken _ = true

abbrev pub is_result : ℕ → Call → Bool
is_result generation (results g r) = g == generation && is_taken r.status
is_result generation _ = false

-- A frame of `generation`, or a result of it that says that the frames are of that size already.
abbrev pub is_frame : ℕ → Call → Bool
is_frame generation (presents g width height) =
    g == generation && (not (width == 0) && not (height == 0))
is_frame generation (results g r) = g == generation && is_unchanged r.status
is_frame generation _ = false

abbrev pub had : (Call → Bool) → List (ℕ × Call) → Bool
had p [] = false
had p ((now, c) ∷ cs) = p c || had p cs

confirm_locked-flags :
    (s : Settings)
    → ((confirm_locked s).result_accepted ≡ s.result_accepted)
      × ((confirm_locked s).presented_since_begin ≡ s.presented_since_begin)
      × ((confirm_locked s).generation ≡ s.generation)
unfolding confirm_locked
confirm_locked-flags s = ground arith

accepted-flags :
    (r : DisplayResizeResult) (s : Settings)
    → ((confirm_locked (accepted r s)).generation ≡ s.generation)
      × (((confirm_locked (accepted r s)).result_accepted ≡ true)
          → (true ≡ true) ⊎ (s.result_accepted ≡ true))
      × (((confirm_locked (accepted r s)).presented_since_begin ≡ true)
          → (is_unchanged r.status ≡ true) ⊎ (s.presented_since_begin ≡ true))
accepted-flags r s =
    let (a, b, c) = confirm_locked-flags (accepted r s) in
    (c, λ h. inl refl, λ h. ground (arith, b, h))

pub result_status-flags :
    (d : DisplayResizeStatus) (r : DisplayResizeResult) (s : Settings)
    → ((result_status d r s).generation ≡ s.generation)
      × (((result_status d r s).result_accepted ≡ true)
          → (is_taken d ≡ true) ⊎ (s.result_accepted ≡ true))
      × (((result_status d r s).presented_since_begin ≡ true)
          → (is_unchanged r.status ≡ true) ⊎ (s.presented_since_begin ≡ true))
unfolding result_status
result_status-flags failed r s = (refl, λ h. inr h, λ h. inr h)
result_status-flags unsupported r s = (refl, λ h. inr h, λ h. inr h)
result_status-flags sent r s = accepted-flags r s
result_status-flags deferred r s = accepted-flags r s
result_status-flags unchanged r s = accepted-flags r s

result-accepted :
    (g : ℕ) (r : DisplayResizeResult) (s : Settings)
    → (result g r s).result_accepted ≡ true
    → (is_result (result g r s).generation (results g r) ≡ true)
      ⊎ ((s.result_accepted ≡ true) × (s.generation ≡ (result g r s).generation))
unfolding result
result-accepted g r s h =
    let (same, taken, shown) = result_status-flags r.status r s in
    elim (Bool-cases (g == s.generation)) [
      | inl e ↦
          rw e (elim (taken (rw e at h)) [ inl t ↦ inl (ground arith) | inr t ↦ inr (t, sym same) ])
      | inr e ↦ rw e (inr (rw e at h, refl))
    ]

-- A flag that a call leaves set was set by it, for the generation that is current, or was set before, in the
-- same generation.
pub accepted-came :
    (now : ℕ) (c : Call) (s : Settings)
    → (call now c s).result_accepted ≡ true
    → (is_result (call now c s).generation c ≡ true)
      ⊎ ((s.result_accepted ≡ true) × (s.generation ≡ (call now c s).generation))
unfolding call reset invalidate_presentation set_connected set_multimon select begin presented
    snapshot
accepted-came now (resets connected) s h = ground arith
accepted-came now invalidates s h = ground arith
accepted-came now (connects connected) s h = inr (h, refl)
accepted-came now (multimons multimon) s h = ground arith
accepted-came now (selects fixed width height) s h = ground arith
accepted-came now (begins width height) s h = ground arith
accepted-came now (results g r) s h = result-accepted g r s h
accepted-came now (presents g width height) s h = unfold confirm_locked in ground arith
accepted-came now snapshots s h = ground arith
