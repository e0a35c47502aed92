-- ===== src/Display/Layout/Changes.antt =====
-- When the layout is passed on, and the listeners that the monitor holds.
use harmony_windows_bridge.Display.Layout.{
  Listeners, RdpOrientation, rdp_landscape, to_rdp_orientation, same_orientation, DisplayInfo,
  MonitorLayout, sort, is_skipped, collect, same_monitor, same_layout, LayoutMonitor, Query,
  refresh_with, refresh, register, handle_change,
}
use harmony_windows_bridge.Base.{
  ℕ, zero, suc, ◌≤◌, ◌<◌, ◌≡◌, refl, ap, ◌∙◌, ◌⊎◌, inl, inr, Bool, true, false, ◌&&◌, Option, none,
  some, List, [], ◌∷◌, map, arith, if◌then◌else◌, ==_refl, Bool-cases, length, All,
}
use harmony_windows_bridge.Display.Layout
use harmony_windows_bridge.Base.Int.{eq_ℤ, ℤ, pos, negsuc}

eq_ℤ_refl : (a : ℤ) → eq_ℤ a a ≡ true
eq_ℤ_refl (pos a) = ==_refl a
eq_ℤ_refl (negsuc a) = ==_refl a

same_orientation_refl : (a : RdpOrientation) → same_orientation a a ≡ true
same_orientation_refl a = ==_refl _

same_monitor_refl : (m : MonitorLayout) → same_monitor m m ≡ true
unfolding same_monitor
same_monitor_refl m =
    ground (arith, eq_ℤ_refl m.left, eq_ℤ_refl m.top, same_orientation_refl m.orientation)

same_layout_refl : (ms : List MonitorLayout) → same_layout ms ms ≡ true
unfolding same_layout
same_layout_refl [] = refl
same_layout_refl (m ∷ ms) = rw (same_monitor_refl m, same_layout_refl ms) refl

refresh_with_again :
    (orientation : RdpOrientation) (layout : List MonitorLayout) (m : LayoutMonitor)
    → let once = refresh_with orientation layout m in
      refresh_with orientation layout once.0 ≡ (once.0, once.1)
refresh_with_again orientation [] m = refl
refresh_with_again orientation (first ∷ rest) m =
    elim (Bool-cases (
      m.has_snapshot
      && (same_orientation m.last_orientation orientation
          && same_layout m.last_layout (sort (first ∷ rest))))) [
            | inl e ↦ rw e (rw e refl)
            | inr e ↦
                rw (e, same_orientation_refl orientation, same_layout_refl (sort (first ∷ rest)))
                  refl
          ]

-- A second look at displays that have not changed gives the first one's answer and changes nothing: the
-- callback is not called again.
pub refresh_again :
    (room : ℕ) (q : Query) (m : LayoutMonitor)
    → let once = refresh room q m in refresh room q once.0 ≡ (once.0, once.1)
unfolding refresh
refresh_again room none m = refl
refresh_again room (some (primary_id, orientation, ds)) m =
    refresh_with_again (to_rdp_orientation orientation) (collect room primary_id ds) m

-- The layout that is read from the displays has at most `room` entries, whatever the displays are, and none
-- of an empty display.
pub collect-bounds :
    (room primary_id : ℕ) (ds : List DisplayInfo)
    → (length (collect room primary_id ds) ≤ room)
      × All (λ e. (0 < e.width) × (0 < e.height)) (collect room primary_id ds)
unfolding collect
collect-bounds zero primary_id ds = (omega arith, tt)
collect-bounds (suc room) primary_id [] = (omega arith, tt)
collect-bounds (suc room) primary_id (d ∷ ds) = elim (Bool-cases (is_skipped primary_id d)) [
  | inl e ↦ rw e (collect-bounds (suc room) primary_id ds)
  | inr e ↦ let (a, b) = collect-bounds room primary_id ds in rw e (omega arith, (ground arith, b))
]

-- What the monitor does, one call at a time.
pub data Call : Type 0 where
  starts : Option ℕ → Listeners → Query → Call
  stops : Listeners → Call
  changes : Query → Call

unfoldable pub call : ℕ → Call → LayoutMonitor → LayoutMonitor
call room (starts callback l q) m = (Layout.start room callback l q m).0
call room (stops l) m = Layout.stop l m
call room (changes q) m = handle_change room q m

unfoldable pub calls_of : ℕ → List Call → LayoutMonitor → LayoutMonitor
calls_of room [] m = m
calls_of room (c ∷ cs) m = calls_of room cs (call room c m)

abbrev pub idle : LayoutMonitor
idle = record {
  started = false;
  active = false;
  listens_change = false;
  listens_add = false;
  listens_remove = false;
  has_snapshot = false;
  last_orientation = rdp_landscape;
  last_layout = [];
  layout_callback = none;
  calls = [];
}

-- The monitor is the active one exactly if it is started, and listens to everything then.
abbrev pub Registered : LayoutMonitor → Type 0
Registered m =
    (m.active ≡ m.started)
    × ((m.started ≡ false)
        ⊎ ((m.listens_change ≡ true) × (m.listens_add ≡ true) × (m.listens_remove ≡ true)))

refresh-Registered :
    (room : ℕ) (q : Query) (m : LayoutMonitor) → Registered m → Registered (refresh room q m).0
unfolding refresh
refresh-Registered room none m r = r
refresh-Registered room (some (primary_id, orientation, ds)) m r = ground arith

call-Registered :
    (room : ℕ) (c : Call) (m : LayoutMonitor) → Registered m → Registered (call room c m)
unfolding call Layout.start Layout.stop register handle_change
call-Registered room (starts callback l q) m r = ground (
  arith,
  refresh-Registered room q
      (register l
        (record m { layout_callback = callback; has_snapshot = false; last_layout = [] })).0,
)
call-Registered room (stops l) m r = ground arith
call-Registered room (changes q) m r = ground (arith, refresh-Registered room q m r)

run-Registered :
    (room : ℕ) (cs : List Call) (m : LayoutMonitor) → Registered m → Registered (calls_of room cs m)
unfolding calls_of
run-Registered room [] m r = r
run-Registered room (c ∷ cs) m r =
    run-Registered room cs (call room c m) (call-Registered room c m r)

pick-else : (b : Bool) (x y : LayoutMonitor) → b ≡ false → (if b then x else y) ≡ y
pick-else true x y e = ground (arith, e)
pick-else false x y e = refl

-- No call of the layout callback while the monitor is not active.
inactive-silent :
    (room : ℕ) (qs : List Query) (m : LayoutMonitor)
    → m.active ≡ false
    → calls_of room (map changes qs) m ≡ m
unfolding calls_of call handle_change
inactive-silent room [] m e = refl
inactive-silent room (q ∷ qs) m e =
    ap (λ m'. calls_of room (map changes qs) m') (pick-else m.active (refresh room q m).0 m e)
    ∙ inactive-silent room qs m e

-- After any calls, whatever the display manager answered to a registration or to the end of one, the monitor
-- is the active one exactly if it is started, and has all three of its listeners registered then. While it
-- is not started, a change of the displays calls nobody back and changes nothing, also where a listener could
-- not be unregistered.
pub calls_of-Registered :
    (room : ℕ) (cs : List Call) (qs : List Query)
    → let m = calls_of room cs idle in
      Registered m × ((m.started ≡ true) ⊎ (calls_of room (map changes qs) m ≡ m))
calls_of-Registered room cs qs =
    let r = run-Registered room cs idle (refl, inl refl) in
    let m = calls_of room cs idle in
    elim (Bool-cases m.started) [
      | inl e ↦ (r, inl e)
      | inr e ↦ (r, inr (inactive-silent room qs m (r.0 ∙ e)))
    ]
