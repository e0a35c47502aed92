-- ===== src/Display/Layout.antt =====
-- session/rdp_display_layout_monitor.{h,cpp}: the layout of the displays, and when it is passed on. What the
-- display manager answers is a parameter of each call. The values that the code rounds from floating-point
-- numbers, a length in millimetres and a scale in per cent, are given as rounded. The constant fields of a
-- layout entry (its size, its version and the device's scale of 100) and the texts are left out.
pub mod Scale
pub mod Changes
use harmony_windows_bridge.Base.{
  ℕ, zero, suc, ◌-◌, min, max, Bool, true, false, not, ◌&&◌, ◌||◌, Option, none, some, List, [],
  ◌∷◌, ltb, ◌==◌, if◌then◌else◌,
}
use harmony_windows_bridge.Base.Int.{pos_part, pos, ltb_ℤ, ℤ, eq_ℤ}

pub data DisplayOrientation : Type 0 where
  portrait : DisplayOrientation
  landscape : DisplayOrientation
  portrait_inverted : DisplayOrientation
  landscape_inverted : DisplayOrientation
  unknown_orientation : DisplayOrientation

-- ORIENTATION_LANDSCAPE, ORIENTATION_PORTRAIT, ORIENTATION_LANDSCAPE_FLIPPED, ORIENTATION_PORTRAIT_FLIPPED.
pub data RdpOrientation : Type 0 where
  rdp_landscape : RdpOrientation
  rdp_portrait : RdpOrientation
  rdp_landscape_flipped : RdpOrientation
  rdp_portrait_flipped : RdpOrientation

unfoldable pub to_rdp_orientation : DisplayOrientation → RdpOrientation
to_rdp_orientation portrait = rdp_portrait
to_rdp_orientation landscape_inverted = rdp_landscape_flipped
to_rdp_orientation portrait_inverted = rdp_portrait_flipped
to_rdp_orientation landscape = rdp_landscape
to_rdp_orientation unknown_orientation = rdp_landscape

-- `==` on the orientations.
abbrev rank : RdpOrientation → ℕ
rank rdp_landscape = 0
rank rdp_portrait = 1
rank rdp_landscape_flipped = 2
rank rdp_portrait_flipped = 3

abbrev pub same_orientation : RdpOrientation → RdpOrientation → Bool
same_orientation a b = rank a == rank b

pub record DisplayInfo : Type 0 where
  pub id : ℕ
  pub is_alive : Bool
  pub width : ℤ
  pub height : ℤ
  pub position : Option (ℤ × ℤ)  -- none where the query fails
  pub millimeters_width : ℤ
  pub millimeters_height : ℤ
  pub scale : ℕ
  pub orientation : DisplayOrientation

-- FREERDP_OHOS_MONITOR_LAYOUT.
pub record MonitorLayout : Type 0 where
  pub left : ℤ
  pub top : ℤ
  pub width : ℕ
  pub height : ℕ
  pub physical_width : ℕ
  pub physical_height : ℕ
  pub orientation : RdpOrientation
  pub desktop_scale_factor : ℕ
  pub primary : Bool

-- `clamp(value, 10, 10000)`.
unfoldable pub physical_millimeters : ℤ → ℕ
physical_millimeters value = min (max (pos_part value) 10) 10000

abbrev pub distance : ℕ → ℕ → ℕ
distance a b = if ltb a b then b - a else a - b

-- `min_element`: the first of the nearest.
unfoldable pub nearest : ℕ → ℕ → List ℕ → ℕ
nearest requested best [] = best
nearest requested best (s ∷ rest) =
    nearest requested (if ltb (distance s requested) (distance best requested) then s else best)
      rest

abbrev pub supported : List ℕ
supported = 125 ∷ 150 ∷ 175 ∷ 200 ∷ 250 ∷ 300 ∷ 400 ∷ 500 ∷ []

-- The smallest factor supported, 100, comes before the others.
unfoldable pub desktop_scale_factor : ℕ → ℕ
desktop_scale_factor requested = nearest requested 100 supported

-- `x > y` on the sort keys: primary first, then left, top, width and height, all descending.
abbrev pub before_ℤ : ℤ → ℤ → Bool → Bool
before_ℤ a b rest = if ltb_ℤ b a then true else if ltb_ℤ a b then false else rest

abbrev pub before : MonitorLayout → MonitorLayout → Bool
before a b =
    let sizes =
      if ltb b.width a.width
      then true
      else if ltb a.width b.width
      then false
      else ltb b.height a.height in
    let places = before_ℤ a.left b.left (before_ℤ a.top b.top sizes) in
    if a.primary
    then (if b.primary then places else true)
    else (if b.primary then false else places)

unfoldable pub insert : MonitorLayout → List MonitorLayout → List MonitorLayout
insert m [] = m ∷ []
insert m (n ∷ ns) = if before n m then n ∷ insert m ns else m ∷ n ∷ ns

unfoldable pub sort : List MonitorLayout → List MonitorLayout
sort [] = []
sort (m ∷ ms) = insert m (sort ms)

abbrev pub is_skipped : ℕ → DisplayInfo → Bool
is_skipped primary_id d =
    not d.is_alive
    || (not (ltb_ℤ (pos 0) d.width)
        || (not (ltb_ℤ (pos 0) d.height)
            || elim d.position [ none ↦ not (d.id == primary_id) | some p ↦ false ]))

-- The position stays 0, 0 where the query failed.
abbrev pub entry_of : ℕ → DisplayInfo → MonitorLayout
entry_of primary_id d = record {
  left = elim d.position [ none ↦ pos 0 | some p ↦ p.0 ];
  top = elim d.position [ none ↦ pos 0 | some p ↦ p.1 ];
  width = pos_part d.width;
  height = pos_part d.height;
  physical_width = physical_millimeters d.millimeters_width;
  physical_height = physical_millimeters d.millimeters_height;
  orientation = to_rdp_orientation d.orientation;
  desktop_scale_factor = desktop_scale_factor d.scale;
  primary = d.id == primary_id;
}

-- The loop, with the room that is left; it stops where there is none.
unfoldable pub collect : ℕ → ℕ → List DisplayInfo → List MonitorLayout
collect zero primary_id ds = []
collect (suc room) primary_id [] = []
collect (suc room) primary_id (d ∷ ds) =
    if is_skipped primary_id d
    then collect (suc room) primary_id ds
    else entry_of primary_id d ∷ collect room primary_id ds

unfoldable pub same_monitor : MonitorLayout → MonitorLayout → Bool
same_monitor a b =
    eq_ℤ a.left b.left
    && (eq_ℤ a.top b.top
        && (a.width == b.width
            && (a.height == b.height
                && (a.physical_width == b.physical_width
                    && (a.physical_height == b.physical_height
                        && (same_orientation a.orientation b.orientation
                            && (a.desktop_scale_factor == b.desktop_scale_factor
                                && (if a.primary then b.primary else not b.primary))))))))

unfoldable pub same_layout : List MonitorLayout → List MonitorLayout → Bool
same_layout [] [] = true
same_layout (a ∷ as') (b ∷ bs) = same_monitor a b && same_layout as' bs
same_layout [] (b ∷ bs) = false
same_layout (a ∷ as') [] = false

-- The three listeners are those registered with the display manager; `calls` is what the layout callback was
-- called with, newest first.
pub record LayoutMonitor : Type 0 where
  pub started : Bool
  pub active : Bool  -- `g_activeLayoutMonitor` is this monitor
  pub listens_change : Bool
  pub listens_add : Bool
  pub listens_remove : Bool
  pub has_snapshot : Bool
  pub last_orientation : RdpOrientation
  pub last_layout : List MonitorLayout
  pub layout_callback : Option ℕ
  pub calls : List (RdpOrientation × List MonitorLayout)

-- The primary display's number and orientation, and all displays; none where a query fails.
abbrev pub Query : Type 0
Query = Option (ℕ × DisplayOrientation × List DisplayInfo)

abbrev pub notify : RdpOrientation → List MonitorLayout → LayoutMonitor → LayoutMonitor
notify orientation layout m = record m {
  has_snapshot = true;
  last_orientation = orientation;
  last_layout = layout;
  calls = elim m.layout_callback [ none ↦ m.calls | some c ↦ (orientation, layout) ∷ m.calls ];
}

abbrev pub refresh_with : RdpOrientation → List MonitorLayout → LayoutMonitor → LayoutMonitor × Bool
refresh_with orientation [] m = (m, false)
refresh_with orientation (first ∷ rest) m =
    let layout = sort (first ∷ rest) in
    if m.has_snapshot
      && (same_orientation m.last_orientation orientation && same_layout m.last_layout layout)
    then (m, true)
    else (notify orientation layout m, true)

-- `room` is FREERDP_OHOS_MAX_MONITORS.
unfoldable pub refresh : ℕ → Query → LayoutMonitor → LayoutMonitor × Bool
refresh room none m = (m, false)
refresh room (some (primary_id, orientation, ds)) m =
    refresh_with (to_rdp_orientation orientation) (collect room primary_id ds) m

-- What the display manager answers: whether a listener was registered, and whether one was unregistered,
-- which the code does not look at.
pub record Listeners : Type 0 where
  pub adds_change : Bool
  pub adds_add : Bool
  pub adds_remove : Bool
  pub drops_change : Bool
  pub drops_add : Bool
  pub drops_remove : Bool

unfoldable pub register : Listeners → LayoutMonitor → LayoutMonitor × Bool
register l m =
    let change_registered = l.adds_change in
    let add_registered = change_registered && l.adds_add in
    let remove_registered = add_registered && l.adds_remove in
    if not remove_registered
    then (
      record m {
        active = false;
        listens_change = if change_registered then not l.drops_change else m.listens_change;
        listens_add = if add_registered then not l.drops_add else m.listens_add;
      },
      false,
    )
    else (
      record m {
        active = true;
        started = true;
        listens_change = true;
        listens_add = true;
        listens_remove = true;
      },
      true,
    )

unfoldable pub start : ℕ → Option ℕ → Listeners → Query → LayoutMonitor → LayoutMonitor × Bool
start room callback l query m =
    let n : LayoutMonitor = record m { layout_callback = callback } in
    let fresh : LayoutMonitor = record n { has_snapshot = false; last_layout = [] } in
    let (registered, ok) = register l fresh in
    if n.started
    then (n, true)
    else if not ok
    then (registered, false)
    else refresh room query registered

unfoldable pub stop : Listeners → LayoutMonitor → LayoutMonitor
stop l m = if not m.started then m else record m {
  started = false;
  active = false;
  listens_change = m.listens_change && not l.drops_change;
  listens_add = m.listens_add && not l.drops_add;
  listens_remove = m.listens_remove && not l.drops_remove;
  has_snapshot = false;
  last_layout = [];
}

-- `HandleChange`, which the listeners call on the active monitor.
unfoldable pub handle_change : ℕ → Query → LayoutMonitor → LayoutMonitor
handle_change room query m = if m.active then (refresh room query m).0 else m
