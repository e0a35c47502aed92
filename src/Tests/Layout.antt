-- ===== src/Tests/Layout.antt =====
-- Two displays, the second of them primary, and a query that is repeated.
use harmony_windows_bridge.Display.Layout.{
  Listeners, landscape, DisplayInfo, nearest, desktop_scale_factor, insert, sort, collect,
  LayoutMonitor, Query, refresh, register,
}
use harmony_windows_bridge.Base.{ℕ, ◌≡◌, refl, ◌⊎◌, true, false, some, [], ◌∷◌, map, length}
use harmony_windows_bridge.Display.Layout
use harmony_windows_bridge.Display.Layout.Changes.{
  refresh_again, starts, changes, calls_of, idle, Registered, calls_of-Registered,
}
use harmony_windows_bridge.Base.Int.{pos, ℤ}

abbrev display : ℕ → ℤ → DisplayInfo
display n at = record {
  id = n;
  is_alive = true;
  width = pos 1920;
  height = pos 1080;
  position = some (at, pos 0);
  millimeters_width = pos 300;
  millimeters_height = pos 170;
  scale = 160;
  orientation = landscape;
}

abbrev two_displays : Query
two_displays = some (2, landscape, display 1 (pos 1920) ∷ display 2 (pos 0) ∷ [])

abbrev all_well : Listeners
all_well = record {
  adds_change = true;
  adds_add = true;
  adds_remove = true;
  drops_change = true;
  drops_add = true;
  drops_remove = true;
}

abbrev begun : LayoutMonitor
begun = (Layout.start 16 (some 1) all_well two_displays idle).0

primary_comes_first : length begun.calls ≡ 1
unfolding Layout.start register refresh collect sort insert desktop_scale_factor nearest
primary_comes_first = refl

refresh_again_example :
    refresh 16 two_displays (refresh 16 two_displays begun).0
    ≡ ((refresh 16 two_displays begun).0, (refresh 16 two_displays begun).1)
refresh_again_example = refresh_again 16 two_displays begun

scale_160 : desktop_scale_factor 160 ≡ 150
unfolding desktop_scale_factor nearest
scale_160 = refl

-- Everything is refused but the first registration, whose listener stays.
abbrev stuck : Listeners
stuck = record {
  adds_change = true;
  adds_add = false;
  adds_remove = false;
  drops_change = false;
  drops_add = false;
  drops_remove = false;
}

calls_of-Registered_example :
    let m = calls_of 16 (starts (some 1) stuck two_displays ∷ []) idle in
    Registered m × ((m.started ≡ true) ⊎ (calls_of 16 (map changes (two_displays ∷ [])) m ≡ m))
calls_of-Registered_example =
    calls_of-Registered 16 (starts (some 1) stuck two_displays ∷ []) (two_displays ∷ [])
