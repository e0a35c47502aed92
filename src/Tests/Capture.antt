-- ===== src/Tests/Capture.antt =====
-- Two invalid regions, one of them partly outside the frame.
use harmony_windows_bridge.Surface.Dirty.Capture.{
  Window, Region, add_region, add_regions, stats_of, capture_gdi_dirty_stats,
}
use harmony_windows_bridge.Base.{◌≡◌, refl, inl, inr, true, false, none, some, [], ◌∷◌, arith}
use harmony_windows_bridge.Base.Int.{negsuc, pos}
use harmony_windows_bridge.Surface.Dirty.Cover.{Covers}
use harmony_windows_bridge.Surface.Dirty.Capture.Bounds.{capture_gdi_dirty_stats-Covers}

abbrev corner : Region
corner = record { null = false; x = negsuc 4; y = pos 0; w = pos 10; h = pos 10 }

abbrev centre : Region
centre = record { null = false; x = pos 40; y = pos 20; w = pos 10; h = pos 5 }

abbrev two_regions : Window
two_regions = record { ninvalid = pos 2; cinvalid = some (corner ∷ centre ∷ []); invalid = none }

captured_rectangle : capture_gdi_dirty_stats (pos 100) (pos 50) (some two_regions) ≡ record {
  valid = true;
  rect_count = 2;
  x = 0;
  y = 0;
  width = 50;
  height = 25;
  area_permille = 20;
}
unfolding capture_gdi_dirty_stats add_regions add_region stats_of
captured_rectangle = refl

capture_gdi_dirty_stats-Covers_example :
    Covers (capture_gdi_dirty_stats (pos 100) (pos 50) (some two_regions)) 45 22
capture_gdi_dirty_stats-Covers_example =
    capture_gdi_dirty_stats-Covers 100 50 two_regions 45 22 (omega arith) (omega arith)
      (omega arith) (inr (inl (refl, omega arith, omega arith, omega arith, omega arith)))
