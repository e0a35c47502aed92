-- ===== src/Tests/TextPolicy.antt =====
-- Shapes of pointers: input/remote_pointer_text_policy.cpp.
use harmony_windows_bridge.Base.{
  ℕ, ◌+◌, ◌/◌, ◌%◌, ◌≤◌, ◌<◌, ◌≡◌, refl, true, false, ◌||◌, some, arith, ◌==◌, if◌then◌else◌,
}
use harmony_windows_bridge.Input.TextPolicy.{
  is_remote_text_pointer_candidate, judge_shape, see_rows, see_row, see_pixel,
}
use harmony_windows_bridge.Input.TextPolicy.Bounds.{bounds_hold_pixels}

-- A bar of eleven pixels between two lines of seven.
abbrev text_bar : ℕ → ℕ
text_bar a = let y = a / 28 in if y == 0 || y == 10 || (a % 28) / 4 == 3 then 255 else 0

bar_is_text : (is_remote_text_pointer_candidate (some text_bar) 7 11 28 3 5).0 ≡ true
unfolding is_remote_text_pointer_candidate judge_shape see_rows see_row see_pixel
bar_is_text = refl

hotspot_must_be_near : (is_remote_text_pointer_candidate (some text_bar) 7 11 28 7 5).0 ≡ false
unfolding is_remote_text_pointer_candidate judge_shape see_rows see_row see_pixel
hotspot_must_be_near = refl

bounds_hold_pixels_example :
    let m = (is_remote_text_pointer_candidate (some text_bar) 7 11 28 3 5).1 in
    (0 < 6 + m.bounds_width)
    × (10 < 0 + m.bounds_height)
    × (m.bounds_width ≤ 7)
    × (m.bounds_height ≤ 11)
bounds_hold_pixels_example =
    bounds_hold_pixels text_bar 7 11 28 3 5 0 10 6 0 (omega arith) (omega arith) (omega arith) refl
      refl (omega arith, omega arith) (omega arith, omega arith)
