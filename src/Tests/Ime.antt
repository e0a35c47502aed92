-- ===== src/Tests/Ime.antt =====
-- The input method opened and closed, and a deletion of three characters.
use harmony_windows_bridge.Base.{ℕ, ◌≡◌, refl, Bool, true, false, some, List, [], ◌∷◌}
use harmony_windows_bridge.Input.Ime.{Framework, RemoteImeClient, ensure_editor_proxy, open_editor}
use harmony_windows_bridge.Input.Ime.Keys.{
  KeySent, send_key_press, press_times, delete_text, is_stuck, delete_text_lem,
}
use harmony_windows_bridge.Base.Int.{pos}

abbrev working : Framework
working = record {
  create_proxy = true;
  registrations = 0 ∷ 0 ∷ [];
  create_options = true;
  attach = 0;
  show = 0;
  hide = 0;
  detach = 0;
}

abbrev bound : RemoteImeClient
bound = record {
  session = some true;
  window_id = 3;
  editor_proxy = false;
  input_method_proxy = false;
  keyboard_visible = false;
  preview_text = [];
}

opens : (open_editor working bound).1 ≡ true
unfolding open_editor ensure_editor_proxy
opens = refl

abbrev yes : List KeySent → ℕ → Bool → Bool
yes log code down = true

three_pairs : delete_text yes true 2055 (pos 3) [] ≡ (
    record { key_code = 2055; down = false; ok = true }
    ∷ record { key_code = 2055; down = true; ok = true }
    ∷ record { key_code = 2055; down = false; ok = true }
    ∷ record { key_code = 2055; down = true; ok = true }
    ∷ record { key_code = 2055; down = false; ok = true }
    ∷ record { key_code = 2055; down = true; ok = true }
    ∷ [])
unfolding delete_text press_times send_key_press
three_pairs = refl

nothing_stuck : is_stuck 2055 [] ≡ false
unfolding is_stuck
nothing_stuck = refl

delete_text_lem_example : is_stuck 2055 (delete_text yes true 2055 (pos 3) []) ≡ false
delete_text_lem_example = (delete_text_lem yes 2055 2055 true (pos 3) [] nothing_stuck).0
