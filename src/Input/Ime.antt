-- ===== src/Input/Ime.antt =====
-- input/remote_ime_client.cpp: the editor of the input method for the remote computer. The answers of the
-- input method framework and of the session are parameters, IME_ERR_OK being the code 0; messages and the
-- log are not modelled. A committed text is a list of UTF-16 units.
pub mod Keys
use harmony_windows_bridge.Base.{
  ℕ, ◌≡◌, ◌↔◌, ◌⊎◌, Bool, true, false, not, ◌&&◌, Option, none, some, List, [], ◌∷◌, arith, ◌==◌,
  if◌then◌else◌,
}

-- What the framework answers in one call.
pub record Framework : Type 0 where
  pub create_proxy : Bool
  pub registrations : List ℕ  -- the codes of the fifteen registrations
  pub create_options : Bool
  pub attach : ℕ
  pub show : ℕ
  pub hide : ℕ
  pub detach : ℕ

-- `session_` is none for a null pointer, and otherwise tells whether it is connected.
pub record RemoteImeClient : Type 0 where
  pub session : Option Bool
  pub window_id : ℕ
  pub editor_proxy : Bool
  pub input_method_proxy : Bool
  pub keyboard_visible : Bool
  pub preview_text : List ℕ

unfoldable pub bind_host_window : Option Bool → ℕ → RemoteImeClient → RemoteImeClient
bind_host_window session window_id c = record c { session = session; window_id = window_id }

abbrev pub all_ok : List ℕ → Bool
all_ok [] = true
all_ok (code ∷ codes) = code == 0 && all_ok codes

unfoldable pub ensure_editor_proxy : Framework → RemoteImeClient → RemoteImeClient × Bool
ensure_editor_proxy f c =
    if c.editor_proxy
    then (c, true)
    else if not f.create_proxy
    then (c, false)
    else if all_ok f.registrations
    then (record c { editor_proxy = true }, true)
    else (c, false)

-- `IsConnected` of a session that is there.
abbrev pub is_ready : RemoteImeClient → Bool
is_ready c = elim c.session [ none ↦ false | some connected ↦ not (c.window_id == 0) && connected ]

-- `OH_InputMethodController_Attach`.
abbrev pub attached : Framework → RemoteImeClient → RemoteImeClient × Bool
attached f c =
    if f.attach == 0
    then (record c { input_method_proxy = true; keyboard_visible = true }, true)
    else (record c { input_method_proxy = false }, false)

abbrev pub attach_if : Framework → RemoteImeClient × Bool → RemoteImeClient × Bool
attach_if f (c, false) = (c, false)
attach_if f (c, true) = if f.create_options then attached f c else (c, false)

-- The keys that the session holds down are released first, where it is ready.
unfoldable pub open_editor : Framework → RemoteImeClient → RemoteImeClient × Bool
open_editor f c =
    if not (is_ready c)
    then (c, false)
    else if c.input_method_proxy
    then (if f.show == 0 then record c { keyboard_visible = true } else c, f.show == 0)
    else attach_if f (ensure_editor_proxy f c)

unfoldable pub finish_preview_text : RemoteImeClient → RemoteImeClient
finish_preview_text c = record c { preview_text = [] }

-- A null pointer is none.
unfoldable pub set_preview_text : Option (List ℕ) → RemoteImeClient → RemoteImeClient
set_preview_text none c = record c { preview_text = [] }
set_preview_text (some text) c = record c { preview_text = text }

unfoldable pub close_editor : Framework → RemoteImeClient → RemoteImeClient × Bool
close_editor f c =
    let d = finish_preview_text c in
    if not d.input_method_proxy then (record d { keyboard_visible = false }, true) else (
      record d { input_method_proxy = false; keyboard_visible = false },
      f.hide == 0 && f.detach == 0,
    )

unfoldable pub hide_keyboard : Framework → RemoteImeClient → RemoteImeClient × Bool
hide_keyboard f c =
    let d = finish_preview_text c in
    if not d.input_method_proxy
    then (record d { keyboard_visible = false }, true)
    else (if f.hide == 0 then record d { keyboard_visible = false } else d, f.hide == 0)

unfoldable pub update_keyboard_visibility : Bool → RemoteImeClient → RemoteImeClient
update_keyboard_visibility visible c = record c { keyboard_visible = visible }

-- Opening succeeds only on a ready session and leaves the editor attached and the keyboard visible; where it
-- fails, a keyboard hidden before is hidden still, and an editor attached before is attached still. Closing,
-- whatever the framework answers, leaves the editor detached, the keyboard hidden and no preview text, and a
-- second opening then attaches anew.
open_editor-close_editor :
    (f g : Framework) (c : RemoteImeClient)
    → (((open_editor f c).1 ≡ true)
          × (is_ready c ≡ true)
          × ((open_editor f c).0.input_method_proxy ≡ true)
          × ((open_editor f c).0.keyboard_visible ≡ true)
        ⊎ ((open_editor f c).1 ≡ false)
          × ((open_editor f c).0.keyboard_visible ≡ c.keyboard_visible)
          × ((open_editor f c).0.input_method_proxy ≡ c.input_method_proxy))
      × ((close_editor g c).0.input_method_proxy ≡ false)
      × ((close_editor g c).0.keyboard_visible ≡ false)
      × ((close_editor g c).0.preview_text ≡ [])
      × (((open_editor f (close_editor g c).0).1 ≡ true) ↔ (
          (is_ready c ≡ true)
          × ((c.editor_proxy ≡ true) ⊎ ((f.create_proxy ≡ true) × (all_ok f.registrations ≡ true)))
          × (f.create_options ≡ true)
          × (f.attach ≡ 0)))
unfolding open_editor ensure_editor_proxy close_editor finish_preview_text
open_editor-close_editor f g c = ground arith
