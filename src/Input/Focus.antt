-- ===== src/Input/Focus.antt =====
-- The focus events of input/xcomponent_key.cpp and ResetXComponentInputBridge of
-- input/xcomponent_input_registration.cpp: what the component lets go of when it loses the focus. The
-- input method client may be absent, as g_remoteIme may be null.
use harmony_windows_bridge.Base.{ℕ, Bool, true, false, Option, none, some}
use harmony_windows_bridge.Input.Events.{Session}
use harmony_windows_bridge.Input.Release.{InputState, release_all}
use harmony_windows_bridge.Input.Ime.{Framework, RemoteImeClient, close_editor}
use harmony_windows_bridge.Input.TextPointer.{Detector, reset_detector}

pub record XComponentInput (F : Type 0) : Type 0 where
  pub focused : Bool
  pub detector : Detector
  pub remote_ime : Option RemoteImeClient
  pub input : InputState F

abbrev pub close_ime : Framework → Option RemoteImeClient → Option RemoteImeClient
close_ime f none = none
close_ime f (some client) = some (close_editor f client).0

unfoldable pub on_focus : {F : Type 0} → XComponentInput F → XComponentInput F
on_focus c = record c { focused = true }

module _ {F : Type 0} (origin : F) (differs : F → F → Bool) (round : F → ℕ) (float_of : ℕ → F)
    (s : Session F) (f : Framework) where
  unfoldable pub on_blur : XComponentInput F → XComponentInput F
  on_blur c = record {
    focused = false;
    detector = reset_detector c.detector;
    remote_ime = close_ime f c.remote_ime;
    input = release_all origin differs round float_of s c.input;
  }

  unfoldable pub reset_bridge : XComponentInput F → XComponentInput F
  reset_bridge c =
      let input = release_all origin differs round float_of s c.input in
      record {
        focused = false;
        detector = reset_detector c.detector;
        remote_ime = close_ime f c.remote_ime;
        input = input;
      }
