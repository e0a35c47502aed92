-- ===== src/Display/Settings/Applied.antt =====
-- A resolution change that is reported as applied was answered and shown: session/session_display_settings.cpp.
use harmony_windows_bridge.Display.Settings.{Settings}
