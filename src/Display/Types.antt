-- ===== src/Display/Types.antt =====
-- session/rdp_display_resize_types.h: what a resize request asks for and what became of it.
use harmony_windows_bridge.Base.{ℕ, String}

pub data DisplayResizeStatus : Type 0 where
  sent deferred unchanged unsupported failed : DisplayResizeStatus

pub record DisplayResizeResult : Type 0 where
  pub status : DisplayResizeStatus
  pub normalized_width : ℕ  -- uint32_t, here and below
  pub normalized_height : ℕ
  pub sent_width : ℕ
  pub sent_height : ℕ
  pub orientation : ℕ
  pub message : String

pub record DisplayResizeRequest : Type 0 where
  pub width : ℕ
  pub height : ℕ
  pub physical_width : ℕ
  pub physical_height : ℕ
  pub orientation : ℕ
  pub desktop_scale_factor : ℕ
  pub device_scale_factor : ℕ
  pub reason : String

unfoldable pub display_resize_status_name : DisplayResizeStatus → String
display_resize_status_name sent = "Sent"
display_resize_status_name deferred = "Deferred"
display_resize_status_name unchanged = "Unchanged"
display_resize_status_name unsupported = "Unsupported"
display_resize_status_name failed = "Failed"
