-- ===== src/Surface/Types.antt =====
-- RgbaFrame of common/bridge_types.h and RenderViewport of surface/native_rgba_copy.h. The pixels are
-- named by the address of their buffer, 0 for a null pointer.
use harmony_windows_bridge.Base.{ℕ, String}
use harmony_windows_bridge.Base.Int.{ℤ}
use harmony_windows_bridge.Surface.Dirty.{DirtyFrameStats}

pub record RgbaFrame : Type 0 where
  pub address : ℕ
  pub width : ℕ
  pub height : ℕ
  pub stride_bytes : ℤ
  pub label : String
  pub dirty : DirtyFrameStats
  pub sequence : ℕ
  pub dirty_sequence_start : ℕ

pub record RenderViewport : Type 0 where
  pub x : ℕ
  pub y : ℕ
  pub width : ℕ
  pub height : ℕ
