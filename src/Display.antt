-- ===== src/Display.antt =====
-- The resize of the remote desktop: harmony/app/common/src/main/cpp/session/.
pub mod Types
pub mod Coordinator
pub mod Settings
pub mod Coalescer
pub mod Layout
