-- ===== src/Surface.antt =====
-- What is shown on the surface: harmony/app/common/src/main/cpp/surface/ and common/frame_utils.cpp.
pub mod Geometry
pub mod Dirty
pub mod Types
pub mod Painter
pub mod Copy
pub mod Bridge
pub mod Renderer
