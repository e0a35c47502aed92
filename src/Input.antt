-- ===== src/Input.antt =====
-- The local input that goes to the remote computer: harmony/app/common/src/main/cpp/input/.
pub mod Events
pub mod Touch
pub mod Mouse
pub mod Pen
pub mod Release
pub mod Ime
pub mod TextPointer
pub mod TextPolicy
pub mod Focus
