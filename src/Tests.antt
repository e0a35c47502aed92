-- ===== src/Tests.antt =====
-- Runs at concrete inputs: tests of the definitions and instances of the theorems.
mod Display
mod Settings
mod Surface
mod Renderer
mod Input
mod Ime
mod Layout
mod Capture
mod Text
mod TextPointer
mod TextPolicy
mod Core
mod Copy
