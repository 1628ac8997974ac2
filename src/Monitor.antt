-- ===== src/Monitor.antt =====
-- The test monitor: crates/qup-test-tui.
pub mod Geometry
pub mod App
pub mod Desk
pub mod Input
pub mod Text
pub mod Screen
pub mod Main
pub mod Worker
pub mod Table
pub mod Refresh
pub mod Connection
pub mod Link
