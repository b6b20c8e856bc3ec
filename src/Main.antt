-- ===== src/Main.antt =====
-- main.go: how the program starts, and how it is shut down.
pub mod Settings
pub mod Defaults
pub mod Startup
pub mod Start
pub mod Failures
pub mod Selector
pub mod Shutdown
pub mod Order
pub mod Ending
mod Examples
