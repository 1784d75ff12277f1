-- ===== src/Engine.antt =====
-- The policy engine of daemon/src/engine.rs: its state, and a module for each handler.
pub mod System
pub mod State
pub mod Flags
pub mod Change
pub mod Freeze
pub mod Focus
pub mod Wakeup
pub mod Discard
pub mod Persist
pub mod Expire
pub mod Triggers
pub mod Tick
pub mod Reload
pub mod Status
pub mod Startup
pub mod Run
