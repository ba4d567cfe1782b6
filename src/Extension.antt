-- ===== src/Extension.antt =====
-- extension: the extension registry and manager, and the event dispatcher.
pub mod InitOrder
pub mod Cycles
pub mod Resolve
pub mod Startup
pub mod Event
