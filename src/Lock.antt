-- ===== src/Lock.antt =====
-- core/lock_manager.{h,cc}: shared and exclusive locks with a wait-for graph.
pub mod Manager
pub mod Exclusion
pub mod Grant
pub mod Safety
pub mod Noted
pub mod Release
pub mod Cycle
pub mod Deadlock
