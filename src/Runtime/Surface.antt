-- ===== src/Runtime/Surface.antt =====
-- The surfaces over the global memory in crates/liz-app-server/src/runtime/coordinator.rs: the people
-- liz knows, what it knows of the owner, and what it knows and carries.
pub mod People
pub mod AboutYou
pub mod Knowledge
mod Examples
