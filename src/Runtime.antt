-- ===== src/Runtime.antt =====
-- The runtime layer, crates/liz-app-server/src/runtime: its errors, its state, the actions on it,
-- and the managers that the coordinator is made of.
mod Examples
mod RegistryExamples
pub mod Error
pub mod State
pub mod Exec
pub mod Stores
pub mod Ids
pub mod ThreadManager
pub mod TurnManager
pub mod NodeRegistry
pub mod PolicyEngine
pub mod OutputPolicy
pub mod Inbound
pub mod Coordinator
pub mod Surface
pub mod Auth
pub mod Memory
