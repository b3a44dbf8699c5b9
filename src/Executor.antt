-- ===== src/Executor.antt =====
-- Tool execution, crates/liz-app-server/src/executor.
mod Examples
mod WorkspaceExamples
pub mod Sandbox
pub mod Command
pub mod Workspace
