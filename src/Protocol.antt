-- ===== src/Protocol.antt =====
-- The data types of crates/liz-protocol/src that the server's runtime works on.
pub mod Ids
pub mod Primitives
pub mod Thread
pub mod Turn
pub mod Sandbox
pub mod Approval
pub mod Checkpoint
pub mod Artifact
pub mod Node
pub mod Memory
pub mod Surface
pub mod Interaction
pub mod Requests
pub mod Auth
