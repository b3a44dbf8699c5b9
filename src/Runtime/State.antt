-- ===== src/Runtime/State.antt =====
-- The state of `RuntimeCoordinator` in crates/liz-app-server/src/runtime/coordinator.rs, with that
-- of the stores (runtime/stores.rs), the identifier generator (runtime/ids.rs), the turn manager
-- and the node registry. The managers without fields of their own have no part in it.
use liz.Prelude.{ℕ, Bool, []}
use liz.Assoc.{Assoc}
use liz.Protocol.Turn.{Turn}
use liz.Protocol.Approval.{ApprovalRequest}
use liz.Protocol.Node.{NodeRecord, WorkspaceMount}
use liz.Storage.{StoragePaths}

-- The files, and what the file system answers: the call numbered `calls` fails if `faulty` says
-- so. A call that fails leaves the files as they were.
pub record RuntimeStores : Type 0 where
  pub paths : StoragePaths
  pub faulty : ℕ → Bool
  pub calls : ℕ

-- The counter, and the system clock: `clock n` is the n-th reading, in nanoseconds since the epoch.
pub record IdGenerator : Type 0 where
  pub sequence : ℕ
  pub clock : ℕ → ℕ
  pub readings : ℕ

pub record TurnManager : Type 0 where
  pub active_turns : Assoc Turn
  pub next_sequence : Assoc ℕ

pub record NodeRegistry : Type 0 where
  pub nodes : Assoc NodeRecord
  pub workspace_mounts : Assoc WorkspaceMount

pub record RuntimeCoordinator : Type 0 where
  pub stores : RuntimeStores
  pub ids : IdGenerator
  pub turn_manager : TurnManager
  pub approvals : Assoc ApprovalRequest
  pub node_registry : NodeRegistry

-- A coordinator that has done nothing yet, not even read its registry.
abbrev pub idle : (ℕ → ℕ) → RuntimeStores → RuntimeCoordinator
idle clock stores = record {
  stores = stores;
  ids = record { sequence = 0; clock = clock; readings = 0 };
  turn_manager = record { active_turns = []; next_sequence = [] };
  approvals = [];
  node_registry = record { nodes = []; workspace_mounts = [] };
}
