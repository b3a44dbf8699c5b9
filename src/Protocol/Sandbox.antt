-- ===== src/Protocol/Sandbox.antt =====
-- The data of crates/liz-protocol/src/sandbox.rs.

pub data SandboxMode : Type 0 where
  read_only workspace_write danger_full_access external_sandbox : SandboxMode

pub data SandboxNetworkAccess : Type 0 where
  disabled restricted enabled : SandboxNetworkAccess

pub data SandboxBackendKind : Type 0 where
  none macos_seatbelt linux_helper windows_restricted_token windows_sandbox_user :
      SandboxBackendKind

pub record ShellSandboxSummary : Type 0 where
  pub mode : SandboxMode
  pub network_access : SandboxNetworkAccess
  pub backend : SandboxBackendKind

pub record ShellSandboxRequest : Type 0 where
  pub mode : SandboxMode
  pub network_access : SandboxNetworkAccess
