-- ===== src/Executor/Sandbox.antt =====
-- crates/liz-app-server/src/executor/sandbox.rs: which sandbox a shell command runs in. The
-- platform that the server is built for and its environment are a `Host`.
pub mod Resolution
use liz.Prelude.{
  String, Bool, true, false, Option, none, some, List, [], ◌∷◌, ◌==◌, if◌then◌else◌, unwrap_or,
}
use liz.Text.{to_ascii_lowercase, format}
use liz.Protocol.Sandbox.{
  SandboxMode, SandboxNetworkAccess, SandboxBackendKind, ShellSandboxRequest, ShellSandboxSummary,
}
use liz.Runtime.Error.{RuntimeResult, ok, err, invalid_state}

pub data TargetOs : Type 0 where
  macos linux windows other : TargetOs

pub record Host : Type 0 where
  pub target : TargetOs
  pub env : String → Option String  -- std::env::var(key).ok()
  pub is_file : String → Bool
  pub exe_dir : Option String  -- the folder of std::env::current_exe()
  pub path_dirs : List String  -- std::env::split_paths of PATH
  pub join : String → String → String  -- Path::join

pub data PlatformSandboxBackend : Type 0 where
  no_backend macos_seatbelt linux_helper windows_restricted_token windows_sandbox_user :
      PlatformSandboxBackend

pub data WindowsSandboxBackend : Type 0 where
  restricted_token sandbox_user : WindowsSandboxBackend

pub data LinuxSandboxVariant : Type 0 where
  helper legacy_landlock : LinuxSandboxVariant

-- SandboxMode::as_str, SandboxNetworkAccess::as_str and PlatformSandboxBackend::as_str.
abbrev pub mode_str : SandboxMode → String
mode_str SandboxMode.read_only = "read-only"
mode_str SandboxMode.workspace_write = "workspace-write"
mode_str SandboxMode.danger_full_access = "danger-full-access"
mode_str SandboxMode.external_sandbox = "external-sandbox"

abbrev pub network_str : SandboxNetworkAccess → String
network_str SandboxNetworkAccess.disabled = "disabled"
network_str SandboxNetworkAccess.restricted = "restricted"
network_str SandboxNetworkAccess.enabled = "enabled"

abbrev pub backend_str : PlatformSandboxBackend → String
backend_str no_backend = "none"
backend_str macos_seatbelt = "macos-seatbelt"
backend_str linux_helper = "linux-helper"
backend_str windows_restricted_token = "windows-restricted-token"
backend_str windows_sandbox_user = "windows-sandbox-user"

-- PlatformSandboxBackend::to_protocol.
unfoldable pub to_protocol : PlatformSandboxBackend → SandboxBackendKind
to_protocol no_backend = SandboxBackendKind.none
to_protocol macos_seatbelt = SandboxBackendKind.macos_seatbelt
to_protocol linux_helper = SandboxBackendKind.linux_helper
to_protocol windows_restricted_token = SandboxBackendKind.windows_restricted_token
to_protocol windows_sandbox_user = SandboxBackendKind.windows_sandbox_user

-- WindowsSandboxBackend::from_env.
unfoldable pub windows_backend_from_env : Host → WindowsSandboxBackend
windows_backend_from_env host =
    let value =
      to_ascii_lowercase (unwrap_or "sandbox-user" (host.env "LIZ_WINDOWS_SANDBOX_BACKEND")) in
    if value == "restricted-token" then restricted_token else sandbox_user

-- LinuxSandboxVariant::from_env.
unfoldable pub linux_variant_from_env : Host → LinuxSandboxVariant
linux_variant_from_env host =
    let value = to_ascii_lowercase (unwrap_or "helper" (host.env "LIZ_LINUX_SANDBOX_VARIANT")) in
    if value == "legacy-landlock" then legacy_landlock else helper

pub record SandboxConfig : Type 0 where
  pub default_mode : SandboxMode
  pub default_network_access : SandboxNetworkAccess
  pub windows_backend : WindowsSandboxBackend
  pub linux_variant : LinuxSandboxVariant

-- What `parse_sandbox_mode` and `parse_network_access` do with the value of the variable.
unfoldable pub parse_sandbox_mode : String → Option SandboxMode
parse_sandbox_mode value =
    let lower = to_ascii_lowercase value in
    if lower == "read-only"
    then some SandboxMode.read_only
    else if lower == "workspace-write"
    then some SandboxMode.workspace_write
    else if lower == "danger-full-access"
    then some SandboxMode.danger_full_access
    else if lower == "external-sandbox"
    then some SandboxMode.external_sandbox
    else none

unfoldable pub parse_network_access : String → Option SandboxNetworkAccess
parse_network_access value =
    let lower = to_ascii_lowercase value in
    if lower == "disabled"
    then some SandboxNetworkAccess.disabled
    else if lower == "restricted"
    then some SandboxNetworkAccess.restricted
    else if lower == "enabled"
    then some SandboxNetworkAccess.enabled
    else none

unfoldable pub default_sandbox_mode : Host → SandboxMode
default_sandbox_mode host = elim host.target [
  | TargetOs.other ↦ SandboxMode.danger_full_access
  | _ ↦ SandboxMode.workspace_write
]

abbrev and_then : {A B : Type 0} → Option A → (A → Option B) → Option B
and_then none f = none
and_then (some a) f = f a

-- SandboxConfig::from_env.
unfoldable pub config_from_env : Host → SandboxConfig
config_from_env host = record {
  default_mode =
      unwrap_or (default_sandbox_mode host)
        (and_then (host.env "LIZ_SANDBOX_MODE") parse_sandbox_mode);
  default_network_access =
      unwrap_or SandboxNetworkAccess.restricted
        (and_then (host.env "LIZ_SANDBOX_NETWORK") parse_network_access);
  windows_backend = windows_backend_from_env host;
  linux_variant = linux_variant_from_env host;
}

unfoldable pub set_default_request : ShellSandboxRequest → SandboxConfig → SandboxConfig
set_default_request request config = record config {
  default_mode = request.mode;
  default_network_access = request.network_access;
}

pub record EffectiveSandboxRequest : Type 0 where
  pub mode : SandboxMode
  pub network_access : SandboxNetworkAccess
  pub backend : PlatformSandboxBackend
  pub request : Option ShellSandboxRequest

-- The modes in which commands run on the host itself.
abbrev pub is_direct : SandboxMode → Bool
is_direct SandboxMode.danger_full_access = true
is_direct SandboxMode.external_sandbox = true
is_direct _ = false

abbrev windows_choice : WindowsSandboxBackend → PlatformSandboxBackend
windows_choice restricted_token = windows_restricted_token
windows_choice sandbox_user = windows_sandbox_user

unfoldable pub select_backend : Host → SandboxConfig → SandboxMode → PlatformSandboxBackend
select_backend host config mode = if is_direct mode then no_backend else elim host.target [
  | TargetOs.macos ↦ macos_seatbelt
  | TargetOs.linux ↦ linux_helper
  | TargetOs.windows ↦ windows_choice config.windows_backend
  | TargetOs.other ↦ no_backend
]

unfoldable pub resolve_request :
    Host → SandboxConfig → Option ShellSandboxRequest → EffectiveSandboxRequest
unfolding select_backend
resolve_request host config none = record {
  mode = config.default_mode;
  network_access = config.default_network_access;
  backend = select_backend host config config.default_mode;
  request = none;
}
resolve_request host config (some request) = record {
  mode = request.mode;
  network_access = request.network_access;
  backend = select_backend host config request.mode;
  request = some request;
}

abbrev is_no_backend : PlatformSandboxBackend → Bool
is_no_backend no_backend = true
is_no_backend _ = false

unfoldable pub ensure_supported : EffectiveSandboxRequest → RuntimeResult (Unit {0})
ensure_supported e =
    if is_direct e.mode
    then ok tt
    else if is_no_backend e.backend
    then err (
        invalid_state "sandbox_backend_unavailable" (
          format (
            "sandbox mode "
            ∷ mode_str e.mode
            ∷ " is enabled but no platform backend is available"
            ∷ [])))
    else ok tt

unfoldable pub to_summary : EffectiveSandboxRequest → ShellSandboxSummary
unfolding to_protocol
to_summary e = record {
  mode = e.mode;
  network_access = e.network_access;
  backend = to_protocol e.backend;
}
