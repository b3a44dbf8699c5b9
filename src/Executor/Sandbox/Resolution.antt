-- ===== src/Executor/Sandbox/Resolution.antt =====
-- How a request, the defaults and the platform decide the sandbox.
use liz.Prelude.{◌≡◌, ◌≢◌, refl, true, Option, none, some, arith}
use liz.Protocol.Sandbox.{SandboxMode, ShellSandboxRequest}
use liz.Text.{to_ascii_lowercase}
use liz.Runtime.Error.{ok}
use liz.Executor.Sandbox.{
  Host, TargetOs, SandboxConfig, is_direct, select_backend, resolve_request, set_default_request,
  ensure_supported, parse_sandbox_mode, mode_str,
}

-- A request decides the mode and the network. Without a request, the defaults last set decide the
-- mode, the network and the backend as the same request would. Setting defaults changes nothing for
-- a request.
pub resolve_request-set_default :
    (host : Host) (config : SandboxConfig) (request other : ShellSandboxRequest)
    → let given = resolve_request host config (some request) in
      let default = resolve_request host (set_default_request request config) none in
      (given.mode ≡ request.mode)
      × (given.network_access ≡ request.network_access)
      × (default.mode ≡ given.mode)
      × (default.network_access ≡ given.network_access)
      × (default.backend ≡ given.backend)
      × (resolve_request host (set_default_request other config) (some request) ≡ given)
unfolding resolve_request set_default_request select_backend
resolve_request-set_default host config request other = ground arith

-- A resolved request is supported just when its mode runs on the host itself or the platform is one
-- of the three with a backend.
pub ensure_supported-resolve_request :
    (host : Host) (config : SandboxConfig) (request : Option ShellSandboxRequest)
    → let e = resolve_request host config request in
      ((host.target ≢ TargetOs.other) → ensure_supported e ≡ ok tt)
      × (host.target ≡ TargetOs.other → ensure_supported e ≡ ok tt → is_direct e.mode ≡ true)
      × (is_direct e.mode ≡ true → ensure_supported e ≡ ok tt)
unfolding resolve_request ensure_supported select_backend
ensure_supported-resolve_request host config none = ground arith
ensure_supported-resolve_request host config (some request) = ground arith

-- A mode is read back from its name.
pub parse_sandbox_mode-mode_str :
    (mode : SandboxMode) → parse_sandbox_mode (mode_str mode) ≡ some mode
unfolding parse_sandbox_mode to_ascii_lowercase
parse_sandbox_mode-mode_str SandboxMode.read_only = refl
parse_sandbox_mode-mode_str SandboxMode.workspace_write = refl
parse_sandbox_mode-mode_str SandboxMode.danger_full_access = refl
parse_sandbox_mode-mode_str SandboxMode.external_sandbox = refl
