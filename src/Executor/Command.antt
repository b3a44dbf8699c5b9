-- ===== src/Executor/Command.antt =====
-- How crates/liz-app-server/src/executor/shell.rs builds the process of a shell command. A
-- `Command` is the program, its arguments and the folder; the three standard streams are always
-- redirected, and are not part of it.
pub mod Enforcement
use liz.Prelude.{
  String, Bool, true, false, Option, none, some, List, [], ◌∷◌, ◌++◌, map, if◌then◌else◌, unwrap_or,
  or_else,
}
use liz.Text.{format}
use liz.Protocol.Sandbox.{SandboxMode, SandboxNetworkAccess, ShellSandboxRequest}
use liz.Runtime.Error.{RuntimeResult, ok, err, invalid_state}
use liz.Executor.Sandbox.{
  Host, TargetOs, PlatformSandboxBackend, no_backend, macos_seatbelt, linux_helper,
  windows_restricted_token, windows_sandbox_user, LinuxSandboxVariant, helper, legacy_landlock,
  SandboxConfig, EffectiveSandboxRequest, mode_str, network_str, backend_str, is_direct,
  resolve_request, ensure_supported,
}

pub record Command : Type 0 where
  pub program : String
  pub args : List String
  pub current_dir : Option String

unfoldable pub direct_shell_command : Host → String → Command
direct_shell_command host command = elim host.target [
  | TargetOs.windows ↦ record {
    program = "powershell";
    args = "-NoProfile" ∷ "-Command" ∷ command ∷ [];
    current_dir = none;
  }
  | _ ↦ record { program = "sh"; args = "-lc" ∷ command ∷ []; current_dir = none }
]

abbrev file_write_policy : SandboxMode → String → String
file_write_policy SandboxMode.workspace_write root =
    format ("(allow file-write* (subpath \"" ∷ root ∷ "\"))\n" ∷ [])
file_write_policy _ root = ""

abbrev network_policy : SandboxNetworkAccess → String
network_policy SandboxNetworkAccess.disabled = ""
network_policy SandboxNetworkAccess.restricted =
    "(allow network-outbound (remote ip \"localhost:*\"))\n"
network_policy SandboxNetworkAccess.enabled = "(allow network-outbound)\n(allow network-inbound)\n"

unfoldable pub build_macos_policy : Option String → SandboxMode → SandboxNetworkAccess → String
build_macos_policy working_dir mode network_access = format (
    "(version 1)\n(deny default)\n(allow process*)\n(allow signal (target self))\n(allow file-read*)\n"
    ∷ file_write_policy mode (unwrap_or "." working_dir)
    ∷ network_policy network_access
    ∷ [])

abbrev working_dir_args : Option String → List String
working_dir_args none = []
working_dir_args (some dir) = "--working-dir" ∷ dir ∷ []

abbrev variant_args : LinuxSandboxVariant → List String
variant_args helper = []
variant_args legacy_landlock = "--use-legacy-landlock" ∷ []

-- The arguments that name the restrictions to the helper.
abbrev pub restriction_args : EffectiveSandboxRequest → List String
restriction_args e =
    "--sandbox-mode" ∷ mode_str e.mode ∷ "--network-access" ∷ network_str e.network_access ∷ []

unfoldable pub build_linux_helper_command :
    String → String → Option String → EffectiveSandboxRequest → LinuxSandboxVariant → Command
build_linux_helper_command program command working_dir e variant = record {
  program = program;
  args =
      restriction_args e
      ++ (working_dir_args working_dir
          ++ (variant_args variant ++ ("--" ∷ "sh" ∷ "-lc" ∷ command ∷ [])));
  current_dir = none;
}

unfoldable pub build_windows_helper_command :
    String → String → Option String → EffectiveSandboxRequest → Command
build_windows_helper_command program command working_dir e = record {
  program = program;
  args =
      restriction_args e
      ++ (working_dir_args working_dir
          ++ ("--" ∷ "powershell" ∷ "-NoProfile" ∷ "-Command" ∷ command ∷ []));
  current_dir = none;
}

unfoldable pub helper_names_for_backend : PlatformSandboxBackend → Option (List String)
helper_names_for_backend linux_helper = some ("liz-linux-sandbox" ∷ "liz-linux-sandbox-helper" ∷ [])
helper_names_for_backend windows_restricted_token =
    some ("liz-windows-restricted-token.exe" ∷ "liz-windows-restricted-token.cmd" ∷ [])
helper_names_for_backend windows_sandbox_user =
    some ("liz-windows-sandbox-user.exe" ∷ "liz-windows-sandbox-user.cmd" ∷ [])
helper_names_for_backend _ = none

unfoldable pub helper_candidates_in_dir : Host → String → List String → List String
helper_candidates_in_dir host dir names = map (host.join dir) names

abbrev candidates_in : Host → List String → List String → List String
candidates_in host [] names = []
candidates_in host (dir ∷ dirs) names =
    helper_candidates_in_dir host dir names ++ candidates_in host dirs names

abbrev to_list : Option String → List String
to_list none = []
to_list (some s) = s ∷ []

-- Iterator::find.
unfoldable pub find : (String → Bool) → List String → Option String
find p [] = none
find p (s ∷ rest) = if p s then some s else find p rest

unfoldable pub resolve_default_helper_path : Host → PlatformSandboxBackend → Option String
unfolding find helper_names_for_backend helper_candidates_in_dir
resolve_default_helper_path host backend = elim (helper_names_for_backend backend) [
  | none ↦ none
  | some names ↦
      find host.is_file (candidates_in host (to_list host.exe_dir ++ host.path_dirs) names)
]

-- The variable, the error code and the description of a backend's helper.
unfoldable pub helper_env : PlatformSandboxBackend → Option (String × String × String)
helper_env linux_helper =
    some ("LIZ_LINUX_SANDBOX_HELPER", "linux_sandbox_helper_missing", "Linux sandbox helper")
helper_env windows_restricted_token = some (
  "LIZ_WINDOWS_RESTRICTED_TOKEN_HELPER", "windows_restricted_token_helper_missing",
  "Windows restricted-token sandbox helper",
)
helper_env windows_sandbox_user = some (
  "LIZ_WINDOWS_SANDBOX_USER_HELPER", "windows_sandbox_user_helper_missing",
  "Windows sandbox-user helper",
)
helper_env _ = none

abbrev pub path_or : Option String → String × String × String → RuntimeResult String
path_or (some path) names = ok path
path_or none (key, code, description) = err (
    invalid_state code (
      format
        (description ∷ " is required in " ∷ key ∷ " or on the default helper search path" ∷ [])))

unfoldable pub helper_path_for_backend : Host → PlatformSandboxBackend → RuntimeResult String
unfolding helper_env resolve_default_helper_path
helper_path_for_backend host backend = elim (helper_env backend) [
  | none ↦ err (
      invalid_state "sandbox_backend_helper_not_applicable"
        "helper path lookup is not applicable to this backend")
  | some names ↦
      path_or (or_else (host.env names.0) (resolve_default_helper_path host backend)) names
]

abbrev pub and_then : RuntimeResult String → (String → Command) → RuntimeResult Command
and_then (ok path) build = ok (build path)
and_then (err e) build = err e

unfoldable pub macos_command : String → Option String → EffectiveSandboxRequest → Command
unfolding build_macos_policy
macos_command command working_dir e = record {
  program = "/usr/bin/sandbox-exec";
  args =
      "-p"
      ∷ build_macos_policy working_dir e.mode e.network_access
      ∷ "--"
      ∷ "sh"
      ∷ "-lc"
      ∷ command
      ∷ [];
  current_dir = none;
}

abbrev pub sandboxed_by :
    PlatformSandboxBackend
    → Host
    → String
    → Option String
    → EffectiveSandboxRequest
    → SandboxConfig
    → RuntimeResult Command
sandboxed_by macos_seatbelt host command working_dir e config =
    ok (macos_command command working_dir e)
sandboxed_by linux_helper host command working_dir e config =
    and_then (helper_path_for_backend host linux_helper)
      (λ path. build_linux_helper_command path command working_dir e config.linux_variant)
sandboxed_by windows_restricted_token host command working_dir e config =
    and_then (helper_path_for_backend host windows_restricted_token)
      (λ path. build_windows_helper_command path command working_dir e)
sandboxed_by windows_sandbox_user host command working_dir e config =
    and_then (helper_path_for_backend host windows_sandbox_user)
      (λ path. build_windows_helper_command path command working_dir e)
sandboxed_by no_backend host command working_dir e config =
    err (invalid_state "sandbox_backend_unavailable" "sandbox mode requires a platform backend")

unfoldable pub sandboxed_shell_command :
    Host → String → Option String → EffectiveSandboxRequest → SandboxConfig → RuntimeResult Command
sandboxed_shell_command host command working_dir e config =
    sandboxed_by e.backend host command working_dir e config

abbrev pub run_in : Option String → RuntimeResult Command → RuntimeResult Command
run_in dir (ok built) = ok (record built { current_dir = dir })
run_in dir (err e) = err e

unfoldable pub build_shell_command :
    Host → String → Option String → EffectiveSandboxRequest → SandboxConfig → RuntimeResult Command
unfolding sandboxed_shell_command direct_shell_command
build_shell_command host command working_dir e config = run_in working_dir (
    if is_direct e.mode
    then ok (direct_shell_command host command)
    else sandboxed_shell_command host command working_dir e config)

pub record PreparedShellCommand : Type 0 where
  pub command : Command
  pub sandbox : EffectiveSandboxRequest

abbrev pub prepared :
    EffectiveSandboxRequest → RuntimeResult Command → RuntimeResult PreparedShellCommand
prepared e (ok command) = ok (record { command = command; sandbox = e })
prepared e (err x) = err x

abbrev pub after_support :
    RuntimeResult (Unit {0})
    → RuntimeResult PreparedShellCommand
    → RuntimeResult PreparedShellCommand
after_support (ok _) next = next
after_support (err x) next = err x

-- LocalShellExecutor::prepare_shell_command.
unfoldable pub prepare_shell_command :
    Host
    → SandboxConfig
    → String
    → Option String
    → Option ShellSandboxRequest
    → RuntimeResult PreparedShellCommand
unfolding build_shell_command ensure_supported
prepare_shell_command host config command working_dir sandbox_override =
    let sandbox = resolve_request host config sandbox_override in
    after_support (ensure_supported sandbox)
      (prepared sandbox (build_shell_command host command working_dir sandbox config))

unfoldable pub decorate_stdout : EffectiveSandboxRequest → String → String
decorate_stdout e stdout =
    if is_direct e.mode
    then stdout
    else format (
        "[sandbox mode="
        ∷ mode_str e.mode
        ∷ " backend="
        ∷ backend_str e.backend
        ∷ " network="
        ∷ network_str e.network_access
        ∷ "]\n"
        ∷ stdout
        ∷ [])
