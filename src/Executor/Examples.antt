-- ===== src/Executor/Examples.antt =====
-- Runs of the choice of a sandbox, of the building of a command and of the reading of a file.
use Prim.Native.String.{◌++◌}
use liz.Prelude.{◌≡◌, refl, true, false, none, some, [], ◌∷◌}
use liz.Prelude.{ℕ, Option, ◌≢◌, max, min, length}
use liz.Protocol.Sandbox.{SandboxMode, SandboxNetworkAccess, ShellSandboxRequest}
use liz.Runtime.Error.{ok}
use liz.Executor.Sandbox.{
  Host, TargetOs, linux_helper, SandboxConfig, WindowsSandboxBackend, LinuxSandboxVariant,
  is_direct, resolve_request, set_default_request,
}
use liz.Executor.Sandbox.Resolution.{resolve_request-set_default}
use liz.Executor.Command.{
  PreparedShellCommand, prepare_shell_command, build_linux_helper_command, helper_path_for_backend,
}
use liz.Executor.Command.Enforcement.{Enforces, prepare_shell_command-Enforces}
use liz.Executor.Workspace.{Disk, text, WorkspaceReadRequest, lines_of, join_lines, read}
use liz.Executor.Workspace.Reading.{window, read_lem}

abbrev host_on : TargetOs → Host
host_on target = record {
  target = target;
  env = λ key. some "/opt/helper";
  is_file = λ path. true;
  exe_dir = none;
  path_dirs = [];
  join = λ dir name. dir ++ ("/" ++ name);
}

abbrev config : SandboxConfig
config = record {
  default_mode = SandboxMode.workspace_write;
  default_network_access = SandboxNetworkAccess.restricted;
  windows_backend = WindowsSandboxBackend.sandbox_user;
  linux_variant = LinuxSandboxVariant.helper;
}

abbrev read_only : ShellSandboxRequest
read_only = record { mode = SandboxMode.read_only; network_access = SandboxNetworkAccess.disabled }

abbrev full_access : ShellSandboxRequest
full_access = record {
  mode = SandboxMode.danger_full_access;
  network_access = SandboxNetworkAccess.enabled;
}

resolve_request-set_default_example :
    let host = host_on TargetOs.linux in
    let given = resolve_request host config (some read_only) in
    let default = resolve_request host (set_default_request read_only config) none in
    (given.mode ≡ read_only.mode)
    × (given.network_access ≡ read_only.network_access)
    × (default.mode ≡ given.mode)
    × (default.network_access ≡ given.network_access)
    × (default.backend ≡ given.backend)
    × (resolve_request host (set_default_request full_access config) (some read_only) ≡ given)
resolve_request-set_default_example =
    resolve_request-set_default (host_on TargetOs.linux) config read_only full_access

-- `ls` under the helper of Linux.
abbrev listing : PreparedShellCommand
listing = record {
  command = record {
    program = "/opt/helper";
    args =
        "--sandbox-mode" ∷ "read-only" ∷ "--network-access" ∷ "disabled" ∷ "--working-dir"
        ∷ "/notes" ∷ "--" ∷ "sh" ∷ "-lc" ∷ "ls" ∷ [];
    current_dir = some "/notes";
  };
  sandbox = record {
    mode = SandboxMode.read_only;
    network_access = SandboxNetworkAccess.disabled;
    backend = linux_helper;
    request = some read_only;
  };
}

prepare_shell_command-Enforces_example :
    let host = host_on TargetOs.linux in
    (listing.sandbox ≡ resolve_request host config (some read_only))
    × (listing.command.current_dir ≡ some "/notes")
    × (is_direct listing.sandbox.mode ≡ true
        → (host.target ≡ TargetOs.windows
            → (listing.command.program ≡ "powershell")
              × (listing.command.args ≡ "-NoProfile" ∷ "-Command" ∷ "ls" ∷ []))
          × (host.target ≢ TargetOs.windows
              → (listing.command.program ≡ "sh") × (listing.command.args ≡ "-lc" ∷ "ls" ∷ [])))
    × (is_direct listing.sandbox.mode ≡ false
        → Enforces host "ls" (some "/notes") listing.sandbox listing.command)
unfolding prepare_shell_command resolve_request helper_path_for_backend build_linux_helper_command
prepare_shell_command-Enforces_example =
    prepare_shell_command-Enforces (host_on TargetOs.linux) config "ls" (some "/notes")
      (some read_only) listing refl

-- A disk on which every path is a file of three lines.
abbrev three_lines : Disk
three_lines = record {
  exists = λ path. true;
  is_file = λ path. true;
  read_to_string = λ path. text "one\ntwo\r\nthree\n";
}

abbrev ask : Option ℕ → WorkspaceReadRequest
ask start = record { path = "/notes/a"; start_line = start; end_line = some 2 }

lines_of_three : lines_of "one\ntwo\r\nthree\n" ≡ "one" ∷ "two" ∷ "three" ∷ []
unfolding lines_of
lines_of_three = refl

read_lem_example :
    let lines = lines_of "one\ntwo\r\nthree\n" in
    let total = max (length lines) 1 in
    read three_lines (ask (some 2))
    ≡ some (
        ok (record {
          path = "/notes/a";
          content = join_lines (window 1 2 2 lines);
          start_line = 2;
          end_line = min 2 total;
          total_lines = total;
        }))
read_lem_example = read_lem three_lines (ask (some 2)) "one\ntwo\r\nthree\n" refl refl refl
