-- ===== src/Executor/Command/Enforcement.antt =====
-- How prepared commands of executor/shell.rs and the sandbox they were prepared for go together.
use liz.Prelude.{
  ap, ◌∙◌, Bool, if◌then◌else◌, or_else, All, inl, inr, ◌⊎◌, ◌≢◌, unwrap_or, String, ◌≡◌, refl,
  true, false, Option, none, some, List, [], ◌∷◌, arith,
}
use liz.Protocol.Sandbox.{SandboxMode, SandboxNetworkAccess, ShellSandboxRequest}
use liz.Text.{format}
use mathlib.Core.Path.{subst}
use liz.Runtime.Error.{RuntimeResult, invalid_state, ok, err}
use liz.Executor.Sandbox.{
  Host, TargetOs, PlatformSandboxBackend, SandboxConfig, EffectiveSandboxRequest, no_backend,
  macos_seatbelt, linux_helper, windows_restricted_token, windows_sandbox_user, mode_str,
  network_str, is_direct, resolve_request, ensure_supported, select_backend,
}
use liz.Executor.Command.{
  file_write_policy, network_policy, helper_candidates_in_dir, candidates_in, find, helper_env,
  resolve_default_helper_path, helper_names_for_backend, path_or, and_then, sandboxed_by, run_in,
  Command, PreparedShellCommand, build_macos_policy, macos_command, direct_shell_command,
  build_linux_helper_command, build_windows_helper_command, sandboxed_shell_command,
  build_shell_command, prepare_shell_command, helper_path_for_backend,
}

-- A program that a variable of the environment names, or a file of one of two names in some folder.
pub data IsHelper (host : Host) (variable first second : String) (program : String) : Type 0 where
  from_env : host.env variable ≡ some program → IsHelper host variable first second program
  from_folder :
      (dir name : String)
      → (name ≡ first) ⊎ (name ≡ second)
      → program ≡ host.join dir name
      → host.is_file program ≡ true
      → IsHelper host variable first second program

-- The helper of a backend that has one.
pub data HelperOf (host : Host) (program : String) : PlatformSandboxBackend → Type 0 where
  on_linux :
      IsHelper host "LIZ_LINUX_SANDBOX_HELPER" "liz-linux-sandbox" "liz-linux-sandbox-helper"
        program
      → HelperOf host program linux_helper
  by_token :
      IsHelper host "LIZ_WINDOWS_RESTRICTED_TOKEN_HELPER" "liz-windows-restricted-token.exe"
        "liz-windows-restricted-token.cmd" program
      → HelperOf host program windows_restricted_token
  by_user :
      IsHelper host "LIZ_WINDOWS_SANDBOX_USER_HELPER" "liz-windows-sandbox-user.exe"
        "liz-windows-sandbox-user.cmd" program
      → HelperOf host program windows_sandbox_user

-- The rules of a policy of Seatbelt: nothing but what is named is allowed; writing is allowed below the
-- folder in the mode that writes and not at all in another; the network is allowed as the access says.
abbrev pub PolicyOf : Option String → SandboxMode → SandboxNetworkAccess → String → Type 0
PolicyOf dir mode network policy =
    (writing : String) × (connecting : String) × (policy
      ≡ format (
          "(version 1)\n(deny default)\n(allow process*)\n(allow signal (target self))\n(allow file-read*)\n"
          ∷ writing ∷ connecting ∷ []))
    × (mode ≢ SandboxMode.workspace_write → writing ≡ "")
    × (mode ≡ SandboxMode.workspace_write
        → writing ≡ format ("(allow file-write* (subpath \"" ∷ unwrap_or "." dir ∷ "\"))\n" ∷ []))
    × (network ≡ SandboxNetworkAccess.disabled → connecting ≡ "")
    × (network ≡ SandboxNetworkAccess.restricted
        → connecting ≡ "(allow network-outbound (remote ip \"localhost:*\"))\n")
    × (network ≡ SandboxNetworkAccess.enabled
        → connecting ≡ "(allow network-outbound)\n(allow network-inbound)\n")

-- The process is Seatbelt with a policy for the request and with the text for the shell, or the helper
-- of the backend, which is told the mode and the network of the request before anything else.
pub data Enforces (host : Host) (shell_text : String) (dir : Option String)
    (e : EffectiveSandboxRequest) (command : Command) : Type 0 where
  seatbelt :
      (policy : String)
      → e.backend ≡ macos_seatbelt
      → command.program ≡ "/usr/bin/sandbox-exec"
      → command.args ≡ "-p" ∷ policy ∷ "--" ∷ "sh" ∷ "-lc" ∷ shell_text ∷ []
      → PolicyOf dir e.mode e.network_access policy
      → Enforces host shell_text dir e command
  by_helper :
      (rest : List String)
      → HelperOf host command.program e.backend
      → command.args
        ≡ "--sandbox-mode"
          ∷ mode_str e.mode
          ∷ "--network-access"
          ∷ network_str e.network_access
          ∷ rest
      → Enforces host shell_text dir e command

build_macos_policy-PolicyOf :
    (dir : Option String) (mode : SandboxMode) (network : SandboxNetworkAccess)
    → PolicyOf dir mode network (build_macos_policy dir mode network)
unfolding build_macos_policy
build_macos_policy-PolicyOf dir mode network = (
  file_write_policy mode (unwrap_or "." dir),
  network_policy network,
  refl,
  λ n. ground arith,
  λ n. rw n refl,
  λ n. rw n refl,
  λ n. rw n refl,
  λ n. rw n refl,
)

path_or-some :
    (found : Option String) (names : String × String × String) (program : String)
    → path_or found names ≡ ok program
    → found ≡ some program
path_or-some none names program h = cc
path_or-some (some path) names program h = ap some (cc)

module _ (host : Host) (first second : String) where
  -- A path of one of the two names in a folder.
  abbrev IsCandidate : String → Type 0
  IsCandidate path =
      (dir : String) × (name : String) × ((name ≡ first) ⊎ (name ≡ second))
      × (path ≡ host.join dir name)

  All-candidates :
      (dirs : List String) → All IsCandidate (candidates_in host dirs (first ∷ second ∷ []))
  unfolding helper_candidates_in_dir
  All-candidates [] = tt
  All-candidates (dir ∷ dirs) =
      ((dir, first, inl refl, refl), ((dir, second, inr refl, refl), All-candidates dirs))

  module _ (variable : String) where
    here_or_later :
        (path program : String) (later : Option String) (b : Bool)
        → host.is_file path ≡ b
        → IsCandidate path
        → (later ≡ some program → IsHelper host variable first second program)
        → (if b then some path else later) ≡ some program
        → IsHelper host variable first second program
    here_or_later path program later true i (dir, name, n, p) h e =
        let same : path ≡ program = cc in
        subst (IsHelper host variable first second) same (from_folder dir name n p i)
    here_or_later path program later false i c h e = h e

    found-IsHelper :
        (paths : List String) (program : String)
        → All IsCandidate paths
        → find host.is_file paths ≡ some program
        → IsHelper host variable first second program
    unfolding find
    found-IsHelper [] program h e = cc
    found-IsHelper (path ∷ paths) program (c, h) e =
        here_or_later path program (find host.is_file paths) (host.is_file path) refl c
          (found-IsHelper paths program h) e

    path_or-IsHelper :
        (named : Option String) (dirs : List String) (names : String × String × String)
        (program : String)
        → host.env variable ≡ named
        → path_or
            (or_else named (find host.is_file (candidates_in host dirs (first ∷ second ∷ []))))
            names
          ≡ ok program
        → IsHelper host variable first second program
    path_or-IsHelper (some path) dirs names program v e = from_env (v ∙ cc)
    path_or-IsHelper none dirs names program v e =
        found-IsHelper (candidates_in host dirs (first ∷ second ∷ [])) program (All-candidates dirs)
          (path_or-some _ names program e)

helper_path_for_backend-HelperOf :
    (host : Host) (kind : PlatformSandboxBackend) (program : String)
    → helper_path_for_backend host kind ≡ ok program
    → HelperOf host program kind
unfolding helper_path_for_backend helper_env resolve_default_helper_path helper_names_for_backend
helper_path_for_backend-HelperOf host linux_helper program h =
    on_linux (path_or-IsHelper host _ _ _ (host.env _) _ _ program refl h)
helper_path_for_backend-HelperOf host windows_restricted_token program h =
    by_token (path_or-IsHelper host _ _ _ (host.env _) _ _ program refl h)
helper_path_for_backend-HelperOf host windows_sandbox_user program h =
    by_user (path_or-IsHelper host _ _ _ (host.env _) _ _ program refl h)
helper_path_for_backend-HelperOf host no_backend program h = cc
helper_path_for_backend-HelperOf host macos_seatbelt program h = cc

and_then-eq_ok :
    (r : RuntimeResult String) (f : String → Command) (command : Command)
    → and_then r f ≡ ok command
    → (path : String) × (r ≡ ok path) × (f path ≡ command)
and_then-eq_ok (ok path) f command h = (path, refl, cc)
and_then-eq_ok (err x) f command h = cc

module _ (host : Host) (config : SandboxConfig) (text : String) (dir : Option String)
    (e : EffectiveSandboxRequest) where
  sandboxed_by-Enforces :
      (kind : PlatformSandboxBackend) (command : Command)
      → e.backend ≡ kind
      → sandboxed_by kind host text dir e config ≡ ok command
      → Enforces host text dir e command
  unfolding macos_command build_linux_helper_command build_windows_helper_command
  sandboxed_by-Enforces no_backend command k h = cc
  sandboxed_by-Enforces macos_seatbelt command k h =
      let p : macos_command text dir e ≡ command = cc in
      subst (Enforces host text dir e) p
        (seatbelt _ k refl refl (build_macos_policy-PolicyOf dir e.mode e.network_access))
  sandboxed_by-Enforces linux_helper command k h =
      let (path, r, p) = and_then-eq_ok (helper_path_for_backend host linux_helper) _ command h in
      subst (Enforces host text dir e) p
        (by_helper _ (rw k (helper_path_for_backend-HelperOf host linux_helper path r)) refl)
  sandboxed_by-Enforces windows_restricted_token command k h =
      let (path, r, p) =
        and_then-eq_ok (helper_path_for_backend host windows_restricted_token) _ command h in
      subst (Enforces host text dir e) p (
        by_helper _ (rw k (helper_path_for_backend-HelperOf host windows_restricted_token path r))
          refl)
  sandboxed_by-Enforces windows_sandbox_user command k h =
      let (path, r, p) =
        and_then-eq_ok (helper_path_for_backend host windows_sandbox_user) _ command h in
      subst (Enforces host text dir e) p (
        by_helper _ (rw k (helper_path_for_backend-HelperOf host windows_sandbox_user path r)) refl)

  Enforces-current_dir :
      (command : Command)
      → Enforces host text dir e command
      → Enforces host text dir e (record command { current_dir = dir })
  Enforces-current_dir command (seatbelt policy k p q r) = seatbelt policy k p q r
  Enforces-current_dir command (by_helper rest p q) = by_helper rest p q

  build_shell_command-Enforces :
      (command : Command)
      → is_direct e.mode ≡ false
      → build_shell_command host text dir e config ≡ ok command
      → Enforces host text dir e command
  unfolding build_shell_command sandboxed_shell_command
  build_shell_command-Enforces command m h =
      go (sandboxed_by e.backend host text dir e config)
        (λ c. sandboxed_by-Enforces e.backend c refl) (rw m at h)
    where
      go :
          (r : RuntimeResult Command)
          → ((c : Command) → r ≡ ok c → Enforces host text dir e c)
          → run_in dir r ≡ ok command
          → Enforces host text dir e command
      go (ok c) f h =
          let p : record c { current_dir = dir } ≡ command = cc in
          subst (Enforces host text dir e) p (Enforces-current_dir c (f c refl))
      go (err x) f h = cc

-- If a command is prepared, its sandbox is the one that was resolved and it runs in the folder asked
-- for. In a direct mode it is PowerShell on Windows and `sh` elsewhere, with the text. In a sandboxed
-- mode it is Seatbelt, on its own backend, with the text and with a policy that names just the writing
-- and the network of that sandbox; or it is the helper of the backend, which the backend's variable
-- names or which is a file of one of the backend's two names in a folder, and which is told the mode
-- and the network of the sandbox first.
pub prepare_shell_command-Enforces :
    (host : Host) (config : SandboxConfig) (text : String) (dir : Option String)
    (request : Option ShellSandboxRequest) (p : PreparedShellCommand)
    → prepare_shell_command host config text dir request ≡ ok p
    → (p.sandbox ≡ resolve_request host config request)
      × (p.command.current_dir ≡ dir)
      × (is_direct p.sandbox.mode ≡ true
          → (host.target ≡ TargetOs.windows
              → (p.command.program ≡ "powershell")
                × (p.command.args ≡ "-NoProfile" ∷ "-Command" ∷ text ∷ []))
            × (host.target ≢ TargetOs.windows
                → (p.command.program ≡ "sh") × (p.command.args ≡ "-lc" ∷ text ∷ [])))
      × (is_direct p.sandbox.mode ≡ false → Enforces host text dir p.sandbox p.command)
prepare_shell_command-Enforces host config text dir request p h = (
  same,
  folder,
  direct,
  λ m. rw same (
      build_shell_command-Enforces host config text dir (resolve_request host config request)
        p.command (rw same at m) built),
)
  where
    same : p.sandbox ≡ resolve_request host config request
    same = unfold prepare_shell_command in ground (arith, h)

    built :
        build_shell_command host text dir (resolve_request host config request) config
        ≡ ok p.command
    built = unfold prepare_shell_command in ground (arith, h)

    folder : p.command.current_dir ≡ dir
    folder = unfold build_shell_command in ground (arith, built)

    direct :
        is_direct p.sandbox.mode ≡ true
        → (host.target ≡ TargetOs.windows
            → (p.command.program ≡ "powershell")
              × (p.command.args ≡ "-NoProfile" ∷ "-Command" ∷ text ∷ []))
          × (host.target ≢ TargetOs.windows
              → (p.command.program ≡ "sh") × (p.command.args ≡ "-lc" ∷ text ∷ []))
    direct m = unfold build_shell_command direct_shell_command in ground (arith, built, same)

-- Where the platform has no backend, no command is prepared in a sandboxed mode.
pub prepare_shell_command-other :
    (host : Host) (config : SandboxConfig) (text : String) (dir : Option String)
    (request : Option ShellSandboxRequest)
    → host.target ≡ TargetOs.other
    → is_direct (resolve_request host config request).mode ≡ false
    → prepare_shell_command host config text dir request
      ≡ err (
          invalid_state "sandbox_backend_unavailable" (
            format (
              "sandbox mode "
              ∷ mode_str (resolve_request host config request).mode
              ∷ " is enabled but no platform backend is available"
              ∷ [])))
unfolding prepare_shell_command ensure_supported resolve_request select_backend
prepare_shell_command-other host config text dir none t d = ground arith
prepare_shell_command-other host config text dir (some request) t d = ground arith
