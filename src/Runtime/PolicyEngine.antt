-- ===== src/Runtime/PolicyEngine.antt =====
-- `PolicyEngine` in crates/liz-app-server/src/runtime/policy_engine.rs.
pub mod Risk
use liz.Prelude.{
  String, Bool, true, false, not, ◌&&◌, ◌||◌, List, [], ◌∷◌, retain, any, if◌then◌else◌,
}
use liz.Text.{to_ascii_lowercase, contains, format, join}
use liz.Protocol.Primitives.{RiskLevel}
use liz.Protocol.Sandbox.{SandboxMode, SandboxNetworkAccess}

-- context_assembler.rs
pub data RetrievalScope : Type 0 where
  focused expanded : RetrievalScope

pub record SandboxContextRecord : Type 0 where
  pub filesystem_mode : SandboxMode
  pub writable_roots : List String
  pub network_access : SandboxNetworkAccess

pub record PolicyDecision : Type 0 where
  pub scope : RetrievalScope
  pub risk_level : RiskLevel
  pub protected_targets : List String
  pub requires_checkpoint : Bool
  pub requires_approval : Bool
  pub reason : String
  pub sandbox_context : SandboxContextRecord

abbrev pub candidates : List String
candidates =
    ".env" ∷ "secrets" ∷ "token" ∷ "password" ∷ ".git" ∷ "cargo.lock" ∷ "agents.md" ∷ "plan/" ∷ []

abbrev pub destructive : List String
destructive = "delete" ∷ "remove" ∷ "reset" ∷ "wipe" ∷ "force push" ∷ []

abbrev pub mutating : List String
mutating = "write" ∷ "edit" ∷ "modify" ∷ "patch" ∷ "command" ∷ "run " ∷ []

unfoldable pub protected_targets : String → List String
protected_targets input = retain (contains (to_ascii_lowercase input)) candidates

abbrev pub is_nil : List String → Bool
is_nil [] = true
is_nil (x ∷ xs) = false

unfoldable pub classify_risk : String → List String → RiskLevel
classify_risk input targets =
    let lower = to_ascii_lowercase input in
    if not (is_nil targets) && any (contains lower) destructive
    then RiskLevel.critical
    else if not (is_nil targets) || any (contains lower) destructive
    then RiskLevel.high
    else if any (contains lower) mutating
    then RiskLevel.medium
    else RiskLevel.low

abbrev pub needs_checkpoint : RiskLevel → Bool
needs_checkpoint RiskLevel.low = false
needs_checkpoint _ = true

abbrev pub needs_approval : RiskLevel → Bool
needs_approval RiskLevel.high = true
needs_approval RiskLevel.critical = true
needs_approval _ = false

unfoldable pub reason_for : RiskLevel → List String → String
unfolding join
reason_for RiskLevel.low targets = "Scoped read-only or low-side-effect turn"
reason_for RiskLevel.medium targets = "Turn may write or execute bounded commands"
reason_for RiskLevel.high targets =
    if is_nil targets
    then "Turn may cause broad or destructive side effects"
    else format ("Turn touches protected targets: " ∷ join ", " targets ∷ [])
reason_for RiskLevel.critical targets =
    format ("Turn targets sensitive paths or destructive operations: " ∷ join ", " targets ∷ [])

-- Of the assembled context the engine reads the scope only.
unfoldable pub evaluate : String → RetrievalScope → PolicyDecision
unfolding reason_for
evaluate input scope =
    let targets = protected_targets input in
    let risk_level = classify_risk input targets in
    record {
      scope = scope;
      risk_level = risk_level;
      protected_targets = targets;
      requires_checkpoint = needs_checkpoint risk_level;
      requires_approval = needs_approval risk_level;
      reason = reason_for risk_level targets;
      sandbox_context = record {
        filesystem_mode = SandboxMode.workspace_write;
        writable_roots = "workspace" ∷ [];
        network_access = SandboxNetworkAccess.restricted;
      };
    }
