-- ===== src/Runtime/RegistryExamples.antt =====
-- Runs of the node registry and of the two policies.
use Prim.Native.String.{◌++◌}
use liz.Prelude.{◌≤◌, ◌≡◌, refl, true, false, ◌||◌, none, [], ◌∷◌, ◌==◌, if◌then◌else◌}
use liz.Text.{to_ascii_lowercase, contains}
use liz.Text.Digits.{to_decimal}
use liz.Assoc.{contains_key}
use liz.Protocol.Node.{WorkspaceMount}
use liz.Protocol.Interaction.{
  InteractionContext, ActorKind, AudienceVisibility, InteractionRole, EvidencePolicy,
}
use liz.Protocol.Requests.{WorkspaceMountDetachRequest}
use liz.Runtime.Error.{ok, err}
use liz.Runtime.State.{NodeRegistry}
use liz.Runtime.NodeRegistry.{
  LocalHost, local_node_record, local_request, next_workspace_mount_id, read_workspace_mount,
  attach_workspace_mount, detach_workspace_mount, mount_not_found,
}
use liz.Runtime.NodeRegistry.Mounts.{
  next_workspace_mount_id-free, read-attach_workspace_mount, detach_workspace_mount_lem,
}
use liz.Runtime.PolicyEngine.{
  RetrievalScope, candidates, destructive, classify_risk, protected_targets, evaluate,
}
use liz.Runtime.PolicyEngine.Risk.{
  rank, mentions, evaluate-requires_approval, rank-classify_risk_mono,
}
use liz.Runtime.OutputPolicy.{OutputPolicyDecision, check}
use liz.Runtime.OutputPolicy.Disclosure.{check_redacted_whole}

abbrev device : LocalHost
device = record { version = "0.1.0"; os = "linux"; hostname = none }

abbrev notes : WorkspaceMount
notes = record {
  workspace_id = "workspace_1";
  node_id = "local";
  root_path = "/notes";
  label = "/notes";
  permissions = record { read = true; write = true; shell = true };
}

abbrev mounted : NodeRegistry
mounted = record {
  nodes = ("local", local_node_record device) ∷ [];
  workspace_mounts = ("workspace_1", notes) ∷ [];
}

abbrev code : WorkspaceMount
code = record notes { workspace_id = "workspace_2"; root_path = "/code"; label = "/code" }

next_workspace_mount_id-free_example :
    contains_key (next_workspace_mount_id mounted.workspace_mounts) mounted.workspace_mounts ≡ false
next_workspace_mount_id-free_example = next_workspace_mount_id-free mounted.workspace_mounts

read-attach_workspace_mount_example :
    (read_workspace_mount "workspace_2" (attach_workspace_mount (local_request "/code") mounted).1
      ≡ ok code)
    × (contains_key "workspace_2" mounted.workspace_mounts ≡ false)
    × (contains_key "workspace_1" mounted.workspace_mounts ≡ true
        → read_workspace_mount "workspace_1"
            (attach_workspace_mount (local_request "/code") mounted).1
          ≡ read_workspace_mount "workspace_1" mounted)
unfolding attach_workspace_mount next_workspace_mount_id contains_key to_decimal
read-attach_workspace_mount_example =
    read-attach_workspace_mount (local_request "/code") mounted code "workspace_1" refl

abbrev gone : WorkspaceMountDetachRequest
gone = record { workspace_id = "workspace_1" }

detach_workspace_mount_lem_example :
    let (result, after) = detach_workspace_mount gone mounted in
    (contains_key "workspace_1" mounted.workspace_mounts ≡ true
      → (result ≡ ok notes.workspace_id)
        × (read_workspace_mount "workspace_1" after ≡ (
            if notes.workspace_id == "workspace_1"
            then err mount_not_found
            else read_workspace_mount "workspace_1" mounted)))
    × (contains_key "workspace_1" mounted.workspace_mounts ≡ false
        → (result ≡ err mount_not_found) × (after ≡ mounted))
detach_workspace_mount_lem_example = detach_workspace_mount_lem gone mounted "workspace_1"

evaluate-requires_approval_example :
    ((evaluate "Delete the .env file" RetrievalScope.focused).requires_approval
      ≡ (mentions candidates "Delete the .env file" || mentions destructive "Delete the .env file"))
    × ((evaluate "Delete the .env file" RetrievalScope.focused).requires_approval ≡ true
        → (evaluate "Delete the .env file" RetrievalScope.focused).requires_checkpoint ≡ true)
evaluate-requires_approval_example =
    evaluate-requires_approval "Delete the .env file" RetrievalScope.focused

rank-classify_risk_mono_example :
    rank (classify_risk "edit" (protected_targets "edit"))
    ≤ rank (
        classify_risk
          ("please " ++ ("edit" ++ " it"))
          (protected_targets ("please " ++ ("edit" ++ " it"))))
rank-classify_risk_mono_example = rank-classify_risk_mono "please " "edit" " it"

-- A person who asks in a group, where commitments are not to be shared.
abbrev in_group : InteractionContext
in_group = record {
  ingress = record { kind = "telegram"; source_id = "s1"; conversation_id = none };
  actor = record {
    actor_id = "p1";
    kind = ActorKind.human_contact;
    display_name = none;
    proof = none;
  };
  audience = record { visibility = AudienceVisibility.group; participants = [] };
  role = InteractionRole.group_participant;
  authority = record {
    can_speak_for_owner = false;
    can_start_work = false;
    can_call_tools = false;
    can_write_memory = false;
    requires_owner_confirmation = false;
  };
  disclosure = record {
    allowed_topics = [];
    forbidden_topics = [];
    share_active_state = false;
    share_commitments = false;
    share_identity = false;
    evidence_policy = EvidencePolicy.hidden;
  };
  task_mandate = none;
  provenance = record {
    channel = none;
    received_at = none;
    authenticated_by = none;
    raw_event_ref = none;
  };
}

check_redacted_whole_example :
    check in_group "A COMMITMENT to Ann" ≡ OutputPolicyDecision.redacted "A COMMITMENT to Ann"
unfolding contains to_ascii_lowercase
check_redacted_whole_example =
    check_redacted_whole in_group "A COMMITMENT to Ann" refl refl refl refl refl refl refl
