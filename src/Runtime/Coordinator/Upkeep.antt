-- ===== src/Runtime/Coordinator/Upkeep.antt =====
-- The operations of the coordinator that have nothing to do with turns: on nodes, on the memory's
-- surfaces and on the provider profiles.
use Prim.Native.Char.{Char}
use liz.Prelude.{ℕ, String, refl, Bool, Option, List, [], ◌∷◌, arith, ◌⊎◌}
use liz.Protocol.Ids.{NodeId, Timestamp}
use liz.Protocol.Node.{NodePolicy}
use liz.Protocol.Requests.{NodeHeartbeatRequest}
use liz.Protocol.Surface.{PersonBoundary, AboutYouItem, AboutYouUpdate, KnowledgeCorrection}
use liz.Protocol.Auth.{
  ProviderAuthProfile, GitHubCopilotDevicePollRequest, OpenAiCodexOAuthCompleteRequest,
  GitLabPatSaveRequest,
}
use liz.Storage.{StoredMemoryFact}
use liz.Runtime.State.{RuntimeCoordinator}
use liz.Runtime.Stores.{
  read_global_memory, write_global_memory, read_auth_profiles, write_auth_profiles,
}
use liz.Runtime.Ids.{now_timestamp, next_memory_fact_id}
use liz.Runtime.Surface.People.{upsert_people_surface, delete_people_surface}
use liz.Runtime.Surface.AboutYou.{
  put_value, put_item, put_items, build_about_you_surface, update_about_you_surface,
}
use liz.Runtime.Surface.Knowledge.{correct_knowledge_surface}
use liz.Runtime.Auth.{
  upsert_provider_auth_profile, delete_provider_auth_profile, save_gitlab_pat, after_poll,
  GitHubCopilotDevicePollOutcome, poll_github_copilot_device_login, OpenAiCodexRuntimeAuth,
  codex_profile, exchange_codex_code, complete_openai_codex_oauth_login,
}
use liz.Runtime.Coordinator.{on_registry}
use liz.Runtime.Coordinator.Nodes.{read_node, update_node_policy, heartbeat_node}
use liz.Runtime.Coordinator.Frames.{Keeps, persist_node_registry-Keeps}

-- The logins carry what they ask of the provider, and the update of the About You surface the tables
-- of Unicode.
pub data Upkeep : Type 0 where
  node_policy : NodeId → NodePolicy → Upkeep
  heartbeat : NodeHeartbeatRequest → Upkeep
  upsert_person : PersonBoundary → Upkeep
  delete_person : String → Upkeep
  about_you : (Char → Bool) → (String → String) → AboutYouUpdate → Upkeep
  correct_knowledge : KnowledgeCorrection → Upkeep
  upsert_profile : ProviderAuthProfile → Upkeep
  delete_profile : String → Upkeep
  gitlab_pat : GitLabPatSaveRequest → Upkeep
  copilot_poll :
      (String → Option String → Option ℕ → String ⊎ GitHubCopilotDevicePollOutcome)
      → GitHubCopilotDevicePollRequest
      → Upkeep
  codex_login :
      (String → Option (List (String × String)))
      → (String → String → String → Option String → String ⊎ OpenAiCodexRuntimeAuth)
      → Option String
      → OpenAiCodexOAuthCompleteRequest
      → Upkeep

-- The state that an operation leaves, whether it succeeds or not.
unfoldable pub keep_up : Upkeep → RuntimeCoordinator → RuntimeCoordinator
keep_up (node_policy node_id policy) s = (update_node_policy node_id policy s).1
keep_up (heartbeat request) s = (heartbeat_node request s).1
keep_up (upsert_person person) s = (upsert_people_surface person s).1
keep_up (delete_person person_id) s = (delete_people_surface person_id s).1
keep_up (about_you alphanumeric lowercase update) s =
    (update_about_you_surface alphanumeric lowercase update s).1
keep_up (correct_knowledge correction) s = (correct_knowledge_surface correction s).1
keep_up (upsert_profile profile) s = (upsert_provider_auth_profile profile s).1
keep_up (delete_profile profile_id) s = (delete_provider_auth_profile profile_id s).1
keep_up (gitlab_pat request) s = (save_gitlab_pat request s).1
keep_up (copilot_poll poll request) s = (poll_github_copilot_device_login poll request s).1
keep_up (codex_login parse_url exchange override request) s =
    (complete_openai_codex_oauth_login parse_url exchange override request s).1

module _ (alphanumeric : Char → Bool) (lowercase : String → String) where
  put_value-Keeps :
      (subject value : String) (now : Timestamp) (facts : List StoredMemoryFact)
      (s : RuntimeCoordinator)
      → Keeps s (put_value alphanumeric lowercase subject value now facts s).1
  unfolding put_value next_memory_fact_id
  put_value-Keeps subject value now facts s = ground arith

  put_items-Keeps :
      (items : List AboutYouItem) (now : Timestamp) (facts : List StoredMemoryFact)
      (s : RuntimeCoordinator)
      → Keeps s (put_items alphanumeric lowercase items now facts s).1
  unfolding put_items put_item
  put_items-Keeps [] now facts s = (refl, refl)
  put_items-Keeps (item ∷ items) now facts s = grind (arith, put_value-Keeps, put_items-Keeps items)

module _ (s : RuntimeCoordinator) where
  read_global_memory-Keeps : Keeps s (read_global_memory s).1
  unfolding read_global_memory
  read_global_memory-Keeps = ground arith

  upsert-Keeps :
      (profile : ProviderAuthProfile) → Keeps s (upsert_provider_auth_profile profile s).1
  unfolding upsert_provider_auth_profile read_auth_profiles write_auth_profiles
  upsert-Keeps profile = ground arith

pub keep_up-Keeps : (u : Upkeep) (s : RuntimeCoordinator) → Keeps s (keep_up u s)
unfolding keep_up save_gitlab_pat
keep_up-Keeps (node_policy node_id policy) s =
    unfold update_node_policy on_registry in grind (arith, persist_node_registry-Keeps)
keep_up-Keeps (heartbeat request) s =
    unfold heartbeat_node read_node on_registry in grind (arith, persist_node_registry-Keeps)
keep_up-Keeps (upsert_person person) s =
    unfold upsert_people_surface read_global_memory write_global_memory in ground arith
keep_up-Keeps (delete_person person_id) s =
    unfold delete_people_surface read_global_memory write_global_memory in ground arith
keep_up-Keeps (about_you alphanumeric lowercase update) s =
    unfold update_about_you_surface build_about_you_surface write_global_memory now_timestamp in
    grind (arith, read_global_memory-Keeps, put_items-Keeps)
keep_up-Keeps (correct_knowledge correction) s =
    unfold correct_knowledge_surface read_global_memory write_global_memory now_timestamp in
    ground arith
keep_up-Keeps (upsert_profile profile) s = upsert-Keeps s profile
keep_up-Keeps (delete_profile profile_id) s =
    unfold delete_provider_auth_profile read_auth_profiles write_auth_profiles in ground arith
keep_up-Keeps (gitlab_pat request) s = upsert-Keeps s _
keep_up-Keeps (copilot_poll poll request) s =
    unfold poll_github_copilot_device_login after_poll in grind (arith, upsert-Keeps s)
keep_up-Keeps (codex_login parse_url exchange override request) s =
    unfold complete_openai_codex_oauth_login exchange_codex_code in
    grind (arith, λ (oauth : OpenAiCodexRuntimeAuth). upsert-Keeps s (codex_profile request oauth))
