-- ===== src/Runtime/Auth.antt =====
-- The provider profiles of crates/liz-app-server/src/runtime/coordinator.rs, and the logins that end
-- in one. What model/auth.rs does over HTTP is a parameter of the logins.
pub mod Profiles
pub mod Logins
mod Examples
use liz.Prelude.{
  ℕ, String, Bool, true, false, not, Option, none, some, List, [], ◌∷◌, ◌==◌, if◌then◌else◌, retain,
  sort_by, length, eqb, unwrap_or, or_else, inl, inr, ◌⊎◌,
}
use liz.Text.{trim, is_empty, text_le, format}
use liz.Assoc.{Assoc, insert}
use liz.Storage.{AuthProfileSnapshot}
use liz.Protocol.Auth.{
  ProviderCredential, ProviderAuthProfile, GitHubCopilotDevicePollStatus,
  GitHubCopilotDevicePollRequest, GitHubCopilotDevicePollResponse, OpenAiCodexOAuthCompleteRequest,
  GitLabPatSaveRequest,
}
use liz.Runtime.Error.{RuntimeError, invalid_state, not_found}
use liz.Runtime.Exec.{Exec, pure, raise, ◌>>=◌, ◌>>◌}
use liz.Runtime.Stores.{read_auth_profiles, write_auth_profiles}

-- The first fault of a profile.
unfoldable pub validate_provider_auth_profile : ProviderAuthProfile → Option RuntimeError
validate_provider_auth_profile profile =
    if is_empty (trim profile.profile_id)
    then some (
        invalid_state "provider_auth_profile_id_required"
          "provider auth profile id must not be empty")
    else if is_empty (trim profile.provider_id)
    then some (
        invalid_state "provider_auth_provider_id_required"
          "provider auth provider id must not be empty")
    else none

abbrev pub is_of : Option String → ProviderAuthProfile → Bool
is_of none profile = true
is_of (some provider_id) profile = profile.provider_id == provider_id

unfoldable pub list_provider_auth_profiles : Option String → Exec (List ProviderAuthProfile)
unfolding ◌>>=◌ retain
list_provider_auth_profiles provider_id = do
  snapshot ← read_auth_profiles
  pure (retain (is_of provider_id) snapshot.profiles)

-- The profile in the place of the first one with its id, or behind all.
unfoldable pub put_profile :
    ProviderAuthProfile → List ProviderAuthProfile → List ProviderAuthProfile
put_profile profile [] = profile ∷ []
put_profile profile (existing ∷ rest) =
    let later = put_profile profile rest in
    if existing.profile_id == profile.profile_id then profile ∷ rest else existing ∷ later

abbrev pub by_profile_id : ProviderAuthProfile → ProviderAuthProfile → Bool
by_profile_id left right = text_le left.profile_id right.profile_id

unfoldable pub upsert_provider_auth_profile : ProviderAuthProfile → Exec ProviderAuthProfile
unfolding ◌>>=◌ validate_provider_auth_profile put_profile sort_by
upsert_provider_auth_profile profile = elim (validate_provider_auth_profile profile) [
  | some e ↦ raise e
  | none ↦ do
    snapshot ← read_auth_profiles
    write_auth_profiles (record snapshot {
      profiles = sort_by by_profile_id (put_profile profile snapshot.profiles);
    })
    pure profile
]

abbrev pub profile_not_found : String → RuntimeError
profile_not_found profile_id =
    not_found "provider_auth_profile_not_found"
      (format ("provider auth profile " ∷ profile_id ∷ " does not exist" ∷ []))

unfoldable pub without_profile : String → List ProviderAuthProfile → List ProviderAuthProfile
unfolding retain
without_profile profile_id profiles =
    retain (λ (p : ProviderAuthProfile). not (p.profile_id == profile_id)) profiles

unfoldable pub delete_provider_auth_profile : String → Exec String
unfolding ◌>>=◌ without_profile
delete_provider_auth_profile profile_id = do
  snapshot ← read_auth_profiles
  let kept = without_profile profile_id snapshot.profiles
  if eqb (length kept) (length snapshot.profiles)
      then raise (profile_not_found profile_id)
      else do write_auth_profiles (record snapshot { profiles = kept }); pure profile_id

-- The metadata of a personal access token.
abbrev pub pat_metadata : Option String → Assoc String
pat_metadata none = ("gitlab.auth_mode", "pat") ∷ []
pat_metadata (some url) = ("gitlab.auth_mode", "pat") ∷ ("gitlab.instance_url", url) ∷ []

unfoldable pub pat_profile : GitLabPatSaveRequest → ProviderAuthProfile
pat_profile request = record {
  profile_id = unwrap_or "gitlab:default" request.profile_id;
  provider_id = "gitlab";
  display_name = or_else request.display_name (some "GitLab PAT");
  credential = ProviderCredential.token request.token none (pat_metadata request.instance_url);
}

unfoldable pub save_gitlab_pat : GitLabPatSaveRequest → Exec ProviderAuthProfile
unfolding pat_profile
save_gitlab_pat request = upsert_provider_auth_profile (pat_profile request)

-- What a poll of the device code says.
pub data GitHubCopilotDevicePollOutcome : Type 0 where
  pending : (retry_after_seconds : ℕ) → GitHubCopilotDevicePollOutcome
  slow_down : (retry_after_seconds : ℕ) → GitHubCopilotDevicePollOutcome
  complete : (github_token api_base_url : String) → GitHubCopilotDevicePollOutcome

unfoldable pub copilot_profile :
    GitHubCopilotDevicePollRequest → String → String → ProviderAuthProfile
copilot_profile request github_token api_base_url = record {
  profile_id = unwrap_or "github-copilot:default" request.profile_id;
  provider_id = "github-copilot";
  display_name = some "GitHub Copilot";
  credential =
      ProviderCredential.token github_token none (("copilot.api_base_url", api_base_url) ∷ []);
}

unfoldable pub after_poll :
    GitHubCopilotDevicePollRequest
    → GitHubCopilotDevicePollOutcome
    → Exec GitHubCopilotDevicePollResponse
unfolding ◌>>=◌ copilot_profile
after_poll request (GitHubCopilotDevicePollOutcome.pending seconds) = pure (record {
  status = GitHubCopilotDevicePollStatus.pending;
  retry_after_seconds = some seconds;
  profile = none;
})
after_poll request (GitHubCopilotDevicePollOutcome.slow_down seconds) = pure (record {
  status = GitHubCopilotDevicePollStatus.slow_down;
  retry_after_seconds = some seconds;
  profile = none;
})
after_poll request (GitHubCopilotDevicePollOutcome.complete github_token api_base_url) = do
  profile ← upsert_provider_auth_profile (copilot_profile request github_token api_base_url)
  pure (record {
    status = GitHubCopilotDevicePollStatus.complete;
    retry_after_seconds = none;
    profile = some profile;
  })

-- `poll` is poll_github_copilot_device_authorization: an outcome, or the text of an error.
unfoldable pub poll_github_copilot_device_login :
    (String → Option String → Option ℕ → String ⊎ GitHubCopilotDevicePollOutcome)
    → GitHubCopilotDevicePollRequest
    → Exec GitHubCopilotDevicePollResponse
unfolding ◌>>=◌ after_poll
poll_github_copilot_device_login poll request =
    elim (poll request.device_code request.enterprise_url request.interval_seconds) [
      | inl message ↦ raise (invalid_state "github_copilot_device_poll_failed" message)
      | inr outcome ↦ after_poll request outcome
    ]

pub record ParsedCodexCallback : Type 0 where
  pub code : String
  pub state : Option String

-- The first value of a query parameter, unless it is blank.
unfoldable pub query_value : String → List (String × String) → Option String
query_value key [] = none
query_value key ((k, value) ∷ pairs) =
    let later = query_value key pairs in
    if k == key then (if is_empty (trim value) then none else some value) else later

-- `parse_url` is `reqwest::Url::parse` with the query pairs of what it gives.
unfoldable pub parse_codex_callback :
    (String → Option (List (String × String))) → String → String ⊎ ParsedCodexCallback
unfolding query_value
parse_codex_callback parse_url input =
    let trimmed = trim input in
    if is_empty trimmed
    then inl "OpenAI Codex OAuth callback must not be empty"
    else elim (parse_url trimmed) [
      | none ↦ inr (record { code = trimmed; state = none })
      | some pairs ↦ elim (query_value "code" pairs) [
        | none ↦ inl "OpenAI Codex OAuth redirect URL did not include a code parameter"
        | some code ↦ inr (record { code = code; state = query_value "state" pairs })
      ]
    ]

-- OpenAiCodexRuntimeAuth.
pub record OpenAiCodexRuntimeAuth : Type 0 where
  pub access_token : String
  pub refresh_token : String
  pub expires_at_ms : ℕ
  pub account_id : Option String
  pub email : Option String

unfoldable pub codex_profile :
    OpenAiCodexOAuthCompleteRequest → OpenAiCodexRuntimeAuth → ProviderAuthProfile
codex_profile request oauth = record {
  profile_id = unwrap_or "openai-codex:default" request.profile_id;
  provider_id = "openai-codex";
  display_name = or_else oauth.email (some "OpenAI Codex");
  credential =
      ProviderCredential.o_auth oauth.access_token (some oauth.refresh_token)
        (some oauth.expires_at_ms) oauth.account_id oauth.email;
}

-- `callback.state.as_deref() != Some(expected_state)`, where a state is expected.
unfoldable pub is_other_state : Option String → Option String → Bool
is_other_state none found = false
is_other_state (some expected) none = true
is_other_state (some expected) (some state) = not (state == expected)

abbrev pub state_mismatch : RuntimeError
state_mismatch =
    invalid_state "openai_codex_oauth_state_mismatch"
      "OpenAI Codex OAuth callback state did not match the expected value"

abbrev pub complete_failed : String → RuntimeError
complete_failed message = invalid_state "openai_codex_oauth_complete_failed" message

-- `exchange` is exchange_openai_codex_authorization_code, from the code, the redirect URI, the
-- verifier and the override of the token URL; the override is what the environment says.
module _ (parse_url : String → Option (List (String × String)))
    (exchange : String → String → String → Option String → String ⊎ OpenAiCodexRuntimeAuth)
    (token_url_override : Option String) where
  unfoldable pub exchange_codex_code :
      OpenAiCodexOAuthCompleteRequest → String → Exec ProviderAuthProfile
  unfolding ◌>>=◌
  exchange_codex_code request code =
      elim (exchange code request.redirect_uri request.code_verifier token_url_override) [
        | inl message ↦ raise (complete_failed message)
        | inr oauth ↦ upsert_provider_auth_profile (codex_profile request oauth)
      ]

  unfoldable pub complete_openai_codex_oauth_login :
      OpenAiCodexOAuthCompleteRequest → Exec ProviderAuthProfile
  unfolding ◌>>=◌ exchange_codex_code
  complete_openai_codex_oauth_login request =
      elim (parse_codex_callback parse_url request.code_or_redirect_url) [
        | inl message ↦ raise (complete_failed message)
        | inr callback ↦
            if is_other_state request.expected_state callback.state
            then raise state_mismatch
            else exchange_codex_code request callback.code
      ]
