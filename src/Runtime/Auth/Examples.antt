-- ===== src/Runtime/Auth/Examples.antt =====
-- Runs of the provider profiles and of the logins.
use liz.Prelude.{
  unwrap_or, or_else, ℕ, String, ◌≡◌, ◌≢◌, Bool, true, false, Option, none, some, List, [], ◌∷◌,
  inl, inr, ◌⊎◌,
}
use liz.Protocol.Auth.{
  ProviderCredential, ProviderAuthProfile, GitHubCopilotDevicePollRequest,
  OpenAiCodexOAuthCompleteRequest,
}
use liz.Storage.{no_files}
use liz.Runtime.Error.{invalid_state, RuntimeError, ok, err, is_ok}
use liz.Runtime.State.{RuntimeCoordinator, idle}
use liz.Runtime.Stores.{profiles_of}
use liz.Runtime.Auth.{
  validate_provider_auth_profile, upsert_provider_auth_profile, GitHubCopilotDevicePollOutcome,
  ParsedCodexCallback, parse_codex_callback, OpenAiCodexRuntimeAuth,
  complete_openai_codex_oauth_login,
}
use liz.Runtime.Auth.Profiles.{find_profile, upsert_provider_auth_profile_lem}
use liz.Runtime.Auth.Logins.{complete_openai_codex_oauth_login_lem}

abbrev calm : ℕ → Bool
calm n = false

abbrev ticks : ℕ → ℕ
ticks n = n

abbrev fresh : RuntimeCoordinator
fresh = idle ticks (record { paths = no_files; faulty = calm; calls = 0 })

abbrev key_profile : ProviderAuthProfile
key_profile = record {
  profile_id = "openai:default";
  provider_id = "openai";
  display_name = none;
  credential = ProviderCredential.api_key "k";
}

upsert_provider_auth_profile_lem_example :
    let (result, after) = upsert_provider_auth_profile key_profile fresh in
    let old = (profiles_of fresh.stores.paths).profiles in
    let new = (profiles_of after.stores.paths).profiles in
    (is_ok result ≡ true
      → (result ≡ ok key_profile)
        × (validate_provider_auth_profile key_profile ≡ none)
        × (find_profile "openai:default" new ≡ some key_profile)
        × ((j : String) → j ≢ "openai:default" → find_profile j new ≡ find_profile j old))
    × (is_ok result ≡ false → after.stores.paths ≡ fresh.stores.paths)
    × (((n : ℕ) → calm n ≡ false)
        → (validate_provider_auth_profile key_profile ≡ none → is_ok result ≡ true)
          × ((e : RuntimeError)
              → validate_provider_auth_profile key_profile ≡ some e
              → result ≡ err e))
upsert_provider_auth_profile_lem_example = upsert_provider_auth_profile_lem key_profile fresh

abbrev pairs_of : String → Option (List (String × String))
pairs_of url = some (("code", "c1") ∷ ("state", "s1") ∷ [])

abbrev granted : OpenAiCodexRuntimeAuth
granted = record {
  access_token = "a";
  refresh_token = "r";
  expires_at_ms = 5;
  account_id = none;
  email = none;
}

abbrev grants : String → String → String → Option String → String ⊎ OpenAiCodexRuntimeAuth
grants code redirect verifier override = inr granted

abbrev login : OpenAiCodexOAuthCompleteRequest
login = record {
  redirect_uri = "http://localhost";
  code_or_redirect_url = "http://localhost?code=c1&state=s1";
  code_verifier = "v";
  expected_state = some "s1";
  profile_id = none;
}

abbrev no_override : Option String
no_override = none

complete_openai_codex_oauth_login_lem_example :
    let (result, after) =
      complete_openai_codex_oauth_login pairs_of grants no_override login fresh in
    ((message : String)
      → parse_codex_callback pairs_of login.code_or_redirect_url ≡ inl message
      → result ≡ err (invalid_state "openai_codex_oauth_complete_failed" message))
    × ((callback : ParsedCodexCallback)
        → parse_codex_callback pairs_of login.code_or_redirect_url ≡ inr callback
        → ((state : String)
            → login.expected_state ≡ some state
            → (is_ok result ≡ true → callback.state ≡ some state)
              × (callback.state ≢ some state
                  → result
                    ≡ err (
                        invalid_state "openai_codex_oauth_state_mismatch"
                          "OpenAI Codex OAuth callback state did not match the expected value")))
          × ((message : String)
              → (login.expected_state ≢ none → callback.state ≡ login.expected_state)
              → grants callback.code login.redirect_uri login.code_verifier no_override
                ≡ inl message
              → result ≡ err (invalid_state "openai_codex_oauth_complete_failed" message))
          × ((oauth : OpenAiCodexRuntimeAuth)
              → grants callback.code login.redirect_uri login.code_verifier no_override ≡ inr oauth
              → is_ok result ≡ true
              → let profile : ProviderAuthProfile = record {
                profile_id = unwrap_or "openai-codex:default" login.profile_id;
                provider_id = "openai-codex";
                display_name = or_else oauth.email (some "OpenAI Codex");
                credential =
                    ProviderCredential.o_auth oauth.access_token
                      (some oauth.refresh_token)
                      (some oauth.expires_at_ms)
                      oauth.account_id
                      oauth.email;
              } in
                (result ≡ ok profile)
                × (find_profile profile.profile_id (profiles_of after.stores.paths).profiles
                    ≡ some profile)))
    × (is_ok result ≡ false → after.stores.paths ≡ fresh.stores.paths)
complete_openai_codex_oauth_login_lem_example =
    complete_openai_codex_oauth_login_lem pairs_of grants no_override login fresh

abbrev device : GitHubCopilotDevicePollRequest
device = record {
  device_code = "d";
  enterprise_url = none;
  interval_seconds = none;
  profile_id = none;
}

abbrev completes : String → Option String → Option ℕ → String ⊎ GitHubCopilotDevicePollOutcome
completes code url interval =
    inr (GitHubCopilotDevicePollOutcome.complete "token" "https://api.example")
