-- ===== src/Runtime/Auth/Logins.antt =====
-- What a completed login has stored.
use liz.Prelude.{
  refl, unwrap_or, or_else, ℕ, String, ◌≡◌, ◌≢◌, true, false, Option, none, some, List, arith,
  eq_iff, inl, inr, ◌⊎◌,
}
use liz.Protocol.Auth.{
  ProviderCredential, ProviderAuthProfile, GitHubCopilotDevicePollRequest,
  OpenAiCodexOAuthCompleteRequest,
}
use liz.Runtime.Error.{invalid_state, ok, err, is_ok}
use liz.Runtime.State.{RuntimeCoordinator}
use liz.Runtime.Stores.{profiles_of}
use liz.Runtime.Auth.{
  GitHubCopilotDevicePollOutcome, copilot_profile, after_poll, poll_github_copilot_device_login,
  ParsedCodexCallback, parse_codex_callback, OpenAiCodexRuntimeAuth, codex_profile, is_other_state,
  exchange_codex_code, complete_openai_codex_oauth_login,
}
use liz.Runtime.Auth.Profiles.{find_profile, upsert_provider_auth_profile_lem}

is_other_state-same :
    (state : String) (found : Option String)
    → is_other_state (some state) found ≡ false
    → found ≡ some state
unfolding is_other_state
is_other_state-same state none h = cc
is_other_state-same state (some y) h = ground (arith, eq_iff y state)

is_other_state_absent :
    (expected found : Option String)
    → (expected ≢ none → found ≡ expected)
    → is_other_state expected found ≡ false
unfolding is_other_state
is_other_state_absent none found h = refl
is_other_state_absent (some state) none h = ground arith
is_other_state_absent (some state) (some y) h = ground (arith, eq_iff y state)

module _ (parse_url : String → Option (List (String × String)))
    (exchange : String → String → String → Option String → String ⊎ OpenAiCodexRuntimeAuth)
    (token_url_override : Option String) (request : OpenAiCodexOAuthCompleteRequest) where
  -- A login whose callback cannot be read is refused with the text of that fault. Where the callback can
  -- be read and a state is expected, a login that succeeds has found that state in the callback, and a
  -- login without it is refused as a mismatch whatever the exchange would give. Where no state is
  -- expected or the expected one is in the callback, a login whose code is not exchanged is refused with
  -- the text of that fault. A login that succeeds answers with the profile made of what the exchange
  -- gave, under the id of the request or the default one, and has stored it: it is found under its id. A
  -- login that fails leaves the files as they were, where a write of the store that fails changes
  -- nothing.
  pub complete_openai_codex_oauth_login_lem :
      (s : RuntimeCoordinator)
      → let (result, after) =
          complete_openai_codex_oauth_login parse_url exchange token_url_override request s in
        ((message : String)
          → parse_codex_callback parse_url request.code_or_redirect_url ≡ inl message
          → result ≡ err (invalid_state "openai_codex_oauth_complete_failed" message))
        × ((callback : ParsedCodexCallback)
            → parse_codex_callback parse_url request.code_or_redirect_url ≡ inr callback
            → ((state : String)
                → request.expected_state ≡ some state
                → (is_ok result ≡ true → callback.state ≡ some state)
                  × (callback.state ≢ some state
                      → result
                        ≡ err (
                            invalid_state "openai_codex_oauth_state_mismatch"
                              "OpenAI Codex OAuth callback state did not match the expected value")))
              × ((message : String)
                  → (request.expected_state ≢ none → callback.state ≡ request.expected_state)
                  → exchange callback.code request.redirect_uri request.code_verifier
                      token_url_override
                    ≡ inl message
                  → result ≡ err (invalid_state "openai_codex_oauth_complete_failed" message))
              × ((oauth : OpenAiCodexRuntimeAuth)
                  → exchange callback.code request.redirect_uri request.code_verifier
                      token_url_override
                    ≡ inr oauth
                  → is_ok result ≡ true
                  → let profile : ProviderAuthProfile = record {
                    profile_id = unwrap_or "openai-codex:default" request.profile_id;
                    provider_id = "openai-codex";
                    display_name = or_else oauth.email (some "OpenAI Codex");
                    credential =
                        ProviderCredential.o_auth oauth.access_token
                          (some oauth.refresh_token)
                          (some oauth.expires_at_ms)
                          oauth.account_id
                          oauth.email;
                  } in
                    (result ≡ ok profile)
                    × (find_profile profile.profile_id (profiles_of after.stores.paths).profiles
                        ≡ some profile)))
        × (is_ok result ≡ false → after.stores.paths ≡ s.stores.paths)
  unfolding complete_openai_codex_oauth_login exchange_codex_code codex_profile
  complete_openai_codex_oauth_login_lem s = grind (
    arith,
    is_other_state-same,
    is_other_state_absent,
    λ (oauth : OpenAiCodexRuntimeAuth).
        upsert_provider_auth_profile_lem (codex_profile request oauth) s,
  )

-- A poll of a device login that does not complete, or that fails, leaves the files as they were. After
-- a poll that completes and answers, the profile made of the token and the address that it gave is
-- found under its id.
pub poll_github_copilot_device_login_lem :
    (poll : String → Option String → Option ℕ → String ⊎ GitHubCopilotDevicePollOutcome)
    (request : GitHubCopilotDevicePollRequest) (s : RuntimeCoordinator)
    → let (result, after) = poll_github_copilot_device_login poll request s in
      let outcome = poll request.device_code request.enterprise_url request.interval_seconds in
      ((token url : String)
        → outcome ≡ inr (GitHubCopilotDevicePollOutcome.complete token url)
        → is_ok result ≡ true
        → find_profile
            (copilot_profile request token url).profile_id
            (profiles_of after.stores.paths).profiles
          ≡ some (copilot_profile request token url))
      × (((token url : String) → outcome ≢ inr (GitHubCopilotDevicePollOutcome.complete token url))
          → after.stores.paths ≡ s.stores.paths)
      × (is_ok result ≡ false → after.stores.paths ≡ s.stores.paths)
unfolding poll_github_copilot_device_login after_poll
poll_github_copilot_device_login_lem poll request s = grind (
  arith,
  λ (token : String) (url : String).
      upsert_provider_auth_profile_lem (copilot_profile request token url) s,
)
