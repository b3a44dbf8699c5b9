-- ===== src/Protocol/Auth.antt =====
-- The data of crates/liz-protocol/src/auth.rs, and the requests and responses
-- that complete a login, of requests.rs and responses.rs.
use liz.Prelude.{ℕ, Option, String}
use liz.Assoc.{Assoc}

-- The times are u64 milliseconds; a BTreeMap is a map.
pub data ProviderCredential : Type 0 where
  api_key : String → ProviderCredential
  o_auth :
      (access_token : String) (refresh_token : Option String) (expires_at_ms : Option ℕ)
      (account_id email : Option String)
      → ProviderCredential
  token : (token : String) (expires_at_ms : Option ℕ) (metadata : Assoc String) → ProviderCredential

pub record ProviderAuthProfile : Type 0 where
  pub profile_id : String
  pub provider_id : String
  pub display_name : Option String
  pub credential : ProviderCredential

pub data GitHubCopilotDevicePollStatus : Type 0 where
  pending slow_down complete : GitHubCopilotDevicePollStatus

pub record GitHubCopilotDevicePollRequest : Type 0 where
  pub device_code : String
  pub enterprise_url : Option String
  pub interval_seconds : Option ℕ
  pub profile_id : Option String

pub record GitHubCopilotDevicePollResponse : Type 0 where
  pub status : GitHubCopilotDevicePollStatus
  pub retry_after_seconds : Option ℕ
  pub profile : Option ProviderAuthProfile

pub record OpenAiCodexOAuthCompleteRequest : Type 0 where
  pub redirect_uri : String
  pub code_or_redirect_url : String
  pub code_verifier : String
  pub expected_state : Option String
  pub profile_id : Option String

pub record GitLabPatSaveRequest : Type 0 where
  pub instance_url : Option String
  pub token : String
  pub profile_id : Option String
  pub display_name : Option String
