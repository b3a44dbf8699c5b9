-- ===== src/Runtime/Error.antt =====
-- crates/liz-app-server/src/runtime/error.rs. The details of a storage failure are not modelled.
use liz.Prelude.{String, Bool, true, false}

pub data RuntimeError : Type 0 where
  not_found invalid_state unsupported : String → String → RuntimeError
  storage : RuntimeError

-- RuntimeError::code.
unfoldable pub error_code : RuntimeError → String
error_code (not_found code message) = code
error_code (invalid_state code message) = code
error_code (unsupported code message) = code
error_code storage = "storage_error"

-- RuntimeError::retryable.
unfoldable pub retryable : RuntimeError → Bool
retryable storage = true
retryable _ = false

-- RuntimeResult.
pub data RuntimeResult (A : Type 0) : Type 0 where
  ok : A → RuntimeResult A
  err : RuntimeError → RuntimeResult A

-- Result::is_ok.
abbrev pub is_ok : {A : Type 0} → RuntimeResult A → Bool
is_ok (ok a) = true
is_ok (err e) = false
