-- ===== src/ModelGateway/ProviderError.antt =====
-- modules/model_gateway/domain/provider_error.py: failures of a provider, normalised to stable codes.
use knowledage_base_assistan.Prelude.{
  ℕ, Bool, true, false, ◌&&◌, ◌||◌, Option, none, some, nat_eq, ◌==◌, ltb, leb, if◌then◌else◌,
}

pub data ProviderErrorCode : Type 0 where
  model_request_invalid model_endpoint_auth_forbidden model_unavailable : ProviderErrorCode
  model_capacity_exceeded model_context_exceeded model_context_stale : ProviderErrorCode
  model_context_invalid model_context_token_mismatch : ProviderErrorCode
  model_structured_output_invalid model_stream_aborted : ProviderErrorCode
  dependency_unavailable dependency_rate_limited dependency_timeout : ProviderErrorCode
  dependency_retry_after_exceeds_budget : ProviderErrorCode

pub data ProviderErrorSource : Type 0 where
  http_status connection timeout stream : ProviderErrorSource

pub record ProviderError : Type 0 where
  pub code : ProviderErrorCode
  pub status : Option ℕ
  pub source : ProviderErrorSource

abbrev without_status : ProviderErrorCode → ProviderErrorSource → ProviderError
without_status c s = record { code = c; status = none; source = s }

abbrev with_status : ProviderErrorCode → ℕ → ProviderError
with_status c n = record { code = c; status = some n; source = http_status }

normalize_status : ℕ → ProviderError
normalize_status n =
    if n == 401 || n == 403
    then with_status model_endpoint_auth_forbidden n
    else if n == 400
    then with_status model_request_invalid n
    else if n == 429
    then with_status dependency_rate_limited n
    else if n == 503
    then with_status dependency_unavailable n
    else if leb 400 n && ltb n 500
    then with_status model_request_invalid n
    else if leb 500 n
    then with_status dependency_unavailable n
    else without_status dependency_unavailable http_status

unfoldable pub normalize_provider_error : Option ℕ → ProviderErrorSource → ProviderError
unfolding normalize_status
normalize_provider_error status connection = without_status dependency_unavailable connection
normalize_provider_error status timeout = without_status dependency_timeout timeout
normalize_provider_error status stream = without_status model_stream_aborted stream
normalize_provider_error none http_status = without_status dependency_unavailable http_status
normalize_provider_error (some n) http_status = normalize_status n

-- `code in _TRANSIENT_CODES`
unfoldable pub is_transient_error : ProviderErrorCode → Bool
is_transient_error dependency_unavailable = true
is_transient_error dependency_rate_limited = true
is_transient_error dependency_timeout = true
is_transient_error _ = false

unfoldable pub disables_endpoint : ProviderErrorCode → Bool
disables_endpoint model_endpoint_auth_forbidden = true
disables_endpoint _ = false
