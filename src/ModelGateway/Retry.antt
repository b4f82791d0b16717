-- ===== src/ModelGateway/Retry.antt =====
-- modules/model_gateway/domain/retry_policy.py. The jitter divides the first four bytes of a SHA-256
-- digest by 2^32 - 1: the digest of `activity_id:attempt`, read as a number below 2^32, is the
-- parameter `digest32`. The source's floats are exact fractions here: with u for the digest and
-- M for 2^32 - 1 the delay before rounding is base * (1 + (u / M - 1/2) * 2/5), which is
-- base * (4 M + 2 u) / (5 M). Python's `2.0 ** n` raises `OverflowError` from n = 1024 on. A
-- `Retry-After` is an integer, as its annotation says. The HTTP-date branch of `parse_retry_after` is not modelled.
pub mod Bounds
use knowledage_base_assistan.Prelude.{
  ℕ, suc, zero, ◌+◌, ◌-◌, ◌*◌, ◌/◌, ◌%◌, ◌^◌, ◌<◌, ◌≤◌, String, Bool, true, false, Option, none,
  some, min, Result, ok, raise, value_error, overflow_error, ◌>>=◌, ℤ, pos, negsuc, ltb, leb,
  nat_eq, ◌==◌, if◌then◌else◌, ◌||◌, ◌&&◌,
}
use knowledage_base_assistan.ModelGateway.ProviderError.{ProviderErrorCode, is_transient_error}

pub data RetryOutcome : Type 0 where
  retry no_retry : RetryOutcome

unfoldable pub classify_retry : ProviderErrorCode → Bool → RetryOutcome
unfolding is_transient_error
classify_retry code stream_started =
    if stream_started then no_retry else if is_transient_error code then retry else no_retry

abbrev pub max_retry_after_seconds : ℕ
max_retry_after_seconds = 60

-- 2.0 ** n: a power that no float holds is an error; all others are exact.
abbrev pub float_power : ℕ → Result ℕ
float_power n = if leb 1024 n then raise overflow_error else ok (2 ^ n)

-- min(5.0 * 2.0 ** (attempt - 1), 30.0); where the product is infinite, the minimum is 30 as well.
unfoldable pub base_backoff : ℕ → Result ℕ
base_backoff attempt = float_power (attempt - 1) >>= (λ power. ok (min (5 * power) 30))

-- Python's `round` of n / d: the nearest number, and of two the even one.
unfoldable pub round_fraction : ℕ → ℕ → ℕ
round_fraction n d =
    let q = n / d in
    let r = n % d in
    if ltb (2 * r) d then q else if ltb d (2 * r) then q + 1 else if q % 2 == 0 then q else q + 1

-- 2 ^ 32 - 1
abbrev pub digest_max : ℕ
digest_max = 4294967295

-- round(base * multiplier), for the digest u
unfoldable pub jittered : ℕ → ℕ → ℕ
unfolding round_fraction
jittered base u = round_fraction (base * (4 * digest_max + 2 * u)) (5 * digest_max)

pub data RetryDelay : Type 0 where
  seconds : ℕ → RetryDelay
  retry_after_exceeds_budget : RetryDelay

module _ (digest32 : String → ℕ → ℕ) where
  unfoldable pub default_backoff : ℕ → String → Result ℕ
  unfolding base_backoff jittered
  default_backoff attempt activity_id =
      base_backoff attempt >>= (λ base. ok (jittered base (digest32 activity_id attempt)))

  -- `remaining_schedule_to_close` in whole seconds: `retry_after > remaining` for a number of
  -- seconds and a time is decided by the time's whole part.
  exceeds : ℕ → Option ℕ → Bool
  exceeds after none = false
  exceeds after (some remaining) = ltb remaining after

  -- A negative `Retry-After` is no answer of the provider.
  delay_after : Option ℤ → Option ℕ → ℕ → String → Result RetryDelay
  unfolding exceeds default_backoff
  delay_after none remaining attempt activity_id =
      default_backoff attempt activity_id >>= (λ n. ok (seconds n))
  delay_after (some (negsuc k)) remaining attempt activity_id =
      default_backoff attempt activity_id >>= (λ n. ok (seconds n))
  delay_after (some (pos after)) remaining attempt activity_id =
      if ltb max_retry_after_seconds after
      then ok retry_after_exceeds_budget
      else if exceeds after remaining
      then ok retry_after_exceeds_budget
      else ok (seconds after)

  unfoldable pub compute_next_retry_delay : ℕ → String → Option ℤ → Option ℕ → Result RetryDelay
  unfolding delay_after
  compute_next_retry_delay attempt activity_id retry_after remaining =
      if ltb attempt 1
      then raise (value_error "attempt must be a positive integer")
      else delay_after retry_after remaining attempt activity_id
