-- ===== src/ModelGateway/Retry/Bounds.antt =====
-- The waiting time before the next attempt.
use knowledage_base_assistan.Prelude.{
  Option, none, some, String, ◌<◌, ◌≡◌, ◌⊎◌, inl, inr, Bool-cases, refl, ok, raise, Result,
  overflow_error, ◌>>=◌, ℤ, pos, negsuc, leb, min, true, Bool, false, ◌↔◌, ltb, ℕ, suc, zero, ◌+◌,
  ◌-◌, ◌*◌, ◌^◌, ◌≤◌, arith, nat_eq,
}
use native.Mathlib.Nat.{pow-suc}
use knowledage_base_assistan.ModelGateway.ProviderError.{normalize_provider_error, http_status}
use knowledage_base_assistan.ModelGateway.Retry.{
  default_backoff, delay_after, compute_next_retry_delay, max_retry_after_seconds, RetryDelay,
  seconds, retry_after_exceeds_budget, classify_retry, retry, base_backoff, round_fraction,
  jittered, digest_max,
}

-- Rounding moves a fraction by at most one half.
rounded :
    (n : ℕ)
    → (2 * n ≤ 2 * (round_fraction n (5 * digest_max) * (5 * digest_max)) + 5 * digest_max)
      × (2 * (round_fraction n (5 * digest_max) * (5 * digest_max)) ≤ 2 * n + 5 * digest_max)
unfolding round_fraction
rounded n = ground arith

numerator_bounds :
    (base u : ℕ)
    → u ≤ digest_max
    → (base * (4 * digest_max) ≤ base * (4 * digest_max + 2 * u))
      × (base * (4 * digest_max + 2 * u) ≤ base * (6 * digest_max))
numerator_bounds base u h = (grind arith, grind arith)

-- The jitter keeps the rounded delay between four fifths and six fifths of the base, up to one half.
jittered_bounds :
    (base u : ℕ)
    → u ≤ digest_max
    → (8 * base ≤ 10 * jittered base u + 5) × (10 * jittered base u ≤ 12 * base + 5)
unfolding jittered
jittered_bounds base u h =
    omega (arith, rounded (base * (4 * digest_max + 2 * u)), numerator_bounds base u h)

one-le-pow : (k : ℕ) → 1 ≤ 2 ^ k
one-le-pow zero = omega arith
one-le-pow (suc k) = simp pow-suc (omega (arith, one-le-pow k))

base_backoff_bounds :
    (attempt : ℕ) → attempt ≤ 1024 → (n : ℕ) × (base_backoff attempt ≡ ok n) × (5 ≤ n) × (n ≤ 30)
unfolding base_backoff
base_backoff_bounds attempt h =
    let small : leb 1024 (attempt - 1) ≡ false = ground arith in
    (
      min (5 * 2 ^ (attempt - 1)) 30,
      rw small refl,
      omega (arith, one-le-pow (attempt - 1)),
      omega arith,
    )

base_backoff-overflow : (attempt : ℕ) → 1024 < attempt → base_backoff attempt ≡ raise overflow_error
unfolding base_backoff
base_backoff-overflow attempt h =
    let large : leb 1024 (attempt - 1) ≡ true = ground arith in rw large refl

abbrev Fits : ℕ → Option ℕ → Type 0
Fits after none = Unit
Fits after (some remaining) = after ≤ remaining

abbrev Passes : ℕ → Option ℕ → Type 0
Passes after none = ⊥
Passes after (some remaining) = remaining < after

-- What may answer a `Retry-After`, or none that counts, within the time that is left.
abbrev Backoff : ℕ → Result RetryDelay → Type 0
Backoff attempt (ok (seconds n)) = (attempt ≤ 1024) × (4 ≤ n) × (n ≤ 36)
Backoff attempt (ok retry_after_exceeds_budget) = ⊥
Backoff attempt (raise e) = (1024 < attempt) × (e ≡ overflow_error)

abbrev Obeyed : ℕ → Option ℕ → Result RetryDelay → Type 0
Obeyed after remaining (ok (seconds n)) =
    (n ≡ after) × (after ≤ max_retry_after_seconds) × Fits after remaining
Obeyed after remaining (ok retry_after_exceeds_budget) =
    (max_retry_after_seconds < after) ⊎ Passes after remaining
Obeyed after remaining (raise e) = ⊥

abbrev pub IsAllowed : ℕ → Option ℤ → Option ℕ → Result RetryDelay → Type 0
IsAllowed attempt none remaining answer = Backoff attempt answer
IsAllowed attempt (some (negsuc k)) remaining answer = Backoff attempt answer
IsAllowed attempt (some (pos after)) remaining answer = Obeyed after remaining answer

module _ (digest32 : String → ℕ → ℕ)
    (bounded : (s : String) (n : ℕ) → digest32 s n ≤ digest_max) where
  Backoff-bounds :
      (attempt : ℕ) (activity_id : String)
      → Backoff attempt (default_backoff digest32 attempt activity_id >>= (λ n. ok (seconds n)))
  unfolding default_backoff
  Backoff-bounds attempt activity_id = elim (Bool-cases (leb attempt 1024)) [
    | inl held ↦
        let few : attempt ≤ 1024 = ground arith in
        let (n, e, low, high) = base_backoff_bounds attempt few in
        let j = jittered_bounds n (digest32 activity_id attempt) (bounded activity_id attempt) in
        rw e (few, omega (arith, j, low), omega (arith, j, high))
    | inr past ↦
        let many : 1024 < attempt = ground arith in
        rw (base_backoff-overflow attempt many) (many, refl)
  ]

  obeyed :
      (after attempt : ℕ) (remaining : Option ℕ) (activity_id : String)
      → Obeyed after remaining
          (delay_after digest32 (some (pos after)) remaining attempt activity_id)
  unfolding delay_after
  obeyed after attempt none activity_id = elim (Bool-cases (ltb max_retry_after_seconds after)) [
    | inl long ↦ rw long (inl (ground arith))
    | inr short ↦ rw short (refl, ground arith, tt)
  ]
  obeyed after attempt (some remaining) activity_id =
      elim (Bool-cases (ltb max_retry_after_seconds after)) [
        | inl long ↦ rw long (inl (ground arith))
        | inr short ↦ rw short (elim (Bool-cases (ltb remaining after)) [
          | inl late ↦ rw late (inr (ground arith))
          | inr fits ↦ rw fits (refl, ground arith, ground arith)
        ])
      ]

  -- From the first attempt on, a `Retry-After` that is not negative is obeyed to the second if it is
  -- at most 60 seconds and fits the time left, and is refused otherwise, whatever the attempt.
  -- Without one, or with a negative one, there is a wait of 4 to 36 seconds up to attempt 1024, and
  -- from attempt 1025 on the power overflows: the call ends with `OverflowError`.
  pub compute_next_retry_delay-IsAllowed :
      (attempt : ℕ) (activity_id : String) (retry_after : Option ℤ) (remaining : Option ℕ)
      → 1 ≤ attempt
      → IsAllowed attempt retry_after remaining
          (compute_next_retry_delay digest32 attempt activity_id retry_after remaining)
  unfolding compute_next_retry_delay delay_after
  compute_next_retry_delay-IsAllowed attempt activity_id none remaining h =
      let first : ltb attempt 1 ≡ false = ground arith in
      rw first (Backoff-bounds attempt activity_id)
  compute_next_retry_delay-IsAllowed attempt activity_id (some (negsuc k)) remaining h =
      let first : ltb attempt 1 ≡ false = ground arith in
      rw first (Backoff-bounds attempt activity_id)
  compute_next_retry_delay-IsAllowed attempt activity_id (some (pos after)) remaining h =
      let first : ltb attempt 1 ≡ false = ground arith in
      rw first (obeyed after attempt remaining activity_id)

-- Before the stream starts an HTTP failure is retried exactly for 429, for the statuses from 500 on,
-- and for those below 400; after the start nothing is.
pub classify_retry_iff :
    (n : ℕ) (stream_started : Bool)
    → (classify_retry (normalize_provider_error (some n) http_status).code stream_started ≡ retry)
      ↔ ((stream_started ≡ false) × ((n ≡ 429) ⊎ (500 ≤ n) ⊎ (n < 400)))
unfolding classify_retry normalize_provider_error
classify_retry_iff n stream_started = (λ h. ground arith, λ h. ground arith)
