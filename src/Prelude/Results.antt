-- ===== src/Prelude/Results.antt =====
-- Exceptions as values. A stable error code is the text that the source raises.
use Prim.Native.String.{String}
use mathlib.Core.Path.{◌≡◌, refl}
use mathlib.Core.Option.{Option, none, some}
use mathlib.Core.Bool.{Bool, true, false}

pub data Error : Type 0 where
  -- `ValueError(code)`, and the classes of the source that carry a code
  value_error : String → Error
  state_violation : String → Error
  contract_error : String → Error
  integrity_error : String → Error
  lookup_error : String → Error
  payload_codec_error : String → Error
  unknown_payload_key_error : String → Error
  -- pydantic's `ValidationError`
  validation_error : Error
  -- a failed `assert`, and a missing key of a mapping
  assertion_error : Error
  key_error : Error
  -- a float that is too large
  overflow_error : Error
  -- a constraint of the database, which ends the transaction
  database_error : Error

pub data Result {κ} (R : Type κ) : Type κ where
  raise : Error → Result R
  ok : R → Result R

-- `if not b: raise e`
abbrev pub require : Bool → Error → Result (Unit {0})
require false e = raise e
require true e = ok tt

-- A value that may be missing, where the source raises.
abbrev pub given {κ} : {R : Type κ} → Error → Option R → Result R
given e none = raise e
given e (some r) = ok r

infixl 5 ◌>>=◌ ◌>>◌
abbrev pub ◌>>=◌ {κ μ} : {R : Type κ} {S : Type μ} → Result R → (R → Result S) → Result S
raise e >>= next = raise e
ok r >>= next = next r

-- A statement, and what follows it.
abbrev pub ◌>>◌ {κ} : {S : Type κ} → Result (Unit {0}) → Result S → Result S
first >> rest = first >>= λ done. rest

-- A block that succeeds passed its first step.
pub >>=-eq-ok {κ μ} :
    {R : Type κ} {S : Type μ} (first : Result R) (next : R → Result S) {s : S}
    → (first >>= next) ≡ ok s
    → (r : R) × (first ≡ ok r) × (next r ≡ ok s)
>>=-eq-ok (raise e) next h = cc
>>=-eq-ok (ok r) next h = (r, refl, h)

pub ok-injective {ℓ} : {A : Type ℓ} {a b : A} → ok a ≡ ok b → a ≡ b
ok-injective h = cc

-- A guarded block that succeeds passed its guard.
pub require-then {ℓ} :
    {B : Type ℓ} (b : Bool) (e : Error) (k : Result B) {v : B}
    → (require b e >> k) ≡ ok v
    → (b ≡ true) × (k ≡ ok v)
require-then true e k h = (refl, h)
require-then false e k h = cc
