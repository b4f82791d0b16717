-- ===== src/Prelude/Tests.antt =====
-- Boolean tests, the conditional, and equality as an interface.
use Prim.Native.Nat.{ℕ, ◌≤◌, compare, Ordering}
use Prim.Native.String.{String}
use mathlib.Core.Path.{◌≡◌, refl}
use mathlib.Core.Logic.{◌↔◌, ◌⊎◌, inl, inr}
use mathlib.Core.Bool.{Bool, true, false}
use mathlib.Core.Option.{Option, none, some}
use native.Mathlib.Omega.{arith}
use text.Mathlib.Text.{◌==◌ as str_eq}
use text.Mathlib.TextEquality.{eq_iff}

abbrev pub ltb : ℕ → ℕ → Bool
ltb a b = elim (compare a b) [ Ordering.lt ↦ true | _ ↦ false ]

abbrev pub leb : ℕ → ℕ → Bool
leb a b = elim (compare a b) [ Ordering.gt ↦ false | _ ↦ true ]

abbrev pub nat_beq : ℕ → ℕ → Bool
nat_beq a b = elim (compare a b) [ Ordering.eq ↦ true | _ ↦ false ]

infix 1 if◌then◌else◌
abbrev pub if◌then◌else◌ {ℓ} : {A : Type ℓ} → Bool → A → A → A
if true then x else y = x
if false then x else y = y

pub nat_beq_iff : (a b : ℕ) → (nat_beq a b ≡ true) ↔ (a ≡ b)
nat_beq_iff a b = ground arith

-- Python's `==` on a type of keys.
pub record Keyed {κ} (K : Type κ) : Type κ where
  pub same_key : K → K → Bool
  pub same_key_iff : (x y : K) → (same_key x y ≡ true) ↔ (x ≡ y)

instance abbrev pub string_eq : Keyed String
string_eq = record { same_key = str_eq; same_key_iff = eq_iff }

instance abbrev pub nat_eq : Keyed ℕ
nat_eq = record { same_key = nat_beq; same_key_iff = nat_beq_iff }

infix 50 ◌==◌
abbrev pub ◌==◌ {κ} : {K : Type κ} ⦃keyed : Keyed K⦄ → K → K → Bool
◌==◌ ⦃keyed⦄ = keyed.same_key

pub ==-refl {κ} : {K : Type κ} ⦃keyed : Keyed K⦄ (x : K) → (x == x) ≡ true
==-refl ⦃keyed⦄ x = (keyed.same_key_iff x x).1 refl

pub leb→le : (a b : ℕ) → leb a b ≡ true → a ≤ b
leb→le a b h = ground arith

-- To split on a computed value and keep the equation.
pub Bool-cases : (b : Bool) → (b ≡ true) ⊎ (b ≡ false)
Bool-cases true = inl refl
Bool-cases false = inr refl

pub Option-cases {ℓ} : {A : Type ℓ} (o : Option A) → (o ≡ none) ⊎ ((a : A) × (o ≡ some a))
Option-cases none = inl refl
Option-cases (some a) = inr (a, refl)

-- `x is not None`, and the default of `x or d`.
abbrev pub is_some {ℓ} : {A : Type ℓ} → Option A → Bool
is_some none = false
is_some (some a) = true

-- Equality of two optional keys.
abbrev pub opt_beq {ℓ} : {A : Type ℓ} ⦃e : Keyed A⦄ → Option A → Option A → Bool
opt_beq none none = true
opt_beq (some a) (some b) = a == b
opt_beq _ _ = false
