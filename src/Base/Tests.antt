-- ===== src/Base/Tests.antt =====
-- Boolean tests, the conditional, and case lemmas that keep the equation.
use Prim.Native.Nat.{ℕ, compare, Ordering}
use mathlib.Core.Path.{◌≡◌, refl}
use mathlib.Core.Logic.{◌⊎◌, inl, inr}
use mathlib.Core.Bool.{Bool, true, false, ◌&&◌}
use mathlib.Core.Option.{Option, none, some}
use native.Mathlib.Omega.{arith}

abbrev pub ltb : ℕ → ℕ → Bool
ltb a b = elim (compare a b) [ Ordering.lt ↦ true | _ ↦ false ]

abbrev pub leb : ℕ → ℕ → Bool
leb a b = elim (compare a b) [ Ordering.gt ↦ false | _ ↦ true ]

infix 50 ◌==◌
abbrev pub ◌==◌ : ℕ → ℕ → Bool
a == b = elim (compare a b) [ Ordering.eq ↦ true | _ ↦ false ]

infix 1 if◌then◌else◌
abbrev pub if◌then◌else◌ {ℓ} : {A : Type ℓ} → Bool → A → A → A
if true then x else y = x
if false then x else y = y

-- Equality of optional keys; `none` is a key of its own.
abbrev pub eq_option : Option ℕ → Option ℕ → Bool
eq_option none none = true
eq_option none (some b) = false
eq_option (some a) none = false
eq_option (some a) (some b) = a == b

pub eq_option→eq : (a b : Option ℕ) → eq_option a b ≡ true → a ≡ b
eq_option→eq none none h = refl
eq_option→eq none (some b) h = ground arith
eq_option→eq (some a) none h = ground arith
eq_option→eq (some a) (some b) h = ground arith

pub eq_option_refl : (a : Option ℕ) → eq_option a a ≡ true
eq_option_refl none = refl
eq_option_refl (some a) = ground arith

pub eq→eq_option : (a b : Option ℕ) → a ≡ b → eq_option a b ≡ true
eq→eq_option none none h = refl
eq→eq_option none (some b) h = ground arith
eq→eq_option (some a) none h = ground arith
eq→eq_option (some a) (some b) h = ground arith

pub Bool-cases : (b : Bool) → (b ≡ true) ⊎ (b ≡ false)
Bool-cases true = inl refl
Bool-cases false = inr refl

pub Option-cases {ℓ} : {A : Type ℓ} (o : Option A) → (o ≡ none) ⊎ ((a : A) × (o ≡ some a))
Option-cases none = inl refl
Option-cases (some a) = inr (a, refl)

pub and→both : (a b : Bool) → (a && b) ≡ true → (a ≡ true) × (b ≡ true)
and→both a b h = ground arith

pub both→and : (a b : Bool) → a ≡ true → b ≡ true → (a && b) ≡ true
both→and a b h k = ground arith
