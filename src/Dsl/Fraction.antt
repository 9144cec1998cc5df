-- ===== src/Dsl/Fraction.antt =====
-- Python's `Fraction` as meta/dsl uses it: exact arithmetic, comparison, and `limit_denominator`. A
-- fraction need not be in lowest terms here; nothing that is modelled reads its two parts alone.
pub mod Denominators
use si26_math_animation_john.Base.Int.{
  ℤ, pos, negsuc, pos_part, neg_part, ◌+ℤ◌, ◌-ℤ◌, ◌*ℤ◌, ltb_ℤ, leb_ℤ, eqb_ℤ,
}
use si26_math_animation_john.Base.{
  ℕ, zero, suc, ◌+◌, ◌-◌, ◌*◌, ◌/◌, ◌%◌, ◌<◌, Bool, List, [], ◌∷◌, ltb, leb, ◌==◌, if◌then◌else◌,
}

pub record Fraction : Type 0 where
  pub num : ℤ
  pub den : ℕ

abbrev pub whole : ℤ → Fraction
whole n = record { num = n; den = 1 }

-- A fraction's denominator is positive.
abbrev pub IsFraction : Fraction → Type 0
IsFraction a = 0 < a.den

infixl 65 ◌+𝔽◌ ◌-𝔽◌
infixl 70 ◌*𝔽◌
unfoldable pub ◌+𝔽◌ : Fraction → Fraction → Fraction
unfolding ◌+ℤ◌ ◌*ℤ◌
a +𝔽 b = record { num = a.num *ℤ pos b.den +ℤ b.num *ℤ pos a.den; den = a.den * b.den }

unfoldable pub ◌-𝔽◌ : Fraction → Fraction → Fraction
unfolding ◌-ℤ◌ ◌*ℤ◌
a -𝔽 b = record { num = a.num *ℤ pos b.den -ℤ b.num *ℤ pos a.den; den = a.den * b.den }

unfoldable pub ◌*𝔽◌ : Fraction → Fraction → Fraction
unfolding ◌*ℤ◌
a *𝔽 b = record { num = a.num *ℤ b.num; den = a.den * b.den }

-- Division by n / d, where n is not 0: the sign moves to the numerator.
unfoldable pub divide_by : Fraction → ℤ → ℕ → Fraction
unfolding ◌*ℤ◌ ◌-ℤ◌
divide_by a (pos n) d = record { num = a.num *ℤ pos d; den = a.den * n }
divide_by a (negsuc n) d = record { num = pos 0 -ℤ a.num *ℤ pos d; den = a.den * suc n }

unfoldable pub divided : Fraction → Fraction → Fraction
unfolding divide_by
divided a b = divide_by a b.num b.den

unfoldable pub less : Fraction → Fraction → Bool
unfolding ◌*ℤ◌
less a b = ltb_ℤ (a.num *ℤ pos b.den) (b.num *ℤ pos a.den)

unfoldable pub at_most : Fraction → Fraction → Bool
unfolding ◌*ℤ◌
at_most a b = leb_ℤ (a.num *ℤ pos b.den) (b.num *ℤ pos a.den)

unfoldable pub equal : Fraction → Fraction → Bool
unfolding ◌*ℤ◌
equal a b = eqb_ℤ (a.num *ℤ pos b.den) (b.num *ℤ pos a.den)

abbrev pub magnitude : ℤ → ℕ
magnitude n = pos_part n + neg_part n

abbrev pub is_zero : Fraction → Bool
is_zero a = magnitude a.num == 0

-- `value % divisor == 0`, for a divisor that is not 0: a quotient that is an integer.
unfoldable pub is_multiple : Fraction → Fraction → Bool
is_multiple a b = (magnitude a.num * b.den) % (magnitude b.num * a.den) == 0

unfoldable pub sum : List Fraction → Fraction → Fraction
unfolding ◌+𝔽◌
sum [] acc = acc
sum (a ∷ rest) acc = sum rest (acc +𝔽 a)

unfoldable pub product : List Fraction → Fraction → Fraction
unfolding ◌*𝔽◌
product [] acc = acc
product (a ∷ rest) acc = product rest (acc *𝔽 a)

-- The two last convergents of a continued fraction, and what is left of the denominator.
pub record Convergents : Type 0 where
  pub p0 : ℤ
  pub q0 : ℕ
  pub p1 : ℤ
  pub q1 : ℕ
  pub rest : ℕ

-- The loop of `limit_denominator` after its first round, for numerator n and denominator d. `d` falls
-- with every round, so the fuel d is enough.
unfoldable pub converge : ℕ → ℕ → ℤ → ℕ → ℤ → ℕ → ℕ → ℕ → Convergents
unfolding ◌+ℤ◌ ◌*ℤ◌
converge zero bound p0 q0 p1 q1 n d = record { p0 = p0; q0 = q0; p1 = p1; q1 = q1; rest = d }
converge (suc fuel) bound p0 q0 p1 q1 n d =
    let next : Convergents =
      converge fuel bound p1 q1 (p0 +ℤ pos (n / d) *ℤ p1) (q0 + n / d * q1) d (n % d) in
    if d == 0
    then record { p0 = p0; q0 = q0; p1 = p1; q1 = q1; rest = d }
    else if ltb bound (q0 + n / d * q1)
    then record { p0 = p0; q0 = q0; p1 = p1; q1 = q1; rest = d }
    else next

-- n // d and n % d
abbrev pub floor : ℤ → ℕ → ℤ
floor (pos n) d = pos (n / d)
floor (negsuc n) d = negsuc (n / d)

abbrev pub remainder : ℤ → ℕ → ℕ
remainder (pos n) d = n % d
remainder (negsuc n) d = d - 1 - n % d

unfoldable pub nearest : ℕ → ℕ → Convergents → Fraction
unfolding ◌+ℤ◌ ◌*ℤ◌
nearest bound den c =
    let k : ℕ = (bound - c.q0) / c.q1 in
    if leb (2 * c.rest * (c.q0 + k * c.q1)) den
    then record { num = c.p1; den = c.q1 }
    else record { num = c.p0 +ℤ pos k *ℤ c.p1; den = c.q0 + k * c.q1 }

-- Fraction(n, d).limit_denominator(bound), for n / d in lowest terms.
unfoldable pub limit_denominator : ℕ → ℤ → ℕ → Fraction
unfolding converge nearest
limit_denominator bound n d =
    if leb d bound
    then record { num = n; den = d }
    else nearest bound d (converge d bound (pos 1) 0 (floor n d) 1 d (remainder n d))
