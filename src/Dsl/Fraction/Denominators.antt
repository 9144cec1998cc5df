-- ===== src/Dsl/Fraction/Denominators.antt =====
-- The denominators of the fractions that meta/dsl computes are positive.
use si26_math_animation_john.Dsl.Fraction.{
  Fraction, IsFraction, ◌+𝔽◌, ◌*𝔽◌, divided, divide_by, is_zero, sum, product, limit_denominator,
  nearest, converge, Convergents, floor, remainder,
}
use si26_math_animation_john.Base.Int.{◌+ℤ◌, ◌*ℤ◌, ℤ, pos, negsuc}
use si26_math_animation_john.Base.{
  ℕ, zero, suc, ◌+◌, ◌-◌, ◌*◌, ◌/◌, ◌%◌, ◌≤◌, ◌<◌, ◌≡◌, refl, inl, inr, false, List, [], ◌∷◌, arith,
  ltb, ◌==◌, Bool-cases, All,
}

pub mul_pos : (a b : ℕ) → 0 < a → 0 < b → 0 < a * b
mul_pos zero b h k = absurd (omega arith)
mul_pos (suc a) zero h k = absurd (omega arith)
mul_pos (suc a) (suc b) h k = grind arith

div_pos : (n d : ℕ) → 0 < d → d ≤ n → 0 < n / d
div_pos n d h k = grind arith

abbrev IsBounded : ℕ → Convergents → Type 0
IsBounded bound c = (0 < c.q1) × (c.q1 ≤ bound) × (c.q0 ≤ bound)

converge-IsBounded :
    (fuel bound : ℕ) (p0 : ℤ) (q0 : ℕ) (p1 : ℤ) (q1 n d : ℕ)
    → d < n
    → 0 < q1
    → q1 ≤ bound
    → q0 ≤ bound
    → IsBounded bound (converge fuel bound p0 q0 p1 q1 n d)
unfolding converge
converge-IsBounded zero bound p0 q0 p1 q1 n d h a b c = (a, b, c)
converge-IsBounded (suc fuel) bound p0 q0 p1 q1 n d h a b c = elim (Bool-cases (d == 0)) [
  | inl done ↦ rw done (a, b, c)
  | inr more ↦ elim (Bool-cases (ltb bound (q0 + n / d * q1))) [
    | inl past ↦ rw (more, past) (a, b, c)
    | inr within ↦
        let positive : 0 < d = ground arith in
        let turn = mul_pos (n / d) q1 (div_pos n d positive (omega arith)) a in
        let left : n % d < d = grind arith in
        rw (more, within)
          (converge-IsBounded fuel bound p1 q1 (p0 +ℤ pos (n / d) *ℤ p1) (q0 + n / d * q1) d (n % d)
            left (omega arith) (ground arith) b)
  ]
]

-- The larger of the two candidates has a denominator past the bound less the other's.
above : (bound q0 q1 : ℕ) → 0 < q1 → q1 ≤ bound → q0 ≤ bound → 0 < q0 + (bound - q0) / q1 * q1
above bound q0 q1 a b c = elim (Bool-cases (q0 == 0)) [
  | inl none_yet ↦
      let start : q0 ≡ 0 = ground arith in
      let turn = mul_pos (bound / q1) q1 (div_pos bound q1 a b) a in rw start (omega arith)
  | inr some_yet ↦ (let positive : 0 < q0 = ground arith in omega arith)
]

nearest-IsFraction :
    (bound den : ℕ) (c : Convergents) → IsBounded bound c → IsFraction (nearest bound den c)
unfolding nearest
nearest-IsFraction bound den c (a, b, d) = ground (arith, above bound c.q0 c.q1 a b d)

remainder-lt : (n : ℤ) (d : ℕ) → 0 < d → remainder n d < d
remainder-lt (pos n) d h = grind arith
remainder-lt (negsuc n) d h = omega arith

pub limit_denominator-IsFraction :
    (bound : ℕ) (n : ℤ) (d : ℕ) → 0 < bound → 0 < d → IsFraction (limit_denominator bound n d)
unfolding limit_denominator
limit_denominator-IsFraction bound n d b h = ground (
  arith,
  nearest-IsFraction bound d (converge d bound (pos 1) 0 (floor n d) 1 d (remainder n d)) (
      converge-IsBounded d bound (pos 1) 0 (floor n d) 1 d (remainder n d) (remainder-lt n d h)
        (omega arith) (omega arith) (omega arith)),
)

pub divided-IsFraction :
    (a b : Fraction) → IsFraction a → IsFraction b → is_zero b ≡ false → IsFraction (divided a b)
unfolding divided
divided-IsFraction a b h k z = by_sign b.num refl
  where
    by_sign : (n : ℤ) → b.num ≡ n → IsFraction (divide_by a n b.den)
    by_sign (pos zero) e = absurd (ground arith)
    by_sign (pos (suc n)) e = unfold divide_by in mul_pos a.den (suc n) h (omega arith)
    by_sign (negsuc n) e = unfold divide_by in mul_pos a.den (suc n) h (omega arith)

pub sum-IsFraction :
    (xs : List Fraction) (acc : Fraction)
    → All IsFraction xs
    → IsFraction acc
    → IsFraction (sum xs acc)
unfolding sum
sum-IsFraction [] acc h k = k
sum-IsFraction (a ∷ xs) acc h k = sum-IsFraction xs (acc +𝔽 a) h.1 (mul_pos acc.den a.den k h.0)

pub product-IsFraction :
    (xs : List Fraction) (acc : Fraction)
    → All IsFraction xs
    → IsFraction acc
    → IsFraction (product xs acc)
unfolding product
product-IsFraction [] acc h k = k
product-IsFraction (a ∷ xs) acc h k =
    product-IsFraction xs (acc *𝔽 a) h.1 (mul_pos acc.den a.den k h.0)
