-- ===== src/Dsl/Evaluation/Safety.antt =====
-- What meta/dsl/expression.py can raise at run time where `compile_expression` accepted the expression
-- and the values are of the declared shape.
use si26_math_animation_john.Dsl.Evaluation.References.{
  indexes_within, indexes_within_all, resolve_field-IsWithin,
}
use si26_math_animation_john.Dsl.Evaluation.Raising.{Raises, evaluate-Raises}
use si26_math_animation_john.Dsl.Fraction.{Fraction, IsFraction, is_zero, whole}
use si26_math_animation_john.Dsl.Fraction.Denominators.{
  mul_pos, divided-IsFraction, sum-IsFraction, product-IsFraction,
}
use si26_math_animation_john.Dsl.Expression.{
  Operator, add, subtract, multiply, divide, fraction, FieldContract, validate_field_ref,
  ExpressionNode, literal, field_ref, operation, Operands, end, operand, compile_expression, walked,
}
use si26_math_animation_john.Dsl.Expression.Compile.{
  leaves_ok, leaves_all_ok, compile_expression-walked, none_of,
}
use si26_math_animation_john.Dsl.Evaluation.{
  decimal, Value, value, ◌>>=◌, check_magnitude, quotient, apply, evaluate, evaluate_all, pos,
}
use si26_math_animation_john.Dsl.Evaluation.Fields.{
  Conforms, IsScalar, IsWithin, Returns, Returns-bind, number-IsWithin, check_magnitude-IsWithin,
}
use si26_math_animation_john.Base.{
  ℕ, suc, ◌≤◌, ◌≡◌, refl, ◌∙◌, ◌⊎◌, inl, inr, Bool, true, not, ◌||◌, Option, List, [], ◌∷◌, arith,
  Bool-cases, length, All, and→both,
}

-- What the pydantic models of the nodes ensure: a literal's denominator, and the number of operands.
abbrev pub operands_of : Operands → ℕ
operands_of end = 0
operands_of (operand x xs) = suc (operands_of xs)

abbrev pub IsArity : Operator → ℕ → Type 0
IsArity add n = (2 ≤ n) × (n ≤ 4)
IsArity multiply n = (2 ≤ n) × (n ≤ 4)
IsArity subtract n = n ≡ 2
IsArity divide n = n ≡ 2
IsArity fraction n = n ≡ 2

abbrev mutual
  pub IsNode : ExpressionNode → Type 0
  IsNode (literal v) = IsScalar (decimal v)
  IsNode (field_ref r) = Unit {0}
  IsNode (operation o xs) = IsArity o (operands_of xs) × AreNodes xs

  pub AreNodes : Operands → Type 0
  AreNodes end = Unit {0}
  AreNodes (operand x xs) = IsNode x × AreNodes xs

quotient-IsFraction :
    (past : Bool) (a b : Fraction)
    → IsFraction a
    → IsFraction b
    → Returns past IsFraction (quotient a b)
unfolding quotient
quotient-IsFraction past a b h k = elim (Bool-cases (is_zero b)) [
  | inl zero_divisor ↦ rw zero_divisor refl
  | inr fine ↦ rw fine (divided-IsFraction a b h k fine)
]

pair_of :
    (xs : List Fraction)
    → length xs ≡ 2
    → All IsFraction xs
    → (a : Fraction) × (b : Fraction) × (xs ≡ a ∷ b ∷ []) × IsFraction a × IsFraction b
pair_of [] e h = absurd (omega arith)
pair_of (a ∷ []) e h = absurd (omega arith)
pair_of (a ∷ b ∷ []) e h = (a, b, refl, h.0, h.1.0)
pair_of (a ∷ b ∷ c ∷ xs) e h = absurd (omega arith)

-- As many fractions as operands.
abbrev AreOperands : Operands → List Fraction → Type 0
AreOperands xs qs = (length qs ≡ operands_of xs) × All IsFraction qs

apply-IsFraction :
    (past : Bool) (o : Operator) (n : ℕ) (xs : List Fraction)
    → IsArity o n
    → length xs ≡ n
    → All IsFraction xs
    → Returns past IsFraction (apply o xs)
unfolding apply
apply-IsFraction past add n xs k e h = sum-IsFraction xs (whole (pos 0)) h (omega arith)
apply-IsFraction past multiply n xs k e h = product-IsFraction xs (whole (pos 1)) h (omega arith)
apply-IsFraction past subtract n xs k e h =
    let (a, b, f, i, j) = pair_of xs (e ∙ k) h in rw f (mul_pos a.den b.den i j)
apply-IsFraction past divide n xs k e h =
    let (a, b, f, i, j) = pair_of xs (e ∙ k) h in rw f (quotient-IsFraction past a b i j)
apply-IsFraction past fraction n xs k e h =
    let (a, b, f, i, j) = pair_of xs (e ∙ k) h in rw f (quotient-IsFraction past a b i j)

mutual
  unfolding evaluate leaves_ok

  evaluate-IsWithin :
      (past : Bool) (c : FieldContract) (values : ℕ → Option Value) (x : ExpressionNode)
      → Conforms c values
      → IsNode x
      → leaves_ok c x ≡ true
      → (past || indexes_within values x) ≡ true
      → Returns past IsWithin (evaluate x values)
  evaluate-IsWithin past c values (literal v) w h e u = number-IsWithin past (decimal v) h
  evaluate-IsWithin past c values (field_ref r) w h e u =
      resolve_field-IsWithin past c values r w (none_of (validate_field_ref r c) e) u
  evaluate-IsWithin past c values (operation o xs) w h e u =
      Returns-bind past (AreOperands xs) IsWithin (evaluate_all xs values)
        (λ qs. apply o qs >>= check_magnitude) (evaluate_all-IsWithin past c values xs w h.1 e u)
        (λ qs k.
          Returns-bind past IsFraction IsWithin (apply o qs) check_magnitude
            (apply-IsFraction past o (operands_of xs) qs h.0 k.0 k.1)
            (check_magnitude-IsWithin past))

  evaluate_all-IsWithin :
      (past : Bool) (c : FieldContract) (values : ℕ → Option Value) (xs : Operands)
      → Conforms c values
      → AreNodes xs
      → leaves_all_ok c xs ≡ true
      → (past || indexes_within_all values xs) ≡ true
      → Returns past (AreOperands xs) (evaluate_all xs values)
  evaluate_all-IsWithin past c values end w h e u = (refl, tt)
  evaluate_all-IsWithin past c values (operand x xs) w h e u =
      let both = and→both (leaves_ok c x) (leaves_all_ok c xs) e in
      Returns-bind past IsWithin (AreOperands (operand x xs)) (evaluate x values)
        (λ a. evaluate_all xs values >>= λ rest. value (a ∷ rest))
        (evaluate-IsWithin past c values x w h.0 both.0 (ground arith))
        (λ a k.
          Returns-bind past (AreOperands xs) (AreOperands (operand x xs)) (evaluate_all xs values)
            (λ rest. value (a ∷ rest))
            (evaluate_all-IsWithin past c values xs w h.1 both.1 (ground arith))
            (λ rest l. (omega (arith, l.0), (k.0, l.1))))

pub compiled-evaluate :
    (past : Bool) (c : FieldContract) (values : ℕ → Option Value) (x : ExpressionNode) (m : ℕ)
    (refs : List ℕ)
    → Conforms c values
    → IsNode x
    → compile_expression x c ≡ walked m refs
    → (past || indexes_within values x) ≡ true
    → Returns past IsWithin (evaluate x values)
compiled-evaluate past c values x m refs w h e u =
    evaluate-IsWithin past c values x w h ((compile_expression-walked c x m refs).0 e).0.2 u

-- An expression that `compile_expression` accepts, on values of the declared shape, evaluates to a
-- fraction of magnitude at most 10^12, or raises unsupported_type, non_finite_value, overflow or
-- divide_by_zero, or index_out_of_range, which it raises only where some index in the expression is not
-- below the length of an array that it reads; and where there is such an index, one on a scalar field
-- included, it always raises. It never raises missing_value, unknown_item_field, or the IndexError of a
-- missing operand.
pub compile_expression-evaluate :
    (c : FieldContract) (values : ℕ → Option Value) (x : ExpressionNode) (m : ℕ) (refs : List ℕ)
    → Conforms c values
    → IsNode x
    → compile_expression x c ≡ walked m refs
    → Returns (not (indexes_within values x)) IsWithin (evaluate x values)
      × ((indexes_within values x ≡ true) ⊎ Raises (evaluate x values))
compile_expression-evaluate c values x m refs w h e = (
  compiled-evaluate (not (indexes_within values x)) c values x m refs w h e
      (elim (Bool-cases (indexes_within values x)) [
        | inl inside ↦ ground arith
        | inr outside ↦ ground arith
      ]),
  elim (Bool-cases (indexes_within values x)) [
    | inl inside ↦ inl inside
    | inr outside ↦ inr (evaluate-Raises values x outside)
  ],
)
