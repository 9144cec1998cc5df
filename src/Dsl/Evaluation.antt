-- ===== src/Dsl/Evaluation.antt =====
-- backend/app/meta/dsl/expression.py, from `_to_fraction` on: the value of an expression at the values
-- of the fields.
pub mod Fields
pub mod References
pub mod Raising
pub mod Safety
use si26_math_animation_john.Dsl.Fraction.{
  Fraction, whole, ◌+𝔽◌, ◌-𝔽◌, ◌*𝔽◌, divided, is_zero, magnitude, sum, product, limit_denominator,
}
use si26_math_animation_john.Dsl.Expression.{
  Float, finite, infinite, nan, FieldRef, Operator, add, subtract, multiply, divide, fraction,
  ExpressionNode, literal, field_ref, operation, Operands, end, operand,
}
use si26_math_animation_john.Base.Int.{ℤ, pos}
use si26_math_animation_john.Base.{
  ℕ, zero, suc, ◌+◌, ◌-◌, ◌*◌, ◌/◌, ◌%◌, ◌^◌, ◌≤◌, ◌<◌, min, max, String, ◌≡◌, refl, sym, ap, ◌∙◌,
  subst, ◌≢◌, ◌↔◌, ◌⊎◌, inl, inr, Bool, true, false, ◌&&◌, ◌||◌, not, Option, none, some, List, [],
  ◌∷◌, ◌++◌, map, arith, ltb, leb, ◌==◌, if◌then◌else◌, eq_option, eq_option→eq, eq_option_refl,
  eq→eq_option, Bool-cases, Option-cases, length, all, any, select, count, reject, update, All,
  length-append, count-append, count-le-length, length-select-le, length-reject-add-count,
  count-or-le, count-le-count, count-update, count-update-le, count-update-drop, length-update,
  All-update, any-false, All-any, All-weaken, codes, str_eq, eq_iff,
}

abbrev pub max_numeric_magnitude : ℕ
max_numeric_magnitude = 1000000000000

abbrev pub max_denominator : ℕ
max_denominator = 1000000000

-- What Python stores in a field: a number, a Boolean, a text, or None.
pub data Scalar : Type 0 where
  integer : ℤ → Scalar
  decimal : Float → Scalar
  exact : Fraction → Scalar
  boolean : Bool → Scalar
  text : String → Scalar
  null : Scalar

-- An entry of an item that is an object.
pub record Entry : Type 0 where
  pub key : ℕ
  pub scalar : Scalar

pub data Item : Type 0 where
  plain : Scalar → Item
  object : List Entry → Item

pub data Value : Type 0 where
  single : Item → Value
  array : List Item → Value

-- The codes of the DslValidationError; `no_operand` is the IndexError of an operand that is missing.
pub data EvaluationError : Type 0 where
  missing_value index_out_of_range unknown_item_field unsupported_type non_finite_value :
      EvaluationError
  overflow divide_by_zero no_operand : EvaluationError

pub data Evaluated {ℓ} (A : Type ℓ) : Type ℓ where
  value : A → Evaluated A
  raised : EvaluationError → Evaluated A

infixl 5 ◌>>=◌
abbrev pub ◌>>=◌ {ℓ κ} : {A : Type ℓ} {B : Type κ} → Evaluated A → (A → Evaluated B) → Evaluated B
value a >>= f = f a
raised e >>= f = raised e

unfoldable pub to_fraction : Scalar → Evaluated Fraction
unfolding limit_denominator
to_fraction (exact a) = value a
to_fraction (boolean b) = raised unsupported_type
to_fraction (integer n) = value (whole n)
to_fraction (decimal (finite n d)) = value (limit_denominator max_denominator n d)
to_fraction (decimal infinite) = raised non_finite_value
to_fraction (decimal nan) = raised non_finite_value
to_fraction (text t) = raised unsupported_type
to_fraction null = raised unsupported_type

unfoldable pub check_magnitude : Fraction → Evaluated Fraction
check_magnitude a =
    if ltb (max_numeric_magnitude * a.den) (magnitude a.num) then raised overflow else value a

unfoldable pub get_elem? : List Item → ℕ → Option Item
get_elem? [] i = none
get_elem? (x ∷ xs) zero = some x
get_elem? (x ∷ xs) (suc i) = get_elem? xs i

unfoldable pub entry : ℕ → List Entry → Option Scalar
entry k [] = none
entry k (e ∷ es) = if e.key == k then some e.scalar else entry k es

-- `raw = raw[field_ref.index]`, where there is an index
unfoldable pub at_index : Option ℕ → Value → Evaluated Value
unfolding get_elem?
at_index none raw = value raw
at_index (some i) (single item) = raised index_out_of_range
at_index (some i) (array items) = elim (get_elem? items i) [
  | none ↦ raised index_out_of_range
  | some item ↦ value (single item)
]

-- `raw = raw[field_ref.item_field]`, where there is one, and the scalar that is left
unfoldable pub at_item_field : Option ℕ → Value → Evaluated Scalar
unfolding entry
at_item_field none (single (plain s)) = value s
at_item_field none (single (object es)) = raised unsupported_type
at_item_field none (array items) = raised unsupported_type
at_item_field (some k) (single (object es)) = elim (entry k es) [
  | none ↦ raised unknown_item_field
  | some s ↦ value s
]
at_item_field (some k) (single (plain s)) = raised unknown_item_field
at_item_field (some k) (array items) = raised unknown_item_field

unfoldable pub resolve_field : FieldRef → (ℕ → Option Value) → Evaluated Fraction
unfolding at_index at_item_field to_fraction check_magnitude
resolve_field r values = elim (values r.field) [
  | none ↦ raised missing_value
  | some raw ↦ do
    inner ← at_index r.index raw
    s ← at_item_field r.item_field inner
    a ← to_fraction s
    check_magnitude a
]

unfoldable pub quotient : Fraction → Fraction → Evaluated Fraction
unfolding divided
quotient a b = if is_zero b then raised divide_by_zero else value (divided a b)

unfoldable pub apply : Operator → List Fraction → Evaluated Fraction
unfolding sum product quotient ◌-𝔽◌
apply add xs = value (sum xs (whole (pos 0)))
apply multiply xs = value (product xs (whole (pos 1)))
apply subtract (a ∷ b ∷ xs) = value (a -𝔽 b)
apply subtract xs = raised no_operand
apply divide (a ∷ b ∷ xs) = quotient a b
apply divide xs = raised no_operand
apply fraction (a ∷ b ∷ xs) = quotient a b
apply fraction xs = raised no_operand

unfoldable mutual
  unfolding to_fraction check_magnitude resolve_field apply

  pub evaluate : ExpressionNode → (ℕ → Option Value) → Evaluated Fraction
  evaluate (literal v) values = do a ← to_fraction (decimal v); check_magnitude a
  evaluate (field_ref r) values = resolve_field r values
  evaluate (operation o operands) values = do
    xs ← evaluate_all operands values
    a ← apply o xs
    check_magnitude a

  pub evaluate_all : Operands → (ℕ → Option Value) → Evaluated (List Fraction)
  evaluate_all end values = value []
  evaluate_all (operand x xs) values = do
    a ← evaluate x values
    rest ← evaluate_all xs values
    value (a ∷ rest)
