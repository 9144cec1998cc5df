-- ===== src/Dsl/Guard.antt =====
-- backend/app/meta/dsl/guard.py: the predicates of a guard document, their compilation and their check.
pub mod Safety
use si26_math_animation_john.Dsl.Fraction.{
  Fraction, whole, less, at_most, equal, is_zero, is_multiple, sum, product, limit_denominator,
}
use si26_math_animation_john.Dsl.Expression.{
  ExpressionNode, literal, field_ref, operation, Operands, end, operand, FieldContract, Error, Walk,
  walked, compile_expression, Float,
}
use si26_math_animation_john.Dsl.Expression as Expression
use si26_math_animation_john.Dsl.Evaluation.{
  Value, Evaluated, value, raised, ◌>>=◌, evaluate, divide_by_zero, to_fraction, decimal,
}
use si26_math_animation_john.Base.Int.{pos}
use si26_math_animation_john.Base.{
  ℕ, zero, suc, ◌+◌, ◌-◌, ◌*◌, ◌/◌, ◌%◌, ◌^◌, ◌≤◌, ◌<◌, min, max, String, ◌≡◌, refl, sym, ap, ◌∙◌,
  subst, ◌≢◌, ◌↔◌, ◌⊎◌, inl, inr, Bool, true, false, ◌&&◌, ◌||◌, not, Option, none, some, List, [],
  ◌∷◌, ◌++◌, map, arith, ltb, leb, ◌==◌, if◌then◌else◌, eq_option, eq_option→eq, eq_option_refl,
  eq→eq_option, Bool-cases, Option-cases, length, all, any, select, count, reject, update, All,
  length-append, count-append, count-le-length, length-select-le, length-reject-add-count,
  count-or-le, count-le-count, count-update, count-update-le, count-update-drop, length-update,
  All-update, any-false, All-any, All-weaken, codes, str_eq, eq_iff,
}

pub data Direction : Type 0 where
  strictly_increasing strictly_decreasing non_decreasing non_increasing : Direction

pub data GuardPredicate : Type 0 where
  range : ExpressionNode → ExpressionNode → ExpressionNode → GuardPredicate
  positive : ExpressionNode → GuardPredicate
  equals not_equals : ExpressionNode → ExpressionNode → GuardPredicate
  sum_equals product_equals : List ExpressionNode → ExpressionNode → GuardPredicate
  divisible_by : ExpressionNode → ExpressionNode → GuardPredicate
  ordered : List ExpressionNode → Direction → GuardPredicate

unfoldable pub predicate_expressions : GuardPredicate → List ExpressionNode
predicate_expressions (range v minimum maximum) = v ∷ minimum ∷ maximum ∷ []
predicate_expressions (positive v) = v ∷ []
predicate_expressions (equals left right) = left ∷ right ∷ []
predicate_expressions (not_equals left right) = left ∷ right ∷ []
predicate_expressions (sum_equals terms total) = terms ++ total ∷ []
predicate_expressions (product_equals factors total) = factors ++ total ∷ []
predicate_expressions (divisible_by v divisor) = v ∷ divisor ∷ []
predicate_expressions (ordered terms direction) = terms

-- The error that compiling each expression in turn raises, if any.
unfoldable pub compile_all : List ExpressionNode → FieldContract → Option Error
unfolding compile_expression
compile_all [] c = none
compile_all (x ∷ xs) c = elim (compile_expression x c) [
  | walked n refs ↦ compile_all xs c
  | Walk.raised e ↦ some e
]

unfoldable pub compile_guard : List GuardPredicate → FieldContract → Option Error
unfolding compile_all predicate_expressions
compile_guard [] c = none
compile_guard (p ∷ ps) c = elim (compile_all (predicate_expressions p) c) [
  | none ↦ compile_guard ps c
  | some e ↦ some e
]

unfoldable pub evaluate_terms : List ExpressionNode → (ℕ → Option Value) → Evaluated (List Fraction)
unfolding evaluate
evaluate_terms [] values = value []
evaluate_terms (x ∷ xs) values = do
  a ← evaluate x values
  rest ← evaluate_terms xs values
  value (a ∷ rest)

-- _ORDER_CHECKS
unfoldable pub order_check : Direction → Fraction → Fraction → Bool
unfolding less at_most
order_check strictly_increasing a b = less a b
order_check strictly_decreasing a b = less b a
order_check non_decreasing a b = at_most a b
order_check non_increasing a b = at_most b a

-- all(check(a, b) for a, b in zip(terms, terms[1:]))
unfoldable pub all_adjacent : (Fraction → Fraction → Bool) → List Fraction → Bool
all_adjacent check [] = true
all_adjacent check (a ∷ []) = true
all_adjacent check (a ∷ (b ∷ rest)) = check a b && all_adjacent check (b ∷ rest)

unfoldable pub divisible : Fraction → Fraction → Evaluated Bool
unfolding is_multiple
divisible a b = if is_zero b then raised divide_by_zero else value (is_multiple a b)

-- `_check_single_predicate`, without the text of the detail.
unfoldable pub check_single_predicate : GuardPredicate → (ℕ → Option Value) → Evaluated Bool
unfolding evaluate evaluate_terms order_check all_adjacent divisible less at_most equal sum product
check_single_predicate (range v minimum maximum) values = do
  a ← evaluate v values
  low ← evaluate minimum values
  high ← evaluate maximum values
  value (at_most low a && at_most a high)
check_single_predicate (positive v) values = do
  a ← evaluate v values
  value (less (whole (pos 0)) a)
check_single_predicate (equals left right) values = do
  a ← evaluate left values
  b ← evaluate right values
  value (equal a b)
check_single_predicate (not_equals left right) values = do
  a ← evaluate left values
  b ← evaluate right values
  value (not (equal a b))
check_single_predicate (sum_equals terms total) values = do
  as_terms ← evaluate_terms terms values
  b ← evaluate total values
  value (equal (sum as_terms (whole (pos 0))) b)
check_single_predicate (product_equals factors total) values = do
  as_factors ← evaluate_terms factors values
  b ← evaluate total values
  value (equal (product as_factors (whole (pos 1))) b)
check_single_predicate (divisible_by v divisor) values = do
  a ← evaluate v values
  b ← evaluate divisor values
  divisible a b
check_single_predicate (ordered terms direction) values = do
  as_terms ← evaluate_terms terms values
  value (all_adjacent (order_check direction) as_terms)

pub record PredicateResult : Type 0 where
  pub index : ℕ
  pub passed : Bool

pub record GuardResult : Type 0 where
  pub passed : Bool
  pub predicate_results : List PredicateResult

-- The loop of `_check_guard`, from an index on.
unfoldable pub check_from :
    ℕ → List GuardPredicate → (ℕ → Option Value) → Evaluated (List PredicateResult)
unfolding check_single_predicate
check_from i [] values = value []
check_from i (p ∷ ps) values = do
  passed ← check_single_predicate p values
  rest ← check_from (suc i) ps values
  value (record { index = i; passed = passed } ∷ rest)

unfoldable pub check_guard : List GuardPredicate → (ℕ → Option Value) → Evaluated GuardResult
unfolding check_from
check_guard ps values = do
  results ← check_from 0 ps values
  value (record {
    passed = all (λ (r : PredicateResult). r.passed) results;
    predicate_results = results;
  })

-- derive_permitted_derived_totals: the totals of the sums and products
unfoldable pub derive_permitted_derived_totals :
    List GuardPredicate → (ℕ → Option Value) → Evaluated (List Fraction)
unfolding evaluate
derive_permitted_derived_totals [] values = value []
derive_permitted_derived_totals (sum_equals terms total ∷ ps) values = do
  a ← evaluate total values
  rest ← derive_permitted_derived_totals ps values
  value (a ∷ rest)
derive_permitted_derived_totals (product_equals factors total ∷ ps) values = do
  a ← evaluate total values
  rest ← derive_permitted_derived_totals ps values
  value (a ∷ rest)
derive_permitted_derived_totals (p ∷ ps) values = derive_permitted_derived_totals ps values
