-- ===== src/Dsl/Tests.antt =====
-- Examples of the theorems on expressions and guards.
use si26_math_animation_john.Base.{
  ℕ, ◌≡◌, refl, ◌↔◌, ◌⊎◌, true, false, Option, none, some, List, [], ◌∷◌, arith, ◌==◌,
  if◌then◌else◌, All,
}
use si26_math_animation_john.Base.Int.{pos}
use si26_math_animation_john.Dsl.Expression.{
  FieldRef, ExpressionNode, operation, add, operand, field_ref, literal, finite, end, FieldContract,
  compile_expression, walked, array_of, validate_field_ref, declares,
}
use si26_math_animation_john.Dsl.Expression.Compile.{
  Fits, operations, fields_of, compile_expression-walked,
}
use si26_math_animation_john.Dsl.Evaluation.{
  Item, object, integer, decimal, Value, single, plain, array, entry, evaluate, value,
}
use si26_math_animation_john.Dsl.Evaluation.Fields.{Conforms, IsItem, Returns, IsWithin}
use si26_math_animation_john.Dsl.Evaluation.Safety.{compile_expression-evaluate}
use si26_math_animation_john.Dsl.Evaluation.References.{indexes_within}
use si26_math_animation_john.Dsl.Evaluation.Raising.{Raises}
use si26_math_animation_john.Dsl.Guard.{
  GuardPredicate, positive, ordered, strictly_increasing, GuardResult, PredicateResult, check_guard,
  compile_guard,
}
use si26_math_animation_john.Dsl.Guard.Safety.{check_guard-Matches, Matches}

abbrev field_seven : FieldRef
field_seven = record { field = 7; index = none; item_field = none }

abbrev half_more : ExpressionNode
half_more =
    operation add (operand (field_ref field_seven) (operand (literal (finite (pos 1) 2)) end))

abbrev one_scalar : FieldContract
one_scalar = record { scalars = 7 ∷ []; arrays = [] }

compile_expression-walked_example :
    (compile_expression half_more one_scalar ≡ walked 1 (7 ∷ [])) ↔ (
      Fits one_scalar half_more 0 0
      × (1 ≡ operations half_more)
      × (7 ∷ [] ≡ fields_of half_more []))
compile_expression-walked_example = compile_expression-walked one_scalar half_more 1 (7 ∷ [])

-- A scalar 7 and an array 8 of objects with a field 1.
abbrev scores : FieldContract
scores = record { scalars = 7 ∷ []; arrays = record { name = 8; item_fields = 1 ∷ [] } ∷ [] }

abbrev score : Item
score = object (record { key = 1; scalar = integer (pos 4) } ∷ [])

abbrev score_values : ℕ → Option Value
score_values f =
    if f == 7
    then some (single (plain (decimal (finite (pos 1) 2))))
    else if f == 8
    then some (array (score ∷ []))
    else none

score_values-Conforms : Conforms scores score_values
unfolding array_of entry
score_values-Conforms = record {
  scalars = λ f h.
      (decimal (finite (pos 1) 2), (let same : f ≡ 7 = ground arith in rw same refl), omega arith);
  arrays = λ f legal h. (score ∷ [], array_value f legal h, (item_fields f legal h, tt));
}
  where
    array_value :
        (f : ℕ) (legal : List ℕ)
        → array_of f scores.arrays ≡ some legal
        → score_values f ≡ some (array (score ∷ []))
    array_value f legal h = (let same : f ≡ 8 = ground arith in rw same refl)

    item_fields :
        (f : ℕ) (legal : List ℕ) → array_of f scores.arrays ≡ some legal → IsItem legal score
    item_fields f legal h k m =
        let one : legal ≡ 1 ∷ [] = ground arith in
        let key : k ≡ 1 = ground arith in (integer (pos 4), rw key refl, tt)

abbrev first_score : ExpressionNode
first_score = field_ref (record { field = 8; index = some 0; item_field = some 1 })

-- scores[0].1 + 1/2
abbrev score_and_half : ExpressionNode
score_and_half = operation add (operand first_score (operand (literal (finite (pos 1) 2)) end))

compile_expression-evaluate_example :
    Returns false IsWithin (evaluate score_and_half score_values)
    × ((indexes_within score_values score_and_half ≡ true)
        ⊎ Raises (evaluate score_and_half score_values))
unfolding compile_expression validate_field_ref declares array_of
compile_expression-evaluate_example =
    compile_expression-evaluate scores score_values score_and_half 1 (8 ∷ []) score_values-Conforms
      (omega arith) refl

abbrev score_guard : List GuardPredicate
score_guard =
    positive first_score
    ∷ ordered (field_ref field_seven ∷ first_score ∷ score_and_half ∷ []) strictly_increasing
    ∷ []

check_guard-Matches_example :
    Returns false
      (λ (g : GuardResult).
        Matches score_values 0 score_guard g.predicate_results
        × ((g.passed ≡ true) ↔ All (λ (r : PredicateResult). r.passed ≡ true) g.predicate_results))
      (check_guard score_guard score_values)
unfolding compile_guard validate_field_ref declares array_of
check_guard-Matches_example =
    check_guard-Matches scores score_values score_guard score_values-Conforms (omega arith) refl

passes :
    check_guard score_guard score_values
    ≡ value (record {
      passed = true;
      predicate_results =
          record { index = 0; passed = true } ∷ record { index = 1; passed = true } ∷ [];
    })
unfolding check_guard
passes = refl
