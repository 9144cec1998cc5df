-- ===== src/Templates/Tests.antt =====
-- Examples of the template theorems: one problem for each guard.
use si26_math_animation_john.Base.Int.{pos}
use si26_math_animation_john.Templates.ArrayGrid.{
  IsBestGrid, grid_dimensions, grid_dimensions-IsBestGrid, IsWhole, answer_from,
  compute_answer-last,
}
use si26_math_animation_john.Templates.NumberLine.{
  FractionBarParams, NumberLineParams, BalanceScaleParams,
}
use si26_math_animation_john.Templates.Chain.{
  run_multiplicative_chain, MulStep, multiplicative_from, MulOp, AddOp, multiply_step, last_of,
}
use si26_math_animation_john.Base.{refl, List, [], ◌∷◌}

abbrev climb : NumberLineParams
climb = record {
  start = pos 3;
  steps =
      record { operation = AddOp.add; amount = 5 }
      ∷ record { operation = AddOp.subtract; amount = 2 }
      ∷ [];
}

abbrev quarters : FractionBarParams
quarters = record {
  denominator = 4;
  start_numerator = 1;
  steps = record { operation = AddOp.add; amount = 2 } ∷ [];
}

abbrev balance : BalanceScaleParams
balance = record { left_first = pos 3; left_second = pos 4; right_total = pos 7 }

grid_dimensions-IsBestGrid_example : IsBestGrid 24 (grid_dimensions 24)
grid_dimensions-IsBestGrid_example = grid_dimensions-IsBestGrid 24

abbrev doubling : List MulStep
doubling =
    record { operation = MulOp.multiply; factor = 4 }
    ∷ record { operation = MulOp.divide; factor = 2 }
    ∷ []

compute_answer-last_example : IsWhole (last_of 6 (24 ∷ 12 ∷ [])) (answer_from (6, 1) doubling)
unfolding run_multiplicative_chain multiplicative_from multiply_step
compute_answer-last_example = compute_answer-last 6 doubling (24 ∷ 12 ∷ []) refl
