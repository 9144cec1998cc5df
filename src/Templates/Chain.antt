-- ===== src/Templates/Chain.antt =====
-- _shared/chain_math.py: the running totals of a chain of operations, and their laws.
-- An additive chain runs over signed integers. The amounts of its steps are positive by the fields of
-- the parameter models, so they are naturals; so are the totals and factors of a multiplicative chain.
use si26_math_animation_john.Base.{
  ℕ, ◌*◌, ◌/◌, ◌%◌, Option, none, some, List, [], ◌∷◌, ◌==◌, if◌then◌else◌,
}
use si26_math_animation_john.Base.Int.{ℤ, pos, ◌+ℤ◌, ◌-ℤ◌}

pub data AddOp : Type 0 where
  add subtract : AddOp

pub record AddStep : Type 0 where
  pub operation : AddOp
  pub amount : ℕ

unfoldable pub apply_step : ℤ → AddStep → ℤ
apply_step running step = elim step.operation [
  | AddOp.add ↦ running +ℤ pos step.amount
  | AddOp.subtract ↦ running -ℤ pos step.amount
]

-- The loop appends to `values` while `running` moves on.
unfoldable pub additive_from : ℤ → List AddStep → List ℤ
unfolding apply_step
additive_from running [] = []
additive_from running (step ∷ steps) =
    apply_step running step ∷ additive_from (apply_step running step) steps

unfoldable pub run_additive_chain : ℤ → List AddStep → List ℤ
unfolding additive_from
run_additive_chain start steps = start ∷ additive_from start steps

pub data MulOp : Type 0 where
  multiply divide : MulOp

pub record MulStep : Type 0 where
  pub operation : MulOp
  pub factor : ℕ

-- `none` is a ValueError
unfoldable pub multiply_step : ℕ → MulStep → Option ℕ
multiply_step running step = elim step.operation [
  | MulOp.multiply ↦ some (running * step.factor)
  | MulOp.divide ↦
      if step.factor == 0
      then none
      else if running % step.factor == 0
      then some (running / step.factor)
      else none
]

abbrev pub positive : Option ℕ → Option ℕ
positive none = none
positive (some n) = if n == 0 then none else some n

abbrev pub cons_result : Option ℕ → (ℕ → Option (List ℕ)) → Option (List ℕ)
cons_result none rest = none
cons_result (some n) rest = elim (rest n) [ none ↦ none | some ns ↦ some (n ∷ ns) ]

unfoldable pub multiplicative_from : List MulStep → ℕ → Option (List ℕ)
unfolding multiply_step
multiplicative_from [] running = some []
multiplicative_from (step ∷ steps) running =
    cons_result (positive (multiply_step running step)) (multiplicative_from steps)

unfoldable pub run_multiplicative_chain : ℕ → List MulStep → Option (List ℕ)
unfolding multiplicative_from
run_multiplicative_chain start steps =
    if start == 0
    then none
    else elim (multiplicative_from steps start) [ none ↦ none | some ns ↦ some (start ∷ ns) ]

-- The last of a non-empty list of totals, the first of them given.
abbrev pub last_of {ℓ} : {A : Type ℓ} → A → List A → A
last_of a [] = a
last_of a (b ∷ bs) = last_of b bs
