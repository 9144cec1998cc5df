-- ===== src/Dsl/Evaluation/Raising.antt =====
-- Evaluations of meta/dsl/expression.py that raise, whatever else they read: those with an index that
-- reads no item.
use si26_math_animation_john.Dsl.Evaluation.References.{
  indexes_within, indexes_within_all, field_within,
}
use si26_math_animation_john.Dsl.Expression.{
  FieldRef, ExpressionNode, literal, field_ref, operation, Operands, end, operand,
}
use si26_math_animation_john.Dsl.Evaluation.{
  Value, single, array, value, raised, Evaluated, at_index, get_elem?, ◌>>=◌, check_magnitude,
  resolve_field, apply, evaluate, evaluate_all,
}
use si26_math_animation_john.Dsl.Evaluation.Fields.{reads_within, get_elem?-some}
use si26_math_animation_john.Base.{
  ℕ, ◌≡◌, inl, inr, true, false, subst, Option, none, some, ◌∷◌, arith, Bool-cases, Option-cases,
}

-- An evaluation that raises.
abbrev pub Raises {ℓ} : {A : Type ℓ} → Evaluated A → Type 0
Raises (value a) = ⊥
Raises (raised e) = Unit {0}

Raises-bind {ℓ κ} :
    {A : Type ℓ} {B : Type κ} (m : Evaluated A) (f : A → Evaluated B) → Raises m → Raises (m >>= f)
Raises-bind (value a) f h = absurd h
Raises-bind (raised e) f h = h

Raises-after {ℓ κ} :
    {A : Type ℓ} {B : Type κ} (m : Evaluated A) (f : A → Evaluated B)
    → ((a : A) → Raises (f a))
    → Raises (m >>= f)
Raises-after (value a) f h = h a
Raises-after (raised e) f h = tt

at_index-Raises :
    (index : Option ℕ) (raw : Value) → reads_within index raw ≡ false → Raises (at_index index raw)
unfolding at_index
at_index-Raises none raw h = absurd (ground arith)
at_index-Raises (some i) (single item) h = tt
at_index-Raises (some i) (array items) h = elim (Option-cases (get_elem? items i)) [
  | inl short ↦ rw (short, at_index) tt
  | inr (item, found) ↦ absurd (ground (arith, get_elem?-some items i item found))
]

resolve_field-Raises :
    (values : ℕ → Option Value) (r : FieldRef)
    → field_within values r ≡ false
    → Raises (resolve_field r values)
unfolding resolve_field
resolve_field-Raises values r h = elim (Option-cases (values r.field)) [
  | inl e ↦ rw (e, resolve_field) tt
  | inr (raw, e) ↦
      let outside : reads_within r.index raw ≡ false =
        subst
          (λ (o : Option Value). elim o [ none ↦ true | some v ↦ reads_within r.index v ] ≡ false) e
          h in
      rw (e, resolve_field)
        (Raises-bind (at_index r.index raw) _ (at_index-Raises r.index raw outside))
]

mutual
  unfolding evaluate

  pub evaluate-Raises :
      (values : ℕ → Option Value) (x : ExpressionNode)
      → indexes_within values x ≡ false
      → Raises (evaluate x values)
  evaluate-Raises values (literal v) h = absurd (ground arith)
  evaluate-Raises values (field_ref r) h = resolve_field-Raises values r h
  evaluate-Raises values (operation o xs) h =
      Raises-bind (evaluate_all xs values) (λ qs. apply o qs >>= check_magnitude)
        (evaluate_all-Raises values xs h)

  evaluate_all-Raises :
      (values : ℕ → Option Value) (xs : Operands)
      → indexes_within_all values xs ≡ false
      → Raises (evaluate_all xs values)
  evaluate_all-Raises values end h = absurd (ground arith)
  evaluate_all-Raises values (operand x xs) h = elim (Bool-cases (indexes_within values x)) [
    | inr outside ↦
        Raises-bind (evaluate x values) (λ a. evaluate_all xs values >>= λ rest. value (a ∷ rest))
          (evaluate-Raises values x outside)
    | inl inside ↦
        Raises-after (evaluate x values) (λ a. evaluate_all xs values >>= λ rest. value (a ∷ rest))
          (λ a.
            Raises-bind (evaluate_all xs values) (λ rest. value (a ∷ rest))
              (evaluate_all-Raises values xs (ground arith)))
  ]
