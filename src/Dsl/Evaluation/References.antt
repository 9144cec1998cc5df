-- ===== src/Dsl/Evaluation/References.antt =====
-- What reading a field that `_validate_field_ref` of meta/dsl/expression.py accepts can raise, and the
-- indexes of an expression that read nothing.
use si26_math_animation_john.Dsl.Expression.{
  FieldRef, FieldContract, has, array_of, declares, check_item, check_shape, validate_field_ref,
  ExpressionNode, literal, field_ref, operation, Operands, end, operand, ArrayField,
}
use si26_math_animation_john.Dsl.Evaluation.{Value, array, resolve_field}
use si26_math_animation_john.Dsl.Evaluation.Fields.{
  Conforms, IsWithin, reads_within, Returns, read_scalar, read_array,
}
use si26_math_animation_john.Base.{
  ℕ, ◌≡◌, refl, inl, inr, Bool, true, false, ◌&&◌, ◌||◌, subst, Option, none, some, List, [], ◌∷◌,
  arith, ◌==◌, Bool-cases, Option-cases, any,
}

array_of-declares :
    (c : FieldContract) (f : ℕ)
    → declares c f ≡ true
    → array_of f c.arrays ≡ none
    → has c.scalars f ≡ true
unfolding declares array_of
array_of-declares c f d e = ground (arith, no_array c.arrays e)
  where
    no_array :
        (arrays : List ArrayField)
        → array_of f arrays ≡ none
        → any (λ (a : ArrayField). a.name == f) arrays ≡ false
    no_array [] h = refl
    no_array (a ∷ arrays) h = elim (Bool-cases (a.name == f)) [
      | inl hit ↦ absurd (ground arith)
      | inr miss ↦ rw miss (no_array arrays (rw miss at h))
    ]

-- The index and the item field of a legal reference to an array.
check_item-some :
    (index item : Option ℕ) (legal : List ℕ)
    → check_item index item legal ≡ none
    → (i : ℕ) × (k : ℕ) × (index ≡ some i) × (item ≡ some k) × (has legal k ≡ true)
unfolding check_item
check_item-some none none legal e = absurd (cc)
check_item-some (some i) none legal e = absurd (cc)
check_item-some none (some k) legal e = absurd (cc)
check_item-some (some i) (some k) legal e = (i, k, refl, refl, ground arith)

no_item :
    (item : Option ℕ) (r : FieldRef) → r.item_field ≡ item → check_shape r none ≡ none → item ≡ none
unfolding check_shape
no_item none r f e = refl
no_item (some k) r f e = absurd (ground arith)

-- The value that a reference reads has the index that it names, if it names one.
abbrev pub field_within : (ℕ → Option Value) → FieldRef → Bool
field_within values r = elim (values r.field) [ none ↦ true | some raw ↦ reads_within r.index raw ]

-- A legal reference reads a number within the bound, or meets an error that values can cause.
pub resolve_field-IsWithin :
    (past : Bool) (c : FieldContract) (values : ℕ → Option Value) (r : FieldRef)
    → Conforms c values
    → validate_field_ref r c ≡ none
    → (past || field_within values r) ≡ true
    → Returns past IsWithin (resolve_field r values)
unfolding resolve_field validate_field_ref
resolve_field-IsWithin past c values r w e u = elim (Bool-cases (declares c r.field)) [
  | inr unknown ↦ absurd (ground arith)
  | inl declared ↦ elim (Option-cases (array_of r.field c.arrays)) [
    | inl no_array ↦
        let legal : check_shape r none ≡ none = ground arith in
        let item : r.item_field ≡ none = no_item r.item_field r refl legal in
        let (s, found, sound) = w.scalars r.field (array_of-declares c r.field declared no_array) in
        rw (found, resolve_field, item)
          (read_scalar past r.index s sound (
            subst
              (λ (o : Option Value).
                (past || elim o [ none ↦ true | some raw ↦ reads_within r.index raw ]) ≡ true)
              found u))
    | inr (legal, is_array) ↦
        let checked : check_item r.index r.item_field legal ≡ none = ground arith in
        let (i, k, index, item, member) = check_item-some r.index r.item_field legal checked in
        let (items, found, sound) = w.arrays r.field legal is_array in
        let reads : (past || reads_within r.index (array items)) ≡ true =
          subst
            (λ (o : Option Value).
              (past || elim o [ none ↦ true | some raw ↦ reads_within r.index raw ]) ≡ true)
            found u in
        rw (found, resolve_field, index, item)
          (read_array past i k items legal sound member
            (subst (λ (o : Option ℕ). (past || reads_within o (array items)) ≡ true) index reads))
  ]
]

-- Every index in an expression reads an item of an array.
abbrev mutual
  pub indexes_within : (ℕ → Option Value) → ExpressionNode → Bool
  indexes_within values (literal v) = true
  indexes_within values (field_ref r) = field_within values r
  indexes_within values (operation o xs) = indexes_within_all values xs

  pub indexes_within_all : (ℕ → Option Value) → Operands → Bool
  indexes_within_all values end = true
  indexes_within_all values (operand x xs) = indexes_within values x && indexes_within_all values xs
