-- ===== src/Dsl/Expression/Compile.antt =====
-- What `compile_expression` accepts, by an independent measure of the expression.
use si26_math_animation_john.Dsl.Expression.{
  Error, ExpressionNode, Operands, operation, literal, field_ref, operand, end, FieldContract,
  is_finite, validate_field_ref, max_expression_depth, max_expression_operations, walk, walk_all,
  Walk, walked, raised, compile_expression,
}
use si26_math_animation_john.Base.{
  ℕ, ◌+◌, ◌≤◌, max, ◌≡◌, refl, ap, ◌∙◌, ◌↔◌, ◌⊎◌, inl, inr, Bool, true, false, ◌&&◌, Option, none,
  some, List, [], ◌∷◌, arith, ltb, count, subst, and→both,
}

abbrev is_none : Option Error → Bool
is_none none = true
is_none (some e) = false

-- The depth of an expression, a leaf's being 0.
unfoldable mutual
  pub depth_of : ExpressionNode → ℕ
  depth_of (operation o xs) = depth_all xs
  depth_of _ = 0

  pub depth_all : Operands → ℕ
  depth_all end = 0
  depth_all (operand x xs) = max (depth_of x + 1) (depth_all xs)

-- The number of its operations.
unfoldable mutual
  pub operations : ExpressionNode → ℕ
  operations (operation o xs) = 1 + operations_all xs
  operations _ = 0

  pub operations_all : Operands → ℕ
  operations_all end = 0
  operations_all (operand x xs) = operations x + operations_all xs

-- Every literal is finite, and every reference fits the declared fields.
unfoldable mutual
  pub leaves_ok : FieldContract → ExpressionNode → Bool
  leaves_ok c (literal v) = is_finite v
  leaves_ok c (field_ref r) = is_none (validate_field_ref r c)
  leaves_ok c (operation o xs) = leaves_all_ok c xs

  pub leaves_all_ok : FieldContract → Operands → Bool
  leaves_all_ok c end = true
  leaves_all_ok c (operand x xs) = leaves_ok c x && leaves_all_ok c xs

-- The fields that it refers to, added to a list from left to right.
unfoldable mutual
  pub fields_of : ExpressionNode → List ℕ → List ℕ
  fields_of (literal v) refs = refs
  fields_of (field_ref r) refs = r.field ∷ refs
  fields_of (operation o xs) refs = fields_all xs refs

  pub fields_all : Operands → List ℕ → List ℕ
  fields_all end refs = refs
  fields_all (operand x xs) refs = fields_all xs (fields_of x refs)

abbrev pub Fits : FieldContract → ExpressionNode → ℕ → ℕ → Type 0
Fits c x depth n =
    (depth + depth_of x ≤ max_expression_depth)
    × (n + operations x ≤ max_expression_operations)
    × (leaves_ok c x ≡ true)

abbrev FitsAll : FieldContract → Operands → ℕ → ℕ → Type 0
FitsAll c xs depth n =
    (depth + depth_all xs ≤ max_expression_depth + 1)
    × (n + operations_all xs ≤ max_expression_operations)
    × (leaves_all_ok c xs ≡ true)

Walk-cases : (w : Walk) → ((p : ℕ × List ℕ) × (w ≡ walked p.0 p.1)) ⊎ ((e : Error) × (w ≡ raised e))
Walk-cases (walked n refs) = inl ((n, refs), refl)
Walk-cases (raised e) = inr (e, refl)

lt_not : {a b : ℕ} → b ≤ a → ltb a b ≡ false
lt_not h = ground arith

pub none_of : (o : Option Error) → is_none o ≡ true → o ≡ none
none_of none h = refl
none_of (some e) h = ground arith

-- What `walk_all` makes of the walk of its first operand.
abbrev continues : FieldContract → Operands → ℕ → Walk → Walk
continues c xs d w = elim w [ walked n refs ↦ walk_all c xs d n refs | raised e ↦ raised e ]

after_first :
    (c : FieldContract) (xs : Operands) (d m : ℕ) (refs' : List ℕ) {w : Walk} {n : ℕ}
    {refs : List ℕ}
    → w ≡ walked n refs
    → continues c xs d w ≡ walked m refs'
    → walk_all c xs d n refs ≡ walked m refs'
after_first c xs d m refs' f e = subst (λ (w : Walk). continues c xs d w ≡ walked m refs') f e

mutual
  unfolding walk depth_of operations leaves_ok fields_of

  walk_sound :
      (c : FieldContract) (x : ExpressionNode) (d n m : ℕ) (refs refs' : List ℕ)
      → n ≤ max_expression_operations
      → walk c x d n refs ≡ walked m refs'
      → Fits c x d n × (m ≡ n + operations x) × (refs' ≡ fields_of x refs)
  walk_sound c (literal v) d n m refs refs' h e = ground arith
  walk_sound c (field_ref r) d n m refs refs' h e = ground arith
  walk_sound c (operation o xs) d n m refs refs' h e =
      let rest =
        walk_all_sound c xs (d + 1) (n + 1) m refs refs' (ground arith) (ground arith)
          (ground arith) in
      ground arith

  walk_all_sound :
      (c : FieldContract) (xs : Operands) (d n m : ℕ) (refs refs' : List ℕ)
      → d ≤ max_expression_depth + 1
      → n ≤ max_expression_operations
      → walk_all c xs d n refs ≡ walked m refs'
      → FitsAll c xs d n × (m ≡ n + operations_all xs) × (refs' ≡ fields_all xs refs)
  walk_all_sound c end d n m refs refs' k h e = ground arith
  walk_all_sound c (operand x xs) d n m refs refs' k h e = elim (Walk-cases (walk c x d n refs)) [
    | inr (why, f) ↦ absurd (ground arith)
    | inl ((n', seen), f) ↦
        let first = walk_sound c x d n n' refs seen h f in
        let rest =
          walk_all_sound c xs d n' m seen refs' k (omega arith) (after_first c xs d m refs' f e) in
        (
          (omega arith, omega arith, ground arith),
          omega arith,
          rest.2 ∙ ap (λ (names : List ℕ). fields_all xs names) first.2,
        )
  ]

mutual
  unfolding walk depth_of operations leaves_ok fields_of

  walk_complete :
      (c : FieldContract) (x : ExpressionNode) (d n : ℕ) (refs : List ℕ)
      → Fits c x d n
      → walk c x d n refs ≡ walked (n + operations x) (fields_of x refs)
  walk_complete c (literal v) d n refs (deep, many, ok) =
      let shallow : ltb max_expression_depth d ≡ false = lt_not (omega arith) in
      let sum : n + 0 ≡ n = omega arith in rw (shallow, ok, sum) refl
  walk_complete c (field_ref r) d n refs (deep, many, ok) =
      let shallow : ltb max_expression_depth d ≡ false = lt_not (omega arith) in
      let sum : n + 0 ≡ n = omega arith in
      rw (shallow, none_of (validate_field_ref r c) ok, sum) refl
  walk_complete c (operation o xs) d n refs (deep, many, ok) =
      let rest = walk_all_complete c xs (d + 1) (n + 1) refs (omega arith, omega arith, ok) in
      let sum : n + 1 + operations_all xs ≡ n + (1 + operations_all xs) = omega arith in
      let shallow : ltb max_expression_depth d ≡ false = lt_not (omega arith) in
      let few : ltb max_expression_operations (n + 1) ≡ false = lt_not (omega arith) in
      rw (shallow, few, rest, sum) refl

  walk_all_complete :
      (c : FieldContract) (xs : Operands) (d n : ℕ) (refs : List ℕ)
      → FitsAll c xs d n
      → walk_all c xs d n refs ≡ walked (n + operations_all xs) (fields_all xs refs)
  walk_all_complete c end d n refs (deep, many, ok) = ground arith
  walk_all_complete c (operand x xs) d n refs (deep, many, ok) =
      let both = and→both (leaves_ok c x) (leaves_all_ok c xs) ok in
      let first = walk_complete c x d n refs (omega arith, omega arith, both.0) in
      let rest =
        walk_all_complete c xs d (n + operations x) (fields_of x refs)
          (omega arith, omega arith, both.1) in
      let sum : n + operations x + operations_all xs ≡ n + (operations x + operations_all xs) =
        omega arith in
      ap (continues c xs d) first
      ∙ rest
      ∙ ap (λ (k : ℕ). walked k (fields_all xs (fields_of x refs))) sum

-- `compile_expression` accepts an expression exactly where it is at most 6 deep, has at most 20
-- operations, its literals are finite and its references fit the declared fields; its walk then ends
-- with the number of its operations and the fields that it refers to.
pub compile_expression-walked :
    (c : FieldContract) (x : ExpressionNode) (m : ℕ) (refs : List ℕ)
    → (compile_expression x c ≡ walked m refs)
      ↔ (Fits c x 0 0 × (m ≡ operations x) × (refs ≡ fields_of x []))
unfolding compile_expression
compile_expression-walked c x m refs =
    let sum : 0 + operations x ≡ operations x = omega arith in
    (
      (λ e.
          let done = walk_sound c x 0 0 m [] refs (omega arith) e in
          (done.0, done.1 ∙ sum, done.2)),
      λ (fits, count, names).
          rw (count, names)
            (walk_complete c x 0 0 [] fits ∙ ap (λ (k : ℕ). walked k (fields_of x [])) sum),
    )
