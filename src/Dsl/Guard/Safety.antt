-- ===== src/Dsl/Guard/Safety.antt =====
-- What checking a guard of meta/dsl/guard.py can raise where `compile_guard` accepted it.
use si26_math_animation_john.Dsl.Guard.{
  GuardPredicate, range, positive, equals, not_equals, sum_equals, product_equals, divisible_by,
  ordered, compile_all, evaluate_terms, divisible, check_from, PredicateResult,
  check_single_predicate, check_guard, compile_guard, predicate_expressions, GuardResult,
  all_adjacent, order_check,
}
use si26_math_animation_john.Base.Int.{pos}
use mathlib.Core.List.{append-nil}
use si26_math_animation_john.Dsl.Fraction.{
  less, at_most, equal, sum, product, whole, Fraction, is_zero,
}
use si26_math_animation_john.Dsl.Expression.{
  ExpressionNode, FieldContract, Walk, walked, compile_expression,
}
use si26_math_animation_john.Dsl.Evaluation.{Value, Evaluated, value, raised, ◌>>=◌, evaluate}
use si26_math_animation_john.Dsl.Evaluation.Fields.{Conforms, IsWithin, Returns, Returns-bind}
use si26_math_animation_john.Dsl.Evaluation.Safety.{IsNode, compiled-evaluate}
use si26_math_animation_john.Dsl.Evaluation.References.{indexes_within}
use si26_math_animation_john.Base.{
  all, ◌&&◌, ◌||◌, ◌↔◌, ℕ, ◌≡◌, refl, inl, inr, Bool, Option, none, List, [], ◌∷◌, ◌++◌, arith,
  Bool-cases, All, suc, Option-cases, true, not, subst, sym, both→and,
}

-- What the pydantic models ensure of a document: the nodes of every expression.
abbrev pub IsPredicate : GuardPredicate → Type 0
IsPredicate (range v minimum maximum) = IsNode v × IsNode minimum × IsNode maximum
IsPredicate (positive v) = IsNode v
IsPredicate (equals left right) = IsNode left × IsNode right
IsPredicate (not_equals left right) = IsNode left × IsNode right
IsPredicate (sum_equals terms total) = All IsNode terms × IsNode total
IsPredicate (product_equals factors total) = All IsNode factors × IsNode total
IsPredicate (divisible_by v divisor) = IsNode v × IsNode divisor
IsPredicate (ordered terms direction) = All IsNode terms

abbrev Anything {ℓ} : {A : Type ℓ} → A → Type 0
Anything a = Unit {0}

-- A result for each predicate, in order, with its own index and its own outcome.
abbrev pub Matches : (ℕ → Option Value) → ℕ → List GuardPredicate → List PredicateResult → Type 0
Matches values i [] [] = Unit {0}
Matches values i [] (r ∷ rs) = ⊥
Matches values i (p ∷ ps) [] = ⊥
Matches values i (p ∷ ps) (r ∷ rs) =
    (r.index ≡ i)
    × (check_single_predicate p values ≡ value r.passed)
    × Matches values (suc i) ps rs

-- Every index in the expressions of a guard reads an item of an array.
abbrev pub guard_within : (ℕ → Option Value) → List GuardPredicate → Bool
guard_within values =
    all (λ (p : GuardPredicate). all (indexes_within values) (predicate_expressions p))

module _ (past : Bool) (c : FieldContract) (values : ℕ → Option Value)
    (conforms : Conforms c values) where
  -- Expressions that all compile, with indexes that read an item, unless `past` allows others.
  abbrev Accepted : List ExpressionNode → Type 0
  Accepted xs = (compile_all xs c ≡ none) × ((past || all (indexes_within values) xs) ≡ true)

  -- An expression that compiles, of well-formed nodes.
  IsCompiled : ExpressionNode → Type 0
  IsCompiled x = Returns past (Anything {A = Fraction}) (evaluate x values)

  weaken :
      (m : Evaluated Fraction) → Returns past IsWithin m → Returns past (Anything {A = Fraction}) m
  weaken (value a) h = tt
  weaken (raised e) h = h

  compile_all-cons :
      (x : ExpressionNode) (xs : List ExpressionNode)
      → IsNode x
      → Accepted (x ∷ xs)
      → IsCompiled x × Accepted xs
  unfolding compile_all IsCompiled
  compile_all-cons x xs h e = by_walk (compile_expression x c) refl
    where
      by_walk :
          (w : Walk)
          → compile_expression x c ≡ w
          → Returns past (Anything {A = Fraction}) (evaluate x values) × Accepted xs
      by_walk (walked n refs) f = (
        weaken (evaluate x values)
            (compiled-evaluate past c values x n refs conforms h f (ground (arith, e.1))),
        (ground (arith, e.0), ground (arith, e.1)),
      )
      by_walk (Walk.raised why) f = absurd (ground (arith, e.0))

  compile_all-append :
      (xs ys : List ExpressionNode)
      → All IsNode xs
      → Accepted (xs ++ ys)
      → All IsCompiled xs × Accepted ys
  compile_all-append [] ys h e = (tt, e)
  compile_all-append (x ∷ xs) ys h e =
      let first = compile_all-cons x (xs ++ ys) h.0 e in
      let rest = compile_all-append xs ys h.1 first.1 in ((first.0, rest.0), rest.1)

  -- Two values and then a result.
  both-Returns :
      {B : Type 0} (x y : ExpressionNode) (f : Fraction → Fraction → Evaluated B)
      → IsCompiled x
      → IsCompiled y
      → ((a b : Fraction) → Returns past (Anything {A = B}) (f a b))
      → Returns past
          (Anything {A = B})
          (evaluate x values >>= λ a. evaluate y values >>= λ b. f a b)
  unfolding IsCompiled
  both-Returns {B} x y f h k r =
      Returns-bind past Anything Anything (evaluate x values)
        (λ a. evaluate y values >>= λ b. f a b) h
        (λ a u.
          Returns-bind past Anything Anything (evaluate y values) (λ b. f a b) k (λ b v. r a b))

  evaluate_terms-Returns :
      (xs : List ExpressionNode)
      → All IsCompiled xs
      → Returns past (Anything {A = List Fraction}) (evaluate_terms xs values)
  unfolding evaluate_terms IsCompiled
  evaluate_terms-Returns [] h = tt
  evaluate_terms-Returns (x ∷ xs) h =
      Returns-bind past Anything Anything (evaluate x values)
        (λ a. evaluate_terms xs values >>= λ rest. value (a ∷ rest)) h.0
        (λ a u.
          Returns-bind past Anything Anything (evaluate_terms xs values) (λ rest. value (a ∷ rest))
            (evaluate_terms-Returns xs h.1) (λ rest v. tt))

  divisible-Returns : (a b : Fraction) → Returns past (Anything {A = Bool}) (divisible a b)
  unfolding divisible
  divisible-Returns a b = elim (Bool-cases (is_zero b)) [
    | inl zero_divisor ↦ rw zero_divisor refl
    | inr fine ↦ rw fine tt
  ]

  terms-Returns :
      (xs : List ExpressionNode) (y : ExpressionNode) (f : List Fraction → Fraction → Bool)
      → All IsNode xs
      → IsNode y
      → Accepted (xs ++ y ∷ [])
      → Returns past
          (Anything {A = Bool})
          (evaluate_terms xs values >>= λ as_terms. evaluate y values >>= λ b. value (f as_terms b))
  unfolding IsCompiled
  terms-Returns xs y f h k e =
      let parts = compile_all-append xs (y ∷ []) h e in
      let last = compile_all-cons y [] k parts.1 in
      Returns-bind past Anything Anything (evaluate_terms xs values)
        (λ as_terms. evaluate y values >>= λ b. value (f as_terms b))
        (evaluate_terms-Returns xs parts.0)
        (λ as_terms u.
          Returns-bind past Anything Anything (evaluate y values) (λ b. value (f as_terms b)) last.0
            (λ b v. tt))

  check_single_predicate-Returns :
      (p : GuardPredicate)
      → IsPredicate p
      → Accepted (predicate_expressions p)
      → Returns past (Anything {A = Bool}) (check_single_predicate p values)
  unfolding check_single_predicate predicate_expressions IsCompiled
  check_single_predicate-Returns (range v minimum maximum) h e =
      let one = compile_all-cons v (minimum ∷ maximum ∷ []) h.0 e in
      let two = compile_all-cons minimum (maximum ∷ []) h.1 one.1 in
      let three = compile_all-cons maximum [] h.2 two.1 in
      Returns-bind past Anything Anything (evaluate v values)
        (λ a. evaluate minimum values >>= λ low.
          evaluate maximum values >>= λ high. value (at_most low a && at_most a high))
        one.0
        (λ a u.
          both-Returns minimum maximum (λ low high. value (at_most low a && at_most a high)) two.0
            three.0 (λ low high. tt))
  check_single_predicate-Returns (positive v) h e =
      Returns-bind past Anything Anything (evaluate v values) (λ a. value (less (whole (pos 0)) a))
        (compile_all-cons v [] h e).0 (λ a u. tt)
  check_single_predicate-Returns (equals left right) h e =
      let one = compile_all-cons left (right ∷ []) h.0 e in
      let two = compile_all-cons right [] h.1 one.1 in
      both-Returns left right (λ a b. value (equal a b)) one.0 two.0 (λ a b. tt)
  check_single_predicate-Returns (not_equals left right) h e =
      let one = compile_all-cons left (right ∷ []) h.0 e in
      let two = compile_all-cons right [] h.1 one.1 in
      both-Returns left right (λ a b. value (not (equal a b))) one.0 two.0 (λ a b. tt)
  check_single_predicate-Returns (sum_equals terms total) h e =
      terms-Returns terms total (λ xs b. equal (sum xs (whole (pos 0))) b) h.0 h.1 e
  check_single_predicate-Returns (product_equals factors total) h e =
      terms-Returns factors total (λ xs b. equal (product xs (whole (pos 1))) b) h.0 h.1 e
  check_single_predicate-Returns (divisible_by v divisor) h e =
      let one = compile_all-cons v (divisor ∷ []) h.0 e in
      let two = compile_all-cons divisor [] h.1 one.1 in
      both-Returns v divisor divisible one.0 two.0 divisible-Returns
  check_single_predicate-Returns (ordered terms direction) h e =
      let parts = compile_all-append terms [] h (subst Accepted (sym (append-nil terms)) e) in
      Returns-bind past Anything Anything (evaluate_terms terms values)
        (λ xs. value (all_adjacent (order_check direction) xs))
        (evaluate_terms-Returns terms parts.0) (λ xs u. tt)

  Evaluated-path :
      {A : Type 0} (m : Evaluated A)
      → Returns past (Anything {A = A}) m
      → Returns past (λ a. m ≡ value a) m
  Evaluated-path (value a) h = refl
  Evaluated-path (raised e) h = h

  check_from-Matches :
      (i : ℕ) (ps : List GuardPredicate)
      → All IsPredicate ps
      → compile_guard ps c ≡ none
      → (past || guard_within values ps) ≡ true
      → Returns past (Matches values i ps) (check_from i ps values)
  unfolding check_from compile_guard
  check_from-Matches i [] h e u = tt
  check_from-Matches i (p ∷ ps) h e u =
      elim (Option-cases (compile_all (predicate_expressions p) c)) [
        | inr (why, f) ↦ absurd (ground arith)
        | inl f ↦
            let rest = check_from-Matches (suc i) ps h.1 (ground arith) (ground arith) in
            Returns-bind past (λ b. check_single_predicate p values ≡ value b)
              (Matches values i (p ∷ ps)) (check_single_predicate p values)
              (λ b. check_from (suc i) ps values >>= λ rs.
                value (record { index = i; passed = b } ∷ rs))
              (Evaluated-path (check_single_predicate p values)
                (check_single_predicate-Returns p h.0 (f, ground arith)))
              (λ b v.
                Returns-bind past (Matches values (suc i) ps) (Matches values i (p ∷ ps))
                  (check_from (suc i) ps values)
                  (λ rs. value (record { index = i; passed = b } ∷ rs)) rest (λ rs l. (refl, v, l)))
      ]

-- The check of a guard that `compile_guard` accepts, on values of the declared shape, returns one result
-- for each predicate, in order, with the index and the outcome of that predicate, and passes exactly if
-- all do; or it raises unsupported_type, non_finite_value, overflow or divide_by_zero, or, only where some
-- index in the guard is not below the length of an array that it reads (one on a scalar field never is),
-- index_out_of_range. It never raises missing_value or unknown_item_field.
pub check_guard-Matches :
    (c : FieldContract) (values : ℕ → Option Value) (ps : List GuardPredicate)
    → Conforms c values
    → All IsPredicate ps
    → compile_guard ps c ≡ none
    → Returns
        (not (guard_within values ps))
        (λ (g : GuardResult).
          Matches values 0 ps g.predicate_results
          × ((g.passed ≡ true)
              ↔ All (λ (r : PredicateResult). r.passed ≡ true) g.predicate_results))
        (check_guard ps values)
unfolding check_guard
check_guard-Matches c values ps w h e =
    Returns-bind (not (guard_within values ps)) (Matches values 0 ps)
      (λ (g : GuardResult).
        Matches values 0 ps g.predicate_results
        × ((g.passed ≡ true) ↔ All (λ (r : PredicateResult). r.passed ≡ true) g.predicate_results))
      (check_from 0 ps values)
      (λ results. value (record {
        passed = all (λ (r : PredicateResult). r.passed) results;
        predicate_results = results;
      }))
      (check_from-Matches (not (guard_within values ps)) c values w 0 ps h e
        (elim (Bool-cases (guard_within values ps)) [
          | inl inside ↦ ground arith
          | inr outside ↦ ground arith
        ]))
      (λ results m. (m, all_passed results))
  where
    all_passed :
        (rs : List PredicateResult)
        → (all (λ (r : PredicateResult). r.passed) rs ≡ true)
          ↔ All (λ (r : PredicateResult). r.passed ≡ true) rs
    all_passed [] = ((λ u. tt), λ u. refl)
    all_passed (r ∷ rs) = (
      (λ u. (ground arith, (all_passed rs).0 (ground arith))),
      λ u.
          both→and r.passed (all (λ (q : PredicateResult). q.passed) rs) u.0
            ((all_passed rs).1 u.1),
    )
