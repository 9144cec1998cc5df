-- ===== src/Dsl/Evaluation/Fields.antt =====
-- Values of the declared shape, and what reading one of their fields can raise in
-- meta/dsl/expression.py.
use si26_math_animation_john.Dsl.Fraction.{Fraction, IsFraction, magnitude}
use si26_math_animation_john.Dsl.Fraction.Denominators.{limit_denominator-IsFraction}
use si26_math_animation_john.Dsl.Expression.{finite, infinite, nan, FieldContract, has, array_of}
use si26_math_animation_john.Dsl.Evaluation.{
  Scalar, integer, decimal, exact, boolean, text, null, Item, plain, object, Value, single, array,
  EvaluationError, missing_value, index_out_of_range, unknown_item_field, unsupported_type,
  non_finite_value, overflow, divide_by_zero, no_operand, Evaluated, value, raised, ◌>>=◌,
  to_fraction, check_magnitude, get_elem?, entry, at_index, at_item_field, max_numeric_magnitude,
  max_denominator,
}
use si26_math_animation_john.Base.{
  ℕ, zero, suc, ◌*◌, ◌≤◌, ◌<◌, ◌≡◌, refl, subst, inl, inr, Bool, true, false, Option, none, some,
  List, [], ◌∷◌, arith, ltb, ◌||◌, length, Bool-cases, Option-cases, All,
}

-- The denominator of a stored fraction or float is positive.
abbrev pub IsScalar : Scalar → Type 0
IsScalar (exact a) = IsFraction a
IsScalar (decimal (finite n d)) = 0 < d
IsScalar (decimal infinite) = Unit {0}
IsScalar (decimal nan) = Unit {0}
IsScalar (integer n) = Unit {0}
IsScalar (boolean b) = Unit {0}
IsScalar (text t) = Unit {0}
IsScalar null = Unit {0}

-- An item of an array: an object with the legal fields.
abbrev pub IsItem : List ℕ → Item → Type 0
IsItem legal (plain s) = ⊥
IsItem legal (object es) =
    (k : ℕ) → has legal k ≡ true → (s : Scalar) × (entry k es ≡ some s) × IsScalar s

-- Every declared scalar has a scalar, every declared array an array of such items.
pub record Conforms (c : FieldContract) (values : ℕ → Option Value) : Type 0 where
  pub scalars :
      (f : ℕ)
      → has c.scalars f ≡ true
      → (s : Scalar) × (values f ≡ some (single (plain s))) × IsScalar s
  pub arrays :
      (f : ℕ) (legal : List ℕ)
      → array_of f c.arrays ≡ some legal
      → (items : List Item) × (values f ≡ some (array items)) × All (IsItem legal) items

-- The errors that evaluation may raise at values of the declared shape: an index that reads nothing
-- only where `past` says so, and never one that reports a missing or undeclared part.
abbrev pub is_of_value : (past : Bool) → EvaluationError → Bool
is_of_value past missing_value = false
is_of_value past unknown_item_field = false
is_of_value past no_operand = false
is_of_value past index_out_of_range = past
is_of_value past unsupported_type = true
is_of_value past non_finite_value = true
is_of_value past overflow = true
is_of_value past divide_by_zero = true

-- A value with `P`, or one of those errors.
abbrev pub Returns {ℓ} : {A : Type ℓ} → Bool → (A → Type 0) → Evaluated A → Type 0
Returns past P (value a) = P a
Returns past P (raised e) = is_of_value past e ≡ true

-- An index reads an item: the value is an array, and longer than the index.
abbrev pub reads_within : Option ℕ → Value → Bool
reads_within none raw = true
reads_within (some i) (single item) = false
reads_within (some i) (array items) = ltb i (length items)

get_elem?-none :
    (items : List Item) (i : ℕ) → get_elem? items i ≡ none → ltb i (length items) ≡ false
unfolding get_elem?
get_elem?-none [] i e = ground arith
get_elem?-none (x ∷ xs) zero e = absurd (cc)
get_elem?-none (x ∷ xs) (suc i) e = ground (arith, get_elem?-none xs i e)

pub get_elem?-some :
    (items : List Item) (i : ℕ) (item : Item)
    → get_elem? items i ≡ some item
    → ltb i (length items) ≡ true
unfolding get_elem?
get_elem?-some [] i item e = absurd (cc)
get_elem?-some (x ∷ xs) zero item e = ground arith
get_elem?-some (x ∷ xs) (suc i) item e = ground (arith, get_elem?-some xs i item e)

-- A fraction within the bound on magnitudes.
abbrev pub IsWithin : Fraction → Type 0
IsWithin a = IsFraction a × (magnitude a.num ≤ max_numeric_magnitude * a.den)

All-get_elem? :
    (P : Item → Type 0) (items : List Item) (i : ℕ) (item : Item)
    → All P items
    → get_elem? items i ≡ some item
    → P item
unfolding get_elem?
All-get_elem? P [] i item a e = absurd (cc)
All-get_elem? P (x ∷ xs) zero item a e = (let same : x ≡ item = cc in subst P same a.0)
All-get_elem? P (x ∷ xs) (suc i) item a e = All-get_elem? P xs i item a.1 e

-- The rest of `_resolve_field`, once the value is found.
abbrev pub read_at : Option ℕ → Option ℕ → Value → Evaluated Fraction
read_at index item raw = do
  inner ← at_index index raw
  s ← at_item_field item inner
  a ← to_fraction s
  check_magnitude a

module _ (past : Bool) where
  pub Returns-bind {ℓ κ} :
      {A : Type ℓ} {B : Type κ} (P : A → Type 0) (Q : B → Type 0) (m : Evaluated A)
      (f : A → Evaluated B)
      → Returns past P m
      → ((a : A) → P a → Returns past Q (f a))
      → Returns past Q (m >>= f)
  Returns-bind P Q (value a) f h k = k a h
  Returns-bind P Q (raised e) f h k = h

  pub check_magnitude-IsWithin :
      (a : Fraction) → IsFraction a → Returns past IsWithin (check_magnitude a)
  unfolding check_magnitude
  check_magnitude-IsWithin a h =
      elim (Bool-cases (ltb (max_numeric_magnitude * a.den) (magnitude a.num))) [
        | inl large ↦ rw large refl
        | inr small ↦ rw small (h, ground arith)
      ]

  pub to_fraction-IsFraction : (s : Scalar) → IsScalar s → Returns past IsFraction (to_fraction s)
  unfolding to_fraction
  to_fraction-IsFraction (exact a) h = h
  to_fraction-IsFraction (decimal (finite n d)) h =
      limit_denominator-IsFraction max_denominator n d (omega arith) h
  to_fraction-IsFraction (decimal infinite) h = refl
  to_fraction-IsFraction (decimal nan) h = refl
  to_fraction-IsFraction (integer n) h = omega arith
  to_fraction-IsFraction (boolean b) h = refl
  to_fraction-IsFraction (text t) h = refl
  to_fraction-IsFraction null h = refl

  pub number-IsWithin :
      (s : Scalar) → IsScalar s → Returns past IsWithin (to_fraction s >>= check_magnitude)
  number-IsWithin s h =
      Returns-bind IsFraction IsWithin (to_fraction s) check_magnitude (to_fraction-IsFraction s h)
        check_magnitude-IsWithin

  pub read_scalar :
      (index : Option ℕ) (s : Scalar)
      → IsScalar s
      → (past || reads_within index (single (plain s))) ≡ true
      → Returns past IsWithin (read_at index none (single (plain s)))
  unfolding at_index at_item_field
  read_scalar none s h k = number-IsWithin s h
  read_scalar (some i) s h k = ground arith

  read_item :
      (k : ℕ) (item : Item) (legal : List ℕ)
      → IsItem legal item
      → has legal k ≡ true
      → Returns past IsWithin (read_at none (some k) (single item))
  unfolding at_index at_item_field
  read_item k (plain s) legal h e = absurd h
  read_item k (object es) legal h e =
      let (s, found, sound) = h k e in rw (found, at_item_field) (number-IsWithin s sound)

  pub read_array :
      (i k : ℕ) (items : List Item) (legal : List ℕ)
      → All (IsItem legal) items
      → has legal k ≡ true
      → (past || reads_within (some i) (array items)) ≡ true
      → Returns past IsWithin (read_at (some i) (some k) (array items))
  unfolding at_index
  read_array i k items legal a e w = elim (Option-cases (get_elem? items i)) [
    | inl short ↦ rw (short, at_index) (ground (arith, get_elem?-none items i short))
    | inr (item, found) ↦
        rw (found, at_index)
          (read_item k item legal (All-get_elem? (IsItem legal) items i item a found) e)
  ]
