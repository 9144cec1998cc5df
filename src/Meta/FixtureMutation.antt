-- ===== src/Meta/FixtureMutation.antt =====
-- backend/app/meta/fixture_mutation.py, and from meta/validation.py the coverage of a guard by fixtures:
-- the negative fixtures that are added so that every predicate of the guard is seen to fail. The
-- parameters of a fixture are the function from field names to values.
pub mod Drop
pub mod Search
pub mod Witnesses
pub mod Tests
use si26_math_animation_john.Dsl.Expression.{
  ExpressionNode, literal, field_ref, operation, Operands, end, operand, FieldRef, FieldContract,
  ArrayField, Error,
}
use si26_math_animation_john.Dsl.Evaluation.{
  Scalar, integer, decimal, exact, boolean, text, null, Entry, Item, plain, object, Value, single,
  array, Evaluated, value, raised, get_elem?, entry,
}
use si26_math_animation_john.Dsl.Guard.{
  GuardPredicate, predicate_expressions, compile_guard, check_guard, PredicateResult, GuardResult,
}
use si26_math_animation_john.Base.Int.{ℤ, pos, negsuc}
use si26_math_animation_john.Base.{
  ℕ, zero, suc, ◌+◌, ◌-◌, ◌*◌, ◌/◌, ◌%◌, ◌^◌, ◌≤◌, ◌<◌, min, max, String, ◌≡◌, refl, sym, ap, ◌∙◌,
  subst, ◌≢◌, ◌↔◌, ◌⊎◌, inl, inr, Bool, true, false, ◌&&◌, ◌||◌, not, Option, none, some, List, [],
  ◌∷◌, ◌++◌, map, arith, ltb, leb, ◌==◌, if◌then◌else◌, eq_option, eq_option→eq, eq_option_refl,
  eq→eq_option, Bool-cases, Option-cases, length, all, any, select, count, update, All,
  length-append, count-append, count-le-length, length-select-le, length-reject-add-count,
  count-or-le, count-le-count, count-update, count-update-le, count-update-drop, length-update,
  All-update, any-false, All-any, All-weaken, codes, str_eq, eq_iff,
}

pub data FixtureKind : Type 0 where
  positive negative boundary : FixtureKind

pub data ExpectedOutcome : Type 0 where
  accept reject : ExpectedOutcome

abbrev pub Params : Type 0
Params = ℕ → Option Value

-- ProposedFixture; `is_mutated` is its generation method.
pub record ProposedFixture : Type 0 where
  pub kind : FixtureKind
  pub expected_outcome : ExpectedOutcome
  pub is_mutated : Bool
  pub observation_id : Option ℕ
  pub params : Params

-- A field that holds one value; a text or an enum has no bounds.
pub record ScalarSpec : Type 0 where
  pub name : ℕ
  pub minimum : Option Scalar
  pub maximum : Option Scalar

pub data FieldSpec : Type 0 where
  scalar_spec : ScalarSpec → FieldSpec
  array_spec : ℕ → List ScalarSpec → FieldSpec

-- Python's numbers: `x + k` for an integer k, rounded where x is a float, and `==`.
pub record Numbers : Type 0 where
  pub plus : Scalar → ℤ → Scalar
  pub same : Scalar → Scalar → Bool

abbrev pub is_positive : FixtureKind → Bool
is_positive positive = true
is_positive negative = false
is_positive boundary = false

abbrev pub is_reject : ExpectedOutcome → Bool
is_reject reject = true
is_reject accept = false

abbrev has_id : List ℕ → ℕ → Bool
has_id ids a = any (λ b. b == a) ids

-- `drop_ungrounded_positive_fixtures`, for the ids of the observations that already have a positive.
unfoldable pub drop_from : List ℕ → List ProposedFixture → List ProposedFixture
drop_from used [] = []
drop_from used (f ∷ fs) = elim (is_positive f.kind) [
  | false ↦ f ∷ drop_from used fs
  | true ↦ elim f.observation_id [
    | none ↦ drop_from used fs
    | some o ↦ elim (has_id used o) [
      | true ↦ drop_from used fs
      | false ↦ f ∷ drop_from (o ∷ used) fs
    ]
  ]
]

unfoldable pub drop_ungrounded_positive_fixtures : List ProposedFixture → List ProposedFixture
unfolding drop_from
drop_ungrounded_positive_fixtures fixtures = drop_from [] fixtures

-- field_contract_for of meta/dsl/params.py
abbrev pub spec_name : ScalarSpec → ℕ
spec_name s = s.name

unfoldable pub field_contract_for : List FieldSpec → FieldContract
field_contract_for [] = record { scalars = []; arrays = [] }
field_contract_for (scalar_spec s ∷ specs) =
    let rest : FieldContract = field_contract_for specs in
    record rest { scalars = s.name ∷ rest.scalars }
field_contract_for (array_spec n items ∷ specs) =
    let rest : FieldContract = field_contract_for specs in
    record rest { arrays = record { name = n; item_fields = map spec_name items } ∷ rest.arrays }

-- `_referenced_refs`, from left to right.
unfoldable mutual
  pub referenced_refs : ExpressionNode → List FieldRef
  referenced_refs (literal v) = []
  referenced_refs (field_ref r) = r ∷ []
  referenced_refs (operation o xs) = operand_refs xs

  pub operand_refs : Operands → List FieldRef
  operand_refs end = []
  operand_refs (operand x xs) = referenced_refs x ++ operand_refs xs

unfoldable pub all_refs : List ExpressionNode → List FieldRef
unfolding referenced_refs
all_refs [] = []
all_refs (x ∷ xs) = referenced_refs x ++ all_refs xs

unfoldable pub predicate_refs : GuardPredicate → List FieldRef
unfolding all_refs predicate_expressions
predicate_refs p = all_refs (predicate_expressions p)

unfoldable pub item_spec : Option ℕ → List ScalarSpec → Option ScalarSpec
item_spec item [] = none
item_spec item (s ∷ specs) = if eq_option (some s.name) item then some s else item_spec item specs

-- The spec of the referenced field, then of the scalar that is read.
unfoldable pub spec_for : FieldRef → List FieldSpec → Option ScalarSpec
unfolding item_spec
spec_for r [] = none
spec_for r (scalar_spec s ∷ specs) =
    if s.name == r.field
    then (if eq_option r.item_field none then some s else none)
    else spec_for r specs
spec_for r (array_spec n items ∷ specs) =
    if n == r.field then item_spec r.item_field items else spec_for r specs

unfoldable pub number_of : Scalar → Option Scalar
number_of (integer n) = some (integer n)
number_of (decimal x) = some (decimal x)
number_of (exact a) = none
number_of (boolean b) = none
number_of (text t) = none
number_of null = none

unfoldable pub at_field : Option ℕ → Option Item → Option Scalar
unfolding number_of entry
at_field item none = none
at_field none (some (plain s)) = number_of s
at_field none (some (object es)) = none
at_field (some k) (some (plain s)) = none
at_field (some k) (some (object es)) = elim (entry k es) [ none ↦ none | some s ↦ number_of s ]

unfoldable pub current_item : Option ℕ → Value → Option Item
unfolding get_elem?
current_item none (single item) = some item
current_item none (array items) = none
current_item (some i) (single item) = none
current_item (some i) (array items) = get_elem? items i

-- `_current_value`: the number that a reference reads, none where it cannot be read or is no number.
unfoldable pub current_value : FieldRef → Params → Option Scalar
unfolding current_item at_field
current_value r params = elim (params r.field) [
  | none ↦ none
  | some raw ↦ at_field r.item_field (current_item r.index raw)
]

-- What `_with_value` does: new parameters, a KeyError, IndexError or TypeError, which its caller skips,
-- or a ValueError, which is not caught: `dict` of a text that is not empty.
pub data Mutation : Type 0 where
  mutated : Params → Mutation
  skipped crashed : Mutation

pub data Copied : Type 0 where
  copied : List (List Entry) → Copied
  no_mapping no_pairs : Copied

-- [dict(item) for item in items]
unfoldable pub copies : List Item → Copied
copies [] = copied []
copies (plain (text String.[]) ∷ items) = elim (copies items) [
  | copied rest ↦ copied ([] ∷ rest)
  | no_mapping ↦ no_mapping
  | no_pairs ↦ no_pairs
]
copies (plain (text (String.◌∷◌ c t)) ∷ items) = no_pairs
copies (plain s ∷ items) = no_mapping
copies (object es ∷ items) = elim (copies items) [
  | copied rest ↦ copied (es ∷ rest)
  | no_mapping ↦ no_mapping
  | no_pairs ↦ no_pairs
]

-- items[index] = {**items[index], key: v}
unfoldable pub set_entry : ℕ → Scalar → List Entry → List Entry
set_entry k v [] = record { key = k; scalar = v } ∷ []
set_entry k v (e ∷ es) =
    if e.key == k then record { key = k; scalar = v } ∷ es else e ∷ set_entry k v es

unfoldable pub set_item : ℕ → ℕ → Scalar → List (List Entry) → Option (List Item)
unfolding set_entry
set_item i k v [] = none
set_item zero k v (es ∷ items) = some (object (set_entry k v es) ∷ map object items)
set_item (suc i) k v (es ∷ items) = elim (set_item i k v items) [
  | none ↦ none
  | some rest ↦ some (object es ∷ rest)
]

abbrev pub replace : ℕ → Value → Params → Params
replace f v params g = if g == f then some v else params g

unfoldable pub with_item : ℕ → Option ℕ → ℕ → Scalar → Params → Copied → Mutation
unfolding set_item
with_item f index k v params no_mapping = skipped
with_item f index k v params no_pairs = crashed
with_item f none k v params (copied items) = skipped
with_item f (some i) k v params (copied items) = elim (set_item i k v items) [
  | none ↦ skipped
  | some new ↦ mutated (replace f (array new) params)
]

-- Iterating a text or an object gives texts, and `dict` of the first of them raises the ValueError.
unfoldable pub copies_of : Value → Copied
unfolding copies
copies_of (array items) = copies items
copies_of (single (plain (text String.[]))) = copied []
copies_of (single (plain (text (String.◌∷◌ c t)))) = no_pairs
copies_of (single (plain s)) = no_mapping
copies_of (single (object [])) = copied []
copies_of (single (object (e ∷ es))) = no_pairs

unfoldable pub with_value : FieldRef → Params → Scalar → Mutation
unfolding with_item copies_of
with_value r params v = elim r.item_field [
  | none ↦ mutated (replace r.field (single (plain v)) params)
  | some k ↦ elim (params r.field) [
    | none ↦ skipped
    | some raw ↦ with_item r.field r.index k v params (copies_of raw)
  ]
]
