-- ===== src/Meta/FixtureMutation/Tests.antt =====
-- Examples of the theorems on fixtures: a guard that asks one field to be positive.
use si26_math_animation_john.Meta.FixtureMutation.{
  FixtureKind, positive, negative, accept, Params, ProposedFixture, FieldSpec, scalar_spec, Numbers,
  field_contract_for, replace, drop_ungrounded_positive_fixtures,
}
use si26_math_animation_john.Meta.FixtureMutation.Search.{
  covered_by, base_of, ensure_guard_predicate_witnesses, witness_fixture,
}
use si26_math_animation_john.Meta.FixtureMutation.Witnesses.{
  IsWitness, Settled, ensure_guard_predicate_witnesses-Settled,
}
use si26_math_animation_john.Meta.FixtureMutation.Drop.{
  is_positive_of, is_not_positive, drop_ungrounded_positive_fixtures-count,
}
use si26_math_animation_john.Dsl.Expression.{field_ref, validate_field_ref, declares, array_of}
use si26_math_animation_john.Dsl.Evaluation.{Scalar, integer, single, plain}
use si26_math_animation_john.Dsl.Guard.{GuardPredicate, compile_guard}
use si26_math_animation_john.Dsl.Guard as Guard
use si26_math_animation_john.Base.Int.{ℤ, pos, negsuc, ◌+ℤ◌, eqb_ℤ}
use si26_math_animation_john.Base.{
  ℕ, ◌≡◌, ◌≤◌, refl, Bool, false, Option, none, some, List, [], ◌∷◌, ◌++◌, length, All, count,
  select, min,
}

abbrev plus_integer : Scalar → ℤ → Scalar
plus_integer (integer n) k = integer (n +ℤ k)
plus_integer s k = s

abbrev same_integer : Scalar → Scalar → Bool
same_integer (integer n) (integer k) = eqb_ℤ n k
same_integer s t = false

abbrev integers : Numbers
integers = record { plus = plus_integer; same = same_integer }

abbrev count_field : List FieldSpec
count_field =
    scalar_spec
      (record { name = 7; minimum = some (integer (pos 0)); maximum = some (integer (pos 9)) })
    ∷ []

abbrev positive_count : List GuardPredicate
positive_count =
    Guard.positive (field_ref (record { field = 7; index = none; item_field = none })) ∷ []

abbrev three : Params
three f = some (single (plain (integer (pos 3))))

abbrev fixture_of : FixtureKind → Option ℕ → ProposedFixture
fixture_of kind observation = record {
  kind = kind;
  expected_outcome = accept;
  is_mutated = false;
  observation_id = observation;
  params = three;
}

abbrev grounded : ProposedFixture
grounded = fixture_of positive (some 5)

ensure_guard_predicate_witnesses-Settled_example :
    (added : List ProposedFixture) × (grounded
        ∷ witness_fixture (replace 7 (single (plain (integer (negsuc 0)))) three)
        ∷ []
      ≡ grounded ∷ [] ++ added)
    × (length added ≤ length positive_count)
    × All (IsWitness positive_count (covered_by positive_count (grounded ∷ []))) added
    × Settled integers count_field positive_count three
        (covered_by positive_count (grounded ∷ []))
        added
        0
        positive_count
unfolding ensure_guard_predicate_witnesses compile_guard validate_field_ref declares array_of
    field_contract_for base_of ◌+ℤ◌
ensure_guard_predicate_witnesses-Settled_example =
    ensure_guard_predicate_witnesses-Settled integers count_field positive_count three
      (grounded ∷ [])
      (grounded ∷ witness_fixture (replace 7 (single (plain (integer (negsuc 0)))) three) ∷ []) refl
      refl refl

abbrev five_fixtures : List ProposedFixture
five_fixtures =
    grounded
    ∷ fixture_of positive none
    ∷ fixture_of negative none
    ∷ grounded
    ∷ fixture_of positive (some 6)
    ∷ []

drop_ungrounded_positive_fixtures-count_example :
    ((o : ℕ)
      → count (is_positive_of (some o)) (drop_ungrounded_positive_fixtures five_fixtures)
        ≡ min 1 (count (is_positive_of (some o)) five_fixtures))
    × (count (is_positive_of none) (drop_ungrounded_positive_fixtures five_fixtures) ≡ 0)
    × (select is_not_positive (drop_ungrounded_positive_fixtures five_fixtures)
        ≡ select is_not_positive five_fixtures)
drop_ungrounded_positive_fixtures-count_example =
    drop_ungrounded_positive_fixtures-count five_fixtures
