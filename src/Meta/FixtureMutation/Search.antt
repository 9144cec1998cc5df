-- ===== src/Meta/FixtureMutation/Search.antt =====
-- The search for a witness of each guard predicate in meta/fixture_mutation.py, and the coverage that
-- meta/validation.py requires.
use si26_math_animation_john.Meta.FixtureMutation.{
  negative, reject, Params, ProposedFixture, FieldSpec, ScalarSpec, Numbers, is_positive, is_reject,
  field_contract_for, predicate_refs, spec_for, current_value, with_value, mutated, skipped,
  crashed,
}
use si26_math_animation_john.Dsl.Expression.{FieldRef}
use si26_math_animation_john.Dsl.Evaluation.{Scalar, integer, value, raised}
use si26_math_animation_john.Dsl.Guard.{GuardPredicate, compile_guard, check_guard, PredicateResult}
use si26_math_animation_john.Base.Int.{ℤ, pos, negsuc}
use si26_math_animation_john.Base.{
  ◌++◌, ◌==◌, if◌then◌else◌, ◌&&◌, not, false, Bool, Option, ℕ, List, true, [], ◌∷◌, any, some,
  none, map, suc,
}

abbrev pub has_index : List ℕ → ℕ → Bool
has_index indexes i = any (λ j. j == i) indexes

unfoldable pub failed_indexes : List PredicateResult → List ℕ
failed_indexes [] = []
failed_indexes (r ∷ rs) = let rest = failed_indexes rs in if r.passed then rest else r.index ∷ rest

unfoldable pub failing_indexes : List GuardPredicate → Params → List ℕ
unfolding check_guard failed_indexes
failing_indexes ps params = elim (check_guard ps params) [
  | raised e ↦ []
  | value g ↦ failed_indexes g.predicate_results
]

abbrev bound_candidates : Numbers → Option Scalar → List ℤ → List Scalar
bound_candidates n none ks = []
bound_candidates n (some b) ks = map (n.plus b) ks

-- Each number once, the first time that it occurs.
unfoldable pub distinct_numbers : Numbers → List Scalar → List Scalar → List Scalar
distinct_numbers n seen [] = []
distinct_numbers n seen (x ∷ xs) = elim (any (n.same x) seen) [
  | true ↦ distinct_numbers n seen xs
  | false ↦ x ∷ distinct_numbers n (x ∷ seen) xs
]

unfoldable pub candidate_values : Numbers → ScalarSpec → List Scalar → List Scalar
unfolding distinct_numbers
candidate_values n spec siblings = distinct_numbers n [] (
    bound_candidates n spec.minimum (negsuc 0 ∷ pos 0 ∷ pos 1 ∷ [])
    ++ (bound_candidates n spec.maximum (pos 1 ∷ pos 0 ∷ [])
        ++ (integer (pos 0) ∷ integer (pos 1) ∷ integer (negsuc 0) ∷ siblings)))

-- What a search returns; `stopped` is the ValueError that leaves the function.
pub data Search : Type 0 where
  found : Params → Search
  not_found stopped : Search

-- The first candidate that makes the predicate of this index fail.
unfoldable pub try_values :
    List GuardPredicate → ℕ → Params → FieldRef → List Scalar → Search → Search
unfolding with_value failing_indexes
try_values ps i base r [] rest = rest
try_values ps i base r (x ∷ xs) rest = elim (with_value r base x) [
  | crashed ↦ stopped
  | skipped ↦ try_values ps i base r xs rest
  | mutated params ↦ elim (has_index (failing_indexes ps params) i) [
    | true ↦ found params
    | false ↦ try_values ps i base r xs rest
  ]
]

-- The current values of the references before and after one, in order.
unfoldable pub current_values : List FieldRef → Params → List Scalar
unfolding current_value
current_values [] base = []
current_values (r ∷ rs) base = elim (current_value r base) [
  | none ↦ current_values rs base
  | some v ↦ v ∷ current_values rs base
]

unfoldable pub try_refs :
    Numbers
    → List FieldSpec
    → List GuardPredicate
    → ℕ
    → Params
    → List FieldRef
    → List FieldRef
    → Search
unfolding try_values current_values candidate_values spec_for
try_refs n specs ps i base before [] = not_found
try_refs n specs ps i base before (r ∷ rs) = elim (spec_for r specs) [
  | none ↦ try_refs n specs ps i base (before ++ r ∷ []) rs
  | some spec ↦
      try_values ps i base r (candidate_values n spec (current_values (before ++ rs) base))
        (try_refs n specs ps i base (before ++ r ∷ []) rs)
]

unfoldable pub find_witness :
    Numbers → List FieldSpec → List GuardPredicate → GuardPredicate → ℕ → Params → Search
unfolding try_refs predicate_refs
find_witness n specs ps p i base = try_refs n specs ps i base [] (predicate_refs p)

abbrev pub witness_fixture : Params → ProposedFixture
witness_fixture params = record {
  kind = negative;
  expected_outcome = reject;
  is_mutated = true;
  observation_id = none;
  params = params;
}

-- The fixtures that the loop over the predicates adds; none where a search stops.
unfoldable pub add_witnesses :
    Numbers
    → List FieldSpec
    → List GuardPredicate
    → Params
    → ℕ
    → List GuardPredicate
    → List ℕ
    → Option (List ProposedFixture)
unfolding find_witness failing_indexes
add_witnesses n specs ps base i [] covered = some []
add_witnesses n specs ps base i (p ∷ rest) covered = elim (has_index covered i) [
  | true ↦ add_witnesses n specs ps base (suc i) rest covered
  | false ↦ elim (find_witness n specs ps p i base) [
    | stopped ↦ none
    | not_found ↦ add_witnesses n specs ps base (suc i) rest covered
    | found params ↦
        elim (add_witnesses n specs ps base (suc i) rest (covered ++ failing_indexes ps params)) [
          | none ↦ none
          | some added ↦ some (witness_fixture params ∷ added)
        ]
  ]
]

abbrev pub is_base : ProposedFixture → Bool
is_base f = is_positive f.kind && not (is_reject f.expected_outcome)

unfoldable pub base_of : List ProposedFixture → Option Params
base_of [] = none
base_of (f ∷ fs) = if is_base f then some f.params else base_of fs

-- The predicates that the rejecting fixtures make fail.
unfoldable pub covered_by : List GuardPredicate → List ProposedFixture → List ℕ
unfolding failing_indexes
covered_by ps [] = []
covered_by ps (f ∷ fs) =
    (if is_reject f.expected_outcome then failing_indexes ps f.params else []) ++ covered_by ps fs

unfoldable pub ensure_guard_predicate_witnesses :
    Numbers
    → List FieldSpec
    → List GuardPredicate
    → List ProposedFixture
    → Option (List ProposedFixture)
unfolding add_witnesses covered_by base_of compile_guard field_contract_for
ensure_guard_predicate_witnesses n specs ps fixtures =
    elim (compile_guard ps (field_contract_for specs)) [
      | some e ↦ some fixtures
      | none ↦ elim (base_of fixtures) [
        | none ↦ some fixtures
        | some base ↦ elim (add_witnesses n specs ps base 0 ps (covered_by ps fixtures)) [
          | none ↦ none
          | some added ↦ some (fixtures ++ added)
        ]
      ]
    ]

-- `require_all_fixtures_and_guard_coverage`, its second part: the predicates without a witness.
unfoldable pub uncovered : ℕ → List GuardPredicate → List ℕ → List ℕ
uncovered i [] covered = []
uncovered i (p ∷ ps) covered =
    let rest = uncovered (suc i) ps covered in if has_index covered i then rest else i ∷ rest
