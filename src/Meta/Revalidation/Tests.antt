-- ===== src/Meta/Revalidation/Tests.antt =====
-- Examples of the theorems on revalidation: a draft with two fixtures, one of which is edited meanwhile.
use si26_math_animation_john.Meta.Revalidation.{
  DraftRow, FixtureRow, DraftRows, CheckResult, Candidate, FixtureUpdate, revalidated,
  with_evidence, revalidate_draft, update_fixture, find_fixture,
}
use si26_math_animation_john.Meta.Revalidation.Evidence.{
  stamped, distinct_ids, revalidate_draft-revalidated,
}
use si26_math_animation_john.Meta.Revalidation.Stale.{revalidate_draft-update_fixture}
use si26_math_animation_john.Meta.Models.{DraftStatus}
use si26_math_animation_john.Base.{ℕ, ◌≡◌, refl, true, ltb, Option, none, some, List, [], ◌∷◌, map}

abbrev pending_draft : DraftRow
pending_draft = record {
  status = DraftStatus.pending_review;
  validation_report = none;
  quality_report = none;
  preview_artifact_hash = none;
  scene_program = some 1;
  artifact_hash = 2;
  dsl_schema_versions = 3;
  updated_at = 100;
}

abbrev fixture_of : ℕ → ℕ → FixtureRow
fixture_of i params = record {
  id = i;
  params = params;
  expected_result = none;
  structural_check_passed = none;
  structural_check_detail = none;
}

abbrev two_fixtures : DraftRows
two_fixtures = record {
  draft = some pending_draft;
  fixtures = fixture_of 1 50 ∷ fixture_of 2 60 ∷ [];
}

-- Params below 70 pass.
abbrev check_params : ℕ → CheckResult
check_params p = record { passed = ltb p 70; detail = p }

abbrev candidate_of : List ℕ → Option Candidate
candidate_of params = some (record {
  validation_report = 11;
  quality_report = 12;
  preview_artifact_hash = 13;
  scene_program = 14;
  artifact_hash = 15;
  dsl_schema_versions = 16;
  fixture_results = map check_params params;
})

abbrev the_candidate : Candidate
the_candidate = record {
  validation_report = 11;
  quality_report = 12;
  preview_artifact_hash = 13;
  scene_program = 14;
  artifact_hash = 15;
  dsl_schema_versions = 16;
  fixture_results = check_params 50 ∷ check_params 60 ∷ [];
}

abbrev untouched : DraftRows → DraftRows
untouched rows = rows

revalidate_draft-revalidated_example : revalidate_draft candidate_of untouched 200 two_fixtures ≡ (
  revalidated,
  record {
    draft = some (with_evidence 200 the_candidate pending_draft);
    fixtures = stamped check_params (50 ∷ 60 ∷ []) (fixture_of 1 50 ∷ fixture_of 2 60 ∷ []);
  },
)
unfolding distinct_ids
revalidate_draft-revalidated_example =
    revalidate_draft-revalidated candidate_of untouched 200 two_fixtures check_params pending_draft
      pending_draft the_candidate refl refl refl refl refl refl refl refl

abbrev own_answer : ℕ → Option ℕ
own_answer p = some p

-- Params 80 do not pass, and take the check of the params 60 that they replace.
abbrev to_eighty : FixtureUpdate
to_eighty = record { params = 80; expected_result = 80 }

abbrev edit_second : DraftRows → DraftRows
edit_second rows = (update_fixture own_answer 150 2 to_eighty rows).1

revalidate_draft-update_fixture_example :
    ((revalidate_draft candidate_of edit_second 200 two_fixtures).0 ≡ revalidated)
    × (find_fixture 2 (revalidate_draft candidate_of edit_second 200 two_fixtures).1.fixtures
        ≡ some (record {
          id = 2;
          params = 80;
          expected_result = some 80;
          structural_check_passed = some true;
          structural_check_detail = some 60;
        }))
    × ((revalidate_draft candidate_of edit_second 200 two_fixtures).1.draft
        ≡ some (with_evidence 200 the_candidate pending_draft))
unfolding distinct_ids find_fixture
revalidate_draft-update_fixture_example =
    revalidate_draft-update_fixture candidate_of own_answer 2 150 200 to_eighty two_fixtures
      check_params pending_draft the_candidate (fixture_of 2 60) refl refl refl refl refl refl refl
