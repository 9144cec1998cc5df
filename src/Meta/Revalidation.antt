-- ===== src/Meta/Revalidation.antt =====
-- backend/app/meta/revalidation.py, and update_fixture of meta/review_api.py, whose clearing of a
-- draft's evidence it undoes: one draft with its fixtures, by the columns that the two read and write.
-- JSON texts and hashes are only compared, so they are numbers. The validation is an argument.
pub mod Evidence
pub mod Stale
pub mod Tests
use si26_math_animation_john.Meta.Models.{DraftStatus}
use si26_math_animation_john.Base.{
  ℕ, ◌≡◌, Bool, true, false, not, Option, none, some, List, [], ◌∷◌, ◌==◌, if◌then◌else◌, eq_option,
  map,
}

pub record DraftRow : Type 0 where
  pub status : DraftStatus
  pub validation_report : Option ℕ
  pub quality_report : Option ℕ
  pub preview_artifact_hash : Option ℕ
  pub scene_program : Option ℕ
  pub artifact_hash : ℕ
  pub dsl_schema_versions : ℕ
  pub updated_at : ℕ

pub record FixtureRow : Type 0 where
  pub id : ℕ
  pub params : ℕ
  pub expected_result : Option ℕ
  pub structural_check_passed : Option Bool
  pub structural_check_detail : Option ℕ

-- A draft with its fixtures, by their ids; no draft where the id is unknown.
pub record DraftRows : Type 0 where
  pub draft : Option DraftRow
  pub fixtures : List FixtureRow

-- FixtureCheckResult
pub record CheckResult : Type 0 where
  pub passed : Bool
  pub detail : ℕ

-- What validate_candidate returns: the reports, the scene program and a result for each fixture.
pub record Candidate : Type 0 where
  pub validation_report : ℕ
  pub quality_report : ℕ
  pub preview_artifact_hash : ℕ
  pub scene_program : ℕ
  pub artifact_hash : ℕ
  pub dsl_schema_versions : ℕ
  pub fixture_results : List CheckResult

pub data Outcome : Type 0 where
  revalidated draft_not_found not_revalidatable revalidation_failed : Outcome

abbrev pub is_pending_review : DraftStatus → Bool
is_pending_review DraftStatus.pending_review = true
is_pending_review _ = false

-- `_require_pending_draft`: what it raises, if it does.
unfoldable pub require_pending_draft : Option DraftRow → Option Outcome
require_pending_draft none = some draft_not_found
require_pending_draft (some d) = if is_pending_review d.status then none else some not_revalidatable

-- session.get(TemplateDraftFixture, fixture_id), with the two assignments; none where there is no row
unfoldable pub set_check : ℕ → CheckResult → List FixtureRow → Option (List FixtureRow)
set_check i r [] = none
set_check i r (f ∷ fs) = elim (f.id == i) [
  | true ↦ some (
      record f { structural_check_passed = some r.passed; structural_check_detail = some r.detail }
      ∷ fs)
  | false ↦ elim (set_check i r fs) [ none ↦ none | some rest ↦ some (f ∷ rest) ]
]

-- The loop of `_write_evidence`; none where it raises. A candidate has a result for each fixture that was
-- validated, so `strict=True` raises nothing.
unfoldable pub write_checks : List ℕ → List CheckResult → List FixtureRow → Option (List FixtureRow)
unfolding set_check
write_checks [] [] fs = some fs
write_checks [] (r ∷ rs) fs = none
write_checks (i ∷ is) [] fs = none
write_checks (i ∷ is) (r ∷ rs) fs = elim (set_check i r fs) [
  | none ↦ none
  | some rest ↦ write_checks is rs rest
]

abbrev pub with_evidence : ℕ → Candidate → DraftRow → DraftRow
with_evidence now c d = record d {
  validation_report = some c.validation_report;
  quality_report = some c.quality_report;
  preview_artifact_hash = some c.preview_artifact_hash;
  scene_program = some c.scene_program;
  artifact_hash = c.artifact_hash;
  dsl_schema_versions = c.dsl_schema_versions;
  updated_at = now;
}

-- The second transaction; what it raises rolls it back.
unfoldable pub write_found :
    ℕ → List ℕ → Candidate → Option DraftRow → DraftRows → Outcome × DraftRows
unfolding write_checks
write_found now ids c none rows = (draft_not_found, rows)
write_found now ids c (some d) rows =
    if is_pending_review d.status
    then elim (write_checks ids c.fixture_results rows.fixtures) [
      | none ↦ (not_revalidatable, rows)
      | some fixtures ↦
          (revalidated, record { draft = some (with_evidence now c d); fixtures = fixtures })
    ]
    else (not_revalidatable, rows)

abbrev pub ids_of : List FixtureRow → List ℕ
ids_of fs = map (λ (f : FixtureRow). f.id) fs

abbrev pub params_of : List FixtureRow → List ℕ
params_of fs = map (λ (f : FixtureRow). f.params) fs

-- `validate` takes the params of the fixtures that were read, `meanwhile` is what other requests do
-- while it runs, in no transaction.
unfoldable pub revalidate_draft :
    (List ℕ → Option Candidate) → (DraftRows → DraftRows) → ℕ → DraftRows → Outcome × DraftRows
unfolding require_pending_draft write_found
revalidate_draft validate meanwhile now rows = elim (require_pending_draft rows.draft) [
  | some raised ↦ (raised, meanwhile rows)
  | none ↦ elim (validate (params_of rows.fixtures)) [
    | none ↦ (revalidation_failed, meanwhile rows)
    | some c ↦
        let later : DraftRows = meanwhile rows in
        write_found now (ids_of rows.fixtures) c later.draft later
  ]
]

-- The body of the request.
pub record FixtureUpdate : Type 0 where
  pub params : ℕ
  pub expected_result : ℕ

abbrev pub cleared_draft : DraftRow → DraftRow
cleared_draft d = record d {
  validation_report = none;
  quality_report = none;
  preview_artifact_hash = none;
}

abbrev pub cleared_check : FixtureRow → FixtureRow
cleared_check f = record f { structural_check_passed = none; structural_check_detail = none }

abbrev pub edited_fixture : FixtureUpdate → FixtureRow → FixtureRow
edited_fixture q f =
    let old : FixtureRow = if q.params == f.params then f else cleared_check f in
    record old { params = q.params; expected_result = some q.expected_result }

unfoldable pub find_fixture : ℕ → List FixtureRow → Option FixtureRow
find_fixture i [] = none
find_fixture i (f ∷ fs) = if f.id == i then some f else find_fixture i fs

unfoldable pub write_fixture : FixtureRow → List FixtureRow → List FixtureRow
write_fixture x [] = []
write_fixture x (f ∷ fs) = if f.id == x.id then x ∷ fs else f ∷ write_fixture x fs

-- The two writes of `update_fixture`, once its checks are passed.
unfoldable pub edit_fixture : ℕ → FixtureUpdate → FixtureRow → DraftRow → DraftRows → DraftRows
unfolding write_fixture
edit_fixture now q f d rows =
    let kept : DraftRow = if q.params == f.params then d else cleared_draft d in
    record rows {
      draft = some (record kept { updated_at = now });
      fixtures = write_fixture (edited_fixture q f) rows.fixtures;
    }

-- `answer` is the computed answer of valid params, none where they do not validate or evaluate. The
-- number is the status code.
unfoldable pub update_fixture : (ℕ → Option ℕ) → ℕ → ℕ → FixtureUpdate → DraftRows → ℕ × DraftRows
unfolding find_fixture edit_fixture
update_fixture answer now i q rows = elim (find_fixture i rows.fixtures) [
  | none ↦ (404, rows)
  | some f ↦ elim rows.draft [
    | none ↦ (404, rows)
    | some d ↦
        if not (is_pending_review d.status)
        then (404, rows)
        else if not (eq_option (answer q.params) (some q.expected_result))
        then (422, rows)
        else (200, edit_fixture now q f d rows)
  ]
]
