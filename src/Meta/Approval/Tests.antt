-- ===== src/Meta/Approval/Tests.antt =====
-- Examples of the approval theorems: a draft with a passing report and one verified fixture.
use si26_math_animation_john.Meta.Approval.Snapshot.{
  HasUniqueNames, approve_draft_service-HasUniqueNames,
}
use si26_math_animation_john.Meta.Approval.Outcome.{IsApproved, approve_draft_service-IsApproved}
use si26_math_animation_john.Meta.Approval.{
  approve_draft_service, Approval, DraftStatus, dsl_compiler_version, new_template_version,
  FixtureKind, approve_found, dynamic_renderer_version, publish, is_publishable, is_current,
  is_for_runtime, covers_predicates, is_range_from, required_fixture_count, job_evidence,
  verified_fixture_count, count_distinct, verified_observations, is_available, is_template_name,
  is_name, is_name_char, is_lower, static_template_names, name_is_reserved, version_clashes,
  disable_replaced_versions, ok,
}
use si26_math_animation_john.Meta.ReviewActions.{get_draft}
use si26_math_animation_john.Meta.Jobs.{get_job}
use si26_math_animation_john.Meta.Models.{Report, TemplateDraftFixture, TemplateDraft, MetaDb}
use si26_math_animation_john.Base.{◌≡◌, refl, true, false, none, some, [], ◌∷◌, arith}

abbrev report : Report
report = record {
  passed = true;
  artifact_hash = some 77;
  compiler_version = some dsl_compiler_version;
  renderer_version = some dynamic_renderer_version;
  negative_predicate_coverage = some (0 ∷ []);
}

abbrev reviewed : TemplateDraft
reviewed = record {
  id = 6;
  job_id = 1;
  fingerprint_key = 7;
  revision = 0;
  parent_draft_id = none;
  predicate_count = 1;
  artifact_hash = 77;
  status = DraftStatus.pending_review;
  validation_report = some report;
  quality_report = some report;
  reviewer_feedback = none;
  created_at = 20;
  updated_at = 20;
}

abbrev verified_fixture : TemplateDraftFixture
verified_fixture = record {
  draft_id = 6;
  observation_id = some 5;
  kind = FixtureKind.positive;
  expected_result_json = some "{}";
  structural_check_passed = some true;
}

abbrev before_db : MetaDb
before_db = record {
  jobs = [];
  versions = [];
  observations = [];
  tags = [];
  drafts = reviewed ∷ [];
  fixtures = verified_fixture ∷ [];
  reviews = [];
}

abbrev approval : Approval
approval = record {
  draft_id = 6;
  template_name = "tape_diagram";
  reviewer_label = "teacher";
  math_semantics_confirmed = true;
  owner_session_id = some 4;
  publish_shared = false;
  version_id = 50;
  review_id = 51;
  now = 100;
}

approval-ok :
    (approve_draft_service 3 approval before_db).0
    ≡ ok (new_template_version approval reviewed (some 4))
unfolding approve_draft_service approve_found publish is_publishable is_current is_for_runtime
    covers_predicates is_range_from required_fixture_count job_evidence verified_fixture_count
    count_distinct verified_observations is_available is_template_name is_name is_name_char is_lower
    static_template_names name_is_reserved version_clashes disable_replaced_versions get_draft
    get_job
approval-ok = refl

approve_draft_service-IsApproved_example :
    IsApproved 3 approval before_db
      (new_template_version approval reviewed (some 4))
      (approve_draft_service 3 approval before_db).1
approve_draft_service-IsApproved_example =
    approve_draft_service-IsApproved 3 approval before_db
      (new_template_version approval reviewed (some 4)) approval-ok

approve_draft_service-HasUniqueNames_example :
    HasUniqueNames (approve_draft_service 3 approval before_db).1.versions
approve_draft_service-HasUniqueNames_example =
    approve_draft_service-HasUniqueNames 3 approval before_db (λ name s. omega arith)
