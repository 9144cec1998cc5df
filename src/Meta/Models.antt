-- ===== src/Meta/Models.antt =====
-- models.py: the tables that the job queue, the review actions and the approval gate share.
-- Identifiers and fingerprint keys are only compared for equality and order, so they are numbers;
-- a time is a number of seconds. An ORM row is a record, a table is the list of its rows.
use si26_math_animation_john.Base.{
  ℕ, ◌≤◌, Bool, true, false, ◌&&◌, Option, List, String, ◌==◌, eq_option, count,
}

pub data JobStatus : Type 0 where
  queued running succeeded failed needs_manual : JobStatus

pub record GenerationJob : Type 0 where
  pub id : ℕ
  pub fingerprint_key : ℕ
  pub fingerprint_version : ℕ
  pub fingerprint_json : String
  pub trigger_observation_ids : List ℕ
  pub status : JobStatus
  pub owner_session_id : Option ℕ
  pub attempt : ℕ
  pub lease_owner : Option ℕ
  pub lease_expires_at : Option ℕ
  pub cooldown_until : Option ℕ
  pub error_summary : Option String
  pub created_at : ℕ
  pub updated_at : ℕ

pub record FallbackObservation : Type 0 where
  pub id : ℕ
  pub candidate_id : ℕ
  pub source_excerpt : String
  pub grade_level : ℕ
  pub observation_kind : ℕ
  pub excluded : Bool
  pub created_at : ℕ

pub record FingerprintTag : Type 0 where
  pub id : ℕ
  pub observation_id : ℕ
  pub fingerprint_version : ℕ
  pub fingerprint_json : String
  pub fingerprint_key : ℕ
  pub is_current : Bool
  pub created_at : ℕ

pub data VersionStatus : Type 0 where
  enabled disabled revoked : VersionStatus

pub record TemplateVersion : Type 0 where
  pub id : ℕ
  pub fingerprint_key : ℕ
  pub template_name : String
  pub draft_id : Option ℕ
  pub artifact_hash : ℕ
  pub status : VersionStatus
  pub owner_session_id : Option ℕ
  pub created_at : ℕ
  pub updated_at : ℕ

pub data DraftStatus : Type 0 where
  generated validating pending_review failed_validation rejected superseded approved : DraftStatus

-- A report is the JSON object that validation stored, by the keys that the approval gate reads.
pub record Report : Type 0 where
  pub passed : Bool
  pub artifact_hash : Option ℕ
  pub compiler_version : Option ℕ
  pub renderer_version : Option ℕ
  pub negative_predicate_coverage : Option (List ℕ)

-- `predicate_count` is the length of the predicates of `guard_document_json`.
pub record TemplateDraft : Type 0 where
  pub id : ℕ
  pub job_id : ℕ
  pub fingerprint_key : ℕ
  pub revision : ℕ
  pub parent_draft_id : Option ℕ
  pub predicate_count : ℕ
  pub artifact_hash : ℕ
  pub status : DraftStatus
  pub validation_report : Option Report
  pub quality_report : Option Report
  pub reviewer_feedback : Option String
  pub created_at : ℕ
  pub updated_at : ℕ

pub data FixtureKind : Type 0 where
  positive negative boundary : FixtureKind

pub record TemplateDraftFixture : Type 0 where
  pub draft_id : ℕ
  pub observation_id : Option ℕ
  pub kind : FixtureKind
  pub expected_result_json : Option String
  pub structural_check_passed : Option Bool

pub data Decision : Type 0 where
  approve reject : Decision

pub record TemplateReview : Type 0 where
  pub id : ℕ
  pub draft_id : ℕ
  pub decision : Decision
  pub reviewer_label : String
  pub feedback : Option String
  pub math_semantics_confirmed : Option Bool
  pub created_at : ℕ

-- The database as one transaction sees it.
pub record MetaDb : Type 0 where
  pub jobs : List GenerationJob
  pub versions : List TemplateVersion
  pub observations : List FallbackObservation
  pub tags : List FingerprintTag
  pub drafts : List TemplateDraft
  pub fixtures : List TemplateDraftFixture
  pub reviews : List TemplateReview

-- An ORM session: what it has written so far, and what `rollback` returns to.
pub record Session : Type 0 where
  pub db : MetaDb
  pub committed : MetaDb

-- status IN ('queued', 'running')
abbrev pub is_active : JobStatus → Bool
is_active JobStatus.queued = true
is_active JobStatus.running = true
is_active _ = false

abbrev pub is_running : JobStatus → Bool
is_running JobStatus.running = true
is_running _ = false

abbrev pub is_queued : JobStatus → Bool
is_queued JobStatus.queued = true
is_queued _ = false

abbrev pub is_enabled : VersionStatus → Bool
is_enabled VersionStatus.enabled = true
is_enabled _ = false

abbrev pub is_revoked : VersionStatus → Bool
is_revoked VersionStatus.revoked = true
is_revoked _ = false

-- The rows that `uq_active_job_per_fingerprint` covers under one key. NULL owners share one
-- scope, by `coalesce` in the index.
abbrev pub active_for : ℕ → Option ℕ → GenerationJob → Bool
active_for key owner j =
    (j.fingerprint_key == key) && is_active j.status && eq_option j.owner_session_id owner

-- The partial unique index on active jobs.
abbrev pub HasUniqueActive : List GenerationJob → Type 0
HasUniqueActive jobs = (key : ℕ) (owner : Option ℕ) → count (active_for key owner) jobs ≤ 1
