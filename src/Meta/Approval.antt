-- ===== src/Meta/Approval.antt =====
-- approval.py: the transaction that publishes a reviewed draft as a live template version.
-- An exception inside the `meta_session` block rolls everything back, so an error leaves the database
-- as it was. The exceptions are the classes of the file; `meta_required_fixture_count` of the settings
-- is the argument `configured`.
pub mod Snapshot
pub mod Evidence
pub mod Outcome
pub mod Tests
use si26_math_animation_john.Base.{
  zero, suc, ℕ, ◌∷◌, [], List, String, str_eq, count, any, all, codes, if◌then◌else◌, Option, Bool,
  ◌==◌, leb, ◌||◌, eq_option, update, ◌&&◌, some, true, false, none, ltb, ◌+◌, suc, length, min,
  not, max,
}
use si26_math_animation_john.Meta.ReviewActions.{is_refinable, get_draft, record_review}
use si26_math_animation_john.Meta.Jobs.{get_job}
use si26_math_animation_john.Meta.Models.{
  is_enabled, Report, Decision, FixtureKind, MetaDb, TemplateDraft, TemplateVersion, GenerationJob,
  DraftStatus, VersionStatus, TemplateDraftFixture, is_revoked,
}

pub data Error : Type 0 where
  draft_not_found draft_not_approvable precondition revoked_conflict name_conflict
        approval_conflict :
      Error

pub data Result {ℓ} (A : Type ℓ) : Type ℓ where
  ok : A → Result A
  err : Error → Result A

-- versions.py
abbrev pub dsl_compiler_version : ℕ
dsl_compiler_version = 15

abbrev pub dynamic_renderer_version : ℕ
dynamic_renderer_version = 14

-- The arguments of a call; the ids are its `uuid4().hex`.
pub record Approval : Type 0 where
  pub draft_id : ℕ
  pub template_name : String
  pub reviewer_label : String
  pub math_semantics_confirmed : Bool
  pub owner_session_id : Option ℕ
  pub publish_shared : Bool
  pub version_id : ℕ
  pub review_id : ℕ
  pub now : ℕ

-- _same_owner: NULL is a scope of its own
abbrev pub same_owner : Option ℕ → TemplateVersion → Bool
same_owner owner v = eq_option v.owner_session_id owner

abbrev pub is_named : String → TemplateVersion → Bool
is_named name v = str_eq v.template_name name && is_enabled v.status

-- The rows that _name_is_reserved counts: every holder for a shared name, and the shared and own ones
-- for a private name.
abbrev pub in_scope : Option ℕ → TemplateVersion → Bool
in_scope none v = true
in_scope (some s) v = eq_option v.owner_session_id none || eq_option v.owner_session_id (some s)

unfoldable pub name_is_reserved : MetaDb → String → Option ℕ → Bool
name_is_reserved db name owner =
    ltb 0 (count (λ v. is_named name v && in_scope owner v) db.versions)

job_evidence : Option GenerationJob → ℕ
job_evidence none = 0
job_evidence (some j) = length j.trigger_observation_ids

unfoldable pub required_fixture_count : ℕ → MetaDb → TemplateDraft → Option ℕ → ℕ
unfolding job_evidence
required_fixture_count configured db draft none = configured
required_fixture_count configured db draft (some owner) =
    min configured (max 1 (job_evidence (get_job draft.job_id db.jobs)))

abbrev pub is_some {ℓ} : {A : Type ℓ} → Option A → Bool
is_some none = false
is_some (some a) = true

abbrev pub is_true : Option Bool → Bool
is_true (some true) = true
is_true _ = false

abbrev pub is_positive : FixtureKind → Bool
is_positive FixtureKind.positive = true
is_positive _ = false

-- The observations of the fixtures that count as verified.
unfoldable pub verified_observations : ℕ → List TemplateDraftFixture → List ℕ
verified_observations draft_id [] = []
verified_observations draft_id (f ∷ fs) =
    let rest = verified_observations draft_id fs in
    if (f.draft_id == draft_id)
      && is_positive f.kind
      && is_some f.expected_result_json
      && is_true f.structural_check_passed
    then elim f.observation_id [ none ↦ rest | some o ↦ o ∷ rest ]
    else rest

-- count(distinct ...)
unfoldable pub count_distinct : List ℕ → ℕ
count_distinct [] = 0
count_distinct (x ∷ xs) = (if any (λ y. y == x) xs then 0 else 1) + count_distinct xs

unfoldable pub verified_fixture_count : MetaDb → ℕ → ℕ
verified_fixture_count db draft_id = count_distinct (verified_observations draft_id db.fixtures)

-- _load_passing_report and _require_current_artifact
unfoldable pub is_current : Option Report → ℕ → Bool
is_current none hash = false
is_current (some r) hash = r.passed && eq_option r.artifact_hash (some hash)

-- list(range(n)), compared with what the report holds
unfoldable pub is_range_from : ℕ → ℕ → List ℕ → Bool
is_range_from k zero [] = true
is_range_from k zero (x ∷ xs) = false
is_range_from k (suc n) [] = false
is_range_from k (suc n) (x ∷ xs) = (x == k) && is_range_from (k + 1) n xs

unfoldable pub covers_predicates : Option (List ℕ) → ℕ → Bool
covers_predicates none n = false
covers_predicates (some xs) n = is_range_from 0 n xs

unfoldable pub is_for_runtime : Option Report → ℕ → Bool
unfolding covers_predicates
is_for_runtime none n = false
is_for_runtime (some r) n =
    eq_option r.compiler_version (some dsl_compiler_version)
    && eq_option r.renderer_version (some dynamic_renderer_version)
    && covers_predicates r.negative_predicate_coverage n

-- _require_publishable_draft
unfoldable pub is_publishable : ℕ → MetaDb → TemplateDraft → Bool → Option ℕ → Bool
is_publishable configured db draft confirmed evidence_owner =
    confirmed
    && is_current draft.validation_report draft.artifact_hash
    && is_current draft.quality_report draft.artifact_hash
    && is_for_runtime draft.validation_report draft.predicate_count
    && leb (required_fixture_count configured db draft evidence_owner)
        (verified_fixture_count db draft.id)

-- fullmatch of [a-z][a-z0-9_]*
is_lower : ℕ → Bool
is_lower c = leb b'a' c && leb c b'z'

is_name_char : ℕ → Bool
unfolding is_lower
is_name_char c = is_lower c || (leb b'0' c && leb c b'9') || (c == b'_')

is_name : List ℕ → Bool
unfolding is_lower is_name_char
is_name [] = false
is_name (c ∷ cs) = is_lower c && all is_name_char cs

unfoldable pub static_template_names : List String
static_template_names =
    "number_line" ∷ "array_grid" ∷ "text_card" ∷ "fraction_bar" ∷ "balance_scale"
    ∷ "fraction_of_whole" ∷ []

unfoldable pub is_template_name : String → Bool
unfolding is_name static_template_names
is_template_name name = is_name (codes name) && not (any (λ s. str_eq s name) static_template_names)

abbrev pub replaces : String → ℕ → Option ℕ → TemplateVersion → Bool
replaces name key scope v = is_named name v && (v.fingerprint_key == key) && same_owner scope v

-- _require_available_template_name
unfoldable pub is_available : MetaDb → TemplateDraft → String → Option ℕ → Bool
is_available db draft name scope =
    is_template_name name
    && (ltb 0 (count (replaces name draft.fingerprint_key scope) db.versions)
        || not (name_is_reserved db name scope))

-- _disable_replaced_versions
abbrev pub disable_scope : Option ℕ → Bool → TemplateVersion → Bool
disable_scope owner true v = eq_option v.owner_session_id none || same_owner owner v
disable_scope owner false v = same_owner owner v

abbrev pub is_replaced : ℕ → Option ℕ → Bool → TemplateVersion → Bool
is_replaced key owner shared v =
    (v.fingerprint_key == key) && is_enabled v.status && disable_scope owner shared v

unfoldable pub disabled_version : ℕ → TemplateVersion → TemplateVersion
disabled_version now v = record v { status = VersionStatus.disabled; updated_at = now }

unfoldable pub disable_replaced_versions :
    ℕ → Option ℕ → Bool → ℕ → List TemplateVersion → List TemplateVersion
unfolding disabled_version
disable_replaced_versions key owner shared now =
    update (is_replaced key owner shared) (disabled_version now)

unfoldable pub new_template_version : Approval → TemplateDraft → Option ℕ → TemplateVersion
new_template_version a draft owner = record {
  id = a.version_id;
  fingerprint_key = draft.fingerprint_key;
  template_name = a.template_name;
  draft_id = some draft.id;
  artifact_hash = draft.artifact_hash;
  status = VersionStatus.enabled;
  owner_session_id = owner;
  created_at = a.now;
  updated_at = a.now;
}

-- The unique indexes on enabled versions: by key and owner, and by name and owner.
abbrev pub enabled_at : ℕ → Option ℕ → TemplateVersion → Bool
enabled_at key owner v = (v.fingerprint_key == key) && is_enabled v.status && same_owner owner v

abbrev pub named_at : String → Option ℕ → TemplateVersion → Bool
named_at name owner v = is_named name v && same_owner owner v

-- What a flush of the new row meets: the primary key and the two indexes.
unfoldable pub version_clashes : TemplateVersion → List TemplateVersion → Bool
version_clashes v versions =
    any (λ w. w.id == v.id) versions
    || ltb 0 (count (enabled_at v.fingerprint_key v.owner_session_id) versions)
    || ltb 0 (count (named_at v.template_name v.owner_session_id) versions)

abbrev pub pending_draft : ℕ → TemplateDraft → Bool
pending_draft i d = (d.id == i) && is_refinable d.status

unfoldable pub approved_draft : ℕ → TemplateDraft → TemplateDraft
approved_draft now d = record d { status = DraftStatus.approved; updated_at = now }

-- From the claim on: the draft is approved, replaced versions are disabled, the version inserted.
unfoldable pub publish :
    Approval → TemplateDraft → Option ℕ → MetaDb → Result TemplateVersion × MetaDb
unfolding approved_draft record_review
publish a draft scope db =
    if count (pending_draft draft.id) db.drafts == 1
    then (let version = new_template_version a draft scope in
        let versions =
          disable_replaced_versions draft.fingerprint_key a.owner_session_id a.publish_shared a.now
            db.versions in
        if version_clashes version versions then (err approval_conflict, db) else (
          ok version,
          record_review a.review_id draft.id Decision.approve a.reviewer_label none (some true)
              a.now
              (record db {
                drafts = update (pending_draft draft.id) (approved_draft a.now) db.drafts;
                versions = version ∷ versions;
              }),
        ))
    else (err approval_conflict, db)

abbrev pub published_owner : Approval → Option ℕ
published_owner a = if a.publish_shared then none else a.owner_session_id

unfoldable pub approve_found :
    ℕ → Option TemplateDraft → Approval → MetaDb → Result TemplateVersion × MetaDb
approve_found configured none a db = (err draft_not_found, db)
approve_found configured (some draft) a db =
    if not (is_refinable draft.status)
    then (err draft_not_approvable, db)
    else if not (is_publishable configured db draft a.math_semantics_confirmed (published_owner a))
    then (err precondition, db)
    else if ltb 0 (
        count (λ v. (v.fingerprint_key == draft.fingerprint_key) && is_revoked v.status)
          db.versions)
    then (err revoked_conflict, db)
    else if not (is_available db draft a.template_name (published_owner a))
    then (err name_conflict, db)
    else publish a draft (published_owner a) db

unfoldable pub approve_draft_service : ℕ → Approval → MetaDb → Result TemplateVersion × MetaDb
unfolding approve_found
approve_draft_service configured a db =
    approve_found configured (get_draft a.draft_id db.drafts) a db
