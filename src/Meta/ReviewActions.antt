-- ===== src/Meta/ReviewActions.antt =====
-- review_actions.py: a rejected draft sends its job back to the queue, or to manual authoring.
-- A `with meta_session()` block commits what it wrote, and an exception rolls all of it back.
pub mod Requeue
use si26_math_animation_john.Base.{
  ℕ, ◌+◌, Bool, true, false, ◌&&◌, Option, none, some, List, [], ◌∷◌, String, ltb, leb, ◌==◌,
  if◌then◌else◌, update, count,
}
use si26_math_animation_john.Meta.Models.{
  JobStatus, GenerationJob, DraftStatus, TemplateDraft, Decision, TemplateReview, MetaDb,
  active_for,
}
use si26_math_animation_john.Meta.Jobs.{get_job, mark_needs_manual, has_id}

pub data Error : Type 0 where
  not_refinable integrity missing_job : Error

-- `RefinementOutcome.requeued`, or the exception that leaves the block.
pub data Outcome : Type 0 where
  requeued : Bool → Outcome
  raised : Error → Outcome

abbrev pub is_refinable : DraftStatus → Bool
is_refinable DraftStatus.pending_review = true
is_refinable _ = false

-- session.get(TemplateDraft, draft_id)
unfoldable pub get_draft : ℕ → List TemplateDraft → Option TemplateDraft
get_draft i [] = none
get_draft i (d ∷ ds) = if d.id == i then some d else get_draft i ds

abbrev pub has_draft_id : ℕ → TemplateDraft → Bool
has_draft_id i d = d.id == i

-- drafts.py, record_review
unfoldable pub record_review :
    ℕ → ℕ → Decision → String → Option String → Option Bool → ℕ → MetaDb → MetaDb
record_review new_id draft_id decision label feedback confirmed now db = record db {
  reviews =
      record {
        id = new_id;
        draft_id = draft_id;
        decision = decision;
        reviewer_label = label;
        feedback = feedback;
        math_semantics_confirmed = confirmed;
        created_at = now;
      }
      ∷ db.reviews;
}

-- A call's arguments; `new_id` is the review's `uuid4().hex`.
pub record Rejection : Type 0 where
  pub draft_id : ℕ
  pub feedback : String
  pub reviewer_label : String
  pub max_refinements : ℕ
  pub new_id : ℕ
  pub now : ℕ

unfoldable pub rejected_draft : Rejection → TemplateDraft → TemplateDraft
rejected_draft r d = record d {
  status = DraftStatus.rejected;
  reviewer_feedback = some r.feedback;
  updated_at = r.now;
}

-- The review row and the draft's new status, up to the first flush.
unfoldable pub reject_draft : Rejection → MetaDb → MetaDb
unfolding record_review rejected_draft
reject_draft r db =
    let db' =
      record_review r.new_id r.draft_id Decision.reject r.reviewer_label (some r.feedback) none
        r.now db in
    record db' { drafts = update (has_draft_id r.draft_id) (rejected_draft r) db.drafts }

unfoldable pub requeued_job : ℕ → GenerationJob → GenerationJob
requeued_job now j = record j {
  status = JobStatus.queued;
  cooldown_until = none;
  lease_owner = none;
  lease_expires_at = none;
  updated_at = now;
}

-- The second flush: the index on active jobs is checked on the rows that the UPDATE leaves.
unfoldable pub requeue_job : Option GenerationJob → ℕ → MetaDb → MetaDb → Outcome × MetaDb
requeue_job none now before db = (raised missing_job, before)
requeue_job (some job) now before db =
    let jobs = update (has_id job.id) (requeued_job now) db.jobs in
    if ltb 1 (count (active_for job.fingerprint_key job.owner_session_id) jobs)
    then (raised integrity, before)
    else (requeued true, record db { jobs = jobs })

unfoldable pub requeue_draft : Option TemplateDraft → Rejection → MetaDb → Outcome × MetaDb
unfolding requeue_job requeued_job
requeue_draft none r db = (raised not_refinable, db)
requeue_draft (some draft) r db =
    if is_refinable draft.status
    then (let db' = reject_draft r db in
        if leb r.max_refinements draft.revision
        then (
          requeued false,
          record db' { jobs = (mark_needs_manual draft.job_id r.now db'.jobs).1 },
        )
        else requeue_job (get_job draft.job_id db'.jobs) r.now db db')
    else (raised not_refinable, db)

unfoldable pub requeue_for_refinement : Rejection → MetaDb → Outcome × MetaDb
unfolding requeue_draft
requeue_for_refinement r db = requeue_draft (get_draft r.draft_id db.drafts) r db
