-- ===== src/Meta/Tests.antt =====
-- Examples of the Meta theorems: small tables on which their hypotheses hold.
use si26_math_animation_john.Meta.Jobs.Enqueue.{
  IsOpen, Allows, enqueue_on_demand-none, evaluate_and_enqueue-some,
}
use si26_math_animation_john.Meta.ReviewActions.Requeue.{
  IsConflict, requeue_for_refinement-conflict, IsRequeued, requeue_for_refinement-requeued,
}
use si26_math_animation_john.Meta.ReviewActions.{
  Rejection, get_draft, requeue_for_refinement, requeue_draft, raised, requeue_job, integrity,
  reject_draft,
}
use si26_math_animation_john.Meta.Jobs.Order.{NoneBefore, claim_next_job-first}
use si26_math_animation_john.Meta.Jobs.Valid.{IsValid}
use si26_math_animation_john.Meta.Jobs.Lease.{claim_exclusive, claim_fences}
use si26_math_animation_john.Meta.Models.{
  JobStatus, MetaDb, GenerationJob, TemplateDraft, TemplateDraftFixture, DraftStatus, Session,
}
use si26_math_animation_john.Meta.Jobs.Reach.{
  AllWithin, Reach, Reach-AllWithin, next, here, claim, Reach-IsValid,
}
use si26_math_animation_john.Meta.Jobs.{
  claim_next_job, claim_candidate, leased, still_claimable, claimable, claim_picked, pick_job,
  earliest, oldest, complete_job, fail_job, Request, enqueue_on_demand, evaluate_and_enqueue,
  new_job, has_version_available_to, get_job, has_active_job, latest_job,
}
use si26_math_animation_john.Base.{
  ℕ, ◌+◌, ◌≡◌, refl, ◌≢◌, ◌↔◌, true, false, ◌||◌, none, some, List, [], ◌∷◌, arith, select, count,
  update,
}

abbrev job_of : ℕ → ℕ → JobStatus → GenerationJob
job_of i key status = record {
  id = i;
  fingerprint_key = key;
  fingerprint_version = 1;
  fingerprint_json = "{}";
  trigger_observation_ids = 5 ∷ [];
  status = status;
  owner_session_id = none;
  attempt = 1;
  lease_owner = none;
  lease_expires_at = none;
  cooldown_until = none;
  error_summary = none;
  created_at = 10 + i;
  updated_at = 10 + i;
}

abbrev two_jobs : List GenerationJob
two_jobs = job_of 1 7 JobStatus.queued ∷ job_of 2 8 JobStatus.queued ∷ []

two_jobs-IsValid : IsValid two_jobs
two_jobs-IsValid = record {
  unique_ids = λ i. ground arith;
  unique_active = λ key owner. ground arith;
}

claim_exclusive_example : (job_of 2 8 JobStatus.queued).id ≢ (job_of 1 7 JobStatus.queued).id
unfolding claim_next_job claim_picked claim_candidate pick_job leased earliest oldest
claim_exclusive_example =
    claim_exclusive 21 60 100 22 60 130 two_jobs (leased 21 60 100 (job_of 1 7 JobStatus.queued))
      (leased 22 60 130 (job_of 2 8 JobStatus.queued)) two_jobs-IsValid refl (omega arith) refl

claim_fences_example :
    (complete_job 1 22 200 (claim_next_job 21 60 100 two_jobs).1
      ≡ (false, (claim_next_job 21 60 100 two_jobs).1))
    × (fail_job 1 22 "boom" 300 3 200 (claim_next_job 21 60 100 two_jobs).1
        ≡ (false, (claim_next_job 21 60 100 two_jobs).1))
unfolding claim_next_job claim_picked claim_candidate pick_job leased earliest oldest
claim_fences_example =
    claim_fences 21 60 100 22 200 300 3 "boom" two_jobs
      (leased 21 60 100 (job_of 1 7 JobStatus.queued)) two_jobs-IsValid refl (omega arith)

claim_next_job-first_example :
    (c : GenerationJob) × (claim_next_job 21 60 100 two_jobs
      ≡ (some (leased 21 60 100 c), update (still_claimable c.id 100) (leased 21 60 100) two_jobs))
    × (count (still_claimable c.id 100) two_jobs ≡ 1)
    × (claimable 100 c ≡ true)
    × NoneBefore c (select (claimable 100) two_jobs)
claim_next_job-first_example =
    claim_next_job-first 21 60 100 two_jobs two_jobs-IsValid (omega arith)

abbrev db_of : List GenerationJob → List TemplateDraft → List TemplateDraftFixture → MetaDb
db_of jobs drafts fixtures = record {
  jobs = jobs;
  versions = [];
  observations = [];
  tags = [];
  drafts = drafts;
  fixtures = fixtures;
  reviews = [];
}

abbrev two_db : MetaDb
two_db = db_of two_jobs [] []

abbrev claimed_db : MetaDb
claimed_db = record two_db { jobs = (claim_next_job 21 60 100 two_jobs).1 }

one_claim : Reach 3 two_db claimed_db
one_claim = next here (claim two_db 21 60 100)

Reach-IsValid_example : IsValid claimed_db.jobs
Reach-IsValid_example = Reach-IsValid 3 one_claim two_jobs-IsValid

Reach-AllWithin_example : AllWithin 3 claimed_db
Reach-AllWithin_example = Reach-AllWithin 3 (omega arith) one_claim (refl, (refl, tt))

abbrev request : Request
request = record {
  fingerprint_key = 9;
  fingerprint_version = 1;
  fingerprint_json = "{}";
  trigger_observation_ids = 5 ∷ [];
  new_id = 3;
  now = 100;
}

abbrev two_session : Session
two_session = record { db = two_db; committed = two_db }

enqueue_on_demand-none_example :
    ((enqueue_on_demand request 4 two_session).0 ≡ none)
    ↔ ((has_version_available_to two_db 9 4 || has_active_job two_db 9 (some 4)) ≡ true)
enqueue_on_demand-none_example = enqueue_on_demand-none request 4 two_session refl

evaluate_and_enqueue-some_example :
    ((evaluate_and_enqueue request 0 3 two_session).0 ≡ some (new_job request none 0))
    ↔ (IsOpen request 0 two_db × Allows (latest_job two_db 9) request 3 0)
evaluate_and_enqueue-some_example = evaluate_and_enqueue-some request 0 3 0 two_session refl

-- A job that succeeded, its draft under review, and a second job of the same key.
abbrev draft_of : ℕ → ℕ → TemplateDraft
draft_of i job_id = record {
  id = i;
  job_id = job_id;
  fingerprint_key = 7;
  revision = 0;
  parent_draft_id = none;
  predicate_count = 0;
  artifact_hash = 77;
  status = DraftStatus.pending_review;
  validation_report = none;
  quality_report = none;
  reviewer_feedback = none;
  created_at = 20;
  updated_at = 20;
}

abbrev rejection : Rejection
rejection = record {
  draft_id = 6;
  feedback = "try again";
  reviewer_label = "teacher";
  max_refinements = 2;
  new_id = 30;
  now = 100;
}

abbrev done_job : GenerationJob
done_job = job_of 1 7 JobStatus.succeeded

abbrev crowded : List GenerationJob
crowded = done_job ∷ job_of 2 7 JobStatus.queued ∷ []

crowded-IsValid : IsValid crowded
crowded-IsValid = record {
  unique_ids = λ i. ground arith;
  unique_active = λ key owner. ground arith;
}

abbrev crowded_db : MetaDb
crowded_db = db_of crowded (draft_of 6 1 ∷ []) []

crowded-IsConflict : IsConflict rejection crowded_db
unfolding get_draft get_job
crowded-IsConflict = record {
  draft = draft_of 6 1;
  job = done_job;
  found = refl;
  pending = refl;
  left = omega arith;
  its_job = refl;
  settled = refl;
  other = omega arith;
}

requeue_for_refinement-conflict_example :
    requeue_for_refinement rejection crowded_db ≡ (raised integrity, crowded_db)
requeue_for_refinement-conflict_example =
    requeue_for_refinement-conflict rejection crowded_db crowded-IsValid crowded-IsConflict

abbrev single_db : MetaDb
single_db = db_of (done_job ∷ []) (draft_of 6 1 ∷ []) []

single-IsValid : IsValid (done_job ∷ [])
single-IsValid = record {
  unique_ids = λ i. ground arith;
  unique_active = λ key owner. ground arith;
}

requeue_for_refinement-requeued_example :
    IsRequeued rejection single_db (requeue_for_refinement rejection single_db).1
unfolding requeue_for_refinement requeue_draft requeue_job get_draft get_job reject_draft
requeue_for_refinement-requeued_example =
    requeue_for_refinement-requeued rejection single_db single-IsValid refl
