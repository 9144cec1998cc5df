-- ===== src/Meta/ReviewActions/Requeue.antt =====
-- What `requeue_for_refinement` leaves behind, on each of its outcomes.
use si26_math_animation_john.Base.{
  ℕ, ◌+◌, ◌≤◌, ◌<◌, ◌≡◌, refl, sym, subst, true, false, Option, none, some, List, [], ◌∷◌, arith,
  ltb, leb, ◌==◌, if◌then◌else◌, update, count, count-update, inl, inr, Bool-cases, eq_option,
  eq_option_refl, eq_option→eq,
}
use si26_math_animation_john.Meta.Models.{
  GenerationJob, DraftStatus, TemplateDraft, MetaDb, is_active, active_for,
}
use si26_math_animation_john.Meta.Jobs.{get_job, has_id, still_claimable}
use si26_math_animation_john.Meta.Jobs.Valid.{IsValid}
use si26_math_animation_john.Meta.Jobs.Rows.{get_job-id, count-update_row, count-row}
use si26_math_animation_john.Meta.ReviewActions.{
  Error, requeued, raised, integrity, is_refinable, has_draft_id, get_draft, Rejection,
  rejected_draft, reject_draft, record_review, requeued_job, requeue_job, requeue_draft,
  requeue_for_refinement,
}

-- Whatever exception `requeue_for_refinement` raises, it leaves the database as it was.
pub requeue_for_refinement-atomic :
    (r : Rejection) (db : MetaDb) (e : Error)
    → (requeue_for_refinement r db).0 ≡ raised e
    → (requeue_for_refinement r db).1 ≡ db
unfolding requeue_for_refinement requeue_draft requeue_job
requeue_for_refinement-atomic r db e h = ground arith

-- A refusal to requeue beside another active job of the same key and owner: the draft is pending
-- with revisions left, its job is not active, and some other job is.
pub record IsConflict (r : Rejection) (db : MetaDb) : Type 0 where
  pub draft : TemplateDraft
  pub job : GenerationJob
  pub found : get_draft r.draft_id db.drafts ≡ some draft
  pub pending : draft.status ≡ DraftStatus.pending_review
  pub left : draft.revision < r.max_refinements
  pub its_job : get_job draft.job_id db.jobs ≡ some job
  pub settled : is_active job.status ≡ false
  pub other : 0 < count (active_for job.fingerprint_key job.owner_session_id) db.jobs

requeue_doubles :
    (i key : ℕ) (owner : Option ℕ) (now : ℕ) (jobs : List GenerationJob) (job : GenerationJob)
    → count (has_id i) jobs ≤ 1
    → get_job i jobs ≡ some job
    → active_for key owner job ≡ false
    → active_for key owner (requeued_job now job) ≡ true
    → 0 < count (active_for key owner) jobs
    → ltb 1 (count (active_for key owner) (update (has_id i) (requeued_job now) jobs)) ≡ true
requeue_doubles i key owner now jobs job u e off on other =
    let moved = count-update_row i (requeued_job now) job (active_for key owner) jobs e u in
    ground arith

-- In a valid table, where the draft is pending with revisions left, its job is not active and another
-- job of the same key and owner is, the call raises an `IntegrityError` and changes nothing.
pub requeue_for_refinement-conflict :
    (r : Rejection) (db : MetaDb)
    → IsValid db.jobs
    → IsConflict r db
    → requeue_for_refinement r db ≡ (raised integrity, db)
unfolding requeue_for_refinement requeue_draft requeue_job reject_draft record_review requeued_job
requeue_for_refinement-conflict r db v c =
    let i : c.job.id ≡ c.draft.job_id = get_job-id c.draft.job_id db.jobs c.job c.its_job in
    let own : eq_option c.job.owner_session_id c.job.owner_session_id ≡ true =
      eq_option_refl c.job.owner_session_id in
    let two : ltb 1 (
          count (active_for c.job.fingerprint_key c.job.owner_session_id)
            (update (has_id c.job.id) (requeued_job r.now) db.jobs))
        ≡ true =
      requeue_doubles c.job.id c.job.fingerprint_key c.job.owner_session_id r.now db.jobs c.job
        (v.unique_ids c.job.id) (subst (λ k. get_job k db.jobs ≡ some c.job) (sym i) c.its_job)
        (ground arith) (ground arith) c.other in
    let more : leb r.max_refinements c.draft.revision ≡ false = let l = c.left in ground arith in
    rw (c.found, c.pending, more, c.its_job, two)

get_draft-rejected :
    (r : Rejection) (ds : List TemplateDraft) (d : TemplateDraft)
    → get_draft r.draft_id ds ≡ some d
    → get_draft r.draft_id (update (has_draft_id r.draft_id) (rejected_draft r) ds)
      ≡ some (rejected_draft r d)
unfolding get_draft rejected_draft
get_draft-rejected r [] d e = ground arith
get_draft-rejected r (x ∷ xs) d e = elim (Bool-cases (x.id == r.draft_id)) [
  | inl hit ↦ ground arith
  | inr miss ↦ rw (miss, miss) (get_draft-rejected r xs d (rw miss at e))
]

module _ (now : ℕ) (job : GenerationJob) (jobs : List GenerationJob) (v : IsValid jobs)
    (e : get_job job.id jobs ≡ some job)
    (room : ltb 1 (
        count
          (active_for job.fingerprint_key job.owner_session_id)
          (update (has_id job.id) (requeued_job now) jobs))
      ≡ false) where
  requeued_active :
      (key : ℕ) (owner : Option ℕ)
      → count (active_for key owner) (update (has_id job.id) (requeued_job now) jobs) ≤ 1
  unfolding requeued_job
  requeued_active key owner = elim (Bool-cases (active_for key owner (requeued_job now job))) [
    | inl on ↦
        let k : job.fingerprint_key ≡ key = ground arith in
        let o : job.owner_session_id ≡ owner =
          eq_option→eq job.owner_session_id owner (ground arith) in
        let at_own : count (active_for job.fingerprint_key job.owner_session_id)
              (update (has_id job.id) (requeued_job now) jobs)
            ≤ 1 =
          ground arith in
        let at_key =
          subst
            (λ x.
              count (active_for x job.owner_session_id)
                (update (has_id job.id) (requeued_job now) jobs)
              ≤ 1)
            k at_own in
        subst (λ x. count (active_for key x) (update (has_id job.id) (requeued_job now) jobs) ≤ 1) o
          at_key
    | inr off ↦
        let moved =
          count-update_row job.id (requeued_job now) job (active_for key owner) jobs e
            (v.unique_ids job.id) in
        let before = v.unique_active key owner in
        let same : count (active_for key owner) (update (has_id job.id) (requeued_job now) jobs)
              + (if active_for key owner job then 1 else 0)
            ≡ count (active_for key owner) jobs + 0 =
          rw off at moved in
        omega arith
  ]

  requeued-IsValid : IsValid (update (has_id job.id) (requeued_job now) jobs)
  unfolding requeued_job
  requeued-IsValid = record {
    unique_ids = λ i. omega (
      arith,
      v.unique_ids i,
      count-update (has_id i) (has_id job.id) (requeued_job now) jobs (λ x h. refl),
    );
    unique_active = requeued_active;
  }

  requeued_claimable :
      count (still_claimable job.id now) (update (has_id job.id) (requeued_job now) jobs) ≡ 1
  unfolding requeued_job
  requeued_claimable =
      let moved =
        count-update_row job.id (requeued_job now) job (still_claimable job.id now) jobs e
          (v.unique_ids job.id) in
      let at_row =
        count-row job.id (still_claimable job.id now) jobs job (λ x h. ground arith) e
          (v.unique_ids job.id) in
      ground arith

-- What a rejection that requeues has done.
pub record IsRequeued (r : Rejection) (db db' : MetaDb) : Type 0 where
  pub draft : TemplateDraft
  pub found : get_draft r.draft_id db.drafts ≡ some draft
  pub left : draft.revision < r.max_refinements
  pub rejected : get_draft r.draft_id db'.drafts ≡ some (rejected_draft r draft)
  pub claimable_now : count (still_claimable draft.job_id r.now) db'.jobs ≡ 1
  pub still_valid : IsValid db'.jobs

requeue_job-requeued :
    (o : Option GenerationJob) (i now : ℕ) (before db : MetaDb)
    → get_job i db.jobs ≡ o
    → IsValid db.jobs
    → (requeue_job o now before db).0 ≡ requeued true
    → (count (still_claimable i now) (requeue_job o now before db).1.jobs ≡ 1)
      × IsValid (requeue_job o now before db).1.jobs
      × ((requeue_job o now before db).1.drafts ≡ db.drafts)
unfolding requeue_job
requeue_job-requeued none i now before db e v h = absurd (ground arith)
requeue_job-requeued (some job) i now before db e v h =
    let same : job.id ≡ i = get_job-id i db.jobs job e in
    let own : get_job job.id db.jobs ≡ some job =
      subst (λ k. get_job k db.jobs ≡ some job) (sym same) e in
    elim (Bool-cases (
      ltb 1 (
        count (active_for job.fingerprint_key job.owner_session_id)
          (update (has_id job.id) (requeued_job now) db.jobs)))) [
            | inl clash ↦ absurd (ground arith)
            | inr room ↦ rw room (
              subst
                  (λ k.
                    count (still_claimable k now)
                      (update (has_id job.id) (requeued_job now) db.jobs)
                    ≡ 1)
                  same (requeued_claimable now job db.jobs v own room),
              requeued-IsValid now job db.jobs v own room,
              refl,
            )
          ]

requeue_draft-requeued :
    (o : Option TemplateDraft) (r : Rejection) (db : MetaDb)
    → get_draft r.draft_id db.drafts ≡ o
    → IsValid db.jobs
    → (requeue_draft o r db).0 ≡ requeued true
    → IsRequeued r db (requeue_draft o r db).1
unfolding requeue_draft reject_draft record_review
requeue_draft-requeued none r db e v h = absurd (ground arith)
requeue_draft-requeued (some d) r db e v h = elim (Bool-cases (is_refinable d.status)) [
  | inr off ↦ absurd (ground arith)
  | inl on ↦ elim (Bool-cases (leb r.max_refinements d.revision)) [
    | inl spent ↦ absurd (ground arith)
    | inr left ↦
        rw (on, left)
          (let done =
              requeue_job-requeued (get_job d.job_id db.jobs) d.job_id r.now db (reject_draft r db)
                refl v (ground arith) in
            record {
              draft = d;
              found = e;
              left = ground arith;
              rejected = rw done.2 (get_draft-rejected r db.drafts d e);
              claimable_now = done.0;
              still_valid = done.1;
            })
  ]
]

-- From a valid table, a rejection that reports a requeue has rejected the draft, which had revisions
-- left; a worker can claim its job at once; and the table is valid.
pub requeue_for_refinement-requeued :
    (r : Rejection) (db : MetaDb)
    → IsValid db.jobs
    → (requeue_for_refinement r db).0 ≡ requeued true
    → IsRequeued r db (requeue_for_refinement r db).1
unfolding requeue_for_refinement
requeue_for_refinement-requeued r db v h =
    requeue_draft-requeued (get_draft r.draft_id db.drafts) r db refl v h
