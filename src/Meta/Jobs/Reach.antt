-- ===== src/Meta/Jobs/Reach.antt =====
-- The jobs table over any sequence of calls: each call is a transaction of its own.
use si26_math_animation_john.Base.{
  ℕ, ◌+◌, ◌<◌, ◌≡◌, refl, Bool, true, false, Option, none, some, List, [], ◌∷◌, String, arith, ltb,
  ◌==◌, ◌&&◌, ◌||◌, All, All-update, inl, inr, Bool-cases, eq_option,
}
use si26_math_animation_john.Meta.Models.{JobStatus, GenerationJob, MetaDb, Session, is_running}
use si26_math_animation_john.Meta.Jobs.{
  insert_job, violates, has_id, given_up, completed, leased, held_by, still_claimable,
  claim_candidate, claim_next_job, claim_picked, pick_job, complete_job, fail_job, fail_found,
  failed_job, get_job, mark_needs_manual, Request, evaluate_and_enqueue, enqueue_on_demand,
  enqueue_from, new_job, starting_attempt, attempt_after, latest_job, has_enabled_version,
  has_active_job, count_eligible_observations,
}
use si26_math_animation_john.Meta.Jobs.Valid.{
  IsValid, claim_next_job-IsValid, complete_job-IsValid, fail_job-IsValid,
  mark_needs_manual-IsValid, evaluate_and_enqueue-IsValid, enqueue_on_demand-IsValid,
}

abbrev pub opened : MetaDb → Session
opened db = record { db = db; committed = db }

-- One call of jobs.py, at any time and with any arguments, or a change of the other tables.
pub data JobStep (max_attempts : ℕ) : MetaDb → MetaDb → Type 0 where
  evidence :
      (db : MetaDb) (r : Request) (threshold : ℕ)
      → JobStep max_attempts db (evaluate_and_enqueue r threshold max_attempts (opened db)).1.db
  demand :
      (db : MetaDb) (r : Request) (owner : ℕ)
      → JobStep max_attempts db (enqueue_on_demand r owner (opened db)).1.db
  claim :
      (db : MetaDb) (owner lease_seconds now : ℕ)
      → JobStep max_attempts db
          (record db { jobs = (claim_next_job owner lease_seconds now db.jobs).1 })
  complete :
      (db : MetaDb) (job_id owner now : ℕ)
      → JobStep max_attempts db (record db { jobs = (complete_job job_id owner now db.jobs).1 })
  fail :
      (db : MetaDb) (job_id owner : ℕ) (error : String) (backoff_base now : ℕ)
      → JobStep max_attempts db (record db {
        jobs = (fail_job job_id owner error backoff_base max_attempts now db.jobs).1;
      })
  give_up :
      (db : MetaDb) (job_id now : ℕ)
      → JobStep max_attempts db (record db { jobs = (mark_needs_manual job_id now db.jobs).1 })
  elsewhere : (db db' : MetaDb) → db'.jobs ≡ db.jobs → JobStep max_attempts db db'

pub data Reach (max_attempts : ℕ) (start : MetaDb) : MetaDb → Type 0 where
  here : Reach max_attempts start start
  next :
      {db db' : MetaDb}
      → Reach max_attempts start db
      → JobStep max_attempts db db'
      → Reach max_attempts start db'

abbrev is_manual : JobStatus → Bool
is_manual JobStatus.needs_manual = true
is_manual _ = false

-- A job is below the bound on attempts, or at it and handed to a human.
abbrev pub IsWithin : ℕ → GenerationJob → Type 0
IsWithin max_attempts j =
    (ltb j.attempt max_attempts || (is_manual j.status && (j.attempt == max_attempts))) ≡ true

abbrev pub AllWithin : ℕ → MetaDb → Type 0
AllWithin max_attempts db = All (IsWithin max_attempts) db.jobs

module _ (m : ℕ) (positive : 0 < m) where
  get_job-IsWithin :
      (i : ℕ) (jobs : List GenerationJob) (j : GenerationJob)
      → All (IsWithin m) jobs
      → get_job i jobs ≡ some j
      → IsWithin m j
  unfolding get_job
  get_job-IsWithin i [] j a e = ground arith
  get_job-IsWithin i (k ∷ ks) j a e = elim (Bool-cases (k.id == i)) [
    | inl hit ↦ ground arith
    | inr miss ↦ get_job-IsWithin i ks j a.1 (rw miss at e)
  ]

  insert_job-AllWithin :
      (j : GenerationJob) (db : MetaDb)
      → IsWithin m j
      → AllWithin m db
      → AllWithin m (insert_job j (opened db)).1.db
  unfolding insert_job
  insert_job-AllWithin j db w a = elim (Bool-cases (violates j db.jobs)) [
    | inl clash ↦ rw clash a
    | inr free ↦ rw free (w, a)
  ]

  attempt_after-lt :
      (st : JobStatus) (prior : GenerationJob) (r : Request) (n : ℕ)
      → attempt_after st prior r m ≡ some n
      → n < m
  unfolding attempt_after
  attempt_after-lt JobStatus.failed prior r n e = ground arith
  attempt_after-lt _ prior r n e = ground arith

  starting_attempt-lt :
      (o : Option GenerationJob) (r : Request) (n : ℕ) → starting_attempt o r m ≡ some n → n < m
  unfolding starting_attempt
  starting_attempt-lt none r n e = ground arith
  starting_attempt-lt (some prior) r n e = attempt_after-lt prior.status prior r n e

  enqueue_from-AllWithin :
      (o : Option ℕ) (r : Request) (db : MetaDb)
      → ((n : ℕ) → o ≡ some n → n < m)
      → AllWithin m db
      → AllWithin m (enqueue_from o r (opened db)).1.db
  unfolding enqueue_from
  enqueue_from-AllWithin none r db h a = a
  enqueue_from-AllWithin (some n) r db h a =
      insert_job-AllWithin (new_job r none n) db (unfold new_job in ground (arith, h n refl)) a

  evidence-AllWithin :
      (db : MetaDb) (r : Request) (threshold : ℕ)
      → AllWithin m db
      → AllWithin m (evaluate_and_enqueue r threshold m (opened db)).1.db
  unfolding evaluate_and_enqueue
  evidence-AllWithin db r threshold a =
      elim (Bool-cases (has_enabled_version db r.fingerprint_key)) [
        | inl e ↦ rw e a
        | inr e ↦ rw e (elim (Bool-cases (has_active_job db r.fingerprint_key none)) [
          | inl b ↦ rw b a
          | inr b ↦
              rw b
                (elim (Bool-cases
                  (ltb (count_eligible_observations db r.fingerprint_key) threshold)) [
                    | inl t ↦ rw t a
                    | inr t ↦ rw t (
                        enqueue_from-AllWithin
                          (starting_attempt (latest_job db r.fingerprint_key) r m) r db
                          (starting_attempt-lt (latest_job db r.fingerprint_key) r) a)
                  ])
        ])
      ]

  demand-AllWithin :
      (db : MetaDb) (r : Request) (owner : ℕ)
      → AllWithin m db
      → AllWithin m (enqueue_on_demand r owner (opened db)).1.db
  unfolding enqueue_on_demand
  demand-AllWithin db r owner a =
      ground (
        arith,
        insert_job-AllWithin (new_job r (some owner) 0) db (unfold new_job in ground arith) a,
      )

  claim-IsWithin :
      (o : Option GenerationJob) (owner lease_seconds now : ℕ) (jobs : List GenerationJob)
      → All (IsWithin m) jobs
      → All (IsWithin m) (claim_picked o owner lease_seconds now jobs).1
  unfolding claim_picked claim_candidate
  claim-IsWithin none owner l now jobs a = a
  claim-IsWithin (some c) owner l now jobs a =
      All-update (IsWithin m) (still_claimable c.id now) (leased owner l now) jobs
        (λ j h w. ground arith) a

  fail-IsWithin :
      (o : Option GenerationJob) (job_id owner : ℕ) (error : String) (b now : ℕ)
      (jobs : List GenerationJob)
      → ((j : GenerationJob) → o ≡ some j → IsWithin m j)
      → All (IsWithin m) jobs
      → All (IsWithin m) (fail_found o job_id owner error b m now jobs).1
  unfolding fail_found failed_job
  fail-IsWithin none job_id owner error b now jobs h a = a
  fail-IsWithin (some k) job_id owner error b now jobs h a =
      elim (Bool-cases (is_running k.status && eq_option k.lease_owner (some owner))) [
        | inl held ↦ rw held (
            All-update (IsWithin m) (held_by job_id owner)
              (failed_job error b m now (k.attempt + 1)) jobs (λ j e w. ground (arith, h k refl)) a)
        | inr other ↦ rw other a
      ]

  JobStep-AllWithin : {db db' : MetaDb} → JobStep m db db' → AllWithin m db → AllWithin m db'
  unfolding claim_next_job complete_job fail_job mark_needs_manual
  JobStep-AllWithin (evidence db r threshold) a = evidence-AllWithin db r threshold a
  JobStep-AllWithin (demand db r owner) a = demand-AllWithin db r owner a
  JobStep-AllWithin (claim db owner l now) a =
      claim-IsWithin (pick_job now db.jobs) owner l now db.jobs a
  JobStep-AllWithin (complete db job_id owner now) a =
      All-update (IsWithin m) (held_by job_id owner) (completed now) db.jobs (λ j h w. ground arith)
        a
  JobStep-AllWithin (fail db job_id owner error b now) a =
      fail-IsWithin (get_job job_id db.jobs) job_id owner error b now db.jobs
        (λ j e. get_job-IsWithin job_id db.jobs j a e) a
  JobStep-AllWithin (give_up db job_id now) a =
      All-update (IsWithin m) (has_id job_id) (given_up now) db.jobs (λ j h w. ground arith) a
  JobStep-AllWithin (elsewhere db db' e) a = rw e a

JobStep-IsValid : (m : ℕ) {db db' : MetaDb} → JobStep m db db' → IsValid db.jobs → IsValid db'.jobs
JobStep-IsValid m (evidence db r threshold) v =
    evaluate_and_enqueue-IsValid r threshold m (opened db) v v
JobStep-IsValid m (demand db r owner) v = enqueue_on_demand-IsValid r owner (opened db) v v
JobStep-IsValid m (claim db owner l now) v = claim_next_job-IsValid owner l now db.jobs v
JobStep-IsValid m (complete db job_id owner now) v = complete_job-IsValid job_id owner now db.jobs v
JobStep-IsValid m (fail db job_id owner error b now) v =
    fail_job-IsValid job_id owner error b m now db.jobs v
JobStep-IsValid m (give_up db job_id now) v = mark_needs_manual-IsValid job_id now db.jobs v
JobStep-IsValid m (elsewhere db db' e) v = rw e v

-- From a table with unique ids and at most one active job for each key and owner, every sequence of
-- calls of jobs.py leads to such a table.
pub Reach-IsValid :
    (m : ℕ) {start db : MetaDb} → Reach m start db → IsValid start.jobs → IsValid db.jobs
Reach-IsValid m here v = v
Reach-IsValid m (next r s) v = JobStep-IsValid m s (Reach-IsValid m r v)

-- With a positive bound on attempts, no sequence of calls of jobs.py that are given this bound takes
-- a job past it, and a job at the bound waits for manual authoring.
pub Reach-AllWithin :
    (m : ℕ) → 0 < m → {start db : MetaDb} → Reach m start db → AllWithin m start → AllWithin m db
Reach-AllWithin m p here a = a
Reach-AllWithin m p (next r s) a = JobStep-AllWithin m p s (Reach-AllWithin m p r a)
