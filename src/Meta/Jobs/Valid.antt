-- ===== src/Meta/Jobs/Valid.antt =====
-- The invariant of the jobs table, under each operation of jobs.py.
use si26_math_animation_john.Base.{
  ℕ, ◌≤◌, ◌≡◌, refl, Bool, true, false, ◌&&◌, Option, none, some, List, [], ◌∷◌, String, arith, ltb,
  ◌==◌, eq_option, count, update, count-update, count-update-le, inl, inr, subst, Bool-cases,
  eq_option→eq, any,
}
use si26_math_animation_john.Meta.Models.{
  GenerationJob, Session, is_active, is_running, active_for, HasUniqueActive,
}
use si26_math_animation_john.Meta.Jobs.{
  insert_job, violates, has_id, claim_candidate, claim_next_job, pick_job, complete_job, fail_job,
  get_job, mark_needs_manual, Request, evaluate_and_enqueue, enqueue_on_demand, fail_found,
  claim_picked, enqueue_from, new_job, has_enabled_version, has_active_job,
  count_eligible_observations, starting_attempt, latest_job, failed_job,
}

-- Ids are unique, and so are active jobs under one key and owner.
pub record IsValid (jobs : List GenerationJob) : Type 0 where
  pub unique_ids : (i : ℕ) → count (has_id i) jobs ≤ 1
  pub unique_active : HasUniqueActive jobs

-- An update that keeps ids, keys and owners and activates no row keeps the invariant.
pub record Tame (p : GenerationJob → Bool) (f : GenerationJob → GenerationJob) : Type 0 where
  pub same_id : (j : GenerationJob) → (f j).id ≡ j.id
  pub no_new_active :
      (key : ℕ) (owner : Option ℕ) (j : GenerationJob)
      → p j ≡ true
      → active_for key owner (f j) ≡ true
      → active_for key owner j ≡ true

pub update-IsValid :
    (p : GenerationJob → Bool) (f : GenerationJob → GenerationJob) (jobs : List GenerationJob)
    → Tame p f
    → IsValid jobs
    → IsValid (update p f jobs)
update-IsValid p f jobs t v = record {
  unique_ids = λ i. omega (
    arith,
    v.unique_ids i,
    count-update (has_id i) p f jobs (λ j h. ground (arith, t.same_id j)),
  );
  unique_active = λ key owner. omega (
    arith,
    v.unique_active key owner,
    count-update-le (active_for key owner) p f jobs (t.no_new_active key owner),
  );
}

any→count :
    (p : GenerationJob → Bool) (jobs : List GenerationJob) → any p jobs ≡ false → count p jobs ≡ 0
any→count p [] h = refl
any→count p (j ∷ js) h = ground (arith, any→count p js)

cons_ids :
    (j : GenerationJob) (jobs : List GenerationJob) (i : ℕ)
    → count (has_id j.id) jobs ≡ 0
    → count (has_id i) jobs ≤ 1
    → count (has_id i) (j ∷ jobs) ≤ 1
cons_ids j jobs i z h = elim (Bool-cases (j.id == i)) [
  | inl same ↦
      let e : j.id ≡ i = ground arith in
      let none_left : count (has_id i) jobs ≡ 0 = subst (λ k. count (has_id k) jobs ≡ 0) e z in
      rw same (omega arith)
  | inr other ↦ rw other (omega arith)
]

cons_active :
    (j : GenerationJob) (jobs : List GenerationJob) (key : ℕ) (owner : Option ℕ)
    → (is_active j.status && ltb 0 (count (active_for j.fingerprint_key j.owner_session_id) jobs))
      ≡ false
    → count (active_for key owner) jobs ≤ 1
    → count (active_for key owner) (j ∷ jobs) ≤ 1
cons_active j jobs key owner free h = elim (Bool-cases (active_for key owner j)) [
  | inl same ↦
      let k : j.fingerprint_key ≡ key = ground arith in
      let o : j.owner_session_id ≡ owner = eq_option→eq _ _ (ground arith) in
      let none_left : count (active_for j.fingerprint_key j.owner_session_id) jobs ≡ 0 =
        ground arith in
      let moved : count (active_for key j.owner_session_id) jobs ≡ 0 =
        subst (λ x. count (active_for x j.owner_session_id) jobs ≡ 0) k none_left in
      let moved' : count (active_for key owner) jobs ≡ 0 =
        subst (λ x. count (active_for key x) jobs ≡ 0) o moved in
      rw same (omega arith)
  | inr other ↦ rw other (omega arith)
]

pub insert_job-IsValid :
    (j : GenerationJob) (s : Session)
    → IsValid s.db.jobs
    → IsValid s.committed.jobs
    → IsValid (insert_job j s).1.db.jobs
unfolding insert_job violates
insert_job-IsValid j s v c = elim (Bool-cases (violates j s.db.jobs)) [
  | inl clash ↦ rw clash c
  | inr free ↦ rw free (record {
    unique_ids = λ i.
        cons_ids j s.db.jobs i (any→count (has_id j.id) s.db.jobs (ground arith)) (v.unique_ids i);
    unique_active =
        λ key owner. cons_active j s.db.jobs key owner (ground arith) (v.unique_active key owner);
  })
]

pub claim_candidate-IsValid :
    (c : GenerationJob) (owner lease_seconds now : ℕ) (jobs : List GenerationJob)
    → IsValid jobs
    → IsValid (claim_candidate c owner lease_seconds now jobs).1
unfolding claim_candidate
claim_candidate-IsValid c owner lease_seconds now jobs v =
    update-IsValid _ _ jobs
      (record { same_id = λ j. refl; no_new_active = λ key o j h a. ground arith }) v

pub complete_job-IsValid :
    (job_id owner now : ℕ) (jobs : List GenerationJob)
    → IsValid jobs
    → IsValid (complete_job job_id owner now jobs).1
unfolding complete_job
complete_job-IsValid job_id owner now jobs v =
    update-IsValid _ _ jobs
      (record { same_id = λ j. refl; no_new_active = λ key o j h a. ground arith }) v

fail_found-IsValid :
    (o : Option GenerationJob) (job_id owner : ℕ) (error : String)
    (backoff_base max_attempts now : ℕ) (jobs : List GenerationJob)
    → IsValid jobs
    → IsValid (fail_found o job_id owner error backoff_base max_attempts now jobs).1
unfolding fail_found failed_job
fail_found-IsValid none job_id owner error b m now jobs v = v
fail_found-IsValid (some k) job_id owner error b m now jobs v =
    elim (Bool-cases (is_running k.status && eq_option k.lease_owner (some owner))) [
      | inl held ↦ rw held (
          update-IsValid _ _ jobs
            (record { same_id = λ j. refl; no_new_active = λ key o j h a. ground arith }) v)
      | inr other ↦ rw other v
    ]

pub fail_job-IsValid :
    (job_id owner : ℕ) (error : String) (backoff_base max_attempts now : ℕ)
    (jobs : List GenerationJob)
    → IsValid jobs
    → IsValid (fail_job job_id owner error backoff_base max_attempts now jobs).1
unfolding fail_job
fail_job-IsValid job_id owner error b m now jobs =
    fail_found-IsValid (get_job job_id jobs) job_id owner error b m now jobs

claim_picked-IsValid :
    (o : Option GenerationJob) (owner lease_seconds now : ℕ) (jobs : List GenerationJob)
    → IsValid jobs
    → IsValid (claim_picked o owner lease_seconds now jobs).1
unfolding claim_picked
claim_picked-IsValid none owner lease_seconds now jobs v = v
claim_picked-IsValid (some c) owner lease_seconds now jobs v =
    claim_candidate-IsValid c owner lease_seconds now jobs v

pub claim_next_job-IsValid :
    (owner lease_seconds now : ℕ) (jobs : List GenerationJob)
    → IsValid jobs
    → IsValid (claim_next_job owner lease_seconds now jobs).1
unfolding claim_next_job
claim_next_job-IsValid owner lease_seconds now jobs =
    claim_picked-IsValid (pick_job now jobs) owner lease_seconds now jobs

enqueue_from-IsValid :
    (o : Option ℕ) (r : Request) (s : Session)
    → IsValid s.db.jobs
    → IsValid s.committed.jobs
    → IsValid (enqueue_from o r s).1.db.jobs
unfolding enqueue_from
enqueue_from-IsValid none r s v c = v
enqueue_from-IsValid (some attempt) r s v c = insert_job-IsValid (new_job r none attempt) s v c

pub evaluate_and_enqueue-IsValid :
    (r : Request) (threshold max_attempts : ℕ) (s : Session)
    → IsValid s.db.jobs
    → IsValid s.committed.jobs
    → IsValid (evaluate_and_enqueue r threshold max_attempts s).1.db.jobs
unfolding evaluate_and_enqueue
evaluate_and_enqueue-IsValid r threshold m s v c =
    elim (Bool-cases (has_enabled_version s.db r.fingerprint_key)) [
      | inl e ↦ rw e v
      | inr e ↦ rw e (elim (Bool-cases (has_active_job s.db r.fingerprint_key none)) [
        | inl a ↦ rw a v
        | inr a ↦
            rw a
              (elim (Bool-cases
                (ltb (count_eligible_observations s.db r.fingerprint_key) threshold)) [
                  | inl t ↦ rw t v
                  | inr t ↦ rw t (
                      enqueue_from-IsValid
                        (starting_attempt (latest_job s.db r.fingerprint_key) r m) r s v c)
                ])
      ])
    ]

pub enqueue_on_demand-IsValid :
    (r : Request) (owner : ℕ) (s : Session)
    → IsValid s.db.jobs
    → IsValid s.committed.jobs
    → IsValid (enqueue_on_demand r owner s).1.db.jobs
unfolding enqueue_on_demand
enqueue_on_demand-IsValid r owner s v c =
    ground (arith, insert_job-IsValid (new_job r (some owner) 0) s v c)

pub mark_needs_manual-IsValid :
    (job_id now : ℕ) (jobs : List GenerationJob)
    → IsValid jobs
    → IsValid (mark_needs_manual job_id now jobs).1
unfolding mark_needs_manual
mark_needs_manual-IsValid job_id now jobs v =
    update-IsValid _ _ jobs
      (record { same_id = λ j. refl; no_new_active = λ key o j h a. ground arith }) v
