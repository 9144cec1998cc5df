-- ===== src/Meta/Jobs/Enqueue.antt =====
-- When the two enqueuing functions of jobs.py accept and refuse.
use si26_math_animation_john.Base.{
  ℕ, ◌≤◌, ◌<◌, ◌≡◌, ◌↔◌, ◌⊎◌, refl, ap, sym, ◌∙◌, true, false, Option, none, some, arith, ◌||◌, any,
  inl, inr, Bool-cases,
}
use si26_math_animation_john.Meta.Models.{JobStatus, GenerationJob, MetaDb, Session, is_active}
use si26_math_animation_john.Meta.Jobs.{
  Request, has_id, insert_job, violates, new_job, has_version_available_to, has_active_job,
  has_enabled_version, count_eligible_observations, starting_attempt, attempt_after, latest_job,
  evaluate_and_enqueue, enqueue_from, enqueue_on_demand, cooling, has_new,
}

-- With an id that no job has, an on-demand request is refused exactly if the session can reach an
-- enabled version or has an active job for the key; so the uniqueness constraints never refuse a
-- single writer.
pub enqueue_on_demand-none :
    (r : Request) (owner : ℕ) (s : Session)
    → any (has_id r.new_id) s.db.jobs ≡ false
    → ((enqueue_on_demand r owner s).0 ≡ none) ↔ (
        (has_version_available_to s.db r.fingerprint_key owner
          || has_active_job s.db r.fingerprint_key (some owner))
        ≡ true)
unfolding enqueue_on_demand insert_job violates new_job has_active_job
enqueue_on_demand-none r owner s fresh = (λ h. ground arith, λ h. ground arith)

-- What a prior job allows: the attempts that the next job starts with.
abbrev pub Allows : Option GenerationJob → Request → ℕ → ℕ → Type 0
Allows none r max_attempts n = n ≡ 0
Allows (some p) r max_attempts n =
    ((p.status ≡ JobStatus.failed)
      × (n ≡ p.attempt)
      × (n < max_attempts)
      × (cooling p.cooldown_until r.now ≡ false)
      × (has_new r.trigger_observation_ids p.trigger_observation_ids ≡ true))
    ⊎ ((is_active p.status ≡ true) × (n ≡ 0))

attempt_after-Allows :
    (st : JobStatus) (p : GenerationJob) (r : Request) (m n : ℕ)
    → p.status ≡ st
    → (attempt_after st p r m ≡ some n) ↔ Allows (some p) r m n
unfolding attempt_after
attempt_after-Allows JobStatus.failed p r m n e = (λ h. inl (ground arith), λ h. ground arith)
attempt_after-Allows JobStatus.succeeded p r m n e = (λ h. ground arith, λ h. ground arith)
attempt_after-Allows JobStatus.needs_manual p r m n e = (λ h. ground arith, λ h. ground arith)
attempt_after-Allows JobStatus.queued p r m n e = (λ h. inr (ground arith), λ h. ground arith)
attempt_after-Allows JobStatus.running p r m n e = (λ h. inr (ground arith), λ h. ground arith)

starting_attempt-Allows :
    (o : Option GenerationJob) (r : Request) (m n : ℕ)
    → (starting_attempt o r m ≡ some n) ↔ Allows o r m n
unfolding starting_attempt
starting_attempt-Allows none r m n = (λ h. ground arith, λ h. ground arith)
starting_attempt-Allows (some p) r m n = attempt_after-Allows p.status p r m n refl

insert_new :
    (r : Request) (n : ℕ) (s : Session)
    → any (has_id r.new_id) s.db.jobs ≡ false
    → has_active_job s.db r.fingerprint_key none ≡ false
    → (insert_job (new_job r none n) s).0 ≡ some (new_job r none n)
unfolding insert_job violates new_job has_active_job
insert_new r n s fresh idle = ground arith

new_job-attempt :
    (r : Request) (a n : ℕ) → some (new_job r none a) ≡ some (new_job r none n) → a ≡ n
unfolding new_job
new_job-attempt r a n e = ground arith

enqueue_from-some :
    (o : Option ℕ) (r : Request) (n : ℕ) (s : Session)
    → any (has_id r.new_id) s.db.jobs ≡ false
    → has_active_job s.db r.fingerprint_key none ≡ false
    → ((enqueue_from o r s).0 ≡ some (new_job r none n)) ↔ (o ≡ some n)
unfolding enqueue_from
enqueue_from-some none r n s fresh idle = (λ h. ground arith, λ h. ground arith)
enqueue_from-some (some a) r n s fresh idle = (
  (λ h. ap some (new_job-attempt r a n (sym (insert_new r a s fresh idle) ∙ h))),
  λ h. let e : a ≡ n = ground arith in rw e (insert_new r n s fresh idle),
)

-- The three tests that come before the prior job is read.
abbrev pub IsOpen : Request → ℕ → MetaDb → Type 0
IsOpen r threshold db =
    (has_enabled_version db r.fingerprint_key ≡ false)
    × (has_active_job db r.fingerprint_key none ≡ false)
    × (threshold ≤ count_eligible_observations db r.fingerprint_key)

-- With an id that no job has, the threshold path returns a job exactly if no version is enabled and
-- no ownerless job is active for the key, the eligible observations reach the threshold, and the
-- latest job for the key, whoever owns it, allows the attempts that the new job starts with: there
-- is none, or it failed below the bound with its cooldown over and a new observation, or it is active.
pub evaluate_and_enqueue-some :
    (r : Request) (threshold max_attempts n : ℕ) (s : Session)
    → any (has_id r.new_id) s.db.jobs ≡ false
    → ((evaluate_and_enqueue r threshold max_attempts s).0 ≡ some (new_job r none n))
      ↔ (IsOpen r threshold s.db × Allows (latest_job s.db r.fingerprint_key) r max_attempts n)
unfolding evaluate_and_enqueue
evaluate_and_enqueue-some r threshold m n s fresh =
    let o = starting_attempt (latest_job s.db r.fingerprint_key) r m in
    let allows = starting_attempt-Allows (latest_job s.db r.fingerprint_key) r m n in
    elim (Bool-cases (has_active_job s.db r.fingerprint_key none)) [
      | inl busy ↦ (λ h. absurd (ground arith), λ h. absurd (ground arith))
      | inr idle ↦
          let last = enqueue_from-some o r n s fresh idle in
          (
            (λ h.
                let taken : (enqueue_from o r s).0 ≡ some (new_job r none n) = ground arith in
                ((ground arith, idle, ground arith), allows.0 (last.0 taken))),
            λ h. let taken = last.1 (allows.1 h.1) in ground arith,
          )
    ]
