-- ===== src/Meta/Jobs.antt =====
-- jobs.py: the generation jobs, a queue with leases in one SQL table.
-- A query is a count or a search over the rows; UPDATE ... WHERE changes the rows that match and
-- reports how many they were. `flush` of a new row is refused by the primary key or by the partial
-- unique index on active jobs, and the code then rolls the session back.
pub mod Valid
pub mod Rows
pub mod Enqueue
pub mod Order
pub mod Lease
pub mod Reach
use si26_math_animation_john.Base.{
  ℕ, ◌+◌, ◌-◌, ◌*◌, ◌^◌, Bool, true, false, ◌&&◌, ◌||◌, not, Option, none, some, List, [], ◌∷◌,
  ◌++◌, String, ltb, leb, ◌==◌, if◌then◌else◌, eq_option, any, select, count, update,
}
use si26_math_animation_john.Meta.Models.{
  JobStatus, GenerationJob, FallbackObservation, FingerprintTag, TemplateVersion, MetaDb, Session,
  is_active, is_running, is_queued, is_enabled, active_for,
}

-- count_eligible_observations: the rows of the join of observations and current tags
unfoldable pub tag_matches : ℕ → ℕ → FingerprintTag → Bool
tag_matches key observation t =
    (t.observation_id == observation) && (t.fingerprint_key == key) && t.is_current

unfoldable pub joined_rows : ℕ → List FingerprintTag → List FallbackObservation → ℕ
unfolding tag_matches
joined_rows key tags [] = 0
joined_rows key tags (o ∷ os) =
    (if o.excluded then 0 else count (tag_matches key o.id) tags) + joined_rows key tags os

unfoldable pub count_eligible_observations : MetaDb → ℕ → ℕ
count_eligible_observations db key = joined_rows key db.tags db.observations

unfoldable pub has_active_job : MetaDb → ℕ → Option ℕ → Bool
has_active_job db key owner = ltb 0 (count (active_for key owner) db.jobs)

abbrev pub enabled_for : ℕ → TemplateVersion → Bool
enabled_for key v = (v.fingerprint_key == key) && is_enabled v.status

unfoldable pub has_enabled_version : MetaDb → ℕ → Bool
has_enabled_version db key = ltb 0 (count (enabled_for key) db.versions)

abbrev pub available_to : ℕ → ℕ → TemplateVersion → Bool
available_to key owner v =
    enabled_for key v
    && (eq_option v.owner_session_id none || eq_option v.owner_session_id (some owner))

unfoldable pub has_version_available_to : MetaDb → ℕ → ℕ → Bool
has_version_available_to db key owner = ltb 0 (count (available_to key owner) db.versions)

-- ORDER BY created_at, id
abbrev pub before : GenerationJob → GenerationJob → Bool
before a b = ltb a.created_at b.created_at || ((a.created_at == b.created_at) && ltb a.id b.id)

-- ORDER BY created_at DESC, id DESC LIMIT 1
newest : GenerationJob → Option GenerationJob → GenerationJob
newest j none = j
newest j (some k) = if before j k then k else j

unfoldable pub latest : List GenerationJob → Option GenerationJob
unfolding newest
latest [] = none
latest (j ∷ js) = some (newest j (latest js))

unfoldable pub latest_job : MetaDb → ℕ → Option GenerationJob
latest_job db key = latest (select (λ j. j.fingerprint_key == key) db.jobs)

unfoldable pub latest_owned_job : MetaDb → ℕ → ℕ → Option GenerationJob
latest_owned_job db key owner =
    latest (
      select (λ j. (j.fingerprint_key == key) && eq_option j.owner_session_id (some owner)) db.jobs)

-- What a caller asks to enqueue.
pub record Request : Type 0 where
  pub fingerprint_key : ℕ
  pub fingerprint_version : ℕ
  pub fingerprint_json : String
  pub trigger_observation_ids : List ℕ
  pub new_id : ℕ
  pub now : ℕ

unfoldable pub new_job : Request → Option ℕ → ℕ → GenerationJob
new_job r owner attempt = record {
  id = r.new_id;
  fingerprint_key = r.fingerprint_key;
  fingerprint_version = r.fingerprint_version;
  fingerprint_json = r.fingerprint_json;
  trigger_observation_ids = r.trigger_observation_ids;
  status = JobStatus.queued;
  owner_session_id = owner;
  attempt = attempt;
  lease_owner = none;
  lease_expires_at = none;
  cooldown_until = none;
  error_summary = none;
  created_at = r.now;
  updated_at = r.now;
}

-- The constraints that a flush of `j` meets: the primary key, and the index on active jobs.
unfoldable pub violates : GenerationJob → List GenerationJob → Bool
violates j jobs =
    any (λ k. k.id == j.id) jobs
    || (is_active j.status && ltb 0 (count (active_for j.fingerprint_key j.owner_session_id) jobs))

-- session.add(job); try: session.flush() except IntegrityError: session.rollback()
unfoldable pub insert_job : GenerationJob → Session → Option GenerationJob × Session
insert_job j s =
    if violates j s.db.jobs
    then (none, record s { db = s.committed })
    else (some j, record s { db = record (s.db) { jobs = j ∷ s.db.jobs } })

-- cooldown_until is not None and cooldown_until > now
abbrev pub cooling : Option ℕ → ℕ → Bool
cooling none now = false
cooling (some t) now = ltb now t

abbrev pub contains : List ℕ → ℕ → Bool
contains xs a = any (λ x. x == a) xs

-- set(trigger_observation_ids) - prior_ids is not empty
abbrev pub has_new : List ℕ → List ℕ → Bool
has_new ids prior = any (λ i. not (contains prior i)) ids

-- How many attempts the new job starts with, or `none` where the prior job forbids one.
unfoldable pub attempt_after : JobStatus → GenerationJob → Request → ℕ → Option ℕ
attempt_after JobStatus.succeeded prior r max_attempts = none
attempt_after JobStatus.needs_manual prior r max_attempts = none
attempt_after JobStatus.failed prior r max_attempts =
    if leb max_attempts prior.attempt
    then none
    else if cooling prior.cooldown_until r.now
    then none
    else if has_new r.trigger_observation_ids prior.trigger_observation_ids
    then some prior.attempt
    else none
attempt_after _ prior r max_attempts = some 0

unfoldable pub starting_attempt : Option GenerationJob → Request → ℕ → Option ℕ
unfolding attempt_after
starting_attempt none r max_attempts = some 0
starting_attempt (some prior) r max_attempts = attempt_after prior.status prior r max_attempts

enqueue_from : Option ℕ → Request → Session → Option GenerationJob × Session
enqueue_from none r s = (none, s)
enqueue_from (some attempt) r s = insert_job (new_job r none attempt) s

unfoldable pub evaluate_and_enqueue : Request → ℕ → ℕ → Session → Option GenerationJob × Session
unfolding enqueue_from
evaluate_and_enqueue r threshold max_attempts s =
    if has_enabled_version s.db r.fingerprint_key
    then (none, s)
    else if has_active_job s.db r.fingerprint_key none
    then (none, s)
    else if ltb (count_eligible_observations s.db r.fingerprint_key) threshold
    then (none, s)
    else enqueue_from (starting_attempt (latest_job s.db r.fingerprint_key) r max_attempts) r s

unfoldable pub enqueue_on_demand : Request → ℕ → Session → Option GenerationJob × Session
enqueue_on_demand r owner s =
    if has_version_available_to s.db r.fingerprint_key owner
    then (none, s)
    else if has_active_job s.db r.fingerprint_key (some owner)
    then (none, s)
    else insert_job (new_job r (some owner) 0) s

-- A comparison with NULL is not true.
abbrev pub passed : Option ℕ → ℕ → Bool
passed none now = false
passed (some t) now = leb t now

abbrev pub claimable : ℕ → GenerationJob → Bool
claimable now j =
    (is_queued j.status && (eq_option j.cooldown_until none || passed j.cooldown_until now))
    || (is_running j.status && passed j.lease_expires_at now)

-- ORDER BY created_at, id LIMIT 1
unfoldable pub oldest : GenerationJob → Option GenerationJob → GenerationJob
oldest j none = j
oldest j (some k) = if before k j then k else j

unfoldable pub earliest : List GenerationJob → Option GenerationJob
unfolding oldest
earliest [] = none
earliest (j ∷ js) = some (oldest j (earliest js))

unfoldable pub leased : ℕ → ℕ → ℕ → GenerationJob → GenerationJob
leased owner lease_seconds now j = record j {
  status = JobStatus.running;
  lease_owner = some owner;
  lease_expires_at = some (now + lease_seconds);
  updated_at = now;
}

-- UPDATE ... WHERE id = candidate.id AND claimable. Anything but one row is a lost race. Another
-- worker may have written between the SELECT and this statement.
abbrev pub still_claimable : ℕ → ℕ → GenerationJob → Bool
still_claimable i now j = (j.id == i) && claimable now j

unfoldable pub claim_candidate :
    GenerationJob → ℕ → ℕ → ℕ → List GenerationJob → Option GenerationJob × List GenerationJob
unfolding leased
claim_candidate c owner lease_seconds now jobs = (
  (if count (still_claimable c.id now) jobs == 1
      then some (leased owner lease_seconds now c)
      else none),
  update (still_claimable c.id now) (leased owner lease_seconds now) jobs,
)

unfoldable pub pick_job : ℕ → List GenerationJob → Option GenerationJob
pick_job now jobs = earliest (select (claimable now) jobs)

unfoldable pub claim_picked :
    Option GenerationJob
    → ℕ
    → ℕ
    → ℕ
    → List GenerationJob
    → Option GenerationJob × List GenerationJob
claim_picked none owner lease_seconds now jobs = (none, jobs)
claim_picked (some c) owner lease_seconds now jobs = claim_candidate c owner lease_seconds now jobs

unfoldable pub claim_next_job :
    ℕ → ℕ → ℕ → List GenerationJob → Option GenerationJob × List GenerationJob
unfolding claim_picked
claim_next_job owner lease_seconds now jobs =
    claim_picked (pick_job now jobs) owner lease_seconds now jobs

-- WHERE id = job_id AND status = 'running' AND lease_owner = owner
abbrev pub held_by : ℕ → ℕ → GenerationJob → Bool
held_by job_id owner j =
    (j.id == job_id) && is_running j.status && eq_option j.lease_owner (some owner)

unfoldable pub completed : ℕ → GenerationJob → GenerationJob
completed now j = record j {
  status = JobStatus.succeeded;
  lease_owner = none;
  lease_expires_at = none;
  updated_at = now;
}

unfoldable pub complete_job : ℕ → ℕ → ℕ → List GenerationJob → Bool × List GenerationJob
unfolding completed
complete_job job_id owner now jobs =
    (count (held_by job_id owner) jobs == 1, update (held_by job_id owner) (completed now) jobs)

-- session.get(GenerationJob, job_id)
unfoldable pub get_job : ℕ → List GenerationJob → Option GenerationJob
get_job i [] = none
get_job i (j ∷ js) = if j.id == i then some j else get_job i js

-- What a failure makes of a job whose attempts are now `next_attempt`.
unfoldable pub failed_job : String → ℕ → ℕ → ℕ → ℕ → GenerationJob → GenerationJob
failed_job error backoff_base max_attempts now next_attempt j =
    let spent = leb max_attempts next_attempt in
    record j {
      status = if spent then JobStatus.needs_manual else JobStatus.failed;
      attempt = next_attempt;
      cooldown_until = if spent then none else some (now + backoff_base * 2 ^ (next_attempt - 1));
      error_summary = some error;
      lease_owner = none;
      lease_expires_at = none;
      updated_at = now;
    }

fail_found :
    Option GenerationJob
    → ℕ
    → ℕ
    → String
    → ℕ
    → ℕ
    → ℕ
    → List GenerationJob
    → Bool × List GenerationJob
fail_found none job_id owner error backoff_base max_attempts now jobs = (false, jobs)
fail_found (some j) job_id owner error backoff_base max_attempts now jobs =
    if is_running j.status && eq_option j.lease_owner (some owner)
    then (
      count (held_by job_id owner) jobs == 1,
      update (held_by job_id owner) (failed_job error backoff_base max_attempts now (j.attempt + 1))
          jobs,
    )
    else (false, jobs)

unfoldable pub fail_job :
    ℕ → ℕ → String → ℕ → ℕ → ℕ → List GenerationJob → Bool × List GenerationJob
unfolding fail_found failed_job
fail_job job_id owner error backoff_base max_attempts now jobs =
    fail_found (get_job job_id jobs) job_id owner error backoff_base max_attempts now jobs

unfoldable pub given_up : ℕ → GenerationJob → GenerationJob
given_up now j = record j {
  status = JobStatus.needs_manual;
  lease_owner = none;
  lease_expires_at = none;
  updated_at = now;
}

abbrev pub has_id : ℕ → GenerationJob → Bool
has_id i j = j.id == i

unfoldable pub mark_needs_manual : ℕ → ℕ → List GenerationJob → Bool × List GenerationJob
unfolding given_up
mark_needs_manual job_id now jobs =
    (count (has_id job_id) jobs == 1, update (has_id job_id) (given_up now) jobs)
