-- ===== src/Meta/Jobs/Lease.antt =====
-- Leases: who may hold a job after a claim, and what the queue hands out.
use si26_math_animation_john.Base.{
  ℕ, ◌+◌, ◌≤◌, ◌<◌, ◌≡◌, ◌≢◌, refl, ap, sym, ◌∙◌, subst, Bool, true, false, Option, none, some,
  List, [], ◌∷◌, String, arith, ◌==◌, ◌&&◌, update, count, count-update, count-le-count, inl, inr,
  Bool-cases, eq_option,
}
use si26_math_animation_john.Meta.Models.{GenerationJob, is_running}
use si26_math_animation_john.Meta.Jobs.{
  has_id, still_claimable, leased, held_by, claim_candidate, claim_next_job, claim_picked, pick_job,
  complete_job, completed, fail_job, fail_found, get_job,
}
use si26_math_animation_john.Meta.Jobs.Rows.{update-none}
use si26_math_animation_john.Meta.Jobs.Valid.{IsValid}

-- Where one row has the id and the update takes it, no row of that id satisfies `q` afterwards.
module _ (q p : GenerationJob → Bool) (f : GenerationJob → GenerationJob) (i : ℕ)
    (narrow_q : (x : GenerationJob) → q x ≡ true → has_id i x ≡ true)
    (narrow_p : (x : GenerationJob) → p x ≡ true → has_id i x ≡ true)
    (same_id : (x : GenerationJob) → has_id i (f x) ≡ has_id i x)
    (leaves : (x : GenerationJob) → p x ≡ true → q (f x) ≡ false) where
  absent : (jobs : List GenerationJob) → count (has_id i) jobs ≡ 0 → count q (update p f jobs) ≡ 0
  absent jobs h = omega (
    arith,
    count-le-count q (has_id i) (update p f jobs) narrow_q,
    count-update (has_id i) p f jobs (λ x e. same_id x),
  )

  count-taken :
      (jobs : List GenerationJob)
      → count (has_id i) jobs ≤ 1
      → count p jobs ≡ 1
      → count q (update p f jobs) ≡ 0
  count-taken [] h e = refl
  count-taken (x ∷ xs) h e = elim (Bool-cases (p x)) [
    | inl hit ↦ ground (arith, narrow_p x, leaves x, absent xs)
    | inr miss ↦ elim (Bool-cases (has_id i x)) [
      | inl named ↦ absurd (ground (arith, count-le-count p (has_id i) xs narrow_p))
      | inr other ↦ ground (arith, narrow_q x, count-taken xs)
    ]
  ]

-- What a successful claim has done.
pub record IsClaim (owner lease_seconds now : ℕ) (jobs : List GenerationJob) (j : GenerationJob)
    (jobs' : List GenerationJob) : Type 0 where
  pub candidate : GenerationJob
  pub picked : pick_job now jobs ≡ some candidate
  pub one_row : count (still_claimable candidate.id now) jobs ≡ 1
  pub returned : j ≡ leased owner lease_seconds now candidate
  pub written :
      jobs' ≡ update (still_claimable candidate.id now) (leased owner lease_seconds now) jobs

IsClaim-id :
    {owner l now : ℕ} {jobs : List GenerationJob} {j : GenerationJob} {jobs' : List GenerationJob}
    (a : IsClaim owner l now jobs j jobs')
    → j.id ≡ a.candidate.id
unfolding leased
IsClaim-id a = ap (λ (x : GenerationJob). x.id) a.returned

claim_picked-IsClaim :
    (o : Option GenerationJob) (owner l now : ℕ) (jobs : List GenerationJob) (j : GenerationJob)
    → pick_job now jobs ≡ o
    → (claim_picked o owner l now jobs).0 ≡ some j
    → IsClaim owner l now jobs j (claim_picked o owner l now jobs).1
unfolding claim_picked claim_candidate
claim_picked-IsClaim none owner l now jobs j p e = ground arith
claim_picked-IsClaim (some c) owner l now jobs j p e = record {
  candidate = c;
  picked = p;
  one_row = ground arith;
  returned = ground arith;
  written = refl;
}

pub claim_next_job-IsClaim :
    (owner l now : ℕ) (jobs : List GenerationJob) (j : GenerationJob)
    → (claim_next_job owner l now jobs).0 ≡ some j
    → IsClaim owner l now jobs j (claim_next_job owner l now jobs).1
unfolding claim_next_job
claim_next_job-IsClaim owner l now jobs j e =
    claim_picked-IsClaim (pick_job now jobs) owner l now jobs j refl e

module _ (owner l now : ℕ) (jobs : List GenerationJob) (i : ℕ) (unique : count (has_id i) jobs ≤ 1)
    (one_row : count (still_claimable i now) jobs ≡ 1) where
  pub none_claimable :
      (now' : ℕ)
      → now' < now + l
      → count (still_claimable i now') (update (still_claimable i now) (leased owner l now) jobs)
        ≡ 0
  unfolding leased
  none_claimable now' h =
      count-taken (still_claimable i now') (still_claimable i now) (leased owner l now) i
        (λ x e. ground arith) (λ x e. ground arith) (λ x. refl) (λ x e. ground arith) jobs unique
        one_row

  pub none_held :
      (other : ℕ)
      → other ≢ owner
      → count (held_by i other) (update (still_claimable i now) (leased owner l now) jobs) ≡ 0
  unfolding leased
  none_held other h =
      count-taken (held_by i other) (still_claimable i now) (leased owner l now) i
        (λ x e. ground arith) (λ x e. ground arith) (λ x. refl) (λ x e. ground arith) jobs unique
        one_row

-- A claimed job is not handed out again before its lease ends: in a table with unique ids, any claim
-- at a time before `now + lease_seconds` on the table that the first claim left, if it returns a job,
-- returns one of another id.
pub claim_exclusive :
    (owner l now owner' l' now' : ℕ) (jobs : List GenerationJob) (j k : GenerationJob)
    → IsValid jobs
    → (claim_next_job owner l now jobs).0 ≡ some j
    → now' < now + l
    → (claim_next_job owner' l' now' (claim_next_job owner l now jobs).1).0 ≡ some k
    → k.id ≢ j.id
claim_exclusive owner l now owner' l' now' jobs j k v e early e' same =
    let jobs' : List GenerationJob = (claim_next_job owner l now jobs).1 in
    let a = claim_next_job-IsClaim owner l now jobs j e in
    let b = claim_next_job-IsClaim owner' l' now' jobs' k e' in
    let same_row : b.candidate.id ≡ a.candidate.id = sym (IsClaim-id b) ∙ same ∙ IsClaim-id a in
    let one : count (still_claimable a.candidate.id now') jobs' ≡ 1 =
      subst (λ i. count (still_claimable i now') jobs' ≡ 1) same_row b.one_row in
    let zero_left : count (still_claimable a.candidate.id now') jobs' ≡ 0 = rw a.written (
      none_claimable owner l now jobs a.candidate.id (v.unique_ids a.candidate.id) a.one_row now'
        early) in
    omega arith

-- Two workers read the same candidate. Once the first has claimed it, the conditional update of the
-- second, before the first lease ends, returns nothing and changes no row.
pub claim_race :
    (c : GenerationJob) (owner l now owner' l' now' : ℕ) (jobs : List GenerationJob)
    (j : GenerationJob)
    → IsValid jobs
    → (claim_candidate c owner l now jobs).0 ≡ some j
    → now' < now + l
    → claim_candidate c owner' l' now' (claim_candidate c owner l now jobs).1
      ≡ (none, (claim_candidate c owner l now jobs).1)
unfolding claim_candidate
claim_race c owner l now owner' l' now' jobs j v e early =
    let one : count (still_claimable c.id now) jobs ≡ 1 = ground arith in
    let jobs' = update (still_claimable c.id now) (leased owner l now) jobs in
    let gone = none_claimable owner l now jobs c.id (v.unique_ids c.id) one now' early in
    rw (gone, update-none (still_claimable c.id now') (leased owner' l' now') jobs' gone)

get_job-count :
    (i other : ℕ) (jobs : List GenerationJob) (j : GenerationJob)
    → get_job i jobs ≡ some j
    → count (held_by i other) jobs ≡ 0
    → (is_running j.status && eq_option j.lease_owner (some other)) ≡ false
unfolding get_job
get_job-count i other [] j e z = ground arith
get_job-count i other (k ∷ ks) j e z = elim (Bool-cases (k.id == i)) [
  | inl hit ↦ ground arith
  | inr miss ↦ get_job-count i other ks j (rw miss at e) (ground arith)
]

fail_found-stale :
    (o : Option GenerationJob) (i other : ℕ) (error : String) (b m now : ℕ)
    (jobs : List GenerationJob)
    → get_job i jobs ≡ o
    → count (held_by i other) jobs ≡ 0
    → fail_found o i other error b m now jobs ≡ (false, jobs)
unfolding fail_found
fail_found-stale none i other error b m now jobs g z = refl
fail_found-stale (some j) i other error b m now jobs g z = rw (get_job-count i other jobs j g z)

-- A worker that lost its lease cannot finish the job: after another worker's claim, `complete_job`
-- and `fail_job` of that job under any other owner report false and change no row.
pub claim_fences :
    (owner l now other later backoff_base max_attempts : ℕ) (error : String)
    (jobs : List GenerationJob) (j : GenerationJob)
    → IsValid jobs
    → (claim_next_job owner l now jobs).0 ≡ some j
    → other ≢ owner
    → (complete_job j.id other later (claim_next_job owner l now jobs).1
        ≡ (false, (claim_next_job owner l now jobs).1))
      × (fail_job j.id other error backoff_base max_attempts later
            (claim_next_job owner l now jobs).1
          ≡ (false, (claim_next_job owner l now jobs).1))
unfolding complete_job fail_job
claim_fences owner l now other later bb m error jobs j v e ne =
    let jobs' : List GenerationJob = (claim_next_job owner l now jobs).1 in
    let a = claim_next_job-IsClaim owner l now jobs j e in
    let held : count (held_by a.candidate.id other) jobs' ≡ 0 = rw a.written (
      none_held owner l now jobs a.candidate.id (v.unique_ids a.candidate.id) a.one_row other ne) in
    let z : count (held_by j.id other) jobs' ≡ 0 =
      subst (λ i. count (held_by i other) jobs' ≡ 0) (sym (IsClaim-id a)) held in
    (
      rw (z, update-none (held_by j.id other) (completed later) jobs' z),
      fail_found-stale (get_job j.id jobs') j.id other error bb m later jobs' refl z,
    )
