-- ===== src/Meta/Jobs/Rows.antt =====
-- The one row that an id names, and counts around an update of it.
use si26_math_animation_john.Base.{
  ℕ, ◌+◌, ◌≤◌, ◌≡◌, refl, Bool, true, false, some, List, [], ◌∷◌, arith, ◌==◌, update, count,
  count-le-count, inl, inr, Bool-cases, if◌then◌else◌,
}
use si26_math_animation_john.Meta.Models.{GenerationJob}
use si26_math_animation_john.Meta.Jobs.{has_id, get_job}

pub update-none :
    (p : GenerationJob → Bool) (f : GenerationJob → GenerationJob) (jobs : List GenerationJob)
    → count p jobs ≡ 0
    → update p f jobs ≡ jobs
update-none p f [] h = refl
update-none p f (x ∷ xs) h = ground (arith, update-none p f xs)

pub get_job-id :
    (i : ℕ) (jobs : List GenerationJob) (j : GenerationJob) → get_job i jobs ≡ some j → j.id ≡ i
unfolding get_job
get_job-id i [] j e = ground arith
get_job-id i (x ∷ xs) j e = elim (Bool-cases (x.id == i)) [
  | inl hit ↦ ground arith
  | inr miss ↦ get_job-id i xs j (rw miss at e)
]

module _ (i : ℕ) (f : GenerationJob → GenerationJob) (job : GenerationJob) where
  pub count-update_row :
      (q : GenerationJob → Bool) (jobs : List GenerationJob)
      → get_job i jobs ≡ some job
      → count (has_id i) jobs ≤ 1
      → count q (update (has_id i) f jobs) + (if q job then 1 else 0)
        ≡ count q jobs + (if q (f job) then 1 else 0)
  unfolding get_job
  count-update_row q [] e u = ground arith
  count-update_row q (x ∷ xs) e u = elim (Bool-cases (x.id == i)) [
    | inl hit ↦
        let same : x ≡ job = ground arith in
        let alone : update (has_id i) f xs ≡ xs = update-none (has_id i) f xs (ground arith) in
        rw (hit, alone, same) (omega arith)
    | inr miss ↦ rw miss (omega (arith, count-update_row q xs (rw miss at e) (ground arith)))
  ]

pub count-row :
    (i : ℕ) (q : GenerationJob → Bool) (jobs : List GenerationJob) (job : GenerationJob)
    → ((x : GenerationJob) → q x ≡ true → has_id i x ≡ true)
    → get_job i jobs ≡ some job
    → count (has_id i) jobs ≤ 1
    → count q jobs ≡ (if q job then 1 else 0)
unfolding get_job
count-row i q [] job narrow e u = ground arith
count-row i q (x ∷ xs) job narrow e u = elim (Bool-cases (x.id == i)) [
  | inl hit ↦
      let same : x ≡ job = ground arith in
      let alone : count q xs ≡ 0 = ground (arith, count-le-count q (has_id i) xs narrow) in
      rw (alone, same) (omega arith)
  | inr miss ↦
      let skipped : q x ≡ false = ground (arith, narrow x) in
      rw skipped (omega (arith, count-row i q xs job narrow (rw miss at e) (ground arith)))
]
