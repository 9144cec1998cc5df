-- ===== src/Meta/Jobs/Order.antt =====
-- Which job the queue hands out.
use si26_math_animation_john.Base.{
  ℕ, ◌<◌, ◌≡◌, refl, Bool, true, false, Option, none, some, List, [], ◌∷◌, arith, ◌&&◌, All, update,
  select, count, count-le-count, inl, inr, subst, Bool-cases,
}
use si26_math_animation_john.Meta.Models.{GenerationJob}
use si26_math_animation_john.Meta.Jobs.{
  has_id, still_claimable, claimable, leased, claim_candidate, claim_next_job, claim_picked,
  pick_job, earliest, oldest, before,
}
use si26_math_animation_john.Meta.Jobs.Valid.{IsValid}

-- No row of the list comes before `c` in the order of `created_at` and `id`.
abbrev pub NoneBefore : GenerationJob → List GenerationJob → Type 0
NoneBefore c = All (λ x. before x c ≡ false)

NoneBefore-trans :
    (c d : GenerationJob) (xs : List GenerationJob)
    → before c d ≡ false
    → NoneBefore c xs
    → NoneBefore d xs
NoneBefore-trans c d [] h a = tt
NoneBefore-trans c d (x ∷ xs) h a = (ground arith, NoneBefore-trans c d xs h a.1)

earliest-nil : (xs : List GenerationJob) (c : GenerationJob) → earliest xs ≡ none → NoneBefore c xs
unfolding earliest
earliest-nil [] c e = tt
earliest-nil (x ∷ xs) c e = absurd (ground arith)

oldest-first :
    (x : GenerationJob) (xs : List GenerationJob) (o : Option GenerationJob)
    → earliest xs ≡ o
    → ((d : GenerationJob) → o ≡ some d → NoneBefore d xs)
    → NoneBefore (oldest x o) (x ∷ xs)
unfolding oldest
oldest-first x xs none e ih = (ground arith, earliest-nil xs x e)
oldest-first x xs (some d) e ih = elim (Bool-cases (before d x)) [
  | inl sooner ↦
      let is_d : d ≡ oldest x (some d) = rw (sooner, oldest) in
      subst (λ c. NoneBefore c (x ∷ xs)) is_d (ground arith, ih d refl)
  | inr later ↦
      let is_x : x ≡ oldest x (some d) = rw (later, oldest) in
      subst (λ c. NoneBefore c (x ∷ xs)) is_x
        (ground arith, NoneBefore-trans d x xs later (ih d refl))
]

earliest-first :
    (xs : List GenerationJob) (c : GenerationJob) → earliest xs ≡ some c → NoneBefore c xs
unfolding earliest
earliest-first [] c e = tt
earliest-first (x ∷ xs) c e =
    let chosen : oldest x (earliest xs) ≡ c = ground arith in
    subst (λ d. NoneBefore d (x ∷ xs)) chosen
      (oldest-first x xs (earliest xs) refl (earliest-first xs))

oldest-All :
    (p : GenerationJob → Bool) (x : GenerationJob) (o : Option GenerationJob)
    → p x ≡ true
    → ((d : GenerationJob) → o ≡ some d → p d ≡ true)
    → p (oldest x o) ≡ true
unfolding oldest
oldest-All p x none h ih = h
oldest-All p x (some d) h ih = ground (arith, ih d refl)

earliest-All :
    (p : GenerationJob → Bool) (xs : List GenerationJob) (c : GenerationJob)
    → All (λ x. p x ≡ true) xs
    → earliest xs ≡ some c
    → p c ≡ true
unfolding earliest
earliest-All p [] c a e = ground arith
earliest-All p (x ∷ xs) c a e =
    let chosen : oldest x (earliest xs) ≡ c = ground arith in
    subst (λ d. p d ≡ true) chosen
      (oldest-All p x (earliest xs) a.0 (λ d h. earliest-All p xs d a.1 h))

oldest-count :
    (p : GenerationJob → Bool) (x : GenerationJob) (xs : List GenerationJob)
    (o : Option GenerationJob)
    → ((d : GenerationJob) → o ≡ some d → p d ≡ true → 0 < count p xs)
    → p (oldest x o) ≡ true
    → 0 < count p (x ∷ xs)
unfolding oldest
oldest-count p x xs none ih h = ground arith
oldest-count p x xs (some d) ih h = ground (arith, ih d refl)

earliest-count :
    (p : GenerationJob → Bool) (xs : List GenerationJob) (c : GenerationJob)
    → earliest xs ≡ some c
    → p c ≡ true
    → 0 < count p xs
unfolding earliest
earliest-count p [] c e h = ground arith
earliest-count p (x ∷ xs) c e h =
    let chosen : oldest x (earliest xs) ≡ c = ground arith in
    oldest-count p x xs (earliest xs) (earliest-count p xs) (rw chosen h)

count-select :
    (p q : GenerationJob → Bool) (xs : List GenerationJob)
    → count p (select q xs) ≡ count (λ x. p x && q x) xs
count-select p q [] = refl
count-select p q (x ∷ xs) = ground (arith, count-select p q xs)

All-select :
    (p : GenerationJob → Bool) (xs : List GenerationJob) → All (λ x. p x ≡ true) (select p xs)
All-select p [] = tt
All-select p (x ∷ xs) = elim (Bool-cases (p x)) [
  | inl e ↦ rw e (e, All-select p xs)
  | inr e ↦ rw e (All-select p xs)
]

pick-some :
    (now : ℕ) (jobs : List GenerationJob)
    → 0 < count (claimable now) jobs
    → (c : GenerationJob) × (pick_job now jobs ≡ some c)
unfolding pick_job earliest
pick-some now [] h = absurd (omega arith)
pick-some now (x ∷ xs) h = elim (Bool-cases (claimable now x)) [
  | inl e ↦ rw e (oldest x (earliest (select (claimable now) xs)), refl)
  | inr e ↦ rw e (pick-some now xs (ground arith))
]

claimable-pick :
    (now : ℕ) (jobs : List GenerationJob) (c : GenerationJob)
    → pick_job now jobs ≡ some c
    → claimable now c ≡ true
unfolding pick_job
claimable-pick now jobs c e =
    earliest-All (claimable now) (select (claimable now) jobs) c (All-select (claimable now) jobs) e

one_row :
    (now : ℕ) (jobs : List GenerationJob) (c : GenerationJob)
    → IsValid jobs
    → pick_job now jobs ≡ some c
    → count (still_claimable c.id now) jobs ≡ 1
unfolding pick_job
one_row now jobs c v e =
    let found = earliest-count (has_id c.id) (select (claimable now) jobs) c e (ground arith) in
    omega (
      arith,
      found,
      count-select (has_id c.id) (claimable now) jobs,
      v.unique_ids c.id,
      count-le-count (still_claimable c.id now) (has_id c.id) jobs (λ x h. ground arith),
    )

claims :
    (owner l now : ℕ) (jobs : List GenerationJob) (c : GenerationJob)
    → pick_job now jobs ≡ some c
    → count (still_claimable c.id now) jobs ≡ 1
    → claim_next_job owner l now jobs
      ≡ (some (leased owner l now c), update (still_claimable c.id now) (leased owner l now) jobs)
unfolding claim_next_job claim_picked claim_candidate
claims owner l now jobs c e one = rw (e, one)

-- In a valid table with a claimable job, a claim returns one: it is leased to the caller, the one row
-- with its id is rewritten and no other, and no claimable job is older by `created_at` and `id`.
pub claim_next_job-first :
    (owner l now : ℕ) (jobs : List GenerationJob)
    → IsValid jobs
    → 0 < count (claimable now) jobs
    → (c : GenerationJob) × (claim_next_job owner l now jobs ≡ (
      some (leased owner l now c),
      update (still_claimable c.id now) (leased owner l now) jobs,
    ))
      × (count (still_claimable c.id now) jobs ≡ 1)
      × (claimable now c ≡ true)
      × NoneBefore c (select (claimable now) jobs)
claim_next_job-first owner l now jobs v h =
    let (c, e) = pick-some now jobs h in
    let able = claimable-pick now jobs c e in
    let one = one_row now jobs c v e in
    (c, claims owner l now jobs c e one, one, able, earliest-first _ c (unfold pick_job in e))
