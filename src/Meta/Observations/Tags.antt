-- ===== src/Meta/Observations/Tags.antt =====
-- One current tag for each observation, one observation for each candidate and kind, and what the
-- threshold of the queue then counts.
use si26_math_animation_john.Meta.Jobs.{count_eligible_observations, joined_rows, tag_matches}
use si26_math_animation_john.Meta.Models.{FingerprintTag, FallbackObservation, MetaDb}
use si26_math_animation_john.Meta.Observations.{
  retired, record_observation, find_observation, store_tag, current_of, is_same, not_excluded,
  record_found,
}
use si26_math_animation_john.Base.{
  ℕ, ◌≤◌, ◌≡◌, refl, subst, ◌≢◌, inl, inr, false, not, Option, none, some, List, [], ◌∷◌, arith,
  ◌==◌, Bool-cases, count, update, count-le-count, count-update,
}

-- The unique index on current tags.
abbrev pub HasUniqueTags : List FingerprintTag → Type 0
HasUniqueTags tags = (observation : ℕ) → count (current_of observation) tags ≤ 1

-- The unique constraint on candidate and kind.
abbrev pub HasUniqueObservations : List FallbackObservation → Type 0
HasUniqueObservations observations =
    (candidate kind : ℕ) → count (is_same candidate kind) observations ≤ 1

none_current :
    (o : ℕ) (tags : List FingerprintTag)
    → count (current_of o) (update (current_of o) retired tags) ≡ 0
unfolding retired
none_current o [] = refl
none_current o (t ∷ tags) = ground (arith, none_current o tags)

-- Storing a tag keeps at most one current tag for each observation, and leaves exactly one for its own,
-- the new one; of another observation as many are current as before.
pub store_tag-HasUniqueTags :
    (t : FingerprintTag) (tags : List FingerprintTag)
    → HasUniqueTags tags
    → HasUniqueTags (store_tag t tags).1
      × (count (current_of t.observation_id) (store_tag t tags).1 ≡ 1)
      × ((o : ℕ)
          → o ≢ t.observation_id
          → count (current_of o) (store_tag t tags).1 ≡ count (current_of o) tags)
unfolding store_tag retired
store_tag-HasUniqueTags t tags u =
    let own = none_current t.observation_id tags in
    let other = λ (o : ℕ) (ne : o ≢ t.observation_id).
      count-update (current_of o) (current_of t.observation_id) retired tags
        (λ x h. ground arith) in
    (
      (λ o. elim (Bool-cases (t.observation_id == o)) [
        | inl same ↦
            let e : t.observation_id ≡ o = ground arith in
            subst (λ k. count (current_of k) (store_tag t tags).1 ≤ 1) e (ground arith)
        | inr differs ↦
            let ne : o ≢ t.observation_id = ground arith in
            let kept = other o ne in let one = u o in ground arith
      ]),
      ground arith,
      λ o ne. let kept = other o ne in ground arith,
    )

joined_rows-le :
    (key : ℕ) (tags : List FingerprintTag) (os : List FallbackObservation)
    → HasUniqueTags tags
    → joined_rows key tags os ≤ count (λ o. not o.excluded) os
unfolding joined_rows tag_matches
joined_rows-le key tags [] u = omega arith
joined_rows-le key tags (o ∷ os) u =
    let rest = joined_rows-le key tags os u in
    let one = u o.id in
    let narrow =
      count-le-count (tag_matches key o.id) (current_of o.id) tags (λ x h. ground arith) in
    ground arith

-- With at most one current tag for each observation, the threshold of the queue counts no observation
-- twice and none that is excluded.
pub count_eligible_observations-le :
    (db : MetaDb) (key : ℕ)
    → HasUniqueTags db.tags
    → count_eligible_observations db key ≤ count (λ o. not o.excluded) db.observations
unfolding count_eligible_observations
count_eligible_observations-le db key u = joined_rows-le key db.tags db.observations u

find-none :
    (c k : ℕ) (os : List FallbackObservation)
    → find_observation c k os ≡ none
    → count (is_same c k) os ≡ 0
unfolding find_observation
find-none c k [] h = refl
find-none c k (o ∷ os) h = ground (arith, find-none c k os)

record_found-HasUniqueObservations :
    (found : Option FallbackObservation) (row : FallbackObservation) (os : List FallbackObservation)
    → find_observation row.candidate_id row.observation_kind os ≡ found
    → HasUniqueObservations os
    → HasUniqueObservations (record_found found row os).1
unfolding record_found
record_found-HasUniqueObservations (some existing) row os e u c k = u c k
record_found-HasUniqueObservations none row os e u c k = elim (Bool-cases (is_same c k row)) [
  | inr other ↦ let one = u c k in rw other (omega arith)
  | inl same ↦
      let e_c : row.candidate_id ≡ c = ground arith in
      let e_k : row.observation_kind ≡ k = ground arith in
      let free = find-none row.candidate_id row.observation_kind os e in
      let free_c = subst (λ x. count (is_same x row.observation_kind) os ≡ 0) e_c free in
      let free_k = subst (λ x. count (is_same c x) os ≡ 0) e_k free_c in rw same (omega arith)
]

find-record_found :
    (found : Option FallbackObservation) (row : FallbackObservation) (os : List FallbackObservation)
    → find_observation row.candidate_id row.observation_kind os ≡ found
    → find_observation row.candidate_id row.observation_kind (record_found found row os).1
      ≡ some (record_found found row os).0.0
unfolding record_found find_observation
find-record_found (some existing) row os e = e
find-record_found none row os e = ground arith

-- A report of a candidate and kind keeps observations unique by both; a second report of the same, with
-- whatever other fields, returns the first row and changes nothing.
pub record_observation-HasUniqueObservations :
    (o o' : FallbackObservation) (os : List FallbackObservation)
    → HasUniqueObservations os
    → o'.candidate_id ≡ o.candidate_id
    → o'.observation_kind ≡ o.observation_kind
    → HasUniqueObservations (record_observation o os).1
      × (record_observation o' (record_observation o os).1
          ≡ (((record_observation o os).0.0, false), (record_observation o os).1))
unfolding record_observation
record_observation-HasUniqueObservations o o' os u c k =
    let found = find_observation o.candidate_id o.observation_kind os in
    let again = find-record_found found (not_excluded o) os refl in
    (
      record_found-HasUniqueObservations found (not_excluded o) os refl u,
      rw (c, k, again) (unfold record_found in refl),
    )
