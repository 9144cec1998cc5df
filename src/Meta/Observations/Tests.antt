-- ===== src/Meta/Observations/Tests.antt =====
-- Examples of the theorems on observations and tags: one observation, tagged once.
use si26_math_animation_john.Meta.Observations.{record_observation, store_tag, current_of}
use si26_math_animation_john.Meta.Observations.Tags.{
  HasUniqueObservations, HasUniqueTags, record_observation-HasUniqueObservations,
  store_tag-HasUniqueTags,
}
use si26_math_animation_john.Meta.Models.{FallbackObservation, MetaDb, FingerprintTag}
use si26_math_animation_john.Base.{ℕ, ◌≡◌, refl, ◌≢◌, true, false, [], ◌∷◌, arith, count}

abbrev seen_once : FallbackObservation
seen_once = record {
  id = 5;
  candidate_id = 8;
  source_excerpt = "3 + 4";
  grade_level = 2;
  observation_kind = 1;
  excluded = false;
  created_at = 10;
}

abbrev first_tag : FingerprintTag
first_tag = record {
  id = 1;
  observation_id = 5;
  fingerprint_version = 1;
  fingerprint_json = "{}";
  fingerprint_key = 7;
  is_current = true;
  created_at = 11;
}

store_tag-HasUniqueTags_example :
    HasUniqueTags (store_tag first_tag (first_tag ∷ [])).1
    × (count (current_of 5) (store_tag first_tag (first_tag ∷ [])).1 ≡ 1)
    × ((o : ℕ)
        → o ≢ 5
        → count (current_of o) (store_tag first_tag (first_tag ∷ [])).1
          ≡ count (current_of o) (first_tag ∷ []))
store_tag-HasUniqueTags_example =
    store_tag-HasUniqueTags first_tag (first_tag ∷ []) (λ o. ground arith)

record_observation-HasUniqueObservations_example :
    HasUniqueObservations (record_observation seen_once []).1
    × (record_observation seen_once (record_observation seen_once []).1
        ≡ (((record_observation seen_once []).0.0, false), (record_observation seen_once []).1))
record_observation-HasUniqueObservations_example =
    record_observation-HasUniqueObservations seen_once seen_once [] (λ c k. omega arith) refl refl

abbrev observed_db : MetaDb
observed_db = record {
  jobs = [];
  versions = [];
  observations = seen_once ∷ [];
  tags = first_tag ∷ [];
  drafts = [];
  fixtures = [];
  reviews = [];
}
