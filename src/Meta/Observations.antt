-- ===== src/Meta/Observations.antt =====
-- record_observation of observations.py and store_tag of fingerprint.py: what is written of a problem
-- that no template fits. The tagger's model and prompt version are not modelled.
use si26_math_animation_john.Meta.Models.{FingerprintTag, FallbackObservation}
pub mod Tags
pub mod Tests
use si26_math_animation_john.Base.{
  ℕ, zero, suc, ◌+◌, ◌-◌, ◌*◌, ◌/◌, ◌%◌, ◌^◌, ◌≤◌, ◌<◌, min, max, String, ◌≡◌, refl, sym, ap, ◌∙◌,
  subst, ◌≢◌, ◌↔◌, ◌⊎◌, inl, inr, Bool, true, false, ◌&&◌, ◌||◌, not, Option, none, some, List, [],
  ◌∷◌, ◌++◌, map, arith, ltb, leb, ◌==◌, if◌then◌else◌, eq_option, eq_option→eq, eq_option_refl,
  eq→eq_option, Bool-cases, Option-cases, length, all, any, select, count, reject, update, All,
  length-append, count-append, count-le-length, length-select-le, length-reject-add-count,
  count-or-le, count-le-count, count-update, count-update-le, count-update-drop, length-update,
  All-update, any-false, All-any, All-weaken, codes, str_eq, eq_iff,
}

abbrev pub is_same : ℕ → ℕ → FallbackObservation → Bool
is_same candidate kind o = (o.candidate_id == candidate) && (o.observation_kind == kind)

-- The query for the one row of a candidate and kind.
unfoldable pub find_observation : ℕ → ℕ → List FallbackObservation → Option FallbackObservation
find_observation candidate kind [] = none
find_observation candidate kind (o ∷ os) =
    if is_same candidate kind o then some o else find_observation candidate kind os

-- What the query found, and the row to add where it found none.
unfoldable pub record_found :
    Option FallbackObservation
    → FallbackObservation
    → List FallbackObservation
    → (FallbackObservation × Bool) × List FallbackObservation
record_found (some existing) row observations = ((existing, false), observations)
record_found none row observations = ((row, true), row ∷ observations)

abbrev pub not_excluded : FallbackObservation → FallbackObservation
not_excluded o = record o { excluded = false }

-- The arguments of a new row, `excluded` being false.
unfoldable pub record_observation :
    FallbackObservation
    → List FallbackObservation
    → (FallbackObservation × Bool) × List FallbackObservation
unfolding record_found
record_observation o observations =
    record_found (find_observation o.candidate_id o.observation_kind observations) (not_excluded o)
      observations

abbrev pub current_of : ℕ → FingerprintTag → Bool
current_of observation t = (t.observation_id == observation) && t.is_current

unfoldable pub retired : FingerprintTag → FingerprintTag
retired t = record t { is_current = false }

-- The arguments of a new tag, `is_current` being true.
unfoldable pub store_tag :
    FingerprintTag → List FingerprintTag → FingerprintTag × List FingerprintTag
unfolding retired
store_tag t tags =
    let tag = record t { is_current = true } in
    (tag, tag ∷ update (current_of t.observation_id) retired tags)
