-- ===== src/Meta/FixtureMutation/Drop.antt =====
-- Which fixtures `drop_ungrounded_positive_fixtures` of meta/fixture_mutation.py keeps.
use si26_math_animation_john.Meta.FixtureMutation.{
  ProposedFixture, is_positive, drop_from, drop_ungrounded_positive_fixtures, has_id,
}
use si26_math_animation_john.Base.{
  ℕ, ◌≡◌, refl, inl, inr, Bool, ◌&&◌, not, Option, none, some, List, [], ◌∷◌, arith, if◌then◌else◌,
  eq_option, Bool-cases, Option-cases, select, count, min,
}

-- A positive fixture of an observation, or of none.
abbrev pub is_positive_of : Option ℕ → ProposedFixture → Bool
is_positive_of o f = is_positive f.kind && eq_option f.observation_id o

abbrev pub is_not_positive : ProposedFixture → Bool
is_not_positive f = not (is_positive f.kind)

-- How many positives of an observation stay, if those of the used observations are dropped.
abbrev kept : List ℕ → Option ℕ → List ProposedFixture → ℕ
kept used none fs = 0
kept used (some o) fs = if has_id used o then 0 else min 1 (count (is_positive_of (some o)) fs)

drop_from-count :
    (used : List ℕ) (fs : List ProposedFixture) (o : Option ℕ)
    → count (is_positive_of o) (drop_from used fs) ≡ kept used o fs
unfolding drop_from
drop_from-count used [] none = refl
drop_from-count used [] (some o) = ground arith
drop_from-count used (f ∷ fs) none = elim (Bool-cases (is_positive f.kind)) [
  | inr other ↦ rw (other, drop_from) (ground (arith, drop_from-count used fs none))
  | inl positive ↦ elim (Option-cases f.observation_id) [
    | inl e ↦ rw (positive, drop_from, e) (drop_from-count used fs none)
    | inr (a, e) ↦ elim (Bool-cases (has_id used a)) [
      | inl old ↦ rw (positive, drop_from, e, old) (drop_from-count used fs none)
      | inr new ↦
          rw (positive, drop_from, e, new) (ground (arith, drop_from-count (a ∷ used) fs none))
    ]
  ]
]
drop_from-count used (f ∷ fs) (some o) = elim (Bool-cases (is_positive f.kind)) [
  | inr other ↦ rw (other, drop_from) (ground (arith, drop_from-count used fs (some o)))
  | inl positive ↦ elim (Option-cases f.observation_id) [
    | inl e ↦ rw (positive, drop_from, e) (ground (arith, drop_from-count used fs (some o)))
    | inr (a, e) ↦ elim (Bool-cases (has_id used a)) [
      | inl old ↦
          rw (positive, drop_from, e, old) (ground (arith, drop_from-count used fs (some o)))
      | inr new ↦
          rw (positive, drop_from, e, new) (ground (arith, drop_from-count (a ∷ used) fs (some o)))
    ]
  ]
]

drop_from-others :
    (used : List ℕ) (fs : List ProposedFixture)
    → select is_not_positive (drop_from used fs) ≡ select is_not_positive fs
unfolding drop_from
drop_from-others used [] = refl
drop_from-others used (f ∷ fs) = elim (Bool-cases (is_positive f.kind)) [
  | inr other ↦ rw (other, drop_from) (ground (arith, drop_from-others used fs))
  | inl positive ↦ elim (Option-cases f.observation_id) [
    | inl e ↦ rw (positive, drop_from, e) (ground (arith, drop_from-others used fs))
    | inr (a, e) ↦ elim (Bool-cases (has_id used a)) [
      | inl old ↦ rw (positive, drop_from, e, old) (ground (arith, drop_from-others used fs))
      | inr new ↦ rw (positive, drop_from, e, new) (ground (arith, drop_from-others (a ∷ used) fs))
    ]
  ]
]

-- Of the positive fixtures of one observation exactly one stays, if there is any, and of those of no
-- observation none; the other fixtures stay as they are, in their order.
pub drop_ungrounded_positive_fixtures-count :
    (fs : List ProposedFixture)
    → ((o : ℕ)
        → count (is_positive_of (some o)) (drop_ungrounded_positive_fixtures fs)
          ≡ min 1 (count (is_positive_of (some o)) fs))
      × (count (is_positive_of none) (drop_ungrounded_positive_fixtures fs) ≡ 0)
      × (select is_not_positive (drop_ungrounded_positive_fixtures fs) ≡ select is_not_positive fs)
unfolding drop_ungrounded_positive_fixtures
drop_ungrounded_positive_fixtures-count fs =
    ((λ o. drop_from-count [] fs (some o)), drop_from-count [] fs none, drop_from-others [] fs)
