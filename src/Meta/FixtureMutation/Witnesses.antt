-- ===== src/Meta/FixtureMutation/Witnesses.antt =====
-- What meta/fixture_mutation.py adds to the fixtures of a draft, and which predicates it leaves to
-- meta/validation.py.
use si26_math_animation_john.Meta.FixtureMutation.Search.{
  has_index, failing_indexes, Search, found, not_found, stopped, find_witness, try_values, try_refs,
  add_witnesses, witness_fixture, covered_by, base_of, ensure_guard_predicate_witnesses,
  candidate_values, current_values,
}
use si26_math_animation_john.Meta.FixtureMutation.{
  negative, Params, ProposedFixture, FieldSpec, Numbers, is_reject, field_contract_for,
  predicate_refs, spec_for, with_value, Mutation, mutated, skipped, crashed,
}
use si26_math_animation_john.Dsl.Expression.{FieldRef}
use si26_math_animation_john.Dsl.Evaluation.{Scalar}
use si26_math_animation_john.Dsl.Guard.{GuardPredicate, compile_guard}
use si26_math_animation_john.Base.{
  ℕ, suc, ◌≤◌, ◌≡◌, refl, sym, subst, ◌⊎◌, inl, inr, Bool, true, false, ◌||◌, none, some, List, [],
  ◌∷◌, ◌++◌, arith, Bool-cases, Option-cases, length, any, All, All-weaken,
}

has_index-append :
    (i : ℕ) (xs ys : List ℕ) → has_index (xs ++ ys) i ≡ (has_index xs i || has_index ys i)
has_index-append i [] ys = refl
has_index-append i (x ∷ xs) ys = ground (arith, has_index-append i xs ys)

-- Parameters that a search returns make the predicate of its index fail.
Fails : List GuardPredicate → ℕ → Search → Type 0
Fails ps i (found params) = has_index (failing_indexes ps params) i ≡ true
Fails ps i not_found = Unit {0}
Fails ps i stopped = Unit {0}

try_values-Fails :
    (ps : List GuardPredicate) (i : ℕ) (base : Params) (r : FieldRef) (xs : List Scalar)
    (rest : Search)
    → Fails ps i rest
    → Fails ps i (try_values ps i base r xs rest)
unfolding try_values Fails
try_values-Fails ps i base r [] rest h = h
try_values-Fails ps i base r (x ∷ xs) rest h =
    by_mutation (with_value r base x) (try_values-Fails ps i base r xs rest h)
  where
    by_mutation :
        (m : Mutation)
        → Fails ps i (try_values ps i base r xs rest)
        → Fails ps i (elim m [
          | crashed ↦ stopped
          | skipped ↦ try_values ps i base r xs rest
          | mutated params ↦ elim (has_index (failing_indexes ps params) i) [
            | true ↦ found params
            | false ↦ try_values ps i base r xs rest
          ]
        ])
    by_mutation crashed k = tt
    by_mutation skipped k = k
    by_mutation (mutated params) k = elim (Bool-cases (has_index (failing_indexes ps params) i)) [
      | inl yes_fails ↦ rw yes_fails yes_fails
      | inr passes ↦ rw passes k
    ]

try_refs-Fails :
    (n : Numbers) (specs : List FieldSpec) (ps : List GuardPredicate) (i : ℕ) (base : Params)
    (before rs : List FieldRef)
    → Fails ps i (try_refs n specs ps i base before rs)
unfolding try_refs
try_refs-Fails n specs ps i base before [] = unfold Fails in tt
try_refs-Fails n specs ps i base before (r ∷ rs) = elim (Option-cases (spec_for r specs)) [
  | inl e ↦ rw (e, try_refs) (try_refs-Fails n specs ps i base (before ++ r ∷ []) rs)
  | inr (spec, e) ↦
      rw (e, try_refs)
        (try_values-Fails ps i base r (candidate_values n spec (current_values (before ++ rs) base))
          (try_refs n specs ps i base (before ++ r ∷ []) rs)
          (try_refs-Fails n specs ps i base (before ++ r ∷ []) rs))
]

find_witness-found :
    (n : Numbers) (specs : List FieldSpec) (ps : List GuardPredicate) (p : GuardPredicate) (i : ℕ)
    (base params : Params)
    → find_witness n specs ps p i base ≡ found params
    → has_index (failing_indexes ps params) i ≡ true
unfolding find_witness Fails
find_witness-found n specs ps p i base params e =
    subst (Fails ps i) e (try_refs-Fails n specs ps i base [] (predicate_refs p))

-- A fixture that is added: it is negative, is expected to be rejected, belongs to no observation, and
-- makes a predicate fail that nothing before the loop covered.
abbrev pub IsWitness : List GuardPredicate → List ℕ → ProposedFixture → Type 0
IsWitness ps covered f =
    (f.kind ≡ negative)
    × (is_reject f.expected_outcome ≡ true)
    × (f.observation_id ≡ none)
    × ((i : ℕ) × (has_index (failing_indexes ps f.params) i ≡ true) × (has_index covered i ≡ false))

abbrev pub fails_some : List GuardPredicate → ℕ → List ProposedFixture → Bool
fails_some ps i fixtures =
    any (λ (f : ProposedFixture). has_index (failing_indexes ps f.params) i) fixtures

-- Each predicate from an index on is covered, made to fail by an added fixture, or has no witness that
-- the search finds.
abbrev pub Settled :
    Numbers
    → List FieldSpec
    → List GuardPredicate
    → Params
    → List ℕ
    → List ProposedFixture
    → ℕ
    → List GuardPredicate
    → Type 0
Settled n specs ps base covered added i [] = Unit {0}
Settled n specs ps base covered added i (p ∷ rest) =
    ((has_index covered i || fails_some ps i added ≡ true)
      ⊎ (find_witness n specs ps p i base ≡ not_found))
    × Settled n specs ps base covered added (suc i) rest

Search-cases :
    (s : Search) → (s ≡ stopped) ⊎ ((s ≡ not_found) ⊎ ((params : Params) × (s ≡ found params)))
Search-cases stopped = inl refl
Search-cases not_found = inr (inl refl)
Search-cases (found params) = inr (inr (params, refl))

some≢none : {A : Type 0} {a : A} → none ≡ some a → ⊥
some≢none h = cc

some_inj : {A : Type 0} {a b : A} → some a ≡ some b → a ≡ b
some_inj h = cc

module _ (n : Numbers) (specs : List FieldSpec) (ps : List GuardPredicate) (base : Params) where
  -- What a witness covers is made to fail by an added fixture.
  Settled-cons :
      (covered : List ℕ) (params : Params) (added : List ProposedFixture) (i : ℕ)
      (rest : List GuardPredicate)
      → Settled n specs ps base (covered ++ failing_indexes ps params) added i rest
      → Settled n specs ps base covered (witness_fixture params ∷ added) i rest
  Settled-cons covered params added i [] h = tt
  Settled-cons covered params added i (p ∷ rest) h =
      (head h.0, Settled-cons covered params added (suc i) rest h.1)
    where
      head :
          ((has_index (covered ++ failing_indexes ps params) i || fails_some ps i added ≡ true)
            ⊎ (find_witness n specs ps p i base ≡ not_found))
          → ((has_index covered i || fails_some ps i (witness_fixture params ∷ added) ≡ true)
              ⊎ (find_witness n specs ps p i base ≡ not_found))
      head (inl e) = inl (ground (arith, has_index-append i covered (failing_indexes ps params)))
      head (inr e) = inr e

  uncovered_before :
      (covered more : List ℕ) (f : ProposedFixture)
      → IsWitness ps (covered ++ more) f
      → IsWitness ps covered f
  uncovered_before covered more f (a, b, c, (i, d, e)) =
      (a, b, c, (i, d, ground (arith, has_index-append i covered more)))

  add_witnesses-Settled :
      (i : ℕ) (rest : List GuardPredicate) (covered : List ℕ) (added : List ProposedFixture)
      → add_witnesses n specs ps base i rest covered ≡ some added
      → All (IsWitness ps covered) added
        × (length added ≤ length rest)
        × Settled n specs ps base covered added i rest
  unfolding add_witnesses
  add_witnesses-Settled i [] covered added e =
      let nothing : [] ≡ added = ground arith in
      subst
        (λ (fs : List ProposedFixture). All (IsWitness ps covered) fs × (length fs ≤ 0) × Unit {0})
        nothing (tt, omega arith, tt)
  add_witnesses-Settled i (p ∷ rest) covered added e = elim (Bool-cases (has_index covered i)) [
    | inl old ↦
        let ih = add_witnesses-Settled (suc i) rest covered added (rw (old, add_witnesses) at e) in
        (ih.0, omega (arith, ih.1), (inl (ground arith), ih.2))
    | inr new ↦ elim (Search-cases (find_witness n specs ps p i base)) [
      | inl f ↦ absurd (some≢none (rw (new, add_witnesses, f) at e))
      | inr (inl f) ↦
          let ih =
            add_witnesses-Settled (suc i) rest covered added (rw (new, add_witnesses, f) at e) in
          (ih.0, omega (arith, ih.1), (inr f, ih.2))
      | inr (inr (params, f)) ↦
          elim (Option-cases
            (add_witnesses n specs ps base (suc i) rest (covered ++ failing_indexes ps params))) [
              | inl g ↦ absurd (some≢none (rw (new, add_witnesses, f, g) at e))
              | inr (more, g) ↦
                  let ih =
                    add_witnesses-Settled (suc i) rest (covered ++ failing_indexes ps params) more
                      g in
                  let made : witness_fixture params ∷ more ≡ added =
                    some_inj (rw (new, add_witnesses, f, g) at e) in
                  let fails = find_witness-found n specs ps p i base params f in
                  subst
                    (λ (fs : List ProposedFixture).
                      All (IsWitness ps covered) fs
                      × (length fs ≤ suc (length rest))
                      × Settled n specs ps base covered fs i (p ∷ rest))
                    made
                    (
                      (
                        (refl, refl, refl, (i, fails, new)),
                        All-weaken (IsWitness ps (covered ++ failing_indexes ps params))
                            (IsWitness ps covered) more
                            (λ f' w. uncovered_before covered (failing_indexes ps params) f' w)
                            ih.0,
                      ),
                      omega (arith, ih.1),
                      (
                        inl (ground (arith, fails)),
                        Settled-cons covered params more (suc i) rest ih.2,
                      ),
                    )
            ]
    ]
  ]

-- What `ensure_guard_predicate_witnesses` returns where the guard compiles and some fixture is a
-- positive one that is to be accepted: the fixtures that it got, and after them at most one for each
-- predicate. Each of these is negative, to be rejected, of no observation, and makes a predicate fail
-- that no fixture to be rejected made fail before; and every predicate is made to fail by a fixture to
-- be rejected, old or added, or has no witness that the search finds.
pub ensure_guard_predicate_witnesses-Settled :
    (n : Numbers) (specs : List FieldSpec) (ps : List GuardPredicate) (base : Params)
    (fixtures result : List ProposedFixture)
    → compile_guard ps (field_contract_for specs) ≡ none
    → base_of fixtures ≡ some base
    → ensure_guard_predicate_witnesses n specs ps fixtures ≡ some result
    → (added : List ProposedFixture) × (result ≡ fixtures ++ added)
      × (length added ≤ length ps)
      × All (IsWitness ps (covered_by ps fixtures)) added
      × Settled n specs ps base (covered_by ps fixtures) added 0 ps
unfolding ensure_guard_predicate_witnesses
ensure_guard_predicate_witnesses-Settled n specs ps base fixtures result c b e =
    elim (Option-cases (add_witnesses n specs ps base 0 ps (covered_by ps fixtures))) [
      | inl f ↦ absurd (some≢none (rw (c, ensure_guard_predicate_witnesses, b, f) at e))
      | inr (added, f) ↦
          let done = add_witnesses-Settled n specs ps base 0 ps (covered_by ps fixtures) added f in
          let made : fixtures ++ added ≡ result =
            some_inj (rw (c, ensure_guard_predicate_witnesses, b, f) at e) in
          (added, sym made, done.1, done.0, done.2)
    ]
