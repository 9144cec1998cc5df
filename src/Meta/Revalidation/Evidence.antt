-- ===== src/Meta/Revalidation/Evidence.antt =====
-- What a revalidation of meta/revalidation.py writes, where other requests ran during its validation.
use si26_math_animation_john.Meta.Revalidation.{
  DraftRow, FixtureRow, DraftRows, CheckResult, Candidate, Outcome, revalidated, is_pending_review,
  require_pending_draft, set_check, write_checks, with_evidence, write_found, ids_of, params_of,
  revalidate_draft,
}
use si26_math_animation_john.Base.{
  ℕ, ◌≡◌, refl, sym, ap, ◌∙◌, subst, Bool, true, false, not, ◌&&◌, Option, none, some, List, [],
  ◌∷◌, ◌==◌, map, any, inl, inr, Option-cases, arith,
}

abbrev pub has_id : List ℕ → ℕ → Bool
has_id ids a = any (λ b. b == a) ids

unfoldable pub distinct_ids : List ℕ → Bool
distinct_ids [] = true
distinct_ids (x ∷ xs) = not (has_id xs x) && distinct_ids xs

-- Each row with the result of the check of some params.
unfoldable pub stamped : (ℕ → CheckResult) → List ℕ → List FixtureRow → List FixtureRow
stamped check (p ∷ ps) (f ∷ fs) =
    record f {
      structural_check_passed = some (check p).passed;
      structural_check_detail = some (check p).detail;
    }
    ∷ stamped check ps fs
stamped check [] fs = fs
stamped check (p ∷ ps) [] = []

after_head : FixtureRow → Option (List FixtureRow) → Option (List FixtureRow)
after_head f none = none
after_head f (some fs) = some (f ∷ fs)

-- A row whose id is not among those that are written stays in front.
write_checks-cons :
    (is : List ℕ) (rs : List CheckResult) (f : FixtureRow) (fs : List FixtureRow)
    → has_id is f.id ≡ false
    → write_checks is rs (f ∷ fs) ≡ after_head f (write_checks is rs fs)
unfolding write_checks after_head set_check
write_checks-cons [] [] f fs h = refl
write_checks-cons [] (r ∷ rs) f fs h = refl
write_checks-cons (i ∷ is) [] f fs h = refl
write_checks-cons (i ∷ is) (r ∷ rs) f fs h =
    let other : (f.id == i) ≡ false = ground arith in
    elim (Option-cases (set_check i r fs)) [
      | inl e ↦ rw (other, write_checks, set_check, e) refl
      | inr (rest, e) ↦
          rw (other, write_checks, set_check, e) (write_checks-cons is rs f rest (ground arith))
    ]

-- The loop puts the results on the rows, one after another.
pub write_checks-stamped :
    (check : ℕ → CheckResult) (old new : List FixtureRow)
    → ids_of new ≡ ids_of old
    → distinct_ids (ids_of old) ≡ true
    → write_checks (ids_of old) (map check (params_of old)) new
      ≡ some (stamped check (params_of old) new)
unfolding write_checks stamped distinct_ids
write_checks-stamped check [] [] e d = refl
write_checks-stamped check [] (g ∷ gs) e d = absurd (cc)
write_checks-stamped check (f ∷ fs) [] e d = absurd (cc)
write_checks-stamped check (f ∷ fs) (g ∷ gs) e d =
    let same : g.id ≡ f.id = cc in
    let tails : ids_of gs ≡ ids_of fs = cc in
    let hit : (g.id == f.id) ≡ true = ground arith in
    let fresh : has_id (ids_of fs) g.id ≡ false =
      subst (λ (i : ℕ). has_id (ids_of fs) i ≡ false) (sym same) (ground arith) in
    let head : FixtureRow = record g {
      structural_check_passed = some (check f.params).passed;
      structural_check_detail = some (check f.params).detail;
    } in
    rw (hit, write_checks, set_check)
      (write_checks-cons (ids_of fs) (map check (params_of fs)) head gs fresh
        ∙ ap (after_head head) (write_checks-stamped check fs gs tails (ground arith))
        ∙ (unfold after_head in refl))

-- A revalidation of a pending draft that validates, and that is still pending with the same fixtures
-- when the validation has run, writes the candidate's evidence on the draft, and on each fixture the
-- check of the params that it had when the revalidation read it. It changes nothing else of what the
-- other requests left.
pub revalidate_draft-revalidated :
    (validate : List ℕ → Option Candidate) (meanwhile : DraftRows → DraftRows) (now : ℕ)
    (rows : DraftRows) (check : ℕ → CheckResult) (d later : DraftRow) (c : Candidate)
    → rows.draft ≡ some d
    → is_pending_review d.status ≡ true
    → validate (params_of rows.fixtures) ≡ some c
    → c.fixture_results ≡ map check (params_of rows.fixtures)
    → (meanwhile rows).draft ≡ some later
    → is_pending_review later.status ≡ true
    → ids_of (meanwhile rows).fixtures ≡ ids_of rows.fixtures
    → distinct_ids (ids_of rows.fixtures) ≡ true
    → revalidate_draft validate meanwhile now rows ≡ (
      revalidated,
      record {
        draft = some (with_evidence now c later);
        fixtures = stamped check (params_of rows.fixtures) (meanwhile rows).fixtures;
      },
    )
unfolding revalidate_draft require_pending_draft write_found
revalidate_draft-revalidated validate meanwhile now rows check d later c e p v results l q same
      distinct =
    let written : write_checks (ids_of rows.fixtures) c.fixture_results (meanwhile rows).fixtures
        ≡ some (stamped check (params_of rows.fixtures) (meanwhile rows).fixtures) =
      ap
        (λ (rs : List CheckResult).
          write_checks (ids_of rows.fixtures) rs (meanwhile rows).fixtures)
        results
      ∙ write_checks-stamped check rows.fixtures (meanwhile rows).fixtures same distinct in
    let pending : require_pending_draft rows.draft ≡ none = ground arith in
    ap
      (λ (o : Option Outcome). elim o as (λ z. Outcome × DraftRows) [
        | some raised ↦ (raised, meanwhile rows)
        | none ↦ validated (validate (params_of rows.fixtures))
      ])
      pending
    ∙ ap validated v
    ∙ ap (λ (o : Option DraftRow). write_found now (ids_of rows.fixtures) c o (meanwhile rows)) l
    ∙ found q written
  where
    validated : Option Candidate → Outcome × DraftRows
    validated o = elim o [
      | none ↦ (Outcome.revalidation_failed, meanwhile rows)
      | some k ↦ write_found now (ids_of rows.fixtures) k (meanwhile rows).draft (meanwhile rows)
    ]

    found :
        is_pending_review later.status ≡ true
        → write_checks (ids_of rows.fixtures) c.fixture_results (meanwhile rows).fixtures
          ≡ some (stamped check (params_of rows.fixtures) (meanwhile rows).fixtures)
        → write_found now (ids_of rows.fixtures) c (some later) (meanwhile rows) ≡ (
          revalidated,
          record {
            draft = some (with_evidence now c later);
            fixtures = stamped check (params_of rows.fixtures) (meanwhile rows).fixtures;
          },
        )
    found r w = rw (r, w) refl
