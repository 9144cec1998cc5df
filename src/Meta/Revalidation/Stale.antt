-- ===== src/Meta/Revalidation/Stale.antt =====
-- An edit of a fixture (update_fixture of meta/review_api.py) that lands while meta/revalidation.py
-- validates what it had read.
use si26_math_animation_john.Meta.Revalidation.{
  DraftRow, FixtureRow, DraftRows, CheckResult, Candidate, FixtureUpdate, revalidated, Outcome,
  is_pending_review, with_evidence, ids_of, params_of, revalidate_draft, update_fixture,
  edit_fixture, edited_fixture, cleared_draft, find_fixture, write_fixture,
}
use si26_math_animation_john.Meta.Revalidation.Evidence.{
  stamped, distinct_ids, revalidate_draft-revalidated,
}
use si26_math_animation_john.Base.{
  ℕ, ◌≡◌, refl, ap, ◌∙◌, true, false, Option, some, List, [], ◌∷◌, ◌==◌, if◌then◌else◌, eq_option,
  map, inl, inr, Bool-cases, arith, ◌⊎◌, eq_option_refl,
}

find_fixture-id :
    (i : ℕ) (fs : List FixtureRow) (f : FixtureRow) → find_fixture i fs ≡ some f → f.id ≡ i
unfolding find_fixture
find_fixture-id i [] f e = absurd (cc)
find_fixture-id i (g ∷ gs) f e = elim (Bool-cases (g.id == i)) [
  | inl hit ↦ ground arith
  | inr miss ↦ find_fixture-id i gs f (rw miss at e)
]

ids_of-write_fixture :
    (x : FixtureRow) (fs : List FixtureRow) → ids_of (write_fixture x fs) ≡ ids_of fs
unfolding write_fixture
ids_of-write_fixture x [] = refl
ids_of-write_fixture x (f ∷ fs) = elim (Bool-cases (f.id == x.id)) [
  | inl hit ↦
      (let same : x.id ≡ f.id = ground arith in
        rw (hit, write_fixture) (ap (λ (i : ℕ). i ∷ ids_of fs) same))
  | inr miss ↦
      rw (miss, write_fixture) (ap (λ (is : List ℕ). f.id ∷ is) (ids_of-write_fixture x fs))
]

abbrev with_check : CheckResult → FixtureRow → FixtureRow
with_check r x = record x {
  structural_check_passed = some r.passed;
  structural_check_detail = some r.detail;
}

find_fixture-stamped :
    (check : ℕ → CheckResult) (i : ℕ) (fs : List FixtureRow) (f x : FixtureRow)
    → find_fixture i fs ≡ some f
    → x.id ≡ i
    → find_fixture i (stamped check (params_of fs) (write_fixture x fs))
      ≡ some (with_check (check f.params) x)
unfolding find_fixture stamped write_fixture
find_fixture-stamped check i [] f x e n = absurd (cc)
find_fixture-stamped check i (g ∷ gs) f x e n = elim (Bool-cases (g.id == i)) [
  | inl hit ↦
      let same : g ≡ f = ground arith in
      let params : g.params ≡ f.params = ap (λ (z : FixtureRow). z.params) same in
      let here : (g.id == x.id) ≡ true = ground arith in
      let found : (x.id == i) ≡ true = ground arith in
      rw (here, write_fixture, stamped, find_fixture, found)
        (ap (λ (p : ℕ). some (with_check (check p) x)) params)
  | inr miss ↦
      let apart : (g.id == x.id) ≡ false = ground arith in
      rw (apart, write_fixture, stamped, find_fixture, miss)
        (find_fixture-stamped check i gs f x (rw miss at e) n)
]

-- A revalidation during whose validation a reviewer changes the params of a fixture still succeeds, and
-- leaves that fixture with the new params and, as its structural check, the check of the old ones; the
-- draft's reports, which the edit had cleared, are again those of the old params.
pub revalidate_draft-update_fixture :
    (validate : List ℕ → Option Candidate) (answer : ℕ → Option ℕ) (i edited now : ℕ)
    (q : FixtureUpdate) (rows : DraftRows) (check : ℕ → CheckResult) (d : DraftRow) (c : Candidate)
    (f : FixtureRow)
    → rows.draft ≡ some d
    → is_pending_review d.status ≡ true
    → validate (params_of rows.fixtures) ≡ some c
    → c.fixture_results ≡ map check (params_of rows.fixtures)
    → distinct_ids (ids_of rows.fixtures) ≡ true
    → find_fixture i rows.fixtures ≡ some f
    → answer q.params ≡ some q.expected_result
    → ((revalidate_draft validate (λ r. (update_fixture answer edited i q r).1) now rows).0
        ≡ revalidated)
      × (find_fixture i
            (revalidate_draft validate
              (λ r. (update_fixture answer edited i q r).1)
              now
              rows).1.fixtures
          ≡ some (with_check (check f.params) (edited_fixture q f)))
      × ((revalidate_draft validate (λ r. (update_fixture answer edited i q r).1) now rows).1.draft
          ≡ some (with_evidence now c d))
unfolding update_fixture edit_fixture
revalidate_draft-update_fixture validate answer i edited now q rows check d c f e p v results
      distinct g a =
    let computed : eq_option (answer q.params) (some q.expected_result) ≡ true =
      ap (λ (o : Option ℕ). eq_option o (some q.expected_result)) a
      ∙ eq_option_refl (some q.expected_result) in
    let after : (update_fixture answer edited i q rows).1 ≡ edit_fixture edited q f d rows =
      rw (g, update_fixture, e, p, computed) refl in
    let done =
      revalidate_draft-revalidated validate (λ r. (update_fixture answer edited i q r).1) now rows
        check d (edited_draft d) c e p v results (ap (λ (r : DraftRows). r.draft) after)
        (still_pending (Bool-cases (q.params == f.params)))
        (ap (λ (r : DraftRows). ids_of r.fixtures) after
          ∙ ids_of-write_fixture (edited_fixture q f) rows.fixtures)
        distinct in
    (
      ap (λ (z : Outcome × DraftRows). z.0) done,
      ap (λ (z : Outcome × DraftRows). find_fixture i z.1.fixtures) done
          ∙ ap
              (λ (r : DraftRows).
                find_fixture i (stamped check (params_of rows.fixtures) r.fixtures))
              after
          ∙ find_fixture-stamped check i rows.fixtures f (edited_fixture q f) g
              (named (Bool-cases (q.params == f.params))),
      ap (λ (z : Outcome × DraftRows). z.1.draft) done
          ∙ ap some (restored (Bool-cases (q.params == f.params))),
    )
  where
    edited_draft : DraftRow → DraftRow
    edited_draft x =
        let kept : DraftRow = if q.params == f.params then x else cleared_draft x in
        record kept { updated_at = edited }

    still_pending :
        ((q.params == f.params) ≡ true) ⊎ ((q.params == f.params) ≡ false)
        → is_pending_review (edited_draft d).status ≡ true
    still_pending (inl u) = rw u p
    still_pending (inr u) = rw u p

    named :
        ((q.params == f.params) ≡ true) ⊎ ((q.params == f.params) ≡ false)
        → (edited_fixture q f).id ≡ i
    named (inl u) = rw u (find_fixture-id i rows.fixtures f g)
    named (inr u) = rw u (find_fixture-id i rows.fixtures f g)

    restored :
        ((q.params == f.params) ≡ true) ⊎ ((q.params == f.params) ≡ false)
        → with_evidence now c (edited_draft d) ≡ with_evidence now c d
    restored (inl u) = rw u refl
    restored (inr u) = rw u refl
