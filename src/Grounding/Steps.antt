-- ===== src/Grounding/Steps.antt =====
-- The cap of pipeline/grounding.py on the steps of its phrase solver.
use si26_math_animation_john.Grounding.Phrases.{
  Span, Phrase, Placed, Solver, overlaps, try_spans, counted, finish, search_from, started, solve,
}
use si26_math_animation_john.Base.{
  ℕ, suc, ◌+◌, ◌≤◌, ◌≡◌, inl, inr, Bool, false, List, [], ◌∷◌, arith, ltb, leb, Bool-cases, length,
}

-- A part of the search that starts within the cap counts at most one step past it, and none where it
-- does not stop.
abbrev IsCapped : ℕ → Bool × Solver → Type 0
IsCapped cap (stop, after) = (after.steps ≤ cap + 1) × (stop ≡ false → after.steps ≤ cap)

module _ (cap active : ℕ) where
  abbrev SearchIsCapped : List Phrase → Type 0
  SearchIsCapped ps =
      (current : List Placed) (grounded : ℕ) (st : Solver)
      → st.steps ≤ cap
      → IsCapped cap (search_from cap active ps current grounded st)

  try_spans-IsCapped :
      (p : Phrase) (ps : List Phrase)
      → SearchIsCapped ps
      → (spans : List Span) (current : List Placed) (grounded : ℕ) (st : Solver) → st.steps ≤ cap
      → IsCapped cap (try_spans (search_from cap active ps) p.index spans current grounded st)
  unfolding try_spans
  try_spans-IsCapped p ps ih [] current grounded st h = ih current grounded st h
  try_spans-IsCapped p ps ih (s ∷ spans) current grounded st h =
      elim (Bool-cases (overlaps s current)) [
        | inl clash ↦ rw (clash, try_spans) (try_spans-IsCapped p ps ih spans current grounded st h)
        | inr free ↦
            let placed = ih (record { phrase = p.index; span = s } ∷ current) (grounded + 1) st h in
            elim (Bool-cases
              (search_from cap active ps (record { phrase = p.index; span = s } ∷ current)
                (grounded + 1) st).0) [
                  | inl stop ↦ rw (free, try_spans, stop) (placed.0, (λ e. cc))
                  | inr go ↦
                      rw (free, try_spans, go)
                        (try_spans-IsCapped p ps ih spans current grounded
                          (search_from cap active ps
                            (record { phrase = p.index; span = s } ∷ current) (grounded + 1) st).1
                          (placed.1 go))
                ]
      ]

  search_from-IsCapped : (ps : List Phrase) → SearchIsCapped ps
  unfolding search_from finish
  search_from-IsCapped [] current grounded st h = ground arith
  search_from-IsCapped (p ∷ ps) current grounded st h = elim (Bool-cases (ltb cap (st.steps + 1))) [
    | inl capped ↦ rw (capped, search_from) (omega arith, (λ e. cc))
    | inr under ↦ elim (Bool-cases (leb (grounded + suc (length ps)) st.best_count)) [
      | inl no_better ↦ rw (under, search_from, no_better) (omega arith, (λ e. ground arith))
      | inr better ↦
          rw (under, search_from, better)
            (try_spans-IsCapped p ps (search_from-IsCapped ps) p.candidates current grounded
              (counted st) (ground arith))
    ]
  ]

-- However many phrases and candidates there are, the solver visits at most one node more than its cap.
pub solve-steps-le : (cap : ℕ) (order : List Phrase) → (solve cap order).steps ≤ cap + 1
unfolding solve
solve-steps-le cap order =
    (search_from-IsCapped cap (length order) order [] 0 started (omega arith)).0
