-- ===== src/Grounding/Maximum.antt =====
-- The phrase solver of pipeline/grounding.py finds an assignment that grounds as many phrases as any
-- can, where its cap on steps is not hit.
use si26_math_animation_john.Grounding.Phrases.{
  search_from, try_spans, Span, Phrase, Placed, Solver, overlaps, counted, finish, try_spans, solve,
  started,
}
use si26_math_animation_john.Base.{
  ℕ, ◌+◌, ◌≤◌, ◌≡◌, refl, sym, subst, ◌⊎◌, inl, inr, true, false, List, [], ◌∷◌, arith, ltb, length,
  ◌∙◌, ap, Bool-cases, leb, suc,
}
use si26_math_animation_john.Grounding.Explored.{
  place, Extends, Extends-length, Explored, Tries, Explored-nothing, Explored-capped,
  Explored-after, Explored-map, Explored-then, finish-Explored,
}

module _ (cap active : ℕ) where
  abbrev SearchExplored : List Phrase → Type 0
  SearchExplored ps =
      (current : List Placed) (grounded : ℕ) (st : Solver)
      → grounded ≡ length current
      → length st.best ≡ st.best_count
      → Explored cap active (Extends ps current) st
          (search_from cap active ps current grounded st).0
          (search_from cap active ps current grounded st).1

  try_spans-Explored :
      (p : Phrase) (ps : List Phrase)
      → SearchExplored ps
      → (spans : List Span) (current : List Placed) (grounded : ℕ) (st : Solver)
      → grounded ≡ length current
      → length st.best ≡ st.best_count
      → Explored cap active
          (Tries p ps spans current)
          st
          (try_spans (search_from cap active ps) p.index spans current grounded st).0
          (try_spans (search_from cap active ps) p.index spans current grounded st).1
  unfolding try_spans
  try_spans-Explored p ps ih [] current grounded st e c =
      Explored-map cap active (Extends ps current) (Tries p ps [] current) st
        (search_from cap active ps current grounded st).0
        (search_from cap active ps current grounded st).1 (λ r x. inl x) only
        (ih current grounded st e c)
    where
      only : (r : List Placed) → Tries p ps [] current r → Extends ps current r
      only r (inl x) = x
      only r (inr (s, chosen, o, x)) = absurd chosen
  try_spans-Explored p ps ih (s ∷ spans) current grounded st e c =
      elim (Bool-cases (overlaps s current)) [
        | inl clash ↦
            rw (clash, try_spans)
              (Explored-map cap active (Tries p ps spans current) (Tries p ps (s ∷ spans) current)
                st (try_spans (search_from cap active ps) p.index spans current grounded st).0
                (try_spans (search_from cap active ps) p.index spans current grounded st).1 more
                (fewer clash) (try_spans-Explored p ps ih spans current grounded st e c))
        | inr free ↦
            let placed = ih (place p s current) (grounded + 1) st (omega arith) c in
            elim (Bool-cases (search_from cap active ps (place p s current) (grounded + 1) st).0) [
              | inl stop ↦ rw (free, try_spans, stop) (halted free (rw stop at placed))
              | inr go ↦
                  rw (free, try_spans, go)
                    (Explored-then cap active (Extends ps (place p s current))
                      (Tries p ps spans current) (Tries p ps (s ∷ spans) current) st
                      (search_from cap active ps (place p s current) (grounded + 1) st).1
                      (try_spans (search_from cap active ps) p.index spans current grounded
                        (search_from cap active ps (place p s current) (grounded + 1) st).1).0
                      (try_spans (search_from cap active ps) p.index spans current grounded
                        (search_from cap active ps (place p s current) (grounded + 1) st).1).1
                      (λ r x. inr (s, inl refl, free, x)) more apart (rw go at placed)
                      (try_spans-Explored p ps ih spans current grounded
                        (search_from cap active ps (place p s current) (grounded + 1) st).1 e
                        placed.counts))
            ]
      ]
    where
      more : (r : List Placed) → Tries p ps spans current r → Tries p ps (s ∷ spans) current r
      more r (inl x) = inl x
      more r (inr (q, chosen, o, x)) = inr (q, inr chosen, o, x)

      fewer :
          overlaps s current ≡ true
          → (r : List Placed) → Tries p ps (s ∷ spans) current r
          → Tries p ps spans current r
      fewer clash r (inl x) = inl x
      fewer clash r (inr (q, inr chosen, o, x)) = inr (q, chosen, o, x)
      fewer clash r (inr (q, inl same, o, x)) =
          absurd (opposite (sym clash ∙ ap (λ (z : Span). overlaps z current) (sym same) ∙ o))
        where
          opposite : true ≡ false → ⊥
          opposite h = cc

      apart :
          (r : List Placed)
          → Tries p ps (s ∷ spans) current r
          → Extends ps (place p s current) r ⊎ Tries p ps spans current r
      apart r (inl x) = inr (inl x)
      apart r (inr (q, inr chosen, o, x)) = inr (inr (q, chosen, o, x))
      apart r (inr (q, inl same, o, x)) =
          inl (subst (λ (z : Span). Extends ps (place p z current) r) same x)

      halted :
          overlaps s current ≡ false
          → Explored cap active
              (Extends ps (place p s current))
              st
              true
              (search_from cap active ps (place p s current) (grounded + 1) st).1
          → Explored cap active
              (Tries p ps (s ∷ spans) current)
              st
              true
              (search_from cap active ps (place p s current) (grounded + 1) st).1
      halted free x = record {
        grows = x.grows;
        best_lem = lift x.best_lem;
        counts = x.counts;
        all_seen = λ f. cc;
        stopped = x.stopped;
      }
        where
          lift :
              ((search_from cap active ps (place p s current) (grounded + 1) st).1.best ≡ st.best)
                ⊎ Extends ps
                    (place p s current)
                    (search_from cap active ps (place p s current) (grounded + 1) st).1.best
              → ((search_from cap active ps (place p s current) (grounded + 1) st).1.best ≡ st.best)
                ⊎ Tries p ps
                    (s ∷ spans)
                    current
                    (search_from cap active ps (place p s current) (grounded + 1) st).1.best
          lift (inl a) = inl a
          lift (inr a) = inr (inr (s, inl refl, free, a))

  search_from-Explored : (ps : List Phrase) → SearchExplored ps
  unfolding search_from
  search_from-Explored [] current grounded st e c = elim (Bool-cases (ltb cap (st.steps + 1))) [
    | inl capped ↦
        rw (capped, search_from)
          (Explored-capped cap active (Extends [] current) st c (ground arith))
    | inr under ↦ elim (Bool-cases (leb (grounded + 0) st.best_count)) [
      | inl no_better ↦
          rw (under, search_from, no_better)
            (Explored-nothing cap active (Extends [] current) st c
              (λ r x. subst (λ (q : List Placed). length q ≤ st.best_count) (sym x) (ground arith)))
      | inr better ↦
          rw (under, search_from, better, e)
            (Explored-after cap active (Extends [] current) st
              (finish active current (length current) (counted st)).0
              (finish active current (length current) (counted st)).1
              (finish-Explored cap active current (counted st) (ground arith)))
    ]
  ]
  search_from-Explored (p ∷ ps) current grounded st e c =
      elim (Bool-cases (ltb cap (st.steps + 1))) [
        | inl capped ↦
            rw (capped, search_from)
              (Explored-capped cap active (Extends (p ∷ ps) current) st c (ground arith))
        | inr under ↦ elim (Bool-cases (leb (grounded + suc (length ps)) st.best_count)) [
          | inl no_better ↦
              rw (under, search_from, no_better)
                (Explored-nothing cap active (Extends (p ∷ ps) current) st c
                  (λ r x. let bound = Extends-length (p ∷ ps) current r x in ground arith))
          | inr better ↦
              rw (under, search_from, better)
                (Explored-after cap active (Extends (p ∷ ps) current) st
                  (try_spans (search_from cap active ps) p.index p.candidates current grounded
                    (counted st)).0
                  (try_spans (search_from cap active ps) p.index p.candidates current grounded
                    (counted st)).1
                  (try_spans-Explored p ps (search_from-Explored ps) p.candidates current grounded
                    (counted st) e c))
        ]
      ]

-- No two placed spans clash.
abbrev pub AreApart : List Placed → Type 0
AreApart [] = Unit {0}
AreApart (p ∷ ps) = (overlaps p.span ps ≡ false) × AreApart ps

Extends-AreApart :
    (ps : List Phrase) (current result : List Placed)
    → Extends ps current result
    → AreApart current
    → AreApart result
Extends-AreApart [] current result e a = subst AreApart (sym e) a
Extends-AreApart (p ∷ ps) current result (inl e) a = Extends-AreApart ps current result e a
Extends-AreApart (p ∷ ps) current result (inr (s, c, o, e)) a =
    Extends-AreApart ps (place p s current) result e (o, a)

Extends-none : (ps : List Phrase) → Extends ps [] []
Extends-none [] = refl
Extends-none (p ∷ ps) = inl (Extends-none ps)

-- The solver returns an assignment of phrases to candidates of theirs of which no two clash, with its
-- number; and unless it has taken more steps than its cap, no such assignment places more phrases.
pub solve-IsMaximum :
    (cap : ℕ) (order : List Phrase)
    → Extends order [] (solve cap order).best
      × AreApart (solve cap order).best
      × (length (solve cap order).best ≡ (solve cap order).best_count)
      × ((solve cap order).steps ≤ cap
          → (r : List Placed) → Extends order [] r
          → length r ≤ (solve cap order).best_count)
unfolding solve
solve-IsMaximum cap order =
    let done = search_from-Explored cap (length order) order [] 0 started refl refl in
    let sound = legal done.best_lem in
    (
      sound,
      Extends-AreApart order [] (search_from cap (length order) order [] 0 started).1.best sound tt,
      done.counts,
      λ few r x. largest few r x done,
    )
  where
    legal :
        ((search_from cap (length order) order [] 0 started).1.best ≡ [])
          ⊎ Extends order [] (search_from cap (length order) order [] 0 started).1.best
        → Extends order [] (search_from cap (length order) order [] 0 started).1.best
    legal (inl e) = subst (Extends order []) (sym e) (Extends-none order)
    legal (inr x) = x

    largest :
        (search_from cap (length order) order [] 0 started).1.steps ≤ cap
        → (r : List Placed) → Extends order [] r
        → Explored cap
            (length order)
            (Extends order [])
            started
            (search_from cap (length order) order [] 0 started).0
            (search_from cap (length order) order [] 0 started).1
        → length r ≤ (search_from cap (length order) order [] 0 started).1.best_count
    largest few r x done = elim (Bool-cases (search_from cap (length order) order [] 0 started).0) [
      | inr go ↦ done.all_seen go r x
      | inl stop ↦ elim (done.stopped stop) [
        | inl past ↦ absurd (omega arith)
        | inr full ↦ (let bound = Extends-length order [] r x in omega arith)
      ]
    ]
