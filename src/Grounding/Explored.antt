-- ===== src/Grounding/Explored.antt =====
-- What a part of the phrase solver of pipeline/grounding.py has explored, and how parts join.
use si26_math_animation_john.Grounding.Phrases.{
  Span, Phrase, Placed, Solver, overlaps, counted, finish,
}
use si26_math_animation_john.Base.{
  ℕ, ◌+◌, ◌≤◌, ◌<◌, ◌≡◌, refl, sym, subst, ◌⊎◌, inl, inr, Bool, true, false, List, [], ◌∷◌, arith,
  ltb, length, ◌∙◌,
}

abbrev pub Chosen : Span → List Span → Type 0
Chosen s [] = ⊥
Chosen s (x ∷ xs) = (s ≡ x) ⊎ Chosen s xs

abbrev pub place : Phrase → Span → List Placed → List Placed
place p s current = record { phrase = p.index; span = s } ∷ current

-- What an assignment becomes when each phrase that is left is placed on one of its candidates that
-- clashes with nothing placed before, or left out.
abbrev pub Extends : List Phrase → List Placed → List Placed → Type 0
Extends [] current result = result ≡ current
Extends (p ∷ ps) current result =
    Extends ps current result
    ⊎ ((s : Span) × Chosen s p.candidates
        × (overlaps s current ≡ false)
        × Extends ps (place p s current) result)

pub Extends-length :
    (ps : List Phrase) (current result : List Placed)
    → Extends ps current result
    → length result ≤ length current + length ps
Extends-length [] current result e =
    subst (λ (r : List Placed). length r ≤ length current + 0) (sym e) (omega arith)
Extends-length (p ∷ ps) current result (inl e) = omega (arith, Extends-length ps current result e)
Extends-length (p ∷ ps) current result (inr (s, c, o, e)) =
    omega (arith, Extends-length ps (place p s current) result e)

-- What a part of the search has done, for the assignments `X` that it goes through.
pub record Explored (cap active : ℕ) (X : List Placed → Type 0) (before : Solver) (stop : Bool)
    (after : Solver) : Type 0 where
  pub grows : before.best_count ≤ after.best_count
  pub best_lem : (after.best ≡ before.best) ⊎ X after.best
  pub counts : length after.best ≡ after.best_count
  pub all_seen : stop ≡ false → (r : List Placed) → X r → length r ≤ after.best_count
  pub stopped : stop ≡ true → (cap < after.steps) ⊎ (after.best_count ≡ active)

-- The assignments that the loop over the spans of a phrase goes through.
abbrev pub Tries : Phrase → List Phrase → List Span → List Placed → List Placed → Type 0
Tries p ps spans current result =
    Extends ps current result
    ⊎ ((s : Span) × Chosen s spans
        × (overlaps s current ≡ false)
        × Extends ps (place p s current) result)

module _ (cap active : ℕ) where
  -- A part that stops at once, or that nothing can improve.
  pub Explored-nothing :
      (X : List Placed → Type 0) (st : Solver)
      → length st.best ≡ st.best_count
      → ((r : List Placed) → X r → length r ≤ st.best_count)
      → Explored cap active X st false (counted st)
  Explored-nothing X st c h = record {
    grows = omega arith;
    best_lem = inl refl;
    counts = c;
    all_seen = λ e. h;
    stopped = λ e. cc;
  }

  pub Explored-capped :
      (X : List Placed → Type 0) (st : Solver)
      → length st.best ≡ st.best_count
      → cap < st.steps + 1
      → Explored cap active X st true (counted st)
  Explored-capped X st c h = record {
    grows = omega arith;
    best_lem = inl refl;
    counts = c;
    all_seen = λ e. cc;
    stopped = λ e. inl h;
  }

  pub Explored-after :
      (X : List Placed → Type 0) (st : Solver) (stop : Bool) (after : Solver)
      → Explored cap active X (counted st) stop after
      → Explored cap active X st stop after
  Explored-after X st stop after x = record {
    grows = x.grows;
    best_lem = x.best_lem;
    counts = x.counts;
    all_seen = x.all_seen;
    stopped = x.stopped;
  }

  pub finish-Explored :
      (current : List Placed) (st : Solver)
      → st.best_count < length current
      → Explored cap active
          (λ r. r ≡ current)
          st
          (finish active current (length current) st).0
          (finish active current (length current) st).1
  unfolding finish
  finish-Explored current st h =
      let better : ltb st.best_count (length current) ≡ true = ground arith in
      rw better (record {
        grows = omega arith;
        best_lem = inr refl;
        counts = refl;
        all_seen =
            λ e r f. subst (λ (q : List Placed). length q ≤ length current) (sym f) (omega arith);
        stopped = λ e. inr (ground arith);
      })

  pub Explored-map :
      (X Y : List Placed → Type 0) (st : Solver) (stop : Bool) (after : Solver)
      → ((r : List Placed) → X r → Y r)
      → ((r : List Placed) → Y r → X r)
      → Explored cap active X st stop after
      → Explored cap active Y st stop after
  Explored-map X Y st stop after f g x = record {
    grows = x.grows;
    best_lem = forward x.best_lem;
    counts = x.counts;
    all_seen = λ e r y. x.all_seen e r (g r y);
    stopped = x.stopped;
  }
    where
      forward : (after.best ≡ st.best) ⊎ X after.best → (after.best ≡ st.best) ⊎ Y after.best
      forward (inl e) = inl e
      forward (inr h) = inr (f after.best h)

  -- One part after another that did not stop.
  pub Explored-then :
      (X Y Z : List Placed → Type 0) (st middle : Solver) (stop : Bool) (after : Solver)
      → ((r : List Placed) → X r → Z r)
      → ((r : List Placed) → Y r → Z r)
      → ((r : List Placed) → Z r → X r ⊎ Y r)
      → Explored cap active X st false middle
      → Explored cap active Y middle stop after
      → Explored cap active Z st stop after
  Explored-then X Y Z st middle stop after f g h x y = record {
    grows = omega (arith, x.grows, y.grows);
    best_lem = joined x.best_lem y.best_lem;
    counts = y.counts;
    all_seen = λ e r z. seen e r (h r z);
    stopped = y.stopped;
  }
    where
      joined :
          (middle.best ≡ st.best) ⊎ X middle.best
          → (after.best ≡ middle.best) ⊎ Y after.best
          → (after.best ≡ st.best) ⊎ Z after.best
      joined b (inr c) = inr (g after.best c)
      joined (inl b) (inl c) = inl (c ∙ b)
      joined (inr b) (inl c) = inr (subst Z (sym c) (f middle.best b))

      seen : stop ≡ false → (r : List Placed) → X r ⊎ Y r → length r ≤ after.best_count
      seen e r (inl a) = omega (arith, x.all_seen refl r a, y.grows)
      seen e r (inr b) = y.all_seen e r b
