-- ===== src/Grounding/Tests.antt =====
-- The example of pipeline/grounding.py: "red" and "red balloon" in the source "red balloon red", with
-- the keys 1 for red and 2 for balloon.
use si26_math_animation_john.Grounding.Phrases.{
  SourceToken, Phrase, Placed, solve, resolve_phrase_assignments,
}
use si26_math_animation_john.Grounding.Steps.{solve-steps-le}
use si26_math_animation_john.Grounding.Explored.{Extends}
use si26_math_animation_john.Grounding.Maximum.{AreApart, solve-IsMaximum}
use si26_math_animation_john.Base.{ℕ, ◌≡◌, ◌≤◌, refl, List, [], ◌∷◌, length, some}

abbrev token : ℕ → ℕ → ℕ → SourceToken
token key start end = record { key = key; span = record { start = start; end = end } }

abbrev source : List SourceToken
source = token 1 0 3 ∷ token 2 4 11 ∷ token 1 12 15 ∷ []

abbrev wanted : List (List ℕ)
wanted = (1 ∷ []) ∷ (1 ∷ 2 ∷ []) ∷ []

abbrev order : List Phrase
order =
    record { index = 1; size = 2; candidates = record { start = 0; end = 11 } ∷ [] }
    ∷ record {
      index = 0;
      size = 1;
      candidates = record { start = 0; end = 3 } ∷ record { start = 12; end = 15 } ∷ [];
    }
    ∷ []

-- Both are grounded: the shorter phrase leaves the first "red" to the longer one.
both_grounded :
    resolve_phrase_assignments wanted source
    ≡ some (record { start = 12; end = 15 }) ∷ some (record { start = 0; end = 11 }) ∷ []
unfolding resolve_phrase_assignments
both_grounded = refl

solve-IsMaximum_example :
    Extends order [] (solve 200000 order).best
    × AreApart (solve 200000 order).best
    × (length (solve 200000 order).best ≡ (solve 200000 order).best_count)
    × ((solve 200000 order).steps ≤ 200000
        → (r : List Placed) → Extends order [] r
        → length r ≤ (solve 200000 order).best_count)
solve-IsMaximum_example = solve-IsMaximum 200000 order

solve-steps-le_example : (solve 3 order).steps ≤ 4
solve-steps-le_example = solve-steps-le 3 order
