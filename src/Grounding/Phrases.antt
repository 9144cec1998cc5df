-- ===== src/Grounding/Phrases.antt =====
-- The solver of pipeline/grounding.py: `_phrase_candidate_spans` and `_resolve_phrase_assignments`.
use si26_math_animation_john.Base.{
  ℕ, suc, ◌+◌, Bool, true, false, ◌&&◌, ◌||◌, Option, none, some, List, [], ◌∷◌, ltb, leb, ◌==◌,
  if◌then◌else◌, length, any,
}

pub record Span : Type 0 where
  pub start : ℕ
  pub end : ℕ

-- A token of the source: its key and where it stands.
pub record SourceToken : Type 0 where
  pub key : ℕ
  pub span : Span

-- The end of the last token of the window where the keys stand at its start.
unfoldable pub window_end : List ℕ → List SourceToken → ℕ → Option ℕ
window_end [] tokens last = some last
window_end (k ∷ ks) [] last = none
window_end (k ∷ ks) (t ∷ ts) last =
    let rest = window_end ks ts t.span.end in if t.key == k then rest else none

-- `_phrase_candidate_spans`: a span for each start at which the keys stand; none for no keys.
unfoldable pub phrase_candidate_spans : List ℕ → List SourceToken → List Span
unfolding window_end
phrase_candidate_spans [] tokens = []
phrase_candidate_spans (k ∷ ks) [] = []
phrase_candidate_spans (k ∷ ks) (t ∷ ts) = elim (window_end (k ∷ ks) (t ∷ ts) 0) [
  | none ↦ phrase_candidate_spans (k ∷ ks) ts
  | some last ↦ record { start = t.span.start; end = last } ∷ phrase_candidate_spans (k ∷ ks) ts
]

-- A phrase with its place among the phrases, how many keys it has, and its candidates.
pub record Phrase : Type 0 where
  pub index : ℕ
  pub size : ℕ
  pub candidates : List Span

-- An entry of `current` or `best` that is not None.
pub record Placed : Type 0 where
  pub phrase : ℕ
  pub span : Span

unfoldable pub active_phrases : ℕ → List (List ℕ) → List SourceToken → List Phrase
unfolding phrase_candidate_spans
active_phrases i [] tokens = []
active_phrases i ([] ∷ rest) tokens = active_phrases (suc i) rest tokens
active_phrases i ((k ∷ ks) ∷ rest) tokens =
    record {
      index = i;
      size = length (k ∷ ks);
      candidates = phrase_candidate_spans (k ∷ ks) tokens;
    }
    ∷ active_phrases (suc i) rest tokens

-- The key of `sorted`: fewer candidates, then more keys, then the smaller index.
unfoldable pub comes_first : Phrase → Phrase → Bool
comes_first p q =
    ltb (length p.candidates) (length q.candidates)
    || ((length p.candidates == length q.candidates)
        && (ltb q.size p.size || ((p.size == q.size) && leb p.index q.index)))

unfoldable pub insert_phrase : Phrase → List Phrase → List Phrase
unfolding comes_first
insert_phrase p [] = p ∷ []
insert_phrase p (q ∷ qs) = if comes_first p q then p ∷ (q ∷ qs) else q ∷ insert_phrase p qs

unfoldable pub sorted : List Phrase → List Phrase
unfolding insert_phrase
sorted [] = []
sorted (p ∷ ps) = insert_phrase p (sorted ps)

unfoldable pub clashes : Span → Span → Bool
clashes a b = ltb a.start b.end && ltb b.start a.end

-- `current` holds no entry of the phrase that is being placed.
unfoldable pub overlaps : Span → List Placed → Bool
unfolding clashes
overlaps span current = any (λ (p : Placed). clashes span p.span) current

-- The variables that `search` shares.
pub record Solver : Type 0 where
  pub steps : ℕ
  pub best : List Placed
  pub best_count : ℕ

-- The loop over the spans of one phrase. `next` is the search of the later phrases.
unfoldable pub try_spans :
    (List Placed → ℕ → Solver → Bool × Solver)
    → ℕ
    → List Span
    → List Placed
    → ℕ
    → Solver
    → Bool × Solver
unfolding overlaps
try_spans next i [] current grounded st = next current grounded st
try_spans next i (span ∷ spans) current grounded st = elim (overlaps span current) [
  | true ↦ try_spans next i spans current grounded st
  | false ↦
      let (stop, after) = next (record { phrase = i; span = span } ∷ current) (grounded + 1) st in
      elim stop [ true ↦ (true, after) | false ↦ try_spans next i spans current grounded after ]
]

abbrev pub counted : Solver → Solver
counted st = record st { steps = st.steps + 1 }

-- The end of an assignment: it is kept where it grounds more phrases than the best so far.
unfoldable pub finish : ℕ → List Placed → ℕ → Solver → Bool × Solver
finish active current grounded st =
    let kept : Solver =
      if ltb st.best_count grounded
      then record st { best = current; best_count = grounded }
      else st in
    (kept.best_count == active, kept)

-- `search`, on the phrases that are left: whether it stops, and the shared variables after it.
unfoldable pub search_from : ℕ → ℕ → List Phrase → List Placed → ℕ → Solver → Bool × Solver
unfolding try_spans finish
search_from cap active [] current grounded st =
    if ltb cap (st.steps + 1)
    then (true, counted st)
    else if leb (grounded + 0) st.best_count
    then (false, counted st)
    else finish active current grounded (counted st)
search_from cap active (p ∷ ps) current grounded st =
    if ltb cap (st.steps + 1)
    then (true, counted st)
    else if leb (grounded + suc (length ps)) st.best_count
    then (false, counted st)
    else try_spans (search_from cap active ps) p.index p.candidates current grounded (counted st)

abbrev pub started : Solver
started = record { steps = 0; best = []; best_count = 0 }

abbrev pub phrase_solver_max_steps : ℕ
phrase_solver_max_steps = 200000

unfoldable pub solve : ℕ → List Phrase → Solver
unfolding search_from
solve cap order = (search_from cap (length order) order [] 0 started).1

unfoldable pub span_of : ℕ → List Placed → Option Span
span_of i [] = none
span_of i (p ∷ ps) = if p.phrase == i then some p.span else span_of i ps

unfoldable pub spans_of : ℕ → List (List ℕ) → List Placed → List (Option Span)
unfolding span_of
spans_of i [] best = []
spans_of i (k ∷ ks) best = span_of i best ∷ spans_of (suc i) ks best

unfoldable pub resolve_phrase_assignments : List (List ℕ) → List SourceToken → List (Option Span)
unfolding solve sorted active_phrases spans_of
resolve_phrase_assignments phrases tokens =
    spans_of 0 phrases
      (solve phrase_solver_max_steps (sorted (active_phrases 0 phrases tokens))).best
