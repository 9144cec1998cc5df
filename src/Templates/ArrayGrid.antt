-- ===== src/Templates/ArrayGrid.antt =====
-- array_grid: layout.py, params.py and guard.py.
use si26_math_animation_john.Templates.Chain.{
  MulStep, multiplicative_from, last_of, run_multiplicative_chain, multiply_step,
}
use native.Mathlib.Nat.{div-add-mod}
use si26_math_animation_john.Templates.Chain.{MulOp, MulStep}
use si26_math_animation_john.Base.{
  ℕ, zero, suc, ◌*◌, ◌/◌, ◌%◌, ◌≤◌, ◌<◌, min, ◌≡◌, refl, ap, ◌∙◌, subst, inl, inr, Bool, true,
  false, ◌&&◌, ◌||◌, not, Option, none, some, List, [], ◌∷◌, ◌++◌, arith, ltb, leb, ◌==◌,
  if◌then◌else◌, Bool-cases, Option-cases, all,
}

abbrev pub max_grid_axis : ℕ
max_grid_axis = 12

abbrev pub max_grid_total : ℕ
max_grid_total = 144

-- math.isqrt, searched downwards from `k`
unfoldable pub isqrt_upto : ℕ → ℕ → ℕ
isqrt_upto zero n = 0
isqrt_upto (suc k) n = let rest = isqrt_upto k n in if leb (suc k * suc k) n then suc k else rest

unfoldable pub isqrt : ℕ → ℕ
unfolding isqrt_upto
isqrt n = isqrt_upto n n

-- The comprehension over range(1, k + 1).
unfoldable pub factor_pairs : ℕ → ℕ → List (ℕ × ℕ)
factor_pairs zero total = []
factor_pairs (suc k) total =
    factor_pairs k total
    ++ (if (total % suc k == 0) && leb (total / suc k) max_grid_axis
        then (suc k, total / suc k) ∷ []
        else [])

-- max(pairs, key=rows): the first of the pairs with the most rows
unfoldable pub widest : ℕ × ℕ → List (ℕ × ℕ) → ℕ × ℕ
widest p [] = p
widest p (q ∷ qs) = widest (if ltb p.0 q.0 then q else p) qs

pick_pair : List (ℕ × ℕ) → Option (ℕ × ℕ)
pick_pair [] = none
pick_pair (p ∷ ps) = some (widest p ps)

-- `none` is a ValueError
unfoldable pub grid_dimensions : ℕ → Option (ℕ × ℕ)
unfolding isqrt factor_pairs widest pick_pair
grid_dimensions total =
    if leb total 0
    then none
    else if ltb max_grid_total total
    then none
    else pick_pair (factor_pairs (min (isqrt total) max_grid_axis) total)

-- A grid of `r` rows and `c` columns for the total.
abbrev pub IsGrid : ℕ → ℕ → ℕ → Type 0
IsGrid total r c = (r * c ≡ total) × (1 ≤ r) × (r ≤ c) × (c ≤ max_grid_axis)

-- The best grid, or none.
abbrev pub IsBestGrid : ℕ → Option (ℕ × ℕ) → Type 0
IsBestGrid total none = (r c : ℕ) → ¬ IsGrid total r c
IsBestGrid total (some (r, c)) = IsGrid total r c × ((r' c' : ℕ) → IsGrid total r' c' → r' ≤ r)

-- The test passes at every number under the bound, tried from the top.
holds_under : (ℕ → Bool) → ℕ → Bool
holds_under test zero = true
holds_under test (suc top) = let below = holds_under test top in if test top then below else false

holds_under→at :
    (test : ℕ → Bool) (bound i : ℕ) → i < bound → holds_under test bound ≡ true → test i ≡ true
unfolding holds_under
holds_under→at test zero i lt h = absurd (omega arith)
holds_under→at test (suc top) i lt h = elim (Bool-cases (top == i)) [
  | inl hit ↦
      let at_top : test top ≡ true = ground arith in
      let e : top ≡ i = ground arith in subst (λ j. test j ≡ true) e at_top
  | inr miss ↦ holds_under→at test top i (ground arith) (ground arith)
]

abbrev grid_test : ℕ → ℕ → ℕ → Bool
grid_test total r c = (r * c == total) && leb 1 r && leb r c

abbrev best_test : ℕ → Option (ℕ × ℕ) → ℕ → ℕ → Bool
best_test total none r' c' = not (grid_test total r' c')
best_test total (some (r, c)) r' c' =
    grid_test total r c && leb c 12 && (not (grid_test total r' c') || leb r' r)

table :
    holds_under
      (λ t. holds_under (λ r. holds_under (λ c. best_test t (grid_dimensions t) r c) 13) 13)
      145
    ≡ true
unfolding holds_under grid_dimensions
table = refl

small-best :
    (total r c : ℕ)
    → total < 145
    → r < 13
    → c < 13
    → best_test total (grid_dimensions total) r c ≡ true
small-best total r c t a b =
    let by_total =
      holds_under→at
        (λ t. holds_under (λ r. holds_under (λ c. best_test t (grid_dimensions t) r c) 13) 13) 145
        total t table in
    let by_rows =
      holds_under→at (λ r. holds_under (λ c. best_test total (grid_dimensions total) r c) 13) 13 r a
        by_total in
    holds_under→at (λ c. best_test total (grid_dimensions total) r c) 13 c b by_rows

best_of_tests :
    (total : ℕ) (o : Option (ℕ × ℕ))
    → ((r c : ℕ) → r < 13 → c < 13 → best_test total o r c ≡ true)
    → IsBestGrid total o
best_of_tests total none h =
    λ r c (area, low, wide, fits). absurd (ground (arith, h r c (ground arith) (ground arith)))
best_of_tests total (some (r, c)) h = (
  (
    ground (arith, h 0 0 (omega arith) (omega arith)),
    ground (arith, h 0 0 (omega arith) (omega arith)),
    ground (arith, h 0 0 (omega arith) (omega arith)),
    ground (arith, h 0 0 (omega arith) (omega arith)),
  ),
  λ r' c' (area, low, wide, fits). ground (arith, h r' c' (ground arith) (ground arith)),
)

area-le : (r c : ℕ) → r ≤ 12 → c ≤ 12 → r * c ≤ 144
area-le r c a b = grind arith

too_large : (total : ℕ) → 144 < total → grid_dimensions total ≡ none
unfolding grid_dimensions
too_large total h = ground arith

-- `grid_dimensions` returns a grid of the total, no wider than 12, with the most rows that such a grid
-- with no more rows than columns can have; and it raises exactly where there is no such grid.
pub grid_dimensions-IsBestGrid : (total : ℕ) → IsBestGrid total (grid_dimensions total)
grid_dimensions-IsBestGrid total = elim (Bool-cases (ltb 144 total)) [
  | inr small ↦
      best_of_tests total (grid_dimensions total)
        (λ r c a b. small-best total r c (ground arith) a b)
  | inl large ↦
      rw (too_large total (ground arith))
        (λ r c (area, low, wide, fits). absurd (ground (arith, area-le r c (omega arith) fits)))
]

pub record ArrayGridParams : Type 0 where
  pub rows : Option ℕ
  pub cols : Option ℕ
  pub start : Option ℕ
  pub steps : List MulStep

abbrev is_some {ℓ} : {A : Type ℓ} → Option A → Bool
is_some none = false
is_some (some a) = true

-- `none` is the ValueError of a missing side
area : Option ℕ → Option ℕ → Option ℕ
area (some r) (some c) = some (r * c)
area _ _ = none

unfoldable pub starting_total : ArrayGridParams → Option ℕ
unfolding area
starting_total p = elim p.start [ some n ↦ some n | none ↦ area p.rows p.cols ]

all_grids : Option (List ℕ) → Bool
all_grids none = false
all_grids (some totals) = all (λ t. is_some (grid_dimensions t)) totals

-- guard.py, on the starting total that the parameters have
compatible_from : List MulStep → Option ℕ → Bool
unfolding all_grids
compatible_from steps none = false
compatible_from [] (some total) = is_some (grid_dimensions total)
compatible_from (step ∷ steps) (some total) =
    all_grids (run_multiplicative_chain total (step ∷ steps))

unfoldable pub check_array_grid_compatibility : ArrayGridParams → Bool
unfolding compatible_from
check_array_grid_compatibility p = compatible_from p.steps (starting_total p)

abbrev is_nil {ℓ} : {A : Type ℓ} → List A → Bool
is_nil [] = true
is_nil (x ∷ xs) = false

-- `_check_guard` of ArrayGridParams: `true` where it raises nothing.
unfoldable pub check_guard : ArrayGridParams → Bool
check_guard p =
    let has_rows = is_some p.rows in
    let has_cols = is_some p.cols in
    ((has_rows && has_cols) || not (has_rows || has_cols))
    && (if is_nil p.steps
        then not (is_some p.start) && has_rows
        else (is_some p.start || has_rows) && not (is_some p.start && has_rows))
    && check_array_grid_compatibility p

-- compute_answer: an exact fraction, as numerator and denominator before reduction.
unfoldable pub answer_step : MulOp → ℕ → ℕ × ℕ → ℕ × ℕ
answer_step MulOp.multiply factor (n, d) = (n * factor, d)
answer_step MulOp.divide factor (n, d) = (n, d * factor)

unfoldable pub answer_from : ℕ × ℕ → List MulStep → ℕ × ℕ
unfolding answer_step
answer_from q [] = q
answer_from q (step ∷ steps) = answer_from (answer_step step.operation step.factor q) steps

-- The fraction `q` is the whole number `total`.
abbrev pub IsWhole : ℕ → ℕ × ℕ → Type 0
IsWhole total q = (q.0 ≡ total * q.1) × (0 < q.1)

exact : (n f : ℕ) → 0 < f → n % f ≡ 0 → n ≡ n / f * f
exact n f h e = grind (arith, div-add-mod n f)

scaled : (a b c f : ℕ) → a ≡ b * c → a * f ≡ b * f * c
scaled a b c f h = omega (arith, ap (λ (x : ℕ). x * f) h)

regroup : (m f d : ℕ) → m * f * d ≡ m * (d * f)
regroup m f d = omega arith

product_pos : (a b : ℕ) → 0 < a → 0 < b → 0 < a * b
product_pos a b h k = grind arith

answer_step-IsWhole :
    (op : MulOp) (f running m : ℕ) (q : ℕ × ℕ)
    → multiply_step running (record { operation = op; factor = f }) ≡ some m
    → IsWhole running q
    → IsWhole m (answer_step op f q)
unfolding answer_step multiply_step
answer_step-IsWhole MulOp.multiply f running m (n, d) e (whole, pos_d) =
    let m_is : running * f ≡ m = ground arith in (rw (← m_is) (scaled n running d f whole), pos_d)
answer_step-IsWhole MulOp.divide f running m (n, d) e (whole, pos_d) =
    let f_pos : 0 < f = ground arith in
    let m_is : running / f ≡ m = ground arith in
    let back : running ≡ running / f * f = exact running f f_pos (ground arith) in
    let times : running ≡ m * f = back ∙ ap (λ (x : ℕ). x * f) m_is in
    (whole ∙ ap (λ (x : ℕ). x * d) times ∙ regroup m f d, product_pos d f pos_d f_pos)

answer_from-IsWhole :
    (steps : List MulStep) (running : ℕ) (q : ℕ × ℕ) (ns : List ℕ)
    → IsWhole running q
    → multiplicative_from steps running ≡ some ns
    → IsWhole (last_of running ns) (answer_from q steps)
unfolding answer_from multiplicative_from
answer_from-IsWhole [] running q ns w c =
    let e : [] ≡ ns = ground arith in subst (λ xs. IsWhole (last_of running xs) q) e w
answer_from-IsWhole (step ∷ steps) running q ns w c =
    elim (Option-cases (multiply_step running step)) [
      | inl failed ↦ absurd (ground arith)
      | inr (m, e) ↦ elim (Option-cases (multiplicative_from steps m)) [
        | inl failed ↦ absurd (ground arith)
        | inr (rest, f) ↦
            let whole : m ∷ rest ≡ ns = ground arith in
            subst (λ xs. IsWhole (last_of running xs) (answer_from q (step ∷ steps))) whole
              (answer_from-IsWhole steps m (answer_step step.operation step.factor q) rest
                (answer_step-IsWhole step.operation step.factor running m q e w) f)
      ]
    ]

-- Where the chain of the guard has totals, `compute_answer` is a whole number: the last total shown.
pub compute_answer-last :
    (start : ℕ) (steps : List MulStep) (totals : List ℕ)
    → run_multiplicative_chain start steps ≡ some (start ∷ totals)
    → IsWhole (last_of start totals) (answer_from (start, 1) steps)
unfolding run_multiplicative_chain
compute_answer-last start steps totals h = elim (Option-cases (multiplicative_from steps start)) [
  | inl failed ↦ absurd (ground arith)
  | inr (ns, e) ↦
      answer_from-IsWhole steps start (start, 1) totals (omega arith, omega arith) (ground arith)
]
