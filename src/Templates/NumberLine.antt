-- ===== src/Templates/NumberLine.antt =====
-- number_line, fraction_bar and balance_scale: params.py and guard.py of each.
use si26_math_animation_john.Base.{
  ℕ, ◌*◌, ◌≡◌, refl, ap, ◌↔◌, Bool, true, false, ◌&&◌, ◌||◌, not, List, [], ◌∷◌, arith,
  if◌then◌else◌, any, All, any-false, All-any, All-weaken,
}
use si26_math_animation_john.Base.Int.{
  ℤ, pos, ◌+ℤ◌, ◌-ℤ◌, ◌≤ℤ◌, leb_ℤ, ltb_ℤ, eqb_ℤ, int_laws, +ℤ_parts, -ℤ_parts, eq_of_parts,
  pos_part, neg_part,
}
use si26_math_animation_john.Templates.Chain.{
  AddStep, apply_step, additive_from, run_additive_chain, last_of,
}

abbrev pub max_number_line_span : ℕ
max_number_line_span = 20

pub record NumberLineParams : Type 0 where
  pub start : ℤ
  pub steps : List AddStep

-- Python's max(values) and min(values) of a non-empty list
unfoldable pub max_from : ℤ → List ℤ → ℤ
max_from m [] = m
max_from m (v ∷ vs) = max_from (if ltb_ℤ m v then v else m) vs

unfoldable pub min_from : ℤ → List ℤ → ℤ
min_from m [] = m
min_from m (v ∷ vs) = min_from (if ltb_ℤ v m then v else m) vs

-- The guard: `true` where it raises nothing.
unfoldable pub check_number_line_compatibility : NumberLineParams → Bool
check_number_line_compatibility p =
    let values = additive_from p.start p.steps in
    not (ltb_ℤ p.start (pos 0))
    && not (any (λ v. ltb_ℤ v (pos 0)) (run_additive_chain p.start p.steps))
    && leb_ℤ (max_from p.start values -ℤ min_from p.start values) (pos max_number_line_span)

unfoldable pub number_line_answer : ℤ → List AddStep → ℤ
unfolding apply_step
number_line_answer total [] = total
number_line_answer total (step ∷ steps) = number_line_answer (apply_step total step) steps

abbrev pub max_fraction_units : ℕ
max_fraction_units = 4

pub record FractionBarParams : Type 0 where
  pub denominator : ℕ
  pub start_numerator : ℕ
  pub steps : List AddStep

unfoldable pub check_fraction_bar_compatibility : FractionBarParams → Bool
check_fraction_bar_compatibility p = not (
    any (λ v. ltb_ℤ v (pos 0) || ltb_ℤ (pos (p.denominator * max_fraction_units)) v)
      (run_additive_chain (pos p.start_numerator) p.steps))

abbrev pub max_balance_value : ℕ
max_balance_value = 20

pub record BalanceScaleParams : Type 0 where
  pub left_first : ℤ
  pub left_second : ℤ
  pub right_total : ℤ

unfoldable pub check_balance_scale_compatibility : BalanceScaleParams → Bool
check_balance_scale_compatibility p =
    not (leb_ℤ p.left_first (pos 0) || leb_ℤ p.left_second (pos 0))
    && eqb_ℤ (p.left_first +ℤ p.left_second) p.right_total
    && not (ltb_ℤ (pos max_balance_value) p.right_total)

unfoldable pub balance_scale_answer : BalanceScaleParams → ℤ
balance_scale_answer p = p.left_first +ℤ p.left_second

-- The answer is the last total of the chain.
answer-last :
    (start : ℤ) (steps : List AddStep)
    → number_line_answer start steps ≡ last_of start (additive_from start steps)
unfolding number_line_answer additive_from
answer-last start [] = refl
answer-last start (step ∷ steps) = answer-last (apply_step start step) steps

max_from-ge : (m : ℤ) (vs : List ℤ) → (m ≤ℤ max_from m vs) × All (λ v. v ≤ℤ max_from m vs) vs
unfolding max_from
max_from-ge m [] = (omega arith, tt)
max_from-ge m (v ∷ vs) =
    let n : ℤ = if ltb_ℤ m v then v else m in
    let h = max_from-ge n vs in (ground arith, (ground arith, h.1))

min_from-le : (m : ℤ) (vs : List ℤ) → (min_from m vs ≤ℤ m) × All (λ v. min_from m vs ≤ℤ v) vs
unfolding min_from
min_from-le m [] = (omega arith, tt)
min_from-le m (v ∷ vs) =
    let n : ℤ = if ltb_ℤ v m then v else m in
    let h = min_from-le n vs in (ground arith, (ground arith, h.1))

extremes {ℓ} :
    (P : ℤ → Type ℓ) (m n : ℤ) (vs : List ℤ)
    → P m
    → P n
    → All P vs
    → P (max_from m vs) × P (min_from n vs)
unfolding max_from min_from
extremes P m n [] pm pn h = (pm, pn)
extremes P m n (v ∷ vs) pm pn h =
    extremes P (if ltb_ℤ m v then v else m) (if ltb_ℤ v n then v else n) vs (pick (ltb_ℤ m v) pm)
      (pick (ltb_ℤ v n) pn) h.1
  where
    pick : (b : Bool) {k : ℤ} → P k → P (if b then v else k)
    pick true pk = h.0
    pick false pk = pk

span-le : (h l : ℤ) (n : ℕ) → (leb_ℤ (h -ℤ l) (pos n) ≡ true) ↔ (h ≤ℤ l +ℤ pos n)
span-le h l n = (
  λ e. ground (arith, -ℤ_parts h l, +ℤ_parts l (pos n)),
  λ e. ground (arith, -ℤ_parts h l, +ℤ_parts l (pos n)),
)

-- Every total is at least 0, and none exceeds another by more than the span.
abbrev pub FitsNumberLine : List ℤ → Type 0
FitsNumberLine values =
    All (λ v. pos 0 ≤ℤ v) values
    × All (λ v. All (λ w. v ≤ℤ w +ℤ pos max_number_line_span) values) values

-- The guard of the number line accepts exactly the parameters whose running totals, the start among
-- them, are all at least 0 and lie within a span of 20 of one another.
pub check_number_line_iff :
    (p : NumberLineParams)
    → (check_number_line_compatibility p ≡ true)
      ↔ FitsNumberLine (run_additive_chain p.start p.steps)
unfolding check_number_line_compatibility run_additive_chain
check_number_line_iff p =
    let vs = additive_from p.start p.steps in
    let top = max_from-ge p.start vs in
    let bottom = min_from-le p.start vs in
    let high = max_from p.start vs in
    let low = min_from p.start vs in
    (
      (λ h.
          let pass : leb_ℤ (high -ℤ low) (pos 20) ≡ true = ground arith in
          let close : high ≤ℤ low +ℤ pos 20 = (span-le high low 20).0 pass in
          let nonneg = any-false (λ v. ltb_ℤ v (pos 0)) (p.start ∷ vs) (ground arith) in
          (
            All-weaken (λ v. ltb_ℤ v (pos 0) ≡ false) (λ v. pos 0 ≤ℤ v) (p.start ∷ vs)
                (λ v e. ground arith) nonneg,
            All-weaken (λ v. v ≤ℤ high) (λ v. All (λ w. v ≤ℤ w +ℤ pos 20) (p.start ∷ vs))
                (p.start ∷ vs)
                (λ v e.
                  All-weaken (λ w. low ≤ℤ w) (λ w. v ≤ℤ w +ℤ pos 20) (p.start ∷ vs)
                    (λ w f. omega int_laws) bottom)
                top,
          )),
      λ (nonneg, near).
          let far =
            extremes (λ v. All (λ w. v ≤ℤ w +ℤ pos 20) (p.start ∷ vs)) p.start p.start vs near.0
              near.0 near.1 in
          let close =
            extremes (λ w. high ≤ℤ w +ℤ pos 20) p.start p.start vs far.0.0 far.0.0 far.0.1 in
          let pass = (span-le high low 20).1 close.1 in
          let none_below =
            All-any (λ v. ltb_ℤ v (pos 0)) (p.start ∷ vs)
              (All-weaken (λ v. pos 0 ≤ℤ v) (λ v. ltb_ℤ v (pos 0) ≡ false) (p.start ∷ vs)
                (λ v e. ground arith) nonneg) in
          ground arith,
    )

-- The guard of the fraction bar accepts exactly the parameters whose running numerators, the start
-- among them, all lie between 0 and four wholes.
pub check_fraction_bar_iff :
    (p : FractionBarParams)
    → (check_fraction_bar_compatibility p ≡ true)
      ↔ All
          (λ v. (pos 0 ≤ℤ v) × (v ≤ℤ pos (p.denominator * max_fraction_units)))
          (run_additive_chain (pos p.start_numerator) p.steps)
unfolding check_fraction_bar_compatibility
check_fraction_bar_iff p =
    let values = run_additive_chain (pos p.start_numerator) p.steps in
    let limit : ℕ = p.denominator * max_fraction_units in
    (
      (λ h.
          All-weaken (λ v. (ltb_ℤ v (pos 0) || ltb_ℤ (pos limit) v) ≡ false)
            (λ v. (pos 0 ≤ℤ v) × (v ≤ℤ pos limit)) values (λ v e. ground arith)
            (any-false (λ v. ltb_ℤ v (pos 0) || ltb_ℤ (pos limit) v) values (ground arith))),
      λ h.
          let none_out =
            All-any (λ v. ltb_ℤ v (pos 0) || ltb_ℤ (pos limit) v) values
              (All-weaken (λ v. (pos 0 ≤ℤ v) × (v ≤ℤ pos limit))
                (λ v. (ltb_ℤ v (pos 0) || ltb_ℤ (pos limit) v) ≡ false) values (λ v e. ground arith)
                h) in
          rw none_out,
    )

-- The guard of the balance scale accepts exactly two positive terms whose sum is the right total, up
-- to 20; the answer is then the right total.
pub check_balance_scale_iff :
    (p : BalanceScaleParams)
    → (check_balance_scale_compatibility p ≡ true) ↔ (
        (pos 1 ≤ℤ p.left_first)
        × (pos 1 ≤ℤ p.left_second)
        × (balance_scale_answer p ≡ p.right_total)
        × (p.right_total ≤ℤ pos max_balance_value))
unfolding check_balance_scale_compatibility balance_scale_answer
check_balance_scale_iff p = (
  (λ h. (
    ground arith,
    ground arith,
    eq_of_parts (p.left_first +ℤ p.left_second) p.right_total (ground arith),
    ground arith,
  )),
  λ (a, b, same, small).
      let e = ap (λ (x : ℤ). pos_part x) same in
      let f = ap (λ (x : ℤ). neg_part x) same in ground arith,
)
