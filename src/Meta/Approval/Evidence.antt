-- ===== src/Meta/Approval/Evidence.antt =====
-- The reports of approval.py that a publication demands, as `_require_publishable_draft` reads them.
use si26_math_animation_john.Meta.Approval.{
  is_current, is_for_runtime, is_range_from, covers_predicates, dsl_compiler_version,
  dynamic_renderer_version,
}
use si26_math_animation_john.Meta.Models.{Report}
use si26_math_animation_john.Base.{
  ℕ, zero, suc, ◌+◌, ◌≡◌, refl, ap, ◌∙◌, true, Option, none, some, List, [], ◌∷◌, arith,
  eq_option→eq,
}

-- list(range(k, k + n))
abbrev pub range_from : ℕ → ℕ → List ℕ
range_from k zero = []
range_from k (suc n) = k ∷ range_from (k + 1) n

-- A report that passed, and is of the draft's own artifact.
pub record IsCurrent (hash : ℕ) (stored : Option Report) : Type 0 where
  pub report : Report
  pub found : stored ≡ some report
  pub passed : report.passed ≡ true
  pub of_artifact : report.artifact_hash ≡ some hash

-- A report by the running compiler and renderer, which names every predicate of the guard once, in order.
pub record IsForRuntime (predicate_count : ℕ) (stored : Option Report) : Type 0 where
  pub report : Report
  pub found : stored ≡ some report
  pub compiler : report.compiler_version ≡ some dsl_compiler_version
  pub renderer : report.renderer_version ≡ some dynamic_renderer_version
  pub covered : report.negative_predicate_coverage ≡ some (range_from 0 predicate_count)

is_range_from-eq : (k n : ℕ) (xs : List ℕ) → is_range_from k n xs ≡ true → xs ≡ range_from k n
unfolding is_range_from
is_range_from-eq k zero [] h = refl
is_range_from-eq k zero (x ∷ xs) h = absurd (ground arith)
is_range_from-eq k (suc n) [] h = absurd (ground arith)
is_range_from-eq k (suc n) (x ∷ xs) h =
    let first : x ≡ k = ground arith in
    ap (λ (y : ℕ). y ∷ xs) first
    ∙ ap (λ (ys : List ℕ). k ∷ ys) (is_range_from-eq (k + 1) n xs (ground arith))

covers_predicates-eq :
    (o : Option (List ℕ)) (n : ℕ) → covers_predicates o n ≡ true → o ≡ some (range_from 0 n)
unfolding covers_predicates
covers_predicates-eq none n h = absurd (ground arith)
covers_predicates-eq (some xs) n h = ap some (is_range_from-eq 0 n xs h)

pub is_current-IsCurrent :
    (o : Option Report) (hash : ℕ) → is_current o hash ≡ true → IsCurrent hash o
unfolding is_current
is_current-IsCurrent none hash h = absurd (ground arith)
is_current-IsCurrent (some r) hash h = record {
  report = r;
  found = refl;
  passed = ground arith;
  of_artifact = eq_option→eq r.artifact_hash (some hash) (ground arith);
}

pub is_for_runtime-IsForRuntime :
    (o : Option Report) (n : ℕ) → is_for_runtime o n ≡ true → IsForRuntime n o
unfolding is_for_runtime
is_for_runtime-IsForRuntime none n h = absurd (ground arith)
is_for_runtime-IsForRuntime (some r) n h = record {
  report = r;
  found = refl;
  compiler = eq_option→eq r.compiler_version (some dsl_compiler_version) (ground arith);
  renderer = eq_option→eq r.renderer_version (some dynamic_renderer_version) (ground arith);
  covered = covers_predicates-eq r.negative_predicate_coverage n (ground arith);
}
