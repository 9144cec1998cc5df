-- ===== src/Storyboard/Chain/Regroup.antt =====
-- What chaining scenes and ungrouping them again leaves of the storyboard's order in routes.py.
use si26_math_animation_john.Storyboard.Chain.Order.{
  index, remove, remove_all, insert_at, insert_all, pop, earliest, chain_order, ungroup_order,
  sorted_by, all_distinct,
}
use si26_math_animation_john.Storyboard.Chain.Sorting.{sorted_by-index}
use si26_math_animation_john.Storyboard.Scenes.{has}
use si26_math_animation_john.Base.{
  ℕ, suc, ◌+◌, ◌≤◌, min, ◌≡◌, refl, sym, ap, ◌∙◌, subst, inl, inr, Bool, true, false, ◌||◌, not,
  List, [], ◌∷◌, ◌++◌, arith, ◌==◌, Bool-cases, length, all, select, reject,
}

has-append : (a : ℕ) (xs ys : List ℕ) → has (xs ++ ys) a ≡ (has xs a || has ys a)
has-append a [] ys = refl
has-append a (x ∷ xs) ys = ground (arith, has-append a xs ys)

insert_at-append :
    (before rest : List ℕ) (i : ℕ)
    → insert_at (length before) i (before ++ rest) ≡ before ++ i ∷ rest
unfolding insert_at
insert_at-append [] rest i = refl
insert_at-append (x ∷ xs) rest i = ap (λ (o : List ℕ). x ∷ o) (insert_at-append xs rest i)

index-append :
    (i : ℕ) (before rest : List ℕ)
    → has before i ≡ false
    → index i (before ++ rest) ≡ length before + index i rest
unfolding index
index-append i [] rest h = omega arith
index-append i (x ∷ xs) rest h = ground (arith, index-append i xs rest)

index_self : (i : ℕ) (rest : List ℕ) → index i (i ∷ rest) ≡ 0
unfolding index
index_self i rest = ground arith

pop-append :
    (before rest : List ℕ) (i : ℕ) → pop (length before) (before ++ i ∷ rest) ≡ before ++ rest
unfolding pop
pop-append [] rest i = refl
pop-append (x ∷ xs) rest i = ap (λ (o : List ℕ). x ∷ o) (pop-append xs rest i)

insert_all-cons :
    (k x : ℕ) (ms order : List ℕ) → insert_all (suc k) ms (x ∷ order) ≡ x ∷ insert_all k ms order
unfolding insert_all insert_at
insert_all-cons k x [] order = refl
insert_all-cons k x (m ∷ ms) order = insert_all-cons (suc k) x ms (insert_at k m order)

insert_all-append :
    (before ms rest : List ℕ)
    → insert_all (length before) ms (before ++ rest) ≡ before ++ (ms ++ rest)
unfolding insert_all insert_at
insert_all-append [] ms rest = at_start ms rest
  where
    at_start : (ns order : List ℕ) → insert_all 0 ns order ≡ ns ++ order
    at_start [] order = refl
    at_start (n ∷ ns) order =
        insert_all-cons 0 n ns order ∙ ap (λ (o : List ℕ). n ∷ o) (at_start ns order)
insert_all-append (x ∷ xs) ms rest =
    insert_all-cons (length xs) x ms (xs ++ rest)
    ∙ ap (λ (o : List ℕ). x ∷ o) (insert_all-append xs ms rest)

-- Ungrouping puts the members where the chain stood.
ungroup_order-append :
    (i : ℕ) (before members rest : List ℕ)
    → has before i ≡ false
    → ungroup_order i members (before ++ i ∷ rest) ≡ before ++ (members ++ rest)
unfolding ungroup_order
ungroup_order-append i before members rest h =
    let place : index i (before ++ i ∷ rest) ≡ length before =
      omega (arith, index-append i before (i ∷ rest) h, index_self i rest) in
    ap (λ (k : ℕ). insert_all k members (pop k (before ++ i ∷ rest))) place
    ∙ ap (insert_all (length before) members) (pop-append before rest i)
    ∙ insert_all-append before members rest

reject-none : (p : ℕ → Bool) (xs : List ℕ) → all (λ a. not (p a)) xs ≡ true → reject p xs ≡ xs
reject-none p [] h = refl
reject-none p (x ∷ xs) h = ground (arith, reject-none p xs)

select-none : (p : ℕ → Bool) (xs : List ℕ) → all (λ a. not (p a)) xs ≡ true → select p xs ≡ []
select-none p [] h = refl
select-none p (x ∷ xs) h = ground (arith, select-none p xs)

select-append : (p : ℕ → Bool) (xs ys : List ℕ) → select p (xs ++ ys) ≡ select p xs ++ select p ys
select-append p [] ys = refl
select-append p (x ∷ xs) ys = ground (arith, select-append p xs ys)

reject_twice :
    (i : ℕ) (p : ℕ → Bool) (xs : List ℕ)
    → reject p (reject (λ a. i == a) xs) ≡ reject (λ a. i == a || p a) xs
reject_twice i p [] = refl
reject_twice i p (x ∷ xs) = ground (arith, reject_twice i p xs)

reject-absent : (i : ℕ) (xs : List ℕ) → has xs i ≡ false → reject (λ a. i == a) xs ≡ xs
reject-absent i [] h = refl
reject-absent i (x ∷ xs) h = ground (arith, reject-absent i xs)

remove-reject :
    (i : ℕ) (xs : List ℕ) → all_distinct xs ≡ true → remove i xs ≡ reject (λ a. i == a) xs
unfolding remove all_distinct
remove-reject i [] d = refl
remove-reject i (x ∷ xs) d = elim (Bool-cases (x == i)) [
  | inl hit ↦
      let same : x ≡ i = ground arith in
      let out : has xs i ≡ false = subst (λ (w : ℕ). has xs w ≡ false) same (ground arith) in
      ground (arith, reject-absent i xs out)
  | inr miss ↦ ground (arith, remove-reject i xs)
]

has-reject : (i a : ℕ) (xs : List ℕ) → has xs a ≡ false → has (reject (λ b. i == b) xs) a ≡ false
has-reject i a [] h = refl
has-reject i a (x ∷ xs) h = ground (arith, has-reject i a xs)

reject-distinct :
    (i : ℕ) (xs : List ℕ) → all_distinct xs ≡ true → all_distinct (reject (λ a. i == a) xs) ≡ true
unfolding all_distinct
reject-distinct i [] d = refl
reject-distinct i (x ∷ xs) d = ground (arith, reject-distinct i xs, has-reject i x xs)

remove_all-reject :
    (ids order : List ℕ) → all_distinct order ≡ true → remove_all ids order ≡ reject (has ids) order
unfolding remove_all
remove_all-reject [] order d = sym (reject-none (has []) order (all_kept order))
  where
    all_kept : (xs : List ℕ) → all (λ a. not (has [] a)) xs ≡ true
    all_kept [] = refl
    all_kept (x ∷ xs) = all_kept xs
remove_all-reject (i ∷ is) order d =
    ap (remove_all is) (remove-reject i order d)
    ∙ remove_all-reject is (reject (λ a. i == a) order) (reject-distinct i order d)
    ∙ reject_twice i (has is) order

-- The smallest place of the ids, by a bound that one of them meets.
earliest-ge :
    (i : ℕ) (is order : List ℕ) (k : ℕ)
    → ((a : ℕ) → has (i ∷ is) a ≡ true → k ≤ index a order)
    → k ≤ earliest (i ∷ is) order
unfolding earliest
earliest-ge i [] order k h = h i (ground arith)
earliest-ge i (j ∷ js) order k h =
    let rest = earliest-ge j js order k (λ a e. h a (ground arith)) in
    let one = h i (ground arith) in ground arith

earliest-le : (ids order : List ℕ) (a : ℕ) → has ids a ≡ true → earliest ids order ≤ index a order
unfolding earliest
earliest-le [] order a h = absurd (cc)
earliest-le (i ∷ []) order a h =
    let same : i ≡ a = ground arith in
    subst (λ (w : ℕ). index i order ≤ index w order) same (omega arith)
earliest-le (i ∷ (j ∷ js)) order a h = elim (Bool-cases (i == a)) [
  | inl hit ↦
      let same : i ≡ a = ground arith in
      subst (λ (w : ℕ). min (index i order) (earliest (j ∷ js) order) ≤ index w order) same
        (ground arith)
  | inr miss ↦ ground (arith, earliest-le (j ∷ js) order a)
]

absent_before :
    (ids before : List ℕ) (a : ℕ)
    → all (λ b. not (has ids b)) before ≡ true
    → has ids a ≡ true
    → has before a ≡ false
absent_before ids [] a h e = refl
absent_before ids (b ∷ bs) a h e = elim (Bool-cases (b == a)) [
  | inl hit ↦
      let same : b ≡ a = ground arith in
      absurd (contradiction (subst (λ (w : ℕ). has ids w ≡ false) same (ground arith)))
  | inr miss ↦ ground (arith, absent_before ids bs a)
]
  where
    contradiction : has ids a ≡ false → ⊥
    contradiction f = ground arith

-- A chain takes the place of the first of its members, and the others leave the order; where the ids
-- of the order are distinct, `before` holds none of the members and `first` is one.
chain_order-append :
    (ids before rest : List ℕ) (first new_id : ℕ)
    → all_distinct (before ++ first ∷ rest) ≡ true
    → all (λ b. not (has ids b)) before ≡ true
    → has ids first ≡ true
    → chain_order ids new_id (before ++ first ∷ rest)
      ≡ before ++ new_id ∷ reject (has ids) (first ∷ rest)
unfolding chain_order
chain_order-append [] before rest first new_id d b f = cc
chain_order-append (i ∷ is) before rest first new_id d b f =
    let order : List ℕ = before ++ first ∷ rest in
    let ids : List ℕ = i ∷ is in
    let lower = earliest-ge i is order (length before) (λ a e.
      omega (arith, index-append a before (first ∷ rest) (absent_before ids before a b e))) in
    let upper = earliest-le ids order first f in
    let at = index-append first before (first ∷ rest) (absent_before ids before first b f) in
    let place : earliest ids order ≡ length before = omega (arith, index_self first rest) in
    let kept : remove_all ids order ≡ before ++ reject (has ids) (first ∷ rest) =
      remove_all-reject ids order d
      ∙ select-append (λ a. not (has ids a)) before (first ∷ rest)
      ∙ ap (λ (o : List ℕ). o ++ reject (has ids) (first ∷ rest))
          (reject-none (has ids) before b) in
    ap (λ (k : ℕ). insert_at k new_id (remove_all ids order)) place
    ∙ ap (insert_at (length before) new_id) kept
    ∙ insert_at-append before (reject (has ids) (first ∷ rest)) new_id

-- Chaining distinct scenes of a storyboard and ungrouping the chain again puts them together, in the
-- order that they had, where the first of them stood, and leaves the order of all others.
pub ungroup_order-chain_order :
    (ids before rest : List ℕ) (first new_id : ℕ)
    → all_distinct (before ++ first ∷ rest) ≡ true
    → all_distinct ids ≡ true
    → all (has (before ++ first ∷ rest)) ids ≡ true
    → all (λ b. not (has ids b)) before ≡ true
    → has ids first ≡ true
    → has before new_id ≡ false
    → ungroup_order new_id
        (sorted_by (λ i. index i (before ++ first ∷ rest)) ids)
        (chain_order ids new_id (before ++ first ∷ rest))
      ≡ before ++ (select (has ids) (first ∷ rest) ++ reject (has ids) (first ∷ rest))
ungroup_order-chain_order ids before rest first new_id d e h b f n =
    let order : List ℕ = before ++ first ∷ rest in
    let members : sorted_by (λ i. index i order) ids ≡ select (has ids) (first ∷ rest) =
      sorted_by-index order ids d e h
      ∙ select-append (has ids) before (first ∷ rest)
      ∙ ap (λ (o : List ℕ). o ++ select (has ids) (first ∷ rest))
          (select-none (has ids) before b) in
    ap (ungroup_order new_id (sorted_by (λ i. index i order) ids))
      (chain_order-append ids before rest first new_id d b f)
    ∙ ungroup_order-append new_id before (sorted_by (λ i. index i order) ids)
        (reject (has ids) (first ∷ rest)) n
    ∙ ap (λ (ms : List ℕ). before ++ (ms ++ reject (has ids) (first ∷ rest))) members
