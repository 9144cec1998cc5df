-- ===== src/Storyboard/Chain/Sorting.antt =====
-- `sorted(ids, key=order.index)` of `chain_scenes` in routes.py: it is the ids in the order of the list.
use si26_math_animation_john.Storyboard.Chain.Order.{index, insert_by, sorted_by, all_distinct}
use si26_math_animation_john.Storyboard.Scenes.{has}
use si26_math_animation_john.Base.{
  ℕ, suc, ◌<◌, ◌≡◌, refl, sym, ap, ◌∙◌, subst, ◌⊎◌, inl, inr, Bool, true, false, ◌||◌, List, [],
  ◌∷◌, arith, ◌==◌, if◌then◌else◌, Bool-cases, all, select, All,
}

-- The key grows along the list.
abbrev Increasing : (ℕ → ℕ) → List ℕ → Type 0
Increasing key [] = Unit {0}
Increasing key (y ∷ ys) = All (λ z. key y < key z) ys × Increasing key ys

insert_by-front :
    (key : ℕ → ℕ) (x : ℕ) (ys : List ℕ) → All (λ z. key x < key z) ys → insert_by key x ys ≡ x ∷ ys
unfolding insert_by
insert_by-front key x [] h = refl
insert_by-front key x (y ∷ ys) h = ground arith

All-select : (P : ℕ → Type 0) (p : ℕ → Bool) (ys : List ℕ) → All P ys → All P (select p ys)
All-select P p [] h = tt
All-select P p (y ∷ ys) h = elim (Bool-cases (p y)) [
  | inl e ↦ rw (e, select) (h.0, All-select P p ys h.1)
  | inr e ↦ rw (e, select) (All-select P p ys h.1)
]

-- Where the key grows past `x`, `x` does not stand in the rest.
select-absent :
    (key : ℕ → ℕ) (x : ℕ) (p : ℕ → Bool) (ys : List ℕ)
    → All (λ z. key x < key z) ys
    → select (λ a. x == a || p a) ys ≡ select p ys
select-absent key x p [] h = refl
select-absent key x p (y ∷ ys) h =
    let other : (x == y) ≡ false = distinct (Bool-cases (x == y)) in
    ground (arith, select-absent key x p ys h.1)
  where
    distinct : ((x == y) ≡ true) ⊎ ((x == y) ≡ false) → (x == y) ≡ false
    distinct (inr e) = e
    distinct (inl e) = let same : x ≡ y = ground arith in absurd (omega (arith, ap key same, h.0))

All-has : (P : ℕ → Type 0) (x : ℕ) (ys : List ℕ) → All P ys → has ys x ≡ true → P x
All-has P x [] h e = absurd (cc)
All-has P x (y ∷ ys) h e = elim (Bool-cases (y == x)) [
  | inl hit ↦ (let same : y ≡ x = ground arith in subst P same h.0)
  | inr miss ↦ All-has P x ys h.1 (ground arith)
]

insert_by-select :
    (key : ℕ → ℕ) (x : ℕ) (p : ℕ → Bool) (ys : List ℕ)
    → Increasing key ys
    → has ys x ≡ true
    → p x ≡ false
    → insert_by key x (select p ys) ≡ select (λ a. x == a || p a) ys
insert_by-select key x p [] i h n = cc
insert_by-select key x p (y ∷ ys) i h n = elim (Bool-cases (y == x)) [
  | inl hit ↦
      let same : y ≡ x = ground arith in
      let above : All (λ z. key x < key z) ys =
        subst (λ (w : ℕ). All (λ z. key w < key z) ys) same i.0 in
      at_head same above
  | inr miss ↦
      let inside : has ys x ≡ true = ground arith in
      let less : key y < key x = All-has (λ z. key y < key z) x ys i.0 inside in
      past_head miss less (insert_by-select key x p ys i.1 inside n)
]
  where
    at_head :
        y ≡ x
        → All (λ z. key x < key z) ys
        → insert_by key x (select p (y ∷ ys)) ≡ select (λ a. x == a || p a) (y ∷ ys)
    at_head same above =
        let front =
          insert_by-front key x (select p ys) (All-select (λ z. key x < key z) p ys above) in
        let none_left = select-absent key x p ys above in
        let out : p y ≡ false = ap p same ∙ n in ground (arith, front, none_left)

    past_head :
        (y == x) ≡ false
        → key y < key x
        → insert_by key x (select p ys) ≡ select (λ a. x == a || p a) ys
        → insert_by key x (select p (y ∷ ys)) ≡ select (λ a. x == a || p a) (y ∷ ys)
    past_head miss less ih = unfold insert_by in ground (arith, ih)

Increasing-shift :
    (key : ℕ → ℕ) (y : ℕ) (ys : List ℕ)
    → has ys y ≡ false
    → Increasing key ys
    → Increasing (λ i. if y == i then 0 else suc (key i)) ys
Increasing-shift key y [] h i = tt
Increasing-shift key y (z ∷ zs) h (above, rest) =
    (shift zs (ground arith) above, Increasing-shift key y zs (ground arith) rest)
  where
    shift :
        (ws : List ℕ)
        → has ws y ≡ false
        → All (λ w. key z < key w) ws
        → All (λ w. (if y == z then 0 else suc (key z)) < (if y == w then 0 else suc (key w))) ws
    shift [] n a = tt
    shift (w ∷ ws) n a = (ground arith, shift ws (ground arith) a.1)

positive :
    (key : ℕ → ℕ) (y : ℕ) (ys : List ℕ)
    → has ys y ≡ false
    → All (λ z. 0 < (if y == z then 0 else suc (key z))) ys
positive key y [] h = tt
positive key y (z ∷ zs) h = (ground arith, positive key y zs (ground arith))

index-Increasing :
    (order : List ℕ) → all_distinct order ≡ true → Increasing (λ i. index i order) order
unfolding index all_distinct
index-Increasing [] d = tt
index-Increasing (y ∷ ys) d =
    let out : has ys y ≡ false = ground arith in
    (
      head (positive (λ i. index i ys) y ys out),
      Increasing-shift (λ i. index i ys) y ys out (index-Increasing ys (ground arith)),
    )
  where
    head :
        All (λ z. 0 < (if y == z then 0 else suc (index z ys))) ys
        → All (λ z. index y (y ∷ ys) < index z (y ∷ ys)) ys
    head a = let self : (y == y) ≡ true = ground arith in rw (index, self) a

-- Sorting distinct ids of a list by their place in it gives the ids as they stand in the list.
pub sorted_by-index :
    (order ids : List ℕ)
    → all_distinct order ≡ true
    → all_distinct ids ≡ true
    → all (has order) ids ≡ true
    → sorted_by (λ i. index i order) ids ≡ select (has ids) order
unfolding sorted_by all_distinct
sorted_by-index order [] d e h = sym (select_none order)
  where
    select_none : (xs : List ℕ) → select (has []) xs ≡ []
    select_none [] = refl
    select_none (x ∷ xs) = select_none xs
sorted_by-index order (x ∷ xs) d e h =
    ap (insert_by (λ i. index i order) x) (sorted_by-index order xs d (ground arith) (ground arith))
    ∙ insert_by-select (λ i. index i order) x (has xs) order (index-Increasing order d)
        (ground arith) (ground arith)
