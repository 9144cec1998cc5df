-- ===== src/Base/Lists.antt =====
-- Lists with Boolean predicates, measured by native numbers.
use Prim.Native.Nat.{ℕ, suc, ◌+◌, ◌≤◌}
use mathlib.Core.Path.{◌≡◌, refl}
use mathlib.Core.Bool.{Bool, true, false, ◌&&◌, ◌||◌, not}
use mathlib.Core.List.{List, [], ◌∷◌, ◌++◌}
use native.Mathlib.Omega.{arith}
use si26_math_animation_john.Base.Tests.{if◌then◌else◌}

module _ {ℓ} {A : Type ℓ} where
  abbrev pub length : List A → ℕ
  length [] = 0
  length (x ∷ xs) = suc (length xs)

  -- `all(p(x) for x in xs)` and `any(...)`
  abbrev pub all : (A → Bool) → List A → Bool
  all p [] = true
  all p (x ∷ xs) = p x && all p xs

  abbrev pub any : (A → Bool) → List A → Bool
  any p [] = false
  any p (x ∷ xs) = p x || any p xs

  -- The rows that a WHERE clause matches.
  abbrev pub select : (A → Bool) → List A → List A
  select p [] = []
  select p (x ∷ xs) = let rest = select p xs in if p x then x ∷ rest else rest

  abbrev pub count : (A → Bool) → List A → ℕ
  count p [] = 0
  count p (x ∷ xs) = (if p x then 1 else 0) + count p xs

  -- The rows that do not match: what stays after a deletion.
  abbrev pub reject : (A → Bool) → List A → List A
  reject p = select (λ x. not (p x))

  -- UPDATE ... WHERE p
  abbrev pub update : (A → Bool) → (A → A) → List A → List A
  update p f [] = []
  update p f (x ∷ xs) = (if p x then f x else x) ∷ update p f xs

  -- What holds of every element.
  abbrev pub All {κ} : (A → Type κ) → List A → Type κ
  All P [] = Unit
  All P (x ∷ xs) = P x × All P xs

  pub length-append : (xs ys : List A) → length (xs ++ ys) ≡ length xs + length ys
  length-append [] ys = omega arith
  length-append (x ∷ xs) ys = omega (arith, length-append xs ys)

  pub count-append : (p : A → Bool) (xs ys : List A) → count p (xs ++ ys) ≡ count p xs + count p ys
  count-append p [] ys = omega arith
  count-append p (x ∷ xs) ys = omega (arith, count-append p xs ys)

  pub count-le-length : (p : A → Bool) (xs : List A) → count p xs ≤ length xs
  count-le-length p [] = omega arith
  count-le-length p (x ∷ xs) = ground (arith, count-le-length p xs)

  pub length-select-le : (p : A → Bool) (xs : List A) → length (select p xs) ≤ length xs
  length-select-le p [] = omega arith
  length-select-le p (x ∷ xs) = ground (arith, length-select-le p xs)

  pub length-reject-add-count :
      (p : A → Bool) (xs : List A) → length (reject p xs) + count p xs ≡ length xs
  length-reject-add-count p [] = omega arith
  length-reject-add-count p (x ∷ xs) = ground (arith, length-reject-add-count p xs)

  pub count-or-le :
      (p q : A → Bool) (xs : List A) → count (λ x. p x || q x) xs ≤ count p xs + count q xs
  count-or-le p q [] = omega arith
  count-or-le p q (x ∷ xs) = ground (arith, count-or-le p q xs)

  pub count-le-count :
      (p q : A → Bool) (xs : List A) → ((x : A) → p x ≡ true → q x ≡ true) → count p xs ≤ count q xs
  count-le-count p q [] h = omega arith
  count-le-count p q (x ∷ xs) h = ground (arith, h x, count-le-count p q xs h)

  -- An update that changes no row's membership in `q` keeps its count.
  pub count-update :
      (q p : A → Bool) (f : A → A) (xs : List A)
      → ((x : A) → p x ≡ true → q (f x) ≡ q x)
      → count q (update p f xs) ≡ count q xs
  count-update q p f [] h = refl
  count-update q p f (x ∷ xs) h = ground (arith, h x, count-update q p f xs h)

  pub count-update-le :
      (q p : A → Bool) (f : A → A) (xs : List A)
      → ((x : A) → p x ≡ true → q (f x) ≡ true → q x ≡ true)
      → count q (update p f xs) ≤ count q xs
  count-update-le q p f [] h = omega arith
  count-update-le q p f (x ∷ xs) h = ground (arith, h x, count-update-le q p f xs h)

  -- An updated row that satisfies `q` did so before, or satisfied `r`.
  pub count-update-add :
      (q p r : A → Bool) (f : A → A) (xs : List A)
      → ((x : A) → p x ≡ true → q (f x) ≡ true → (q x || r x) ≡ true)
      → count q (update p f xs) ≤ count q xs + count r xs
  count-update-add q p r f [] h = omega arith
  count-update-add q p r f (x ∷ xs) h = ground (arith, h x, count-update-add q p r f xs h)

  -- The rows of `r` are updated, and an updated row no longer satisfies `q`.
  pub count-update-drop :
      (q p r : A → Bool) (f : A → A) (xs : List A)
      → ((x : A) → p x ≡ true → q (f x) ≡ false)
      → ((x : A) → r x ≡ true → (p x && q x) ≡ true)
      → count q (update p f xs) + count r xs ≤ count q xs
  count-update-drop q p r f [] h k = omega arith
  count-update-drop q p r f (x ∷ xs) h k =
      ground (arith, h x, k x, count-update-drop q p r f xs h k)

  pub length-update : (p : A → Bool) (f : A → A) (xs : List A) → length (update p f xs) ≡ length xs
  length-update p f [] = refl
  length-update p f (x ∷ xs) = omega (arith, length-update p f xs)

module _ {ℓ κ} {A : Type ℓ} (P : A → Type κ) where
  -- What holds of all rows still holds after an update that keeps it on the rows that it changes.
  pub All-update :
      (p : A → Bool) (f : A → A) (xs : List A)
      → ((x : A) → p x ≡ true → P x → P (f x))
      → All P xs
      → All P (update p f xs)
  All-update p f [] h a = tt
  All-update p f (x ∷ xs) h a = (one (p x) refl, All-update p f xs h a.1)
    where
      one : (b : Bool) → p x ≡ b → P (if b then f x else x)
      one true e = h x e a.0
      one false e = a.0

module _ {ℓ} {A : Type ℓ} where
  pub any-false : (p : A → Bool) (xs : List A) → any p xs ≡ false → All (λ x. p x ≡ false) xs
  any-false p [] h = tt
  any-false p (x ∷ xs) h = (ground arith, any-false p xs (ground arith))

  pub All-any : (p : A → Bool) (xs : List A) → All (λ x. p x ≡ false) xs → any p xs ≡ false
  All-any p [] h = refl
  All-any p (x ∷ xs) h = ground (arith, All-any p xs h.1)

  pub All-weaken {κ μ} :
      (P : A → Type κ) (Q : A → Type μ) (xs : List A) → ((x : A) → P x → Q x) → All P xs → All Q xs
  All-weaken P Q [] f h = tt
  All-weaken P Q (x ∷ xs) f h = (f x h.0, All-weaken P Q xs f h.1)
