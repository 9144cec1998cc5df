-- ===== src/Storyboard/Chain/Order.antt =====
-- The list operations by which routes.py rewrites `scene_order` when scenes are chained and ungrouped.
use si26_math_animation_john.Storyboard.Scenes.{has}
use si26_math_animation_john.Base.{
  not, ◌&&◌, true, Bool, ℕ, zero, suc, min, List, [], ◌∷◌, leb, ◌==◌, if◌then◌else◌,
}

-- order.index(i); past the end where it raises
unfoldable pub index : ℕ → List ℕ → ℕ
index i [] = 0
index i (a ∷ rest) = if a == i then 0 else suc (index i rest)

-- order.remove(i)
unfoldable pub remove : ℕ → List ℕ → List ℕ
remove i [] = []
remove i (a ∷ rest) = if a == i then rest else a ∷ remove i rest

-- order.insert(k, i)
unfoldable pub insert_at : ℕ → ℕ → List ℕ → List ℕ
insert_at zero i rest = i ∷ rest
insert_at (suc k) i [] = i ∷ []
insert_at (suc k) i (a ∷ rest) = a ∷ insert_at k i rest

-- order.pop(k)
unfoldable pub pop : ℕ → List ℕ → List ℕ
pop k [] = []
pop zero (a ∷ rest) = rest
pop (suc k) (a ∷ rest) = a ∷ pop k rest

-- sorted(ids, key=key), which is stable
unfoldable pub insert_by : (ℕ → ℕ) → ℕ → List ℕ → List ℕ
insert_by key i [] = i ∷ []
insert_by key i (a ∷ rest) =
    if leb (key i) (key a) then i ∷ (a ∷ rest) else a ∷ insert_by key i rest

unfoldable pub sorted_by : (ℕ → ℕ) → List ℕ → List ℕ
unfolding insert_by
sorted_by key [] = []
sorted_by key (i ∷ is) = insert_by key i (sorted_by key is)

unfoldable pub remove_all : List ℕ → List ℕ → List ℕ
unfolding remove
remove_all [] order = order
remove_all (i ∷ is) order = remove_all is (remove i order)

-- min(order.index(sid) for sid in ids), for a list that is not empty
unfoldable pub earliest : List ℕ → List ℕ → ℕ
unfolding index
earliest [] order = 0
earliest (i ∷ []) order = index i order
earliest (i ∷ (j ∷ js)) order = min (index i order) (earliest (j ∷ js) order)

unfoldable pub chain_order : List ℕ → ℕ → List ℕ → List ℕ
unfolding earliest remove_all insert_at
chain_order ids new_id order = insert_at (earliest ids order) new_id (remove_all ids order)

-- for offset, member in enumerate(members): order.insert(k + offset, member)
unfoldable pub insert_all : ℕ → List ℕ → List ℕ → List ℕ
unfolding insert_at
insert_all k [] order = order
insert_all k (m ∷ ms) order = insert_all (suc k) ms (insert_at k m order)

unfoldable pub ungroup_order : ℕ → List ℕ → List ℕ → List ℕ
unfolding index pop insert_all
ungroup_order i members order = let k = index i order in insert_all k members (pop k order)

-- len(ids) == len(set(ids))
unfoldable pub all_distinct : List ℕ → Bool
all_distinct [] = true
all_distinct (x ∷ xs) = not (has xs x) && all_distinct xs
