-- ===== src/SessionStore/Bytes.antt =====
-- The loop of the byte caps: its rounds and its result.
use si26_math_animation_john.Base.{
  ℕ, zero, suc, ◌≤◌, ◌<◌, ◌≡◌, refl, Bool, none, some, [], ◌∷◌, arith, leb, length-reject-add-count,
  count, inl, inr, Bool-cases, Option-cases,
}
use si26_math_animation_john.SessionStore.Registry.{
  Entry, Item, Registry, Kind, Sweep, has_key, drop_key, sum_sizes, total,
}
use si26_math_animation_john.SessionStore.Sweeps.{
  oldest, older, first_where, evict, enforce_bytes, entry_count,
}

module _ (p : Entry → Bool) where
  sum_sizes-none : (reg : Registry) → first_where p reg ≡ none → sum_sizes p reg ≡ 0
  unfolding first_where sum_sizes
  sum_sizes-none [] h = refl
  sum_sizes-none (i ∷ reg) h = ground (arith, sum_sizes-none reg)

  first_where-count :
      (reg : Registry) (i : Item) → first_where p reg ≡ some i → 0 < count (has_key i.key) reg
  unfolding first_where
  first_where-count [] i h = ground arith
  first_where-count (x ∷ reg) i h = ground (arith, first_where-count reg i)

  total-none : (w : Sweep) → oldest p w ≡ none → total p w ≡ 0
  unfolding oldest older total
  total-none w h = elim (Option-cases (first_where p w.clips)) [
    | inl c ↦ elim (Option-cases (first_where p w.thumbnails)) [
      | inl t ↦ omega (arith, sum_sizes-none w.clips c, sum_sizes-none w.thumbnails t)
      | inr (t, e) ↦ absurd (ground arith)
    ]
    | inr (c, e) ↦ absurd (ground arith)
  ]

  -- The chosen entry stands in its registry.
  oldest-count :
      (w : Sweep) (k : Kind) (i : Item)
      → oldest p w ≡ some (k, i)
      → 0 < count (has_key i.key) (elim k [ Kind.clip ↦ w.clips | Kind.thumbnail ↦ w.thumbnails ])
  unfolding oldest older
  oldest-count w Kind.clip i h = ground (arith, first_where-count w.clips i)
  oldest-count w Kind.thumbnail i h = ground (arith, first_where-count w.thumbnails i)

  -- An eviction takes at least one entry, and exactly one where keys are unique.
  evict-shrinks :
      (w : Sweep) (k : Kind) (i : Item)
      → oldest p w ≡ some (k, i)
      → entry_count (evict k i w) < entry_count w
  unfolding evict drop_key
  evict-shrinks w Kind.clip i h =
      omega (arith, oldest-count w Kind.clip i h, length-reject-add-count (has_key i.key) w.clips)
  evict-shrinks w Kind.thumbnail i h = omega (
    arith,
    oldest-count w Kind.thumbnail i h,
    length-reject-add-count (has_key i.key) w.thumbnails,
  )

  -- With rounds for every entry, the total of the entries that count ends within the cap.
  pub enforce_bytes-within :
      (cap fuel : ℕ) (w : Sweep) → entry_count w ≤ fuel → total p (enforce_bytes p cap fuel w) ≤ cap
  unfolding enforce_bytes
  enforce_bytes-within cap zero w h = elim (Option-cases (oldest p w)) [
    | inl empty ↦ omega (arith, total-none w empty)
    | inr ((k, i), found) ↦ absurd (omega (arith, evict-shrinks w k i found))
  ]
  enforce_bytes-within cap (suc fuel) w h = elim (Bool-cases (leb (total p w) cap)) [
    | inl fits ↦ rw fits (ground arith)
    | inr over ↦ rw over (elim (Option-cases (oldest p w)) [
      | inl empty ↦ rw (empty) (omega (arith, total-none w empty))
      | inr ((k, i), found) ↦
          rw (found)
            (enforce_bytes-within cap fuel (evict k i w) (omega (arith, evict-shrinks w k i found)))
    ])
  ]
