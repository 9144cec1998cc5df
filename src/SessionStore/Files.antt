-- ===== src/SessionStore/Files.antt =====
-- Which files of session.py a deletion of orphans and a sweep leave on disk.
use si26_math_animation_john.Base.{
  ℕ, ◌≡◌, refl, Bool, true, false, not, ◌&&◌, ◌||◌, List, [], ◌∷◌, arith, ◌==◌, reject, count, inl,
  inr, Bool-cases, ◌∙◌, count-or-le, count-le-count, ap, ◌⊎◌, ◌↔◌,
}
use si26_math_animation_john.SessionStore.Registry.{Entry, Item, Registry, File}
use si26_math_animation_john.SessionStore.Disk.{
  exists, unlink, delete_orphaned, is_live, contains, paths,
}
use si26_math_animation_john.SessionStore.Operations.{kept}

-- The entry's file is gone.
abbrev pub missing : List File → Item → Bool
missing disk i = not (exists i.entry.path disk)

exists-unlink :
    (d : ℕ → Bool) (p q : ℕ) (disk : List File)
    → (q == p) ≡ false
    → exists p (unlink d q disk) ≡ exists p disk
unfolding unlink
exists-unlink d p q [] h = refl
exists-unlink d p q (f ∷ fs) h = ground (arith, exists-unlink d p q fs h)

apart : (live : ℕ → Bool) (p q : ℕ) → live q ≡ false → live p ≡ true → (q == p) ≡ false
apart live p q dead alive = elim (Bool-cases (q == p)) [
  | inl same ↦ let e : q ≡ p = ground arith in cc (dead, alive, ap live e)
  | inr other ↦ other
]

module _ (d : ℕ → Bool) (live : ℕ → Bool) where
  pub exists-delete_orphaned :
      (es : List Entry) (disk : List File) (p : ℕ)
      → live p ≡ true
      → exists p (delete_orphaned d live es disk) ≡ exists p disk
  unfolding delete_orphaned
  exists-delete_orphaned [] disk p h = refl
  exists-delete_orphaned (e ∷ es) disk p h = elim (Bool-cases (live e.path)) [
    | inl kept ↦ rw kept (exists-delete_orphaned es disk p h)
    | inr gone ↦ rw gone (
        exists-delete_orphaned es (unlink d e.path disk) p h
        ∙ exists-unlink d p e.path disk (apart live p e.path gone h))
  ]

  -- Where every entry of a registry is live, a deletion of orphans takes none of its files.
  pub kept_files :
      (es : List Entry) (disk : List File) (reg : Registry)
      → count (λ i. not (live i.entry.path)) reg ≡ 0
      → count (missing disk) reg ≡ 0
      → count (missing (delete_orphaned d live es disk)) reg ≡ 0
  kept_files es disk reg alive backed = omega (
    arith,
    count-or-le (missing disk) (λ i. not (live i.entry.path)) reg,
    count-le-count (missing (delete_orphaned d live es disk))
        (λ i. missing disk i || not (live i.entry.path)) reg
        (λ i h. ground (arith, exists-delete_orphaned es disk i.entry.path)),
  )

own_path : (reg : Registry) → count (λ i. not (contains (paths reg) i.entry.path)) reg ≡ 0
own_path [] = refl
own_path (x ∷ xs) =
    let rest =
      count-le-count (λ i. not (contains (paths (x ∷ xs)) i.entry.path))
        (λ i. not (contains (paths xs) i.entry.path)) xs (λ i h. ground arith) in
    ground (arith, own_path xs)

module _ (clips thumbnails : Registry) (reserved : List ℕ) where
  pub clips_live : count (λ i. not (is_live clips thumbnails reserved i.entry.path)) clips ≡ 0
  unfolding is_live
  clips_live = omega (
    arith,
    own_path clips,
    count-le-count (λ i. not (is_live clips thumbnails reserved i.entry.path))
        (λ i. not (contains (paths clips) i.entry.path)) clips (λ i h. ground arith),
  )

  pub thumbnails_live :
      count (λ i. not (is_live clips thumbnails reserved i.entry.path)) thumbnails ≡ 0
  unfolding is_live
  thumbnails_live = omega (
    arith,
    own_path thumbnails,
    count-le-count (λ i. not (is_live clips thumbnails reserved i.entry.path))
        (λ i. not (contains (paths thumbnails) i.entry.path)) thumbnails (λ i h. ground arith),
  )

abbrev pub doomed : (ℕ → Bool) → (ℕ → Bool) → File → Bool
doomed d live f = not (live f.path) && d f.path

pub exists-reject :
    (d keep : ℕ → Bool) (p : ℕ) (disk : List File)
    → (not (keep p) && d p) ≡ false
    → exists p (reject (doomed d keep) disk) ≡ exists p disk
exists-reject d keep p [] h = refl
exists-reject d keep p (f ∷ fs) h = elim (Bool-cases (f.path == p)) [
  | inl same ↦
      let e : f.path ≡ p = ground arith in
      let spared : doomed d keep f ≡ false = ap (λ (q : ℕ). not (keep q) && d q) e ∙ h in
      ground (arith, exists-reject d keep p fs)
  | inr other ↦ ground (arith, exists-reject d keep p fs)
]

reject-gone :
    (d keep : ℕ → Bool) (p : ℕ) (disk : List File)
    → (not (keep p) && d p) ≡ true
    → exists p (reject (doomed d keep) disk) ≡ false
reject-gone d keep p [] h = refl
reject-gone d keep p (f ∷ fs) h = elim (Bool-cases (f.path == p)) [
  | inl same ↦
      let e : f.path ≡ p = ground arith in
      let hit : doomed d keep f ≡ true = ap (λ (q : ℕ). not (keep q) && d q) e ∙ h in
      rw hit (reject-gone d keep p fs h)
  | inr other ↦ ground (arith, reject-gone d keep p fs h)
]

-- The sweep does not keep the entry's path, and can delete the file.
abbrev pub lost : (ℕ → Bool) → (ℕ → Bool) → Item → Bool
lost d keep i = not (keep i.entry.path) && d i.entry.path

pub swept_files :
    (d keep : ℕ → Bool) (disk : List File) (reg : Registry)
    → count (missing disk) reg ≡ 0
    → (count (missing (reject (doomed d keep) disk)) reg ≡ 0) ↔ (count (lost d keep) reg ≡ 0)
swept_files d keep disk reg backed = (
  (λ h. omega (
    arith,
    h,
    count-le-count (lost d keep) (missing (reject (doomed d keep) disk)) reg
        (λ i l. ground (arith, reject-gone d keep i.entry.path disk l)),
  )),
  λ h. omega (
    arith,
    h,
    backed,
    count-or-le (missing disk) (lost d keep) reg,
    count-le-count (missing (reject (doomed d keep) disk)) (λ i. missing disk i || lost d keep i)
        reg (λ i m. remains i m (Bool-cases (lost d keep i))),
  ),
)
  where
    remains :
        (i : Item)
        → missing (reject (doomed d keep) disk) i ≡ true
        → (lost d keep i ≡ true) ⊎ (lost d keep i ≡ false)
        → (missing disk i || lost d keep i) ≡ true
    remains i m (inl l) = ground arith
    remains i m (inr l) = ground (arith, exists-reject d keep i.entry.path disk l)
