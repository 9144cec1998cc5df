-- ===== src/SessionStore/Disk.antt =====
-- session.py: the files of the sessions, and which of them a sweep deletes. `deletable` says of which
-- files `unlink` does not raise.
use si26_math_animation_john.Base.{
  ℕ, Bool, ◌&&◌, ◌||◌, List, [], ◌∷◌, map, ◌==◌, if◌then◌else◌, any, reject,
}
use si26_math_animation_john.SessionStore.Registry.{Entry, File, Registry}

abbrev pub contains : List ℕ → ℕ → Bool
contains xs a = any (λ x. x == a) xs

abbrev pub paths : Registry → List ℕ
paths = map (λ i. i.entry.path)

-- The paths that `_delete_orphaned_files_locked` and `sweep_orphans` keep.
unfoldable pub is_live : Registry → Registry → List ℕ → ℕ → Bool
is_live clips thumbnails reserved p =
    contains (paths clips) p || contains (paths thumbnails) p || contains reserved p

abbrev pub exists : ℕ → List File → Bool
exists p = any (λ f. f.path == p)

-- path.stat().st_size, or 0
unfoldable pub safe_size : ℕ → List File → ℕ
safe_size p [] = 0
safe_size p (f ∷ fs) = if f.path == p then f.size else safe_size p fs

abbrev pub discard : ℕ → List ℕ → List ℕ
discard p = reject (λ q. q == p)

module _ (deletable : ℕ → Bool) where
  -- path.unlink(missing_ok=True), an OSError swallowed
  unfoldable pub unlink : ℕ → List File → List File
  unlink p = reject (λ f. (f.path == p) && deletable p)

  -- _delete_orphaned_files_locked
  unfoldable pub delete_orphaned : (ℕ → Bool) → List Entry → List File → List File
  unfolding unlink
  delete_orphaned live [] disk = disk
  delete_orphaned live (e ∷ es) disk =
      delete_orphaned live es (if live e.path then disk else unlink e.path disk)
