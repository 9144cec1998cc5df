-- ===== src/SessionStore/Safety.antt =====
-- The files that registrations and reservations need, under the sweeps.
use si26_math_animation_john.SessionStore.Files.{
  missing, lost, exists-delete_orphaned, kept_files, clips_live, thumbnails_live, exists-reject,
  swept_files,
}
use si26_math_animation_john.Base.{
  ℕ, ◌≤◌, ◌≡◌, Bool, true, false, not, Option, List, [], ◌∷◌, arith, leb, ◌==◌, count, inl, inr,
  Bool-cases, count-le-count, ◌≢◌, ◌↔◌,
}
use si26_math_animation_john.SessionStore.Registry.{
  Entry, Item, Registry, Kind, Store, Sweep, put, anyone,
}
use si26_math_animation_john.SessionStore.Sweeps.{enforce_bytes, entry_count}
use si26_math_animation_john.SessionStore.Disk.{exists, is_live, contains, safe_size, discard}
use si26_math_animation_john.SessionStore.Operations.{
  swept, added, finish, register, enforce_global_cap, sweep_orphans, sweep_files, kept,
}
use si26_math_animation_john.SessionStore.Shrink.{swept-Shrinks, enforce_bytes-Shrinks}

-- Every registered file is on disk.
pub record IsBacked (s : Store) : Type 0 where
  pub clips : count (missing s.disk) s.clips ≡ 0
  pub thumbnails : count (missing s.disk) s.thumbnails ≡ 0

put-le :
    (q : Item → Bool) (k : ℕ) (e : Entry) (reg : Registry)
    → q (record { key = k; entry = e }) ≡ false
    → count q (put k e reg) ≤ count q reg
unfolding put
put-le q k e [] h = ground arith
put-le q k e (i ∷ reg) h = ground (arith, put-le q k e reg h)

module _ (d : ℕ → Bool) (s : Store) where
  finish-IsBacked :
      (w : Sweep)
      → count (missing s.disk) w.clips ≡ 0
      → count (missing s.disk) w.thumbnails ≡ 0
      → IsBacked (finish d s w)
  unfolding finish
  finish-IsBacked w c t = record {
    clips =
        kept_files d (is_live w.clips w.thumbnails s.reserved) w.evicted s.disk w.clips
          (clips_live w.clips w.thumbnails s.reserved) c;
    thumbnails =
        kept_files d (is_live w.clips w.thumbnails s.reserved) w.evicted s.disk w.thumbnails
          (thumbnails_live w.clips w.thumbnails s.reserved) t;
  }

  added-backed :
      (kind : Kind) (k : ℕ) (e : Entry)
      → exists e.path s.disk ≡ true
      → IsBacked s
      → (count (missing s.disk) (added kind k e s).clips ≡ 0)
        × (count (missing s.disk) (added kind k e s).thumbnails ≡ 0)
  unfolding added
  added-backed Kind.clip k e h b =
      (omega (arith, b.clips, put-le (missing s.disk) k e s.clips (rw h)), b.thumbnails)
  added-backed Kind.thumbnail k e h b =
      (b.clips, omega (arith, b.thumbnails, put-le (missing s.disk) k e s.thumbnails (rw h)))

register-IsBacked :
    (d : ℕ → Bool) (s : Store) (kind : Kind) (path : ℕ) (sid : Option ℕ) (new_id now later : ℕ)
    → IsBacked s
    → IsBacked (register d kind path sid new_id now later s).1
unfolding register
register-IsBacked d s kind path sid new_id now later b = elim (Bool-cases (exists path s.disk)) [
  | inr gone ↦ rw gone b
  | inl there ↦ rw there (
      let e : Entry = record {
        path = path;
        session_id = sid;
        size = safe_size path s.disk;
        created_at = now;
      } in
      let less = swept-Shrinks kind sid later s (added kind new_id e s) in
      let new = added-backed d s kind new_id e there b in
      finish-IsBacked d (record s { reserved = discard path s.reserved })
        (swept kind sid later s (added kind new_id e s))
        (omega (arith, new.0, less.clips (missing s.disk)))
        (omega (arith, new.1, less.thumbnails (missing s.disk))))
]

enforce_global_cap-IsBacked :
    (d : ℕ → Bool) (s : Store) (max_bytes : ℕ)
    → IsBacked s
    → IsBacked (enforce_global_cap d max_bytes s).1
unfolding enforce_global_cap
enforce_global_cap-IsBacked d s max_bytes b = elim (Bool-cases (leb max_bytes 0)) [
  | inl off ↦ rw off b
  | inr on ↦ rw on (
      let start : Sweep = record { clips = s.clips; thumbnails = s.thumbnails; evicted = [] } in
      let less = enforce_bytes-Shrinks anyone max_bytes (entry_count start) start in
      finish-IsBacked d s (enforce_bytes anyone max_bytes (entry_count start) start)
        (omega (arith, b.clips, less.clips (missing s.disk)))
        (omega (arith, b.thumbnails, less.thumbnails (missing s.disk))))
]

sweep_files-IsBacked :
    (d keep : ℕ → Bool) (s : Store)
    → IsBacked s
    → IsBacked (sweep_files d keep s).1
      ↔ ((count (lost d keep) s.clips ≡ 0) × (count (lost d keep) s.thumbnails ≡ 0))
unfolding sweep_files
sweep_files-IsBacked d keep s b =
    let clips = swept_files d keep s.disk s.clips b.clips in
    let thumbnails = swept_files d keep s.disk s.thumbnails b.thumbnails in
    (
      (λ h. (clips.0 h.clips, thumbnails.0 h.thumbnails)),
      λ h. record { clips = clips.1 h.0; thumbnails = thumbnails.1 h.1 },
    )

none_lost :
    (d keep : ℕ → Bool) (reg : Registry)
    → count (λ i. not (keep i.entry.path)) reg ≡ 0
    → count (lost d keep) reg ≡ 0
none_lost d keep reg h = omega (
  arith,
  h,
  count-le-count (lost d keep) (λ i. not (keep i.entry.path)) reg (λ i l. ground arith),
)

sweep_orphans-IsBacked : (d : ℕ → Bool) (s : Store) → IsBacked s → IsBacked (sweep_orphans d s).1
unfolding sweep_orphans kept
sweep_orphans-IsBacked d s b =
    let live = is_live s.clips s.thumbnails s.reserved in
    (sweep_files-IsBacked d live s b).1 (
      none_lost d live s.clips (clips_live s.clips s.thumbnails s.reserved),
      none_lost d live s.thumbnails (thumbnails_live s.clips s.thumbnails s.reserved),
    )

-- If every registered file is on disk, it still is after a registration, whose sweeps evict by age, by
-- number and by bytes, and after the global byte cap. After the deletions of an orphan sweep that read
-- the kept paths of an earlier store, it is exactly if no file registered now, and deletable, was neither
-- registered nor reserved then: so always where nothing ran in between.
pub sweeps-IsBacked :
    (d : ℕ → Bool) (earlier s : Store) (kind : Kind) (path : ℕ) (sid : Option ℕ)
    (new_id now later max_bytes : ℕ)
    → IsBacked s
    → IsBacked (register d kind path sid new_id now later s).1
      × IsBacked (enforce_global_cap d max_bytes s).1
      × (IsBacked (sweep_files d (kept earlier) s).1 ↔ (
          (count (lost d (kept earlier)) s.clips ≡ 0)
          × (count (lost d (kept earlier)) s.thumbnails ≡ 0)))
      × IsBacked (sweep_orphans d s).1
sweeps-IsBacked d earlier s kind path sid new_id now later max_bytes b = (
  register-IsBacked d s kind path sid new_id now later b,
  enforce_global_cap-IsBacked d s max_bytes b,
  sweep_files-IsBacked d (kept earlier) s b,
  sweep_orphans-IsBacked d s b,
)

reserved_live :
    (clips thumbnails : Registry) (reserved : List ℕ) (p : ℕ)
    → contains reserved p ≡ true
    → is_live clips thumbnails reserved p ≡ true
unfolding is_live
reserved_live clips thumbnails reserved p h = ground arith

contains-discard :
    (p q : ℕ) (reserved : List ℕ)
    → (q == p) ≡ false
    → contains reserved p ≡ true
    → contains (discard q reserved) p ≡ true
contains-discard p q [] ne h = h
contains-discard p q (r ∷ rs) ne h = ground (arith, contains-discard p q rs ne)

-- A file whose path is reserved, by another writer than the one that registers, is on disk after a
-- registration, the global byte cap and a sweep of orphans exactly if it was on disk before.
pub reserved_untouched :
    (d : ℕ → Bool) (s : Store) (kind : Kind) (path : ℕ) (sid : Option ℕ)
    (new_id now later max_bytes p : ℕ)
    → contains s.reserved p ≡ true
    → path ≢ p
    → (exists p (register d kind path sid new_id now later s).1.disk ≡ exists p s.disk)
      × (exists p (enforce_global_cap d max_bytes s).1.disk ≡ exists p s.disk)
      × (exists p (sweep_orphans d s).1.disk ≡ exists p s.disk)
unfolding register enforce_global_cap sweep_orphans sweep_files kept finish
reserved_untouched d s kind path sid new_id now later max_bytes p h ne =
    let e : Entry = record {
      path = path;
      session_id = sid;
      size = safe_size path s.disk;
      created_at = now;
    } in
    let w = swept kind sid later s (added kind new_id e s) in
    let start : Sweep = record { clips = s.clips; thumbnails = s.thumbnails; evicted = [] } in
    let c = enforce_bytes anyone max_bytes (entry_count start) start in
    (
      ground (
        arith,
        exists-delete_orphaned d (is_live w.clips w.thumbnails (discard path s.reserved)) w.evicted
            s.disk p
            (reserved_live w.clips w.thumbnails (discard path s.reserved) p
              (contains-discard p path s.reserved (ground arith) h)),
      ),
      ground (
        arith,
        exists-delete_orphaned d (is_live c.clips c.thumbnails s.reserved) c.evicted s.disk p
            (reserved_live c.clips c.thumbnails s.reserved p h),
      ),
      exists-reject d (is_live s.clips s.thumbnails s.reserved) p s.disk
          (ground (arith, reserved_live s.clips s.thumbnails s.reserved p h)),
    )
