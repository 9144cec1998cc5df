-- ===== src/SessionStore/Operations.antt =====
-- session.py: the methods of `SessionStore`. A fresh `uuid4` and the clock are arguments. What a
-- method does under the lock is one step; `create`, `abort` and `sweep_orphans` change the disk after it,
-- which is a step of its own.
use si26_math_animation_john.Base.{
  ℕ, Bool, not, ◌&&◌, Option, none, some, List, [], ◌∷◌, ◌++◌, ltb, leb, ◌==◌, if◌then◌else◌,
  eq_option, length, reject, count,
}
use si26_math_animation_john.SessionStore.Registry.{
  Candidate, Session, Entry, File, Registry, Kind, Store, Sweep, put, find, owned_by, anyone,
}
use si26_math_animation_john.SessionStore.Sweeps.{
  expire_ttl, enforce_entry_cap, enforce_bytes, enforce_session_bytes, entry_count,
}
use si26_math_animation_john.SessionStore.Disk.{
  is_live, exists, safe_size, discard, unlink, delete_orphaned,
}

-- The registries with the new entry in them.
unfoldable pub added : Kind → ℕ → Entry → Store → Sweep
added Kind.clip k e s = record { clips = put k e s.clips; thumbnails = s.thumbnails; evicted = [] }
added Kind.thumbnail k e s = record {
  clips = s.clips;
  thumbnails = put k e s.thumbnails;
  evicted = [];
}

abbrev pub entry_cap : Kind → Store → ℕ
entry_cap Kind.clip s = s.max_clips
entry_cap Kind.thumbnail s = s.max_thumbnails

-- The three sweeps after a registration; the cutoff is read off the clock once more, at `later`.
unfoldable pub swept : Kind → Option ℕ → ℕ → Store → Sweep → Sweep
unfolding expire_ttl enforce_entry_cap enforce_session_bytes
swept kind sid later s w =
    enforce_session_bytes sid s.max_bytes_per_session
      (enforce_entry_cap kind (entry_cap kind s) (expire_ttl s.ttl_seconds later w))

-- {c.candidate_id: c for c in candidates}
put_candidate : Candidate → List Candidate → List Candidate
put_candidate c [] = c ∷ []
put_candidate c (d ∷ ds) =
    if d.candidate_id == c.candidate_id then c ∷ ds else d ∷ put_candidate c ds

by_id : List Candidate → List Candidate → List Candidate
by_id acc [] = acc
by_id acc (c ∷ cs) = by_id (put_candidate c acc) cs

unfoldable pub new_session : ℕ → List Candidate → Session
unfolding by_id put_candidate
new_session sid candidates = record { session_id = sid; candidates = by_id [] candidates }

-- _drop_session_entries_locked
abbrev pub drop_entries : ℕ → Registry → Registry
drop_entries sid = reject (λ i. owned_by sid i.entry)

-- The oldest session is evicted where there is one too many.
unfoldable pub evict_oldest : List Session → Store → Option ℕ × Store
evict_oldest [] s = (none, s)
evict_oldest (old ∷ rest) s = (
  some old.session_id,
  record s {
    sessions = rest;
    clips = drop_entries old.session_id s.clips;
    thumbnails = drop_entries old.session_id s.thumbnails;
  },
)

-- What `create` does under the lock.
unfoldable pub create_locked : Session → Store → Option ℕ × Store
unfolding evict_oldest
create_locked session s =
    let all_sessions = s.sessions ++ session ∷ [] in
    let s' = record s { sessions = all_sessions } in
    if ltb s.max_sessions (length all_sessions) then evict_oldest all_sessions s' else (none, s')

-- What `abort` does under the lock.
unfoldable pub release : ℕ → Store → Store
release path s = record s { reserved = discard path s.reserved }

-- What `sweep_orphans` reads under the lock.
unfoldable pub kept : Store → ℕ → Bool
unfolding is_live
kept s = is_live s.clips s.thumbnails s.reserved

module _ (deletable : ℕ → Bool) where
  -- The end of a sweep: the registries are written back and the orphaned files deleted.
  unfoldable pub finish : Store → Sweep → Store
  finish s w = record s {
    clips = w.clips;
    thumbnails = w.thumbnails;
    disk = delete_orphaned deletable (is_live w.clips w.thumbnails s.reserved) w.evicted s.disk;
  }

  -- register_clip and register_thumbnail
  unfoldable pub register : Kind → ℕ → Option ℕ → ℕ → ℕ → ℕ → Store → Option ℕ × Store
  unfolding added swept finish
  register kind path sid new_id now later s =
      if exists path s.disk
      then (let e : Entry = record {
        path = path;
        session_id = sid;
        size = safe_size path s.disk;
        created_at = now;
      } in
          let s' : Store = record s { reserved = discard path s.reserved } in
          (some new_id, finish s' (swept kind sid later s (added kind new_id e s))))
      else (none, s)

  unfoldable pub enforce_global_cap : ℕ → Store → ℕ × Store
  unfolding enforce_bytes finish
  enforce_global_cap max_bytes s =
      if leb max_bytes 0
      then (0, s)
      else (let start : Sweep = record {
        clips = s.clips;
        thumbnails = s.thumbnails;
        evicted = [];
      } in
          let w = enforce_bytes anyone max_bytes (entry_count start) start in
          (length w.evicted, finish s w))

  -- The loop of `sweep_orphans` over the files, with the set that it has read under the lock.
  unfoldable pub sweep_files : (ℕ → Bool) → Store → ℕ × Store
  sweep_files keep s =
      let doomed = λ (f : File). not (keep f.path) && deletable f.path in
      (count doomed s.disk, record s { disk = reject doomed s.disk })

  -- sweep_orphans, where no other call runs between its two parts
  unfoldable pub sweep_orphans : Store → ℕ × Store
  unfolding sweep_files
  sweep_orphans s = sweep_files (kept s) s

  -- The end of `abort`.
  unfoldable pub unlink_path : ℕ → Store → Store
  unfolding unlink
  unlink_path path s = record s { disk = unlink deletable path s.disk }

  -- abort, where no other call runs between its two parts: release the reservation and delete the partial
  -- file
  unfoldable pub abort : ℕ → Store → Store
  unfolding unlink_path release
  abort path s = unlink_path path (release path s)

  -- shutil.rmtree(output_dir, ignore_errors=True)
  abbrev pub rmtree : ℕ → List File → List File
  rmtree sid = reject (λ f. (f.dir == sid) && deletable f.path)

  -- The end of `create`: the directory of the session that was evicted, if there is one.
  unfoldable pub remove_evicted : Option ℕ → Store → Store
  remove_evicted none s = s
  remove_evicted (some old) s = record s { disk = rmtree old s.disk }

  -- create, where no other call runs between its two parts
  unfoldable pub create : ℕ → List Candidate → Store → Session × Store
  unfolding create_locked remove_evicted
  create sid candidates s =
      let (evicted, s') = create_locked (new_session sid candidates) s in
      (new_session sid candidates, remove_evicted evicted s')

abbrev pub has_session_id : ℕ → Session → Bool
has_session_id sid x = x.session_id == sid

unfoldable pub find_session : ℕ → List Session → Option Session
find_session sid [] = none
find_session sid (x ∷ xs) = if x.session_id == sid then some x else find_session sid xs

-- get: a session that is used moves to the end
unfoldable pub get : ℕ → Store → Option Session × Store
unfolding find_session
get sid s = elim (find_session sid s.sessions) [
  | none ↦ (none, s)
  | some x ↦ (some x, record s { sessions = reject (has_session_id sid) s.sessions ++ x ∷ [] })
]

-- reserve, for a fresh path
unfoldable pub reserve : ℕ → Store → ℕ × Store
reserve path s = (path, record s { reserved = path ∷ s.reserved })

-- The lookup of get_clip and get_thumbnail.
unfoldable pub visible_path : Option Entry → Option ℕ → Option ℕ
visible_path none caller = none
visible_path (some e) caller =
    if not (eq_option e.session_id none) && not (eq_option e.session_id caller)
    then none
    else some e.path

unfoldable pub get_clip : ℕ → Option ℕ → Store → Option ℕ
unfolding visible_path find
get_clip k caller s = visible_path (find k s.clips) caller

unfoldable pub get_thumbnail : ℕ → Option ℕ → Store → Option ℕ
unfolding visible_path find
get_thumbnail k caller s = visible_path (find k s.thumbnails) caller
