-- ===== src/SessionStore/Reach.antt =====
-- The store over any sequence of method calls, in any order and with any arguments, in flight at once.
use si26_math_animation_john.Base.{ℕ, Bool, Option, none, some, List}
use si26_math_animation_john.SessionStore.Registry.{Kind, Store, Session, File}
use si26_math_animation_john.SessionStore.Operations.{
  register, enforce_global_cap, create_locked, remove_evicted, release, unlink_path, sweep_files,
  get, reserve,
}
use si26_math_animation_john.SessionStore.Caps.{
  IsValid, register-IsValid, enforce_global_cap-IsValid, files-IsValid, release-IsValid,
  create_locked-IsValid, get-IsValid, reserve-IsValid,
}

-- One step of a method: what it does under the lock, or what it does to the disk after it. A part after
-- the lock has whatever its method has read before, however much later it runs.
pub data Call (deletable : ℕ → Bool) : Store → Store → Type 0 where
  create_session : (s : Store) (x : Session) → Call deletable s (create_locked x s).1
  remove_session :
      (s : Store) (evicted : Option ℕ) → Call deletable s (remove_evicted deletable evicted s)
  get_session : (s : Store) (sid : ℕ) → Call deletable s (get sid s).1
  reserve_path : (s : Store) (path : ℕ) → Call deletable s (reserve path s).1
  release_path : (s : Store) (path : ℕ) → Call deletable s (release path s)
  abort_path : (s : Store) (path : ℕ) → Call deletable s (unlink_path deletable path s)
  register_path :
      (s : Store) (kind : Kind) (path : ℕ) (sid : Option ℕ) (new_id now later : ℕ)
      → Call deletable s (register deletable kind path sid new_id now later s).1
  sweep : (s : Store) (keep : ℕ → Bool) → Call deletable s (sweep_files deletable keep s).1
  cap : (s : Store) (max_bytes : ℕ) → Call deletable s (enforce_global_cap deletable max_bytes s).1
  -- a renderer writes or a tmp cleaner deletes files
  disk_changes : (s : Store) (files : List File) → Call deletable s (record s { disk = files })

pub data Calls (deletable : ℕ → Bool) (start : Store) : Store → Type 0 where
  here : Calls deletable start start
  next : {s t : Store} → Calls deletable start s → Call deletable s t → Calls deletable start t

remove_evicted-IsValid :
    (d : ℕ → Bool) (s : Store) (evicted : Option ℕ)
    → IsValid s
    → IsValid (remove_evicted d evicted s)
unfolding remove_evicted
remove_evicted-IsValid d s none v = v
remove_evicted-IsValid d s (some old) v = files-IsValid s v _

Call-IsValid : (deletable : ℕ → Bool) {s t : Store} → Call deletable s t → IsValid s → IsValid t
unfolding sweep_files unlink_path
Call-IsValid d (create_session s x) v = create_locked-IsValid s v x
Call-IsValid d (remove_session s evicted) v = remove_evicted-IsValid d s evicted v
Call-IsValid d (get_session s sid) v = get-IsValid s v sid
Call-IsValid d (reserve_path s path) v = reserve-IsValid s v path
Call-IsValid d (release_path s path) v = release-IsValid s v path
Call-IsValid d (abort_path s path) v = files-IsValid s v _
Call-IsValid d (register_path s kind path sid new_id now later) v =
    register-IsValid d s v kind path sid new_id now later
Call-IsValid d (sweep s keep) v = files-IsValid s v _
Call-IsValid d (cap s max_bytes) v = enforce_global_cap-IsValid d s v max_bytes
Call-IsValid d (disk_changes s files) v = files-IsValid s v files

-- From a valid store, after any method calls in any order, their steps interleaved, with other programs
-- writing and deleting files in between, the numbers of sessions, clips and thumbnails are within their caps, and no
-- registry id stands twice.
pub Calls-IsValid :
    (deletable : ℕ → Bool) {s t : Store} → Calls deletable s t → IsValid s → IsValid t
Calls-IsValid d here v = v
Calls-IsValid d (next r c) v = Call-IsValid d c (Calls-IsValid d r v)
