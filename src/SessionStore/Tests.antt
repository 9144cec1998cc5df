-- ===== src/SessionStore/Tests.antt =====
-- Examples of the store's theorems: one session, one clip of it, and small caps.
use si26_math_animation_john.SessionStore.Budget.{
  register-within, enforce_global_cap-within, lookup-some,
}
use si26_math_animation_john.SessionStore.Files.{lost}
use si26_math_animation_john.SessionStore.Safety.{IsBacked, reserved_untouched, sweeps-IsBacked}
use si26_math_animation_john.SessionStore.Disk.{exists}
use si26_math_animation_john.SessionStore.Operations.{
  get_clip, enforce_global_cap, register, sweep_orphans, sweep_files, kept, get_thumbnail,
}
use si26_math_animation_john.SessionStore.Reach.{
  Calls, Calls-IsValid, next, here, register_path, sweep,
}
use si26_math_animation_john.Base.{
  ℕ, ◌+◌, ◌≤◌, ◌≡◌, refl, ◌↔◌, ◌⊎◌, Bool, true, none, some, [], ◌∷◌, arith, count,
}
use si26_math_animation_john.SessionStore.Registry.{
  Session, Entry, Store, sum_sizes, find, Kind, owned_by, anyone,
}
use si26_math_animation_john.SessionStore.Caps.{IsValid}

abbrev all_deletable : ℕ → Bool
all_deletable p = true

abbrev owner_session : Session
owner_session = record { session_id = 1; candidates = [] }

abbrev old_clip : Entry
old_clip = record { path = 10; session_id = some 1; size = 60; created_at = 5 }

abbrev small_store : Store
small_store = record {
  max_sessions = 1;
  max_clips = 2;
  max_thumbnails = 2;
  max_bytes_per_session = 100;
  ttl_seconds = some 1000;
  sessions = owner_session ∷ [];
  clips = record { key = 100; entry = old_clip } ∷ [];
  thumbnails = [];
  reserved = 11 ∷ 12 ∷ [];
  disk =
      record { path = 10; dir = 1; size = 60 }
      ∷ record { path = 11; dir = 1; size = 70 }
      ∷ record { path = 12; dir = 1; size = 5 }
      ∷ [];
}

small_store-IsValid : IsValid small_store
small_store-IsValid = record {
  few_sessions = omega arith;
  few_clips = omega arith;
  few_thumbnails = omega arith;
  unique_clips = λ k. ground arith;
  unique_thumbnails = λ k. ground arith;
}

-- A clip is registered while a sweep runs that had read the store before.
two_steps :
    Calls all_deletable small_store
      (sweep_files all_deletable
        (kept small_store)
        (register all_deletable Kind.clip 11 (some 1) 101 20 20 small_store).1).1
two_steps =
    next (next here (register_path small_store Kind.clip 11 (some 1) 101 20 20))
      (sweep _ (kept small_store))

Calls-IsValid_example :
    IsValid
      (sweep_files all_deletable
        (kept small_store)
        (register all_deletable Kind.clip 11 (some 1) 101 20 20 small_store).1).1
Calls-IsValid_example = Calls-IsValid all_deletable two_steps small_store-IsValid

-- The sweep has read the store before any registration or reservation.
abbrev empty_store : Store
empty_store = record small_store { clips = []; reserved = [] }

sweeps-IsBacked_example :
    IsBacked (register all_deletable Kind.clip 11 (some 1) 101 20 20 small_store).1
    × IsBacked (enforce_global_cap all_deletable 50 small_store).1
    × (IsBacked (sweep_files all_deletable (kept empty_store) small_store).1 ↔ (
        (count (lost all_deletable (kept empty_store)) small_store.clips ≡ 0)
        × (count (lost all_deletable (kept empty_store)) small_store.thumbnails ≡ 0)))
    × IsBacked (sweep_orphans all_deletable small_store).1
sweeps-IsBacked_example =
    sweeps-IsBacked all_deletable empty_store small_store Kind.clip 11 (some 1) 101 20 20 50
      (record { clips = refl; thumbnails = refl })

reserved_untouched_example :
    (exists 12 (register all_deletable Kind.clip 11 (some 1) 101 20 20 small_store).1.disk ≡ true)
    × (exists 12 (enforce_global_cap all_deletable 50 small_store).1.disk ≡ true)
    × (exists 12 (sweep_orphans all_deletable small_store).1.disk ≡ true)
reserved_untouched_example =
    reserved_untouched all_deletable small_store Kind.clip 11 (some 1) 101 20 20 50 12 refl
      (omega arith)

register-within_example :
    (let t = (register all_deletable Kind.clip 11 (some 1) 101 20 20 small_store).1 in
      sum_sizes (owned_by 1) t.clips + sum_sizes (owned_by 1) t.thumbnails ≤ 100)
unfolding register
register-within_example =
    register-within all_deletable small_store Kind.clip 11 1 101 20 20 101 refl

enforce_global_cap-within_example :
    (let t = (enforce_global_cap all_deletable 50 small_store).1 in
      sum_sizes anyone t.clips + sum_sizes anyone t.thumbnails ≤ 50)
enforce_global_cap-within_example =
    enforce_global_cap-within all_deletable small_store 50 (omega arith)

lookup-some_example :
    ((get_clip 100 (some 1) small_store ≡ some 10) ↔ (
      (e : Entry) × (find 100 small_store.clips ≡ some e)
      × (e.path ≡ 10)
      × ((e.session_id ≡ none) ⊎ (e.session_id ≡ some 1))))
    × ((get_thumbnail 100 (some 1) small_store ≡ some 10) ↔ (
        (e : Entry) × (find 100 small_store.thumbnails ≡ some e)
        × (e.path ≡ 10)
        × ((e.session_id ≡ none) ⊎ (e.session_id ≡ some 1))))
lookup-some_example = lookup-some 100 (some 1) small_store 10
