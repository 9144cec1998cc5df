-- ===== src/SessionStore/Caps.antt =====
-- The caps on the numbers of sessions and registrations, under each method.
use si26_math_animation_john.Base.{
  ℕ, ◌+◌, ◌≤◌, ◌<◌, ◌≡◌, Bool, true, false, not, Option, some, List, [], ◌∷◌, ◌++◌, arith, ltb, leb,
  ◌==◌, length, length-append, length-reject-add-count, reject, count, inl, inr, subst, Bool-cases,
  Option-cases,
}
use si26_math_animation_john.SessionStore.Registry.{
  Entry, File, Registry, Kind, Store, Sweep, Session, has_key, put, anyone, owned_by,
}
use si26_math_animation_john.SessionStore.Sweeps.{enforce_entry_cap, expire_ttl, entry_count}
use si26_math_animation_john.SessionStore.Disk.{exists, discard, safe_size}
use si26_math_animation_john.SessionStore.Operations.{
  swept, added, finish, register, enforce_global_cap, create_locked, release, evict_oldest, get,
  reserve, find_session, has_session_id,
}
use si26_math_animation_john.SessionStore.Shrink.{
  IsSub, select-IsSub, length-trim-le, count-true, enforce_bytes-Shrinks,
  enforce_session_bytes-Shrinks, swept-Shrinks,
}

-- No key stands twice.
abbrev pub HasUniqueKeys : Registry → Type 0
HasUniqueKeys reg = (k : ℕ) → count (has_key k) reg ≤ 1

pub record IsValid (s : Store) : Type 0 where
  pub few_sessions : length s.sessions ≤ s.max_sessions
  pub few_clips : length s.clips ≤ s.max_clips
  pub few_thumbnails : length s.thumbnails ≤ s.max_thumbnails
  pub unique_clips : HasUniqueKeys s.clips
  pub unique_thumbnails : HasUniqueKeys s.thumbnails

length-IsSub : (reg' reg : Registry) → IsSub reg' reg → length reg' ≤ length reg
length-IsSub reg' reg h = omega (arith, h (λ i. true), count-true reg, count-true reg')

put_ne :
    (k j : ℕ) (e : Entry) (reg : Registry)
    → (k == j) ≡ false
    → count (has_key j) (put k e reg) ≡ count (has_key j) reg
unfolding put
put_ne k j e [] h = ground arith
put_ne k j e (i ∷ reg) h = ground (arith, put_ne k j e reg h)

put_self :
    (k : ℕ) (e : Entry) (reg : Registry)
    → count (has_key k) reg ≤ 1
    → count (has_key k) (put k e reg) ≤ 1
unfolding put
put_self k e [] h = ground arith
put_self k e (i ∷ reg) h = ground (arith, put_self k e reg)

put-HasUniqueKeys :
    (k : ℕ) (e : Entry) (reg : Registry) → HasUniqueKeys reg → HasUniqueKeys (put k e reg)
put-HasUniqueKeys k e reg h j = elim (Bool-cases (k == j)) [
  | inl same ↦
      let eq : k ≡ j = ground arith in
      subst (λ x. count (has_key x) (put k e reg) ≤ 1) eq (put_self k e reg (h k))
  | inr other ↦ rw (put_ne k j e reg other) (h j)
]

unique-IsSub : (reg' reg : Registry) → IsSub reg' reg → HasUniqueKeys reg → HasUniqueKeys reg'
unique-IsSub reg' reg h u k = omega (arith, h (has_key k), u k)

-- The registry that a sweep has capped is within its cap.
capped_clips :
    (sid : Option ℕ) (later : ℕ) (s : Store) (w : Sweep)
    → length (swept Kind.clip sid later s w).clips ≤ s.max_clips
unfolding swept enforce_entry_cap
capped_clips sid later s w =
    let capped = enforce_entry_cap Kind.clip s.max_clips (expire_ttl s.ttl_seconds later w) in
    omega (
      arith,
      length-trim-le s.max_clips (expire_ttl s.ttl_seconds later w).clips,
      length-IsSub _ _ (enforce_session_bytes-Shrinks sid s.max_bytes_per_session capped).clips,
    )

capped_thumbnails :
    (sid : Option ℕ) (later : ℕ) (s : Store) (w : Sweep)
    → length (swept Kind.thumbnail sid later s w).thumbnails ≤ s.max_thumbnails
unfolding swept enforce_entry_cap
capped_thumbnails sid later s w =
    let capped =
      enforce_entry_cap Kind.thumbnail s.max_thumbnails (expire_ttl s.ttl_seconds later w) in
    omega (
      arith,
      length-trim-le s.max_thumbnails (expire_ttl s.ttl_seconds later w).thumbnails,
      length-IsSub _ _
          (enforce_session_bytes-Shrinks sid s.max_bytes_per_session capped).thumbnails,
    )

finish-IsValid :
    (deletable : ℕ → Bool) (s : Store) (w : Sweep)
    → length s.sessions ≤ s.max_sessions
    → length w.clips ≤ s.max_clips
    → length w.thumbnails ≤ s.max_thumbnails
    → HasUniqueKeys w.clips
    → HasUniqueKeys w.thumbnails
    → IsValid (finish deletable s w)
unfolding finish
finish-IsValid deletable s w a b c u v = record {
  few_sessions = a;
  few_clips = b;
  few_thumbnails = c;
  unique_clips = u;
  unique_thumbnails = v;
}

module _ (deletable : ℕ → Bool) (s : Store) (v : IsValid s) where
  pub register-IsValid :
      (kind : Kind) (path : ℕ) (sid : Option ℕ) (new_id now later : ℕ)
      → IsValid (register deletable kind path sid new_id now later s).1
  unfolding register added
  register-IsValid Kind.clip path sid new_id now later = elim (Bool-cases (exists path s.disk)) [
    | inr gone ↦ rw gone v
    | inl there ↦ rw there (
        let e : Entry = record {
          path = path;
          session_id = sid;
          size = safe_size path s.disk;
          created_at = now;
        } in
        let w = added Kind.clip new_id e s in
        let less = swept-Shrinks Kind.clip sid later s w in
        finish-IsValid deletable (record s { reserved = discard path s.reserved })
          (swept Kind.clip sid later s w) v.few_sessions (capped_clips sid later s w)
          (omega (arith, v.few_thumbnails, length-IsSub _ _ less.thumbnails))
          (unique-IsSub _ _ less.clips (put-HasUniqueKeys new_id e s.clips v.unique_clips))
          (unique-IsSub _ _ less.thumbnails v.unique_thumbnails))
  ]
  register-IsValid Kind.thumbnail path sid new_id now later =
      elim (Bool-cases (exists path s.disk)) [
        | inr gone ↦ rw gone v
        | inl there ↦ rw there (
            let e : Entry = record {
              path = path;
              session_id = sid;
              size = safe_size path s.disk;
              created_at = now;
            } in
            let w = added Kind.thumbnail new_id e s in
            let less = swept-Shrinks Kind.thumbnail sid later s w in
            finish-IsValid deletable (record s { reserved = discard path s.reserved })
              (swept Kind.thumbnail sid later s w) v.few_sessions
              (omega (arith, v.few_clips, length-IsSub _ _ less.clips))
              (capped_thumbnails sid later s w) (unique-IsSub _ _ less.clips v.unique_clips)
              (unique-IsSub _ _ less.thumbnails
                (put-HasUniqueKeys new_id e s.thumbnails v.unique_thumbnails)))
      ]

  pub enforce_global_cap-IsValid :
      (max_bytes : ℕ) → IsValid (enforce_global_cap deletable max_bytes s).1
  unfolding enforce_global_cap
  enforce_global_cap-IsValid max_bytes = elim (Bool-cases (leb max_bytes 0)) [
    | inl off ↦ rw off v
    | inr on ↦ rw on (
        let start : Sweep = record { clips = s.clips; thumbnails = s.thumbnails; evicted = [] } in
        let less = enforce_bytes-Shrinks anyone max_bytes (entry_count start) start in
        finish-IsValid deletable s _ v.few_sessions
          (omega (arith, v.few_clips, length-IsSub _ _ less.clips))
          (omega (arith, v.few_thumbnails, length-IsSub _ _ less.thumbnails))
          (unique-IsSub _ _ less.clips v.unique_clips)
          (unique-IsSub _ _ less.thumbnails v.unique_thumbnails))
  ]

module _ (s : Store) (v : IsValid s) where
  -- Nothing of it is on the disk, nor in the reservations.
  pub files-IsValid : (files : List File) → IsValid (record s { disk = files })
  files-IsValid files = record {
    few_sessions = v.few_sessions;
    few_clips = v.few_clips;
    few_thumbnails = v.few_thumbnails;
    unique_clips = v.unique_clips;
    unique_thumbnails = v.unique_thumbnails;
  }

  pub release-IsValid : (path : ℕ) → IsValid (release path s)
  unfolding release
  release-IsValid path = record {
    few_sessions = v.few_sessions;
    few_clips = v.few_clips;
    few_thumbnails = v.few_thumbnails;
    unique_clips = v.unique_clips;
    unique_thumbnails = v.unique_thumbnails;
  }

  pub reserve-IsValid : (path : ℕ) → IsValid (reserve path s).1
  unfolding reserve
  reserve-IsValid path = record {
    few_sessions = v.few_sessions;
    few_clips = v.few_clips;
    few_thumbnails = v.few_thumbnails;
    unique_clips = v.unique_clips;
    unique_thumbnails = v.unique_thumbnails;
  }

  found_session :
      (sid : ℕ) (xs : List Session) (x : Session)
      → find_session sid xs ≡ some x
      → 0 < count (has_session_id sid) xs
  unfolding find_session
  found_session sid [] x e = ground arith
  found_session sid (y ∷ ys) x e = ground (arith, found_session sid ys x)

  evict_oldest-IsValid :
      (xs : List Session)
      → length xs ≤ s.max_sessions + 1
      → IsValid (evict_oldest xs (record s { sessions = xs })).1
  unfolding evict_oldest
  evict_oldest-IsValid [] h = record {
    few_sessions = omega arith;
    few_clips = v.few_clips;
    few_thumbnails = v.few_thumbnails;
    unique_clips = v.unique_clips;
    unique_thumbnails = v.unique_thumbnails;
  }
  evict_oldest-IsValid (old ∷ rest) h = record {
    few_sessions = omega arith;
    few_clips = omega (
      arith,
      v.few_clips,
      length-IsSub _ _ (select-IsSub (λ i. not (owned_by old.session_id i.entry)) s.clips),
    );
    few_thumbnails = omega (
      arith,
      v.few_thumbnails,
      length-IsSub _ _ (select-IsSub (λ i. not (owned_by old.session_id i.entry)) s.thumbnails),
    );
    unique_clips = unique-IsSub _ _ (select-IsSub _ s.clips) v.unique_clips;
    unique_thumbnails = unique-IsSub _ _ (select-IsSub _ s.thumbnails) v.unique_thumbnails;
  }

  pub get-IsValid : (sid : ℕ) → IsValid (get sid s).1
  unfolding get
  get-IsValid sid = elim (Option-cases (find_session sid s.sessions)) [
    | inl absent ↦ rw (absent, get) v
    | inr (x, found) ↦
        rw (found, get)
          (record {
            few_sessions = omega (
              arith,
              v.few_sessions,
              found_session sid s.sessions x found,
              length-reject-add-count (has_session_id sid) s.sessions,
              length-append (reject (has_session_id sid) s.sessions) (x ∷ []),
            );
            few_clips = v.few_clips;
            few_thumbnails = v.few_thumbnails;
            unique_clips = v.unique_clips;
            unique_thumbnails = v.unique_thumbnails;
          })
  ]

  pub create_locked-IsValid : (x : Session) → IsValid (create_locked x s).1
  unfolding create_locked
  create_locked-IsValid x =
      let all_sessions = s.sessions ++ x ∷ [] in
      elim (Bool-cases (ltb s.max_sessions (length all_sessions))) [
        | inl full ↦ rw full (
            evict_oldest-IsValid all_sessions
              (omega (arith, v.few_sessions, length-append s.sessions (x ∷ []))))
        | inr room ↦ rw room (record {
          few_sessions = ground arith;
          few_clips = v.few_clips;
          few_thumbnails = v.few_thumbnails;
          unique_clips = v.unique_clips;
          unique_thumbnails = v.unique_thumbnails;
        })
      ]
