-- ===== src/SessionStore/Budget.antt =====
-- The byte caps of a session and of the whole disk, and who may read a registration.
use si26_math_animation_john.SessionStore.Bytes.{enforce_bytes-within}
use si26_math_animation_john.SessionStore.Disk.{exists, safe_size}
use si26_math_animation_john.SessionStore.Sweeps.{
  enforce_session_bytes, entry_count, enforce_entry_cap, expire_ttl,
}
use si26_math_animation_john.SessionStore.Registry.{
  total, Store, Kind, sum_sizes, owned_by, anyone, Sweep, find, Registry, Entry, Candidate, Session,
}
use si26_math_animation_john.SessionStore.Operations.{
  enforce_global_cap, register, finish, swept, visible_path, create, get_clip, get_thumbnail,
  drop_entries, entry_cap, added, new_session, evict_oldest, create_locked, remove_evicted,
}
use si26_math_animation_john.Base.{
  refl, ℕ, ◌≡◌, Bool, ◌<◌, some, ◌+◌, ◌≤◌, Bool-cases, [], arith, leb, false, inr, Option, inl,
  List, ◌↔◌, none, ◌∷◌, ◌⊎◌, eq_option, length, ◌++◌, eq_option→eq, ltb, true, length-append,
  eq→eq_option, ap,
}

-- After a registration for a session that succeeds, the session's clips and thumbnails together are
-- within its byte cap.
pub register-within :
    (d : ℕ → Bool) (s : Store) (kind : Kind) (path sid new_id now later k : ℕ)
    → (register d kind path (some sid) new_id now later s).0 ≡ some k
    → (let t = (register d kind path (some sid) new_id now later s).1 in
        sum_sizes (owned_by sid) t.clips + sum_sizes (owned_by sid) t.thumbnails
        ≤ s.max_bytes_per_session)
unfolding register finish swept enforce_session_bytes total
register-within d s kind path sid new_id now later k h = elim (Bool-cases (exists path s.disk)) [
  | inr gone ↦ absurd (ground arith)
  | inl there ↦ rw there (
      let e : Entry = record {
        path = path;
        session_id = some sid;
        size = safe_size path s.disk;
        created_at = now;
      } in
      let w =
        enforce_entry_cap kind (entry_cap kind s)
          (expire_ttl s.ttl_seconds later (added kind new_id e s)) in
      enforce_bytes-within (owned_by sid) s.max_bytes_per_session (entry_count w) w (omega arith))
]

-- With a positive cap, after `enforce_global_cap` all registered bytes together are within it.
pub enforce_global_cap-within :
    (d : ℕ → Bool) (s : Store) (max_bytes : ℕ)
    → 0 < max_bytes
    → (let t = (enforce_global_cap d max_bytes s).1 in
        sum_sizes anyone t.clips + sum_sizes anyone t.thumbnails ≤ max_bytes)
unfolding enforce_global_cap finish total
enforce_global_cap-within d s max_bytes h =
    let start : Sweep = record { clips = s.clips; thumbnails = s.thumbnails; evicted = [] } in
    let fits = enforce_bytes-within anyone max_bytes (entry_count start) start (omega arith) in
    let on : leb max_bytes 0 ≡ false = ground arith in rw on fits

visible_path-some :
    (o : Option Entry) (caller : Option ℕ) (p : ℕ)
    → (visible_path o caller ≡ some p) ↔ (
        (e : Entry) × (o ≡ some e)
        × (e.path ≡ p)
        × ((e.session_id ≡ none) ⊎ (e.session_id ≡ caller)))
unfolding visible_path
visible_path-some none caller p =
    (λ h. absurd (ground arith), λ (e, h, _, _). absurd (ground arith))
visible_path-some (some e) caller p = elim (Bool-cases (eq_option e.session_id none)) [
  | inl shared ↦ (
    λ h. (e, refl, ground arith, inl (eq_option→eq _ _ shared)),
    λ (f, same, at, who). ground arith,
  )
  | inr private ↦ elim (Bool-cases (eq_option e.session_id caller)) [
    | inl own ↦ (
      λ h. (e, refl, ground arith, inr (eq_option→eq e.session_id caller own)),
      λ (f, same, at, who). ground arith,
    )
    | inr foreign ↦ (
      λ h. absurd (ground arith),
      λ (f, same, at, who).
          absurd (ground (arith, eq→eq_option e.session_id caller, eq→eq_option e.session_id none)),
    )
  ]
]

-- A clip lookup returns a path exactly if an entry of that path is registered under the id and is
-- unowned or owned by the caller's session; so is a thumbnail's.
pub lookup-some :
    (k : ℕ) (caller : Option ℕ) (s : Store) (p : ℕ)
    → ((get_clip k caller s ≡ some p) ↔ (
        (e : Entry) × (find k s.clips ≡ some e)
        × (e.path ≡ p)
        × ((e.session_id ≡ none) ⊎ (e.session_id ≡ caller))))
      × ((get_thumbnail k caller s ≡ some p) ↔ (
          (e : Entry) × (find k s.thumbnails ≡ some e)
          × (e.path ≡ p)
          × ((e.session_id ≡ none) ⊎ (e.session_id ≡ caller))))
unfolding get_clip get_thumbnail
lookup-some k caller s p =
    (visible_path-some (find k s.clips) caller p, visible_path-some (find k s.thumbnails) caller p)

find-drop_entries :
    (sid k : ℕ) (reg : Registry) (e : Entry)
    → find k (drop_entries sid reg) ≡ some e
    → owned_by sid e ≡ false
unfolding find
find-drop_entries sid k [] e h = absurd (ground arith)
find-drop_entries sid k (i ∷ reg) e h = ground (arith, find-drop_entries sid k reg e)

evict_first :
    (xs : List Session) (t : Store) (old : Session) (rest : List Session)
    → xs ≡ old ∷ rest
    → evict_oldest xs t ≡ (
      some old.session_id,
      record t {
        sessions = rest;
        clips = drop_entries old.session_id t.clips;
        thumbnails = drop_entries old.session_id t.thumbnails;
      },
    )
unfolding evict_oldest
evict_first xs t old rest e = rw e

-- Where a new session makes one too many, the least recently used session is gone with its clips and
-- thumbnails: no lookup finds an entry of it, for any caller.
pub create-evicts :
    (d : ℕ → Bool) (sid : ℕ) (candidates : List Candidate) (s : Store) (old : Session)
    (rest : List Session) (k : ℕ) (e : Entry)
    → s.sessions ≡ old ∷ rest
    → s.max_sessions ≤ length s.sessions
    → (let t = (create d sid candidates s).1 in
        (t.sessions ≡ rest ++ new_session sid candidates ∷ [])
        × (find k t.clips ≡ some e → owned_by old.session_id e ≡ false)
        × (find k t.thumbnails ≡ some e → owned_by old.session_id e ≡ false))
unfolding create create_locked remove_evicted
create-evicts d sid candidates s old rest k e first full =
    let over : ltb s.max_sessions (length (s.sessions ++ new_session sid candidates ∷ [])) ≡ true =
      ground (arith, length-append s.sessions (new_session sid candidates ∷ [])) in
    let added : s.sessions ++ new_session sid candidates ∷ []
        ≡ old ∷ (rest ++ new_session sid candidates ∷ []) =
      ap (λ xs. xs ++ new_session sid candidates ∷ []) first in
    rw (over, evict_first _ _ old (rest ++ new_session sid candidates ∷ []) added)
      (
        refl,
        find-drop_entries old.session_id k s.clips e,
        find-drop_entries old.session_id k s.thumbnails e,
      )
