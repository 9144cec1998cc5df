-- ===== src/SessionStore/Shrink.antt =====
-- What the sweeps take away: how many entries a predicate holds of, before and after.
use si26_math_animation_john.Base.{
  ℕ, zero, suc, ◌≤◌, ◌≡◌, refl, Bool, true, Option, none, some, [], ◌∷◌, arith, leb, length, select,
  count, inl, inr, Bool-cases, Option-cases,
}
use si26_math_animation_john.SessionStore.Registry.{
  Entry, Item, Registry, Kind, Store, Sweep, drop_key, total, owned_by,
}
use si26_math_animation_john.SessionStore.Sweeps.{
  oldest, evict, enforce_bytes, enforce_session_bytes, entry_count, expire_ttl, trim,
  enforce_entry_cap,
}
use si26_math_animation_john.SessionStore.Operations.{swept, entry_cap}

abbrev pub IsSub : Registry → Registry → Type 0
IsSub reg' reg = (q : Item → Bool) → count q reg' ≤ count q reg

pub record Shrinks (w' w : Sweep) : Type 0 where
  pub clips : IsSub w'.clips w.clips
  pub thumbnails : IsSub w'.thumbnails w.thumbnails

pub Shrinks-refl : (w : Sweep) → Shrinks w w
Shrinks-refl w = record { clips = λ q. omega arith; thumbnails = λ q. omega arith }

pub Shrinks-trans : {a b c : Sweep} → Shrinks a b → Shrinks b c → Shrinks a c
Shrinks-trans h k = record {
  clips = λ q. omega (arith, h.clips q, k.clips q);
  thumbnails = λ q. omega (arith, h.thumbnails q, k.thumbnails q);
}

pub select-IsSub : (p : Item → Bool) (reg : Registry) → IsSub (select p reg) reg
select-IsSub p [] q = omega arith
select-IsSub p (i ∷ reg) q = ground (arith, select-IsSub p reg q)

trim-IsSub : (cap : ℕ) (reg : Registry) → IsSub (trim cap reg) reg
unfolding trim
trim-IsSub cap [] q = omega arith
trim-IsSub cap (i ∷ reg) q = ground (arith, trim-IsSub cap reg q)

pub length-trim-le : (cap : ℕ) (reg : Registry) → length (trim cap reg) ≤ cap
unfolding trim
length-trim-le cap [] = omega arith
length-trim-le cap (i ∷ reg) = ground (arith, length-trim-le cap reg)

pub count-true : (reg : Registry) → count (λ i. true) reg ≡ length reg
count-true [] = refl
count-true (i ∷ reg) = omega (arith, count-true reg)

evict-Shrinks : (k : Kind) (i : Item) (w : Sweep) → Shrinks (evict k i w) w
unfolding evict drop_key
evict-Shrinks Kind.clip i w = record {
  clips = select-IsSub _ w.clips;
  thumbnails = λ q. omega arith;
}
evict-Shrinks Kind.thumbnail i w = record {
  clips = λ q. omega arith;
  thumbnails = select-IsSub _ w.thumbnails;
}

pub enforce_bytes-Shrinks :
    (p : Entry → Bool) (cap fuel : ℕ) (w : Sweep) → Shrinks (enforce_bytes p cap fuel w) w
unfolding enforce_bytes
enforce_bytes-Shrinks p cap zero w = Shrinks-refl w
enforce_bytes-Shrinks p cap (suc fuel) w = elim (Bool-cases (leb (total p w) cap)) [
  | inl fits ↦ rw fits (Shrinks-refl w)
  | inr over ↦ rw over (elim (Option-cases (oldest p w)) [
    | inl empty ↦ rw empty (Shrinks-refl w)
    | inr ((k, i), found) ↦
        rw found
          (Shrinks-trans (enforce_bytes-Shrinks p cap fuel (evict k i w)) (evict-Shrinks k i w))
  ])
]

expire_ttl-Shrinks : (ttl : Option ℕ) (now : ℕ) (w : Sweep) → Shrinks (expire_ttl ttl now w) w
unfolding expire_ttl
expire_ttl-Shrinks none now w = Shrinks-refl w
expire_ttl-Shrinks (some ttl) now w = record {
  clips = select-IsSub _ w.clips;
  thumbnails = select-IsSub _ w.thumbnails;
}

enforce_entry_cap-Shrinks : (k : Kind) (cap : ℕ) (w : Sweep) → Shrinks (enforce_entry_cap k cap w) w
unfolding enforce_entry_cap
enforce_entry_cap-Shrinks Kind.clip cap w = record {
  clips = trim-IsSub cap w.clips;
  thumbnails = λ q. omega arith;
}
enforce_entry_cap-Shrinks Kind.thumbnail cap w = record {
  clips = λ q. omega arith;
  thumbnails = trim-IsSub cap w.thumbnails;
}

pub enforce_session_bytes-Shrinks :
    (sid : Option ℕ) (cap : ℕ) (w : Sweep) → Shrinks (enforce_session_bytes sid cap w) w
unfolding enforce_session_bytes
enforce_session_bytes-Shrinks none cap w = Shrinks-refl w
enforce_session_bytes-Shrinks (some sid) cap w =
    enforce_bytes-Shrinks (owned_by sid) cap (entry_count w) w

pub swept-Shrinks :
    (k : Kind) (sid : Option ℕ) (later : ℕ) (s : Store) (w : Sweep)
    → Shrinks (swept k sid later s w) w
unfolding swept
swept-Shrinks k sid later s w =
    Shrinks-trans (enforce_session_bytes-Shrinks sid s.max_bytes_per_session _) (
      Shrinks-trans (enforce_entry_cap-Shrinks k (entry_cap k s) _)
        (expire_ttl-Shrinks s.ttl_seconds later w))
