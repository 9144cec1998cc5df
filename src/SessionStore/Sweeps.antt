-- ===== src/SessionStore/Sweeps.antt =====
-- session.py: the sweeps over the two registries that evict entries, oldest first.
use si26_math_animation_john.Base.{
  ℕ, zero, suc, ◌+◌, Bool, Option, none, some, List, [], ◌∷◌, ◌++◌, ltb, leb, if◌then◌else◌, length,
  select, reject,
}
use si26_math_animation_john.SessionStore.Registry.{
  Entry, Item, Registry, Kind, Sweep, drop_key, owned_by, total, entries,
}

-- _expire_ttl_locked, one registry
abbrev pub is_stale : ℕ → ℕ → Item → Bool
is_stale ttl now i = ltb (i.entry.created_at + ttl) now

unfoldable pub expire_ttl : Option ℕ → ℕ → Sweep → Sweep
expire_ttl none now w = w
expire_ttl (some ttl) now w = record {
  clips = reject (is_stale ttl now) w.clips;
  thumbnails = reject (is_stale ttl now) w.thumbnails;
  evicted =
      w.evicted
      ++ (entries (select (is_stale ttl now) w.clips)
          ++ entries (select (is_stale ttl now) w.thumbnails));
}

-- _enforce_global_cap_locked: while len(reg) > cap: popitem(last=False)
unfoldable pub trim : ℕ → Registry → Registry
trim cap [] = []
trim cap (i ∷ reg) = if ltb cap (length (i ∷ reg)) then trim cap reg else i ∷ reg

unfoldable pub trimmed : ℕ → Registry → List Entry
trimmed cap [] = []
trimmed cap (i ∷ reg) = if ltb cap (length (i ∷ reg)) then i.entry ∷ trimmed cap reg else []

unfoldable pub enforce_entry_cap : Kind → ℕ → Sweep → Sweep
enforce_entry_cap Kind.clip cap w = record w {
  clips = trim cap w.clips;
  evicted = w.evicted ++ trimmed cap w.clips;
}
enforce_entry_cap Kind.thumbnail cap w = record w {
  thumbnails = trim cap w.thumbnails;
  evicted = w.evicted ++ trimmed cap w.thumbnails;
}

unfoldable pub first_where : (Entry → Bool) → Registry → Option Item
first_where p [] = none
first_where p (i ∷ reg) = if p i.entry then some i else first_where p reg

-- The older of the two first hits; a tie goes to the clip.
unfoldable pub older : Option Item → Option Item → Option (Kind × Item)
older none none = none
older none (some t) = some (Kind.thumbnail, t)
older (some c) none = some (Kind.clip, c)
older (some c) (some t) =
    if ltb t.entry.created_at c.entry.created_at
    then some (Kind.thumbnail, t)
    else some (Kind.clip, c)

-- _oldest_for_session_locked, and the heads that `enforce_global_cap` compares
unfoldable pub oldest : (Entry → Bool) → Sweep → Option (Kind × Item)
unfolding older first_where
oldest p w = older (first_where p w.clips) (first_where p w.thumbnails)

-- evicted.append(oldest_reg.pop(oldest_id))
unfoldable pub evict : Kind → Item → Sweep → Sweep
unfolding drop_key
evict Kind.clip i w = record w {
  clips = drop_key i.key w.clips;
  evicted = w.evicted ++ i.entry ∷ [];
}
evict Kind.thumbnail i w = record w {
  thumbnails = drop_key i.key w.thumbnails;
  evicted = w.evicted ++ i.entry ∷ [];
}

-- Both byte caps run one loop: while the total is over the cap, evict the oldest entry, if there is
-- one. Each round evicts an entry, so the number of entries bounds the rounds.
unfoldable pub enforce_bytes : (Entry → Bool) → ℕ → ℕ → Sweep → Sweep
enforce_bytes p cap zero w = w
enforce_bytes p cap (suc fuel) w =
    if leb (total p w) cap
    then w
    else elim (oldest p w) [ none ↦ w | some (k, i) ↦ enforce_bytes p cap fuel (evict k i w) ]

abbrev pub entry_count : Sweep → ℕ
entry_count w = length w.clips + length w.thumbnails

unfoldable pub enforce_session_bytes : Option ℕ → ℕ → Sweep → Sweep
unfolding enforce_bytes
enforce_session_bytes none cap w = w
enforce_session_bytes (some sid) cap w = enforce_bytes (owned_by sid) cap (entry_count w) w
