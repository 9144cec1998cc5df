-- ===== src/SessionStore/Registry.antt =====
-- session.py: the state of the store, and the registries as dicts in insertion order.
-- Session ids, registry ids and paths are only compared, so they are numbers. The disk is the list of
-- its files, each in one session's directory.
use si26_math_animation_john.Base.{
  ℕ, ◌+◌, Bool, true, Option, none, some, List, [], ◌∷◌, String, map, ◌==◌, if◌then◌else◌,
  eq_option, reject,
}

pub record Candidate : Type 0 where
  pub candidate_id : ℕ
  pub source_excerpt : String

pub record Session : Type 0 where
  pub session_id : ℕ
  pub candidates : List Candidate

pub record Entry : Type 0 where
  pub path : ℕ
  pub session_id : Option ℕ
  pub size : ℕ
  pub created_at : ℕ

pub record File : Type 0 where
  pub path : ℕ
  pub dir : ℕ
  pub size : ℕ

-- An item of a registry: its key and the entry.
pub record Item : Type 0 where
  pub key : ℕ
  pub entry : Entry

abbrev pub Registry : Type 0
Registry = List Item

pub data Kind : Type 0 where
  clip thumbnail : Kind

pub record Store : Type 0 where
  pub max_sessions : ℕ
  pub max_clips : ℕ
  pub max_thumbnails : ℕ
  pub max_bytes_per_session : ℕ
  pub ttl_seconds : Option ℕ
  pub sessions : List Session
  pub clips : Registry
  pub thumbnails : Registry
  pub reserved : List ℕ
  pub disk : List File

-- The two registries while a sweep runs, with what it has evicted.
pub record Sweep : Type 0 where
  pub clips : Registry
  pub thumbnails : Registry
  pub evicted : List Entry

abbrev pub has_key : ℕ → Item → Bool
has_key k i = i.key == k

-- reg[k] = entry, for a fresh k at the end
unfoldable pub put : ℕ → Entry → Registry → Registry
put k e [] = record { key = k; entry = e } ∷ []
put k e (i ∷ reg) = if i.key == k then record { key = k; entry = e } ∷ reg else i ∷ put k e reg

unfoldable pub find : ℕ → Registry → Option Entry
find k [] = none
find k (i ∷ reg) = if i.key == k then some i.entry else find k reg

-- reg.pop(k)
unfoldable pub drop_key : ℕ → Registry → Registry
drop_key k = reject (has_key k)

unfoldable pub sum_sizes : (Entry → Bool) → Registry → ℕ
sum_sizes p [] = 0
sum_sizes p (i ∷ reg) = (if p i.entry then i.entry.size else 0) + sum_sizes p reg

abbrev pub owned_by : ℕ → Entry → Bool
owned_by sid e = eq_option e.session_id (some sid)

abbrev pub anyone : Entry → Bool
anyone e = true

unfoldable pub total : (Entry → Bool) → Sweep → ℕ
total p w = sum_sizes p w.clips + sum_sizes p w.thumbnails

abbrev pub entries : Registry → List Entry
entries = map (λ i. i.entry)
