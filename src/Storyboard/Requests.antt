-- ===== src/Storyboard/Requests.antt =====
-- Requests of routes.py in flight at once: each reads scenes, and writes later from what it read. The
-- steps are the reads, the parts under the session's lock, and the writes of `build_storyboard` and
-- `retry_scene`, which take no lock.
pub mod Agreement
pub mod Writes
pub mod Others
pub mod Invariant
pub mod Reach
pub mod Edits
use si26_math_animation_john.Storyboard.Scenes.{
  Status, rejected, Scene, Session, Response, ok, Templates, find, put, lookup_active_scene,
}
use si26_math_animation_john.Storyboard.Review.{
  approve_read, set_status_read, acknowledge_read, edit_read, SceneEditRequest,
}
use si26_math_animation_john.Storyboard.Render.{
  claim_render_batch, release_render_batch, resolve_cached_clip, publish_clip, Surroundings,
}
use si26_math_animation_john.Storyboard.Build.{cleared, add_scene, replace_scene}
use si26_math_animation_john.Storyboard.Chain.{commit_chain, ungroup_scene}
use si26_math_animation_john.Base.{
  ℕ, zero, suc, ◌+◌, ◌-◌, ◌*◌, ◌/◌, ◌%◌, ◌^◌, ◌≤◌, ◌<◌, min, max, String, ◌≡◌, refl, sym, ap, ◌∙◌,
  subst, ◌≢◌, ◌↔◌, ◌⊎◌, inl, inr, Bool, true, false, ◌&&◌, ◌||◌, not, Option, none, some, List, [],
  ◌∷◌, ◌++◌, map, arith, ltb, leb, ◌==◌, if◌then◌else◌, eq_option, eq_option→eq, eq_option_refl,
  eq→eq_option, Bool-cases, Option-cases, length, all, any, select, count, reject, update, All,
  length-append, count-append, count-le-length, length-select-le, length-reject-add-count,
  count-or-le, count-le-count, count-update, count-update-le, count-update-drop, length-update,
  All-update, any-false, All-any, All-weaken, codes, str_eq, eq_iff,
}

-- The session, every scene that some request has read, and the ids of the scenes that a retry has
-- replaced.
pub record Requests : Type 0 where
  pub session : Session
  pub read : List Scene
  pub retried : List ℕ

pub data Held (x : Scene) : List Scene → Type 0 where
  first : {xs : List Scene} → Held x (x ∷ xs)
  later : {y : Scene} {xs : List Scene} → Held x xs → Held x (y ∷ xs)

-- An id that uuid4 makes belongs to no scene, and to none that was ever read.
abbrev pub IsFresh : ℕ → Requests → Type 0
IsFresh i r =
    (find i r.session.scenes ≡ none) × All (λ (x : Scene). (x.scene_id == i) ≡ false) r.read

pub data Step (t : Templates) (same : Scene → Scene → Bool) : Requests → Requests → Type 0 where
  -- any lookup of a scene, in or out of the storyboard's order
  reads :
      (r : Requests) (i : ℕ) (x : Scene)
      → find i r.session.scenes ≡ some x
      → Step t same r (record r { read = x ∷ r.read })
  approves :
      (r : Requests) (x : Scene)
      → Held x r.read
      → Step t same r (record r { session = (approve_read t x r.session).1 })
  sets_status :
      (r : Requests) (status : Status) (x : Scene)
      → Held x r.read
      → Step t same r (record r { session = (set_status_read status x r.session).1 })
  acknowledges :
      (r : Requests) (x : Scene)
      → Held x r.read
      → Step t same r (record r { session = (acknowledge_read t x r.session).1 })
  edits :
      (r : Requests) (x : Scene) (request : SceneEditRequest) (drawn : Option ℕ)
      → Held x r.read
      → Step t same r (record r { session = (edit_read t request drawn x r.session).1 })
  claims :
      (r : Requests) (max_render_batch : ℕ)
      → Step t same r (record r { session = (claim_render_batch max_render_batch r.session).1 })
  releases :
      (r : Requests) (batch : List Scene)
      → Step t same r (record r { session = release_render_batch batch r.session })
  reuses :
      (r : Requests) (w : Surroundings) (x : Scene) (hash : ℕ)
      → Step t same r (record r { session = (resolve_cached_clip w x hash r.session).1 })
  publishes :
      (r : Requests) (w : Surroundings) (x : Scene) (hash : ℕ)
      → Step t same r (record r { session = (publish_clip w x hash r.session).1 })
  chains :
      (r : Requests) (read : List Scene) (made : Scene)
      → IsFresh made.scene_id r
      → Step t same r (record r { session = (commit_chain t same read made r.session).1 })
  ungroups :
      (r : Requests) (i : ℕ) → Step t same r (record r { session = (ungroup_scene i r.session).1 })
  -- the end of a retry, with what `assemble_scene` has made of the scene that the request read
  retries :
      (r : Requests) (x fresh : Scene)
      → Held x r.read
      → Step t same r (record r {
        session = (replace_scene fresh x r.session).1;
        retried = x.scene_id ∷ r.retried;
      })
  -- a new storyboard, scene by scene
  clears : (r : Requests) → Step t same r (record r { session = cleared r.session })
  adds :
      (r : Requests) (x : Scene) (template : ℕ)
      → IsFresh x.scene_id r
      → Step t same r (record r { session = add_scene template x r.session })

-- No scene is read, and none retried.
abbrev pub idle : Session → Requests
idle s = record { session = s; read = []; retried = [] }

pub data Steps (t : Templates) (same : Scene → Scene → Bool) (start : Requests)
    : Requests → Type 0 where
  here : Steps t same start start
  next : {q r : Requests} → Steps t same start q → Step t same q r → Steps t same start r
