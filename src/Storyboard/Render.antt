-- ===== src/Storyboard/Render.antt =====
-- The render requests of routes.py: the batch that a request claims, and for each of its scenes the
-- lookup of a finished clip, the rendering, and the publication under the session's lock. The session
-- store and the renderer are outcomes that the functions take as arguments.
use si26_math_animation_john.Storyboard.Scenes.{
  is_approved, Scene, Session, SceneClip, Response, ok, http, ◌>>=◌, Templates, find, put,
  is_chained, has,
}
use si26_math_animation_john.Base.{
  ℕ, Bool, true, false, ◌&&◌, not, Option, none, some, List, [], ◌∷◌, ◌++◌, map, ltb, ◌==◌,
  if◌then◌else◌, eq_option, length, any, reject,
}

-- A scene with no approved revision never went through the approval endpoint.
unfoldable pub is_render_ready : Scene → Bool
is_render_ready scene =
    is_approved scene.status
    && elim scene.approved_revision [ none ↦ true | some r ↦ r == scene.revision ]

-- The scenes of the order that are ready; an id with no scene is a KeyError.
unfoldable pub ready_scenes : List ℕ → List Scene → Response (List Scene)
unfolding find is_render_ready
ready_scenes [] scenes = ok []
ready_scenes (i ∷ is) scenes = elim (find i scenes) [
  | none ↦ http 500
  | some x ↦ do rest ← ready_scenes is scenes; ok (if is_render_ready x then x ∷ rest else rest)
]

abbrev pub ids_of : List Scene → List ℕ
ids_of scenes = map (λ x. x.scene_id) scenes

-- `_require_valid_render_batch`: the status code that it raises.
unfoldable pub require_valid_render_batch : ℕ → Session → List Scene → Option ℕ
require_valid_render_batch max_render_batch s batch =
    if length batch == 0
    then some 400
    else if ltb max_render_batch (length batch)
    then some 400
    else if any (has s.rendering_scene_ids) (ids_of batch)
    then some 409
    else none

unfoldable pub claim_render_batch : ℕ → Session → Response (List Scene) × Session
unfolding ready_scenes require_valid_render_batch
claim_render_batch max_render_batch s = elim (ready_scenes s.scene_order s.scenes) [
  | http code ↦ (http code, s)
  | ok batch ↦ elim (require_valid_render_batch max_render_batch s batch) [
    | some code ↦ (http code, s)
    | none ↦ (ok batch, record s { rendering_scene_ids = ids_of batch ++ s.rendering_scene_ids })
  ]
]

-- set.discard, for each id
unfoldable pub discard_all : List ℕ → List ℕ → List ℕ
discard_all [] ids = ids
discard_all (i ∷ is) ids = discard_all is (reject (λ a. a == i) ids)

unfoldable pub release_render_batch : List Scene → Session → Session
unfolding discard_all
release_render_batch batch s = record s {
  rendering_scene_ids = discard_all (ids_of batch) s.rendering_scene_ids;
}

unfoldable pub clip_of : ℕ → List SceneClip → Option ℕ
clip_of i [] = none
clip_of i (c ∷ cs) = if c.scene_id == i then some c.clip_id else clip_of i cs

abbrev pub with_clip : ℕ → ℕ → Session → Session
with_clip i clip s = record s {
  scene_clip_id =
      record { scene_id = i; clip_id = clip }
      ∷ reject (λ (c : SceneClip). c.scene_id == i) s.scene_clip_id;
}

-- What a request meets outside the session: whether a path exists, whether a clip id is still
-- registered, what a registration of the old and of the new file returns, whether the deadline has
-- passed, the reserved path, how the rendering ends, and the hash of the inputs.
pub data Drawing : Type 0 where
  drawn timed_out failed : Drawing

pub record Surroundings : Type 0 where
  pub exists : ℕ → Bool
  pub has_clip : ℕ → Bool
  pub reregistered : Option ℕ
  pub registered : Option ℕ
  pub past_deadline : Bool
  pub output_path : ℕ
  pub drawing : Drawing
  pub params_hash : Option ℕ → ℕ → Bool → ℕ

-- `_is_render_ready(current) and current.revision == scene.revision`
abbrev pub is_current : Scene → Scene → Bool
is_current scene current = is_render_ready current && (current.revision == scene.revision)

unfoldable pub reuse_clip : Surroundings → ℕ → Session → Option ℕ × Session
unfolding clip_of
reuse_clip w i s =
    let register : Option ℕ × Session = elim w.reregistered [
      | none ↦ (none, s)
      | some clip ↦ (some clip, with_clip i clip s)
    ] in
    elim (clip_of i s.scene_clip_id) [
      | none ↦ register
      | some clip ↦ if w.has_clip clip then (some clip, s) else register
    ]

abbrev pub file_exists : Surroundings → Option ℕ → Bool
file_exists w none = false
file_exists w (some path) = w.exists path

unfoldable pub resolve_cached_clip : Surroundings → Scene → ℕ → Session → Option ℕ × Session
unfolding find is_render_ready reuse_clip
resolve_cached_clip w scene hash s = elim (find scene.scene_id s.scenes) [
  | none ↦ (none, s)
  | some current ↦
      if not (is_current scene current)
      then (none, s)
      else if not (eq_option current.rendered_params_hash (some hash))
      then (none, s)
      else if not (file_exists w current.render_path)
      then (none, s)
      else reuse_clip w scene.scene_id s
]

abbrev pub published : ℕ → ℕ → Scene → Scene
published path hash current = record current {
  render_path = some path;
  rendered_params_hash = some hash;
}

-- The publication under the lock: the clip's id where the scene is still current.
unfoldable pub publish_clip : Surroundings → Scene → ℕ → Session → Option ℕ × Session
unfolding find put is_render_ready
publish_clip w scene hash s = elim (find scene.scene_id s.scenes) [
  | none ↦ (none, s)
  | some current ↦
      if is_current scene current
      then elim w.registered [
        | none ↦ (none, s)
        | some clip ↦ (
          some clip,
          with_clip scene.scene_id clip
              (record s { scenes = put (published w.output_path hash current) s.scenes }),
        )
      ]
      else (none, s)
]

pub data ClipStatus : Type 0 where
  approved fallback error timeout : ClipStatus

-- What became of the reserved output path.
pub data Reservation : Type 0 where
  unreserved registered aborted : Reservation

pub record ClipResult : Type 0 where
  pub status : ClipStatus
  pub clip_url : Option ℕ
  pub reservation : Reservation

abbrev without_clip : ClipStatus → Reservation → ClipResult
without_clip status reservation = record {
  status = status;
  clip_url = none;
  reservation = reservation;
}

abbrev with_url : Scene → ℕ → Reservation → ClipResult
with_url scene clip reservation = record {
  status = elim scene.fallback_reason [
    | none ↦ ClipStatus.approved
    | some reason ↦ ClipStatus.fallback
  ];
  clip_url = some clip;
  reservation = reservation;
}

-- The rendering and what follows it. `meanwhile` is what other requests do to the session while the
-- file is rendered.
unfoldable pub render_file :
    Surroundings → (Session → Session) → Scene → ℕ → Session → ClipResult × Session
unfolding publish_clip
render_file w meanwhile scene hash s = elim w.drawing [
  | timed_out ↦ (without_clip timeout aborted, meanwhile s)
  | failed ↦ (without_clip error aborted, meanwhile s)
  | drawn ↦
      let (clip, after) = publish_clip w scene hash (meanwhile s) in
      elim clip [
        | none ↦ (without_clip error aborted, after)
        | some c ↦ (with_url scene c registered, after)
      ]
]

unfoldable pub render_scene :
    Templates → Surroundings → (Session → Session) → Scene → Session → ClipResult × Session
unfolding resolve_cached_clip render_file
render_scene t w meanwhile scene s =
    elim (t.validate scene.template (is_chained scene) scene.params) [
      | none ↦ (without_clip error unreserved, s)
      | some params ↦
          let hash = w.params_hash scene.template params (is_chained scene) in
          let (cached, after) = resolve_cached_clip w scene hash s in
          elim cached [
            | some clip ↦ (with_url scene clip unreserved, after)
            | none ↦
                if w.past_deadline
                then (without_clip timeout unreserved, after)
                else render_file w meanwhile scene hash after
          ]
    ]
