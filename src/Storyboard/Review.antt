-- ===== src/Storyboard/Review.antt =====
-- The handlers of routes.py that change one scene: approve, reject, acknowledge and edit. Each reads
-- the scene first and writes it later under the session's lock, so each has a part that takes the
-- scene as it was read.
use si26_math_animation_john.Storyboard.Scenes.{
  Status, pending_review, approved, rejected, fallback, Scene, Session, Response, ok, http, ◌>>=◌,
  Templates, is_chained, scene_mismatch, has_open_mismatch, lookup_active_scene, lookup_candidates,
  write_scene_cas,
}
use si26_math_animation_john.Base.Int.{ℤ, pos, leb_ℤ, pos_part}
use si26_math_animation_john.Base.{
  ℕ, ◌+◌, Bool, true, false, ◌&&◌, ◌||◌, not, Option, none, some, ◌==◌, if◌then◌else◌,
}

-- What a handler answers after its write: the candidates are looked up for the response.
abbrev pub respond : Response Scene × Session → Response Scene × Session
respond (http code, s) = (http code, s)
respond (ok updated, s) = ((do cs ← lookup_candidates updated s; ok updated), s)

-- A handler: what it does with the scene that it reads.
abbrev pub with_scene :
    ℕ → (Scene → Session → Response Scene × Session) → Session → Response Scene × Session
with_scene i f s = elim (lookup_active_scene i s) [
  | http code ↦ (http code, s)
  | ok scene ↦ f scene s
]

-- The scene's own candidates, looked up before the write.
abbrev pub with_candidates :
    (Scene → Session → Response Scene × Session) → Scene → Session → Response Scene × Session
with_candidates f scene s = elim (lookup_candidates scene s) [
  | http code ↦ (http code, s)
  | ok cs ↦ f scene s
]

abbrev pub approval : ℕ → Scene → Scene
approval revision current = record current {
  status = approved;
  approved_revision = some (revision + 1);
}

unfoldable pub approve_read : Templates → Scene → Session → Response Scene × Session
unfolding has_open_mismatch write_scene_cas
approve_read t scene s =
    if has_open_mismatch t scene
    then (http 409, s)
    else write_scene_cas scene.scene_id scene.revision (approval scene.revision) true s

unfoldable pub approve_scene : Templates → ℕ → Session → Response Scene × Session
unfolding approve_read lookup_active_scene lookup_candidates
approve_scene t i s = with_scene i (λ scene u. respond (approve_read t scene u)) s

abbrev pub status_updates : Status → ℕ → Scene → Scene
status_updates approved revision current = approval revision current
status_updates status revision current = record current { status = status }

-- The write of `_set_scene_status`.
unfoldable pub set_status_read : Status → Scene → Session → Response Scene × Session
unfolding write_scene_cas
set_status_read status scene s =
    write_scene_cas scene.scene_id scene.revision (status_updates status scene.revision) true s

unfoldable pub set_scene_status : Status → ℕ → Session → Response Scene × Session
unfolding set_status_read lookup_active_scene lookup_candidates
set_scene_status status i s = with_scene i (with_candidates (set_status_read status)) s

unfoldable pub reject_scene : ℕ → Session → Response Scene × Session
unfolding set_scene_status
reject_scene i s = set_scene_status rejected i s

abbrev pub acknowledgement : Scene → Scene
acknowledgement current = record current { mismatch_acknowledged = true }

unfoldable pub acknowledge_read : Templates → Scene → Session → Response Scene × Session
unfolding scene_mismatch lookup_candidates write_scene_cas
acknowledge_read t scene s = elim (scene_mismatch t scene) [
  | none ↦ (http 409, s)
  | some answers ↦
      with_candidates (λ read u. write_scene_cas read.scene_id read.revision acknowledgement true u)
        scene s
]

unfoldable pub acknowledge_mismatch : Templates → ℕ → Session → Response Scene × Session
unfolding acknowledge_read lookup_active_scene
acknowledge_mismatch t i s = with_scene i (acknowledge_read t) s

-- The body of a PATCH; a field that it leaves out is none.
pub record SceneEditRequest : Type 0 where
  pub grade_level : Option ℤ
  pub params : Option ℕ

-- What `edit_scene` computes from the scene that it read.
pub record Edit : Type 0 where
  pub params : ℕ
  pub thumbnail_path : Option ℕ
  pub grade_level : ℕ
  pub grade_overridden : Bool
  pub content_changed : Bool

abbrev pub legal_grade : Option ℤ → Bool
legal_grade none = true
legal_grade (some g) = leb_ℤ (pos 0) g && leb_ℤ g (pos 8)

abbrev pub grade_or : ℕ → Option ℤ → ℕ
grade_or old none = old
grade_or old (some g) = pos_part g

abbrev is_given : Option ℤ → Bool
is_given none = false
is_given (some g) = true

-- The new parameters with their thumbnail. `drawn` is the path of the rendered thumbnail, `none` where
-- rendering raises.
unfoldable pub edit_params : Templates → Scene → Option ℕ → Option ℕ → Response (ℕ × Option ℕ)
edit_params t scene none drawn = ok (scene.params, scene.thumbnail_path)
edit_params t scene (some raw) drawn = elim (t.validate scene.template (is_chained scene) raw) [
  | none ↦ http 422
  | some params ↦ elim drawn [ none ↦ http 500 | some path ↦ ok (params, some path) ]
]

unfoldable pub edit_of : Scene → Option ℤ → ℕ × Option ℕ → Edit
edit_of scene grade (params, thumbnail) = record {
  params = params;
  thumbnail_path = thumbnail;
  grade_level = grade_or scene.grade_level grade;
  grade_overridden = scene.grade_overridden || is_given grade;
  content_changed =
      not (params == scene.params) || not (grade_or scene.grade_level grade == scene.grade_level);
}

unfoldable pub prepare_edit : Templates → Scene → SceneEditRequest → Option ℕ → Response Edit
unfolding edit_params edit_of
prepare_edit t scene request drawn = elim scene.template [
  | none ↦ http 400
  | some name ↦ if not (legal_grade request.grade_level) then http 422 else (do
    drawing ← edit_params t scene request.params drawn
    ok (edit_of scene request.grade_level drawing))
]

-- The status that an edit leaves, by the status that it read.
abbrev pub decided : Status → Bool
decided approved = true
decided rejected = true
decided pending_review = false
decided fallback = false

unfoldable pub edit_updates : Scene → Edit → Scene → Scene
edit_updates scene e current = record current {
  params = e.params;
  thumbnail_path = e.thumbnail_path;
  grade_level = e.grade_level;
  grade_overridden = e.grade_overridden;
  status = if e.content_changed && decided scene.status then pending_review else current.status;
  mismatch_acknowledged = if e.content_changed then false else current.mismatch_acknowledged;
}

unfoldable pub edit_read :
    Templates → SceneEditRequest → Option ℕ → Scene → Session → Response Scene × Session
unfolding prepare_edit edit_updates write_scene_cas
edit_read t request drawn scene s = elim (prepare_edit t scene request drawn) [
  | http code ↦ (http code, s)
  | ok e ↦ write_scene_cas scene.scene_id scene.revision (edit_updates scene e) e.content_changed s
]

unfoldable pub edit_scene :
    Templates → ℕ → SceneEditRequest → Option ℕ → Session → Response Scene × Session
unfolding edit_read lookup_active_scene lookup_candidates
edit_scene t i request drawn s = with_scene i (with_candidates (edit_read t request drawn)) s
