-- ===== src/Storyboard/Requests/Writes.antt =====
-- What each write of routes.py under the session's lock does to the stored scenes.
use si26_math_animation_john.Storyboard.Requests.Agreement.{
  reviewed, Coherent, Evolves, write_scene_cas-Evolves, write_scene_cas-cases,
}
use si26_math_animation_john.Storyboard.Review.{
  approve_read, set_status_read, acknowledge_read, edit_read, SceneEditRequest, Edit, prepare_edit,
  edit_of, edit_params, edit_updates, status_updates, approval, acknowledgement, with_candidates,
  legal_grade,
}
use si26_math_animation_john.Storyboard.Scenes.{
  Response-cases, Status, approved, rejected, pending_review, fallback, Scene, Session, ok,
  Templates, find, find-id, put, lookup_candidates, next_scene, has_open_mismatch, scene_mismatch,
}
use si26_math_animation_john.Base.Int.{ℤ}
use si26_math_animation_john.Base.{
  ℕ, ◌≡◌, refl, sym, ap, ◌∙◌, subst, ◌⊎◌, inl, inr, Bool, true, false, Option, some, arith,
  Bool-cases, Option-cases,
}

pub approve_read-Evolves :
    (t : Templates) (x : Scene) (s : Session) → Evolves s.scenes (approve_read t x s).1.scenes
unfolding approve_read
approve_read-Evolves t x s = elim (Bool-cases (has_open_mismatch t x)) [
  | inl stop ↦ inl (rw (stop) refl)
  | inr go ↦ rw go (
      write_scene_cas-Evolves x.scene_id x.revision (approval x.revision) true s (λ c. refl)
        (λ c e f b. cc))
]

status_updates-id :
    (status : Status) (revision : ℕ) (c : Scene)
    → (status_updates status revision c).scene_id ≡ c.scene_id
status_updates-id approved revision c = refl
status_updates-id rejected revision c = refl
status_updates-id pending_review revision c = refl
status_updates-id fallback revision c = refl

pub set_status_read-Evolves :
    (status : Status) (x : Scene) (s : Session)
    → Evolves s.scenes (set_status_read status x s).1.scenes
unfolding set_status_read
set_status_read-Evolves status x s =
    write_scene_cas-Evolves x.scene_id x.revision (status_updates status x.revision) true s
      (status_updates-id status x.revision) (λ c e f b. cc)

pub acknowledge_read-Evolves :
    (t : Templates) (x : Scene) (s : Session) → Evolves s.scenes (acknowledge_read t x s).1.scenes
unfolding acknowledge_read
acknowledge_read-Evolves t x s = elim (Option-cases (scene_mismatch t x)) [
  | inl e ↦ inl (rw (e, acknowledge_read) refl)
  | inr (answers, e) ↦ elim (Response-cases (lookup_candidates x s)) [
    | inl (code, f) ↦ inl (rw (e, acknowledge_read, with_candidates, f) refl)
    | inr (cs, f) ↦
        rw (e, acknowledge_read, with_candidates, f)
          (write_scene_cas-Evolves x.scene_id x.revision acknowledgement true s (λ c. refl)
            (λ c e f b. cc))
  ]
]

-- An edit that changes no content writes the parameters and the grade that it read.
edit_of-unchanged :
    (x : Scene) (grade : Option ℤ) (d : ℕ × Option ℕ)
    → (edit_of x grade d).content_changed ≡ false
    → ((edit_of x grade d).params ≡ x.params) × ((edit_of x grade d).grade_level ≡ x.grade_level)
unfolding edit_of
edit_of-unchanged x grade (params, thumbnail) h = (ground arith, ground arith)

pub prepare_edit-unchanged :
    (t : Templates) (x : Scene) (request : SceneEditRequest) (drawn : Option ℕ) (e : Edit)
    → prepare_edit t x request drawn ≡ ok e
    → e.content_changed ≡ false
    → (e.params ≡ x.params) × (e.grade_level ≡ x.grade_level)
unfolding prepare_edit
prepare_edit-unchanged t x request drawn e h u = elim (Option-cases x.template) [
  | inl n ↦ absurd (ground arith)
  | inr (name, n) ↦ elim (Bool-cases (legal_grade request.grade_level)) [
    | inr bad ↦ absurd (ground arith)
    | inl good ↦ elim (Response-cases (edit_params t x request.params drawn)) [
      | inl (code, p) ↦ absurd (ground arith)
      | inr (d, p) ↦
          let made : edit_of x request.grade_level d ≡ e = ground arith in
          let both =
            edit_of-unchanged x request.grade_level d
              (subst (λ (z : Edit). z.content_changed ≡ false) (sym made) u) in
          (
            ap (λ (z : Edit). z.params) (sym made) ∙ both.0,
            ap (λ (z : Edit). z.grade_level) (sym made) ∙ both.1,
          )
    ]
  ]
]

edit_updates-unchanged :
    (x c : Scene) (e : Edit)
    → e.content_changed ≡ false
    → e.params ≡ x.params
    → e.grade_level ≡ x.grade_level
    → reviewed x ≡ reviewed c
    → reviewed c ≡ reviewed (next_scene x.revision (edit_updates x e) false c)
unfolding edit_updates next_scene
edit_updates-unchanged x c e u p g a =
    let params : x.params ≡ c.params = ap (λ (z : Scene). z.params) a in
    let grade : x.grade_level ≡ c.grade_level = ap (λ (z : Scene). z.grade_level) a in
    let revision : x.revision ≡ c.revision = ap (λ (z : Scene). z.revision) a in
    rw (u, p, g, params, grade, revision) refl

-- An edit writes at most one scene, of the id that its request read.
pub edit_read-scenes :
    (t : Templates) (request : SceneEditRequest) (drawn : Option ℕ) (x : Scene) (s : Session)
    → ((edit_read t request drawn x s).1.scenes ≡ s.scenes)
      ⊎ ((y : Scene) × (y.scene_id ≡ x.scene_id)
          × ((edit_read t request drawn x s).1.scenes ≡ put y s.scenes))
unfolding edit_read
edit_read-scenes t request drawn x s = elim (Response-cases (prepare_edit t x request drawn)) [
  | inl (code, p) ↦ inl (rw (p, edit_read) refl)
  | inr (e, p) ↦
      elim (write_scene_cas-cases x.scene_id x.revision (edit_updates x e) e.content_changed s) [
        | inl (code, w) ↦ inl (rw (p, edit_read, w) refl)
        | inr (c, f, v, w) ↦ inr (
          next_scene x.revision (edit_updates x e) e.content_changed c,
          unfold next_scene edit_updates in find-id x.scene_id s.scenes c f,
          rw (p, edit_read, w) refl,
        )
      ]
]

pub edit_read-Evolves :
    (t : Templates) (request : SceneEditRequest) (drawn : Option ℕ) (x : Scene) (s : Session)
    → Coherent s.scenes x
    → Evolves s.scenes (edit_read t request drawn x s).1.scenes
unfolding edit_read
edit_read-Evolves t request drawn x s k = elim (Response-cases (prepare_edit t x request drawn)) [
  | inl (code, p) ↦ inl (rw (p, edit_read) refl)
  | inr (e, p) ↦
      rw (p, edit_read)
        (write_scene_cas-Evolves x.scene_id x.revision (edit_updates x e) e.content_changed s
          (edit_updates-id x e) (λ c f r u. quiet e p c f r u))
]
  where
    edit_updates-id :
        (y : Scene) (e : Edit) (c : Scene) → (edit_updates y e c).scene_id ≡ c.scene_id
    edit_updates-id y e c = unfold edit_updates in refl

    quiet :
        (e : Edit)
        → prepare_edit t x request drawn ≡ ok e
        → (c : Scene) → find x.scene_id s.scenes ≡ some c
        → c.revision ≡ x.revision
        → e.content_changed ≡ false
        → reviewed c ≡ reviewed (next_scene x.revision (edit_updates x e) e.content_changed c)
    quiet e p c f r u = elim (k c f) [
      | inl less ↦ absurd (omega arith)
      | inr same ↦
          let both = prepare_edit-unchanged t x request drawn e p u in
          subst (λ (b : Bool). reviewed c ≡ reviewed (next_scene x.revision (edit_updates x e) b c))
            (sym u) (edit_updates-unchanged x c e u both.0 both.1 same)
    ]
