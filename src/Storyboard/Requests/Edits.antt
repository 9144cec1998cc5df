-- ===== src/Storyboard/Requests/Edits.antt =====
-- What an edit of routes.py does to a standing approval, after any interleaving of requests.
use si26_math_animation_john.Storyboard.Requests.Agreement.{
  reviewed, write_scene_cas-cases, Tracked,
}
use si26_math_animation_john.Storyboard.Requests.Invariant.{Steps-Coherent, Held-All}
use si26_math_animation_john.Storyboard.Requests.{Requests, Held, Steps, idle}
use si26_math_animation_john.Storyboard.Review.{
  edit_read, SceneEditRequest, Edit, prepare_edit, edit_of, edit_params, edit_updates, legal_grade,
  decided,
}
use si26_math_animation_john.Storyboard.Render.{is_render_ready}
use si26_math_animation_john.Storyboard.Scenes.{
  Response-cases, Status, approved, rejected, pending_review, fallback, is_approved, Scene, Session,
  ok, Templates, find, next_scene, has,
}
use si26_math_animation_john.Base.Int.{ℤ}
use si26_math_animation_john.Base.{
  ℕ, ◌≡◌, refl, sym, ap, ◌∙◌, subst, inl, inr, Bool, false, ◌&&◌, ◌||◌, not, Option, some, arith,
  ◌==◌, if◌then◌else◌, Bool-cases, Option-cases,
}

abbrev differs : Scene → ℕ → ℕ → Bool
differs x params grade = not (params == x.params) || not (grade == x.grade_level)

edit_of-differs :
    (x : Scene) (grade : Option ℤ) (d : ℕ × Option ℕ)
    → (edit_of x grade d).content_changed
      ≡ differs x (edit_of x grade d).params (edit_of x grade d).grade_level
unfolding edit_of
edit_of-differs x grade (params, thumbnail) = refl

prepare_edit-differs :
    (t : Templates) (x : Scene) (request : SceneEditRequest) (drawn : Option ℕ) (e : Edit)
    → prepare_edit t x request drawn ≡ ok e
    → e.content_changed ≡ differs x e.params e.grade_level
unfolding prepare_edit
prepare_edit-differs t x request drawn e h = elim (Option-cases x.template) [
  | inl n ↦ absurd (ground arith)
  | inr (name, n) ↦ elim (Bool-cases (legal_grade request.grade_level)) [
    | inr bad ↦ absurd (ground arith)
    | inl good ↦ elim (Response-cases (edit_params t x request.params drawn)) [
      | inl (code, p) ↦ absurd (ground arith)
      | inr (d, p) ↦
          let made : edit_of x request.grade_level d ≡ e = ground arith in
          subst (λ (z : Edit). z.content_changed ≡ differs x z.params z.grade_level) made
            (edit_of-differs x request.grade_level d)
    ]
  ]
]

not_ready : (s : Status) → is_approved (if decided s then pending_review else s) ≡ false
not_ready pending_review = refl
not_ready approved = refl
not_ready rejected = refl
not_ready fallback = refl

-- The readiness of an edited scene, where what was read is what is stored.
edited-ready :
    (x c : Scene) (e : Edit)
    → reviewed x ≡ reviewed c
    → is_render_ready (next_scene x.revision (edit_updates x e) e.content_changed c)
      ≡ (not e.content_changed && is_render_ready x)
unfolding is_render_ready next_scene edit_updates
edited-ready x c e a =
    let status : c.status ≡ x.status = ap (λ (z : Scene). z.status) (sym a) in
    let pinned : c.approved_revision ≡ x.approved_revision =
      ap (λ (z : Scene). z.approved_revision) (sym a) in
    elim (Bool-cases e.content_changed) [
      | inl changed ↦ ground (arith, not_ready x.status)
      | inr kept ↦ ground arith
    ]

-- After any interleaving of requests, retries of other scenes among them, an edit that is written of a
-- scene that no retry has replaced leaves it ready to render exactly where the scene that it had read was
-- ready and neither the parameters nor the grade changed.
pub edit_read-ready :
    (t : Templates) (same : Scene → Scene → Bool) (s : Session) (r : Requests)
    (request : SceneEditRequest) (drawn : Option ℕ) (x y : Scene) (after : Session)
    → Steps t same (idle s) r
    → Held x r.read
    → has r.retried x.scene_id ≡ false
    → edit_read t request drawn x r.session ≡ (ok y, after)
    → is_render_ready y ≡ (
        not (not (y.params == x.params) || not (y.grade_level == x.grade_level))
        && is_render_ready x)
unfolding edit_read
edit_read-ready t same s r request drawn x y after steps h once w =
    elim (Response-cases (prepare_edit t x request drawn)) [
      | inl (code, p) ↦ absurd (ground arith)
      | inr (e, p) ↦
          elim (write_scene_cas-cases x.scene_id x.revision (edit_updates x e) e.content_changed
            r.session) [
              | inl (code, f) ↦ absurd (ground arith)
              | inr (current, f, v, c) ↦
                  let made : next_scene x.revision (edit_updates x e) e.content_changed current
                      ≡ y =
                    ground arith in
                  finish e current f v made (prepare_edit-differs t x request drawn e p)
            ]
    ]
  where
    finish :
        (e : Edit) (current : Scene)
        → find x.scene_id r.session.scenes ≡ some current
        → current.revision ≡ x.revision
        → next_scene x.revision (edit_updates x e) e.content_changed current ≡ y
        → e.content_changed ≡ differs x e.params e.grade_level
        → is_render_ready y ≡ (
            not (not (y.params == x.params) || not (y.grade_level == x.grade_level))
            && is_render_ready x)
    finish e current f v made d =
        elim (Held-All (Tracked r.retried r.session.scenes) h (Steps-Coherent t same s steps) once
          current f) [
            | inl less ↦ absurd (omega arith)
            | inr agree ↦
                let params : e.params ≡ y.params = written_params e current made in
                let grade : e.grade_level ≡ y.grade_level = written_grade e current made in
                ap is_render_ready (sym made)
                ∙ edited-ready x current e agree
                ∙ ap (λ (b : Bool). not b && is_render_ready x) d
                ∙ ap
                    (λ (q : ℕ).
                      not (not (q == x.params) || not (e.grade_level == x.grade_level))
                      && is_render_ready x)
                    params
                ∙ ap
                    (λ (g : ℕ).
                      not (not (y.params == x.params) || not (g == x.grade_level))
                      && is_render_ready x)
                    grade
          ]
      where
        written_params :
            (e' : Edit) (c : Scene)
            → next_scene x.revision (edit_updates x e') e'.content_changed c ≡ y
            → e'.params ≡ y.params
        written_params e' c m = unfold next_scene edit_updates in ap (λ (z : Scene). z.params) m

        written_grade :
            (e' : Edit) (c : Scene)
            → next_scene x.revision (edit_updates x e') e'.content_changed c ≡ y
            → e'.grade_level ≡ y.grade_level
        written_grade e' c m = unfold next_scene edit_updates in ap (λ (z : Scene). z.grade_level) m
