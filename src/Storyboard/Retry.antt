-- ===== src/Storyboard/Retry.antt =====
-- `retry_scene` of routes.py beside an approval that read the scene before it. The fresh scene of
-- `assemble_scene` starts again at revision 0, which the comparison of revisions cannot tell from the
-- revision 0 of the scene that was read.
use si26_math_animation_john.Storyboard.Build.{retry_scene, replace_scene, requested_template}
use si26_math_animation_john.Storyboard.Review.{approve_read}
use si26_math_animation_john.Storyboard.Render.{is_render_ready}
use si26_math_animation_john.Storyboard.Scenes.{
  Response-cases, approved, Scene, Session, ok, Templates, find, put, find-put, find-id,
  lookup_active_scene, lookup_candidate, write_scene_cas, next_scene, has, has_open_mismatch,
}
use si26_math_animation_john.Base.{
  ℕ, ◌+◌, ◌≡◌, refl, sym, ap, ◌∙◌, subst, inl, inr, true, false, some, List, arith, ◌==◌,
  Bool-cases, Option-cases,
}

lookup_active_scene-ok :
    (i : ℕ) (s : Session) (x : Scene)
    → lookup_active_scene i s ≡ ok x
    → (find i s.scenes ≡ some x) × (has s.scene_order i ≡ true)
unfolding lookup_active_scene
lookup_active_scene-ok i s x e = elim (Option-cases (find i s.scenes)) [
  | inl f ↦ absurd (ground arith)
  | inr (y, f) ↦ elim (Bool-cases (has s.scene_order i)) [
    | inr gone ↦ absurd (ground arith)
    | inl active ↦ (f ∙ ground arith, active)
  ]
]

-- What a retry of a scene makes of an assembled one.
abbrev pub retaken : Scene → Scene → Scene
retaken scene fresh = record fresh {
  scene_id = scene.scene_id;
  grade_overridden = scene.grade_overridden;
}

-- A retry that succeeds stores the scene that it assembled under the id, which stays in the order.
record IsRetried (assemble : ℕ → ℕ → ℕ → Scene) (i : ℕ) (s after : Session) (z : Scene)
    : Type 0 where
  scene : Scene
  candidate : ℕ
  template : ℕ
  found : find i s.scenes ≡ some scene
  made : z ≡ retaken scene (assemble candidate template scene.grade_level)
  stored : find i after.scenes ≡ some z
  active : has after.scene_order i ≡ true

retry_scene-IsRetried :
    (assemble : ℕ → ℕ → ℕ → Scene) (i : ℕ) (s after : Session) (z : Scene)
    → retry_scene assemble i s ≡ (ok z, after)
    → IsRetried assemble i s after z
unfolding retry_scene replace_scene
retry_scene-IsRetried assemble i s after z e = elim (Response-cases (lookup_active_scene i s)) [
  | inl (code, f) ↦ absurd (ground arith)
  | inr (x, f) ↦ elim (Response-cases (lookup_candidate x s)) [
    | inl (code, g) ↦ absurd (ground arith)
    | inr (candidate, g) ↦ elim (Option-cases candidate) [
      | inl h ↦ absurd (ground arith)
      | inr (c, h) ↦ elim (Option-cases (requested_template i s.scene_requested_template)) [
        | inl k ↦ absurd (ground arith)
        | inr (template, k) ↦
            let active = lookup_active_scene-ok i s x f in
            let named : x.scene_id ≡ i = find-id i s.scenes x active.0 in
            let made : retaken x (assemble c template x.grade_level) ≡ z = ground arith in
            let scenes : after.scenes ≡ put z s.scenes = ground arith in
            let order : after.scene_order ≡ s.scene_order = ground arith in
            let kept : z.scene_id ≡ i = ap (λ (y : Scene). y.scene_id) (sym made) ∙ named in
            record {
              scene = x;
              candidate = c;
              template = template;
              found = active.0;
              made = sym made;
              stored = ap (find i) scenes ∙ find-put z i s.scenes ∙ ground arith;
              active = ap (λ (o : List ℕ). has o i) order ∙ active.1;
            }
      ]
    ]
  ]
]

-- Where `assemble_scene` makes scenes of revision 0, a retry stores one over the scene that an approval
-- has read at revision 0, and so at revision 0 again. The approval, whose check of the earlier scene
-- found no open mismatch, is then written over the fresh scene, which becomes ready to render with the
-- assembled content.
pub retry_scene-approve_read :
    (t : Templates) (assemble : ℕ → ℕ → ℕ → Scene) (i : ℕ) (s after : Session) (x z : Scene)
    → ((c template grade : ℕ) → (assemble c template grade).revision ≡ 0)
    → find i s.scenes ≡ some x
    → x.revision ≡ 0
    → has_open_mismatch t x ≡ false
    → retry_scene assemble i s ≡ (ok z, after)
    → (c : ℕ) × (template : ℕ) × (y : Scene) × (z ≡ retaken x (assemble c template x.grade_level))
      × (z.revision ≡ x.revision)
      × ((approve_read t x after).0 ≡ ok y)
      × (y ≡ record z { status = approved; revision = 1; approved_revision = some 1 })
      × (is_render_ready y ≡ true)
unfolding approve_read write_scene_cas next_scene is_render_ready
retry_scene-approve_read t assemble i s after x z begins read level clear e =
    let r = retry_scene-IsRetried assemble i s after z e in
    let named : x.scene_id ≡ i = find-id i s.scenes x read in
    let same : r.scene ≡ x = some_inj (sym r.found ∙ read) in
    let made : z ≡ retaken x (assemble r.candidate r.template x.grade_level) =
      subst (λ (y : Scene). z ≡ retaken y (assemble r.candidate r.template y.grade_level)) same
        r.made in
    let reset : z.revision ≡ 0 =
      ap (λ (y : Scene). y.revision) made ∙ begins r.candidate r.template x.grade_level in
    let at : (z.revision == x.revision) ≡ true = ground arith in
    let found : find x.scene_id after.scenes ≡ some z =
      ap (λ (j : ℕ). find j after.scenes) named ∙ r.stored in
    let active : has after.scene_order x.scene_id ≡ true =
      ap (λ (j : ℕ). has after.scene_order j) named ∙ r.active in
    (
      r.candidate,
      r.template,
      record z { status = approved; revision = 1; approved_revision = some 1 },
      made,
      reset ∙ sym level,
      rw (clear, write_scene_cas, found, active, at)
          (ap
            (λ (n : ℕ).
              ok (record z {
                status = approved;
                revision = n + 1;
                approved_revision = some (n + 1);
              }))
            level),
      refl,
      refl,
    )
  where
    some_inj : {a b : Scene} → some a ≡ some b → a ≡ b
    some_inj p = cc
