-- ===== src/Storyboard/Requests/Agreement.antt =====
-- What the revision of a scene in routes.py promises: a scene that some request has read, and whose
-- revision is still the stored one, is still the stored scene in all that a reviewer decides on.
use si26_math_animation_john.Storyboard.Scenes.{
  Scene, Session, ok, http, find, put, find-put, find-id, write_scene_cas, next_scene, has,
}
use si26_math_animation_john.Base.{
  ℕ, ◌<◌, ◌≡◌, refl, sym, ap, ◌∙◌, subst, ◌⊎◌, inl, inr, Bool, true, false, none, some, List, arith,
  ◌==◌, Bool-cases, Option-cases,
}

-- The scene without what a write may change at the same revision: the two paths, the hash of the
-- rendered inputs, and whether the grade was set by hand.
abbrev pub reviewed : Scene → Scene
reviewed x = record x {
  grade_overridden = false;
  thumbnail_path = none;
  render_path = none;
  rendered_params_hash = none;
}

abbrev pub Agrees : Scene → Scene → Type 0
Agrees x current = (x.revision < current.revision) ⊎ (reviewed x ≡ reviewed current)

abbrev pub Coherent : List Scene → Scene → Type 0
Coherent scenes x = (current : Scene) → find x.scene_id scenes ≡ some current → Agrees x current

-- The same of a scene that no retry has replaced.
abbrev pub Tracked : List ℕ → List Scene → Scene → Type 0
Tracked retried scenes x = has retried x.scene_id ≡ false → Coherent scenes x

-- One write: nothing, or a scene over the stored one of its id.
abbrev pub Evolves : List Scene → List Scene → Type 0
Evolves scenes scenes' =
    (scenes' ≡ scenes)
    ⊎ ((y : Scene) × (current : Scene) × (find y.scene_id scenes ≡ some current)
        × Agrees current y
        × (scenes' ≡ put y scenes))

reviewed-revision : (x y : Scene) → reviewed x ≡ reviewed y → x.revision ≡ y.revision
reviewed-revision x y e = ap (λ (z : Scene). z.revision) e

pub Agrees-trans : (x y z : Scene) → Agrees x y → Agrees y z → Agrees x z
Agrees-trans x y z (inl a) (inl b) = inl (omega arith)
Agrees-trans x y z (inl a) (inr b) = inl (omega (arith, reviewed-revision y z b))
Agrees-trans x y z (inr a) (inl b) = inl (omega (arith, reviewed-revision x y a))
Agrees-trans x y z (inr a) (inr b) = inr (a ∙ b)

put-Coherent :
    (y current : Scene) (scenes : List Scene) (x : Scene)
    → find y.scene_id scenes ≡ some current
    → Agrees current y
    → Coherent scenes x
    → Coherent (put y scenes) x
put-Coherent y current scenes x e a k c h = elim (Bool-cases (y.scene_id == x.scene_id)) [
  | inl hit ↦
      let same : y.scene_id ≡ x.scene_id = ground arith in
      let stored : y ≡ c = ground (arith, find-put y x.scene_id scenes) in
      subst (λ (z : Scene). Agrees x z) stored
        (Agrees-trans x current y (k current (rw (← same) e)) a)
  | inr miss ↦ k c (ground (arith, find-put y x.scene_id scenes))
]

pub Evolves-Coherent :
    (scenes scenes' : List Scene) (x : Scene)
    → Evolves scenes scenes'
    → Coherent scenes x
    → Coherent scenes' x
Evolves-Coherent scenes scenes' x (inl e) k = subst (λ (z : List Scene). Coherent z x) (sym e) k
Evolves-Coherent scenes scenes' x (inr (y, current, e, a, f)) k =
    subst (λ (z : List Scene). Coherent z x) (sym f) (put-Coherent y current scenes x e a k)

-- A write is refused and changes nothing, or it found the scene at its base revision.
pub write_scene_cas-cases :
    (i base : ℕ) (updates : Scene → Scene) (bump : Bool) (s : Session)
    → ((code : ℕ) × (write_scene_cas i base updates bump s ≡ (http code, s)))
      ⊎ ((current : Scene) × (find i s.scenes ≡ some current)
          × (current.revision ≡ base)
          × (write_scene_cas i base updates bump s ≡ (
            ok (next_scene base updates bump current),
            record s { scenes = put (next_scene base updates bump current) s.scenes },
          )))
unfolding write_scene_cas
write_scene_cas-cases i base updates bump s = elim (Option-cases (find i s.scenes)) [
  | inl e ↦ inl (404, rw (e, write_scene_cas) refl)
  | inr (current, e) ↦ elim (Bool-cases (has s.scene_order i)) [
    | inr gone ↦ inl (404, rw (e, write_scene_cas, gone) refl)
    | inl active ↦ elim (Bool-cases (current.revision == base)) [
      | inr moved ↦ inl (409, rw (e, write_scene_cas, active, moved) refl)
      | inl hit ↦ inr (current, e, ground arith, rw (e, write_scene_cas, active, hit) refl)
    ]
  ]
]

-- What a write needs of its updates: the id stays, and at the same revision what was reviewed stays.
pub write_scene_cas-Evolves :
    (i base : ℕ) (updates : Scene → Scene) (bump : Bool) (s : Session)
    → ((current : Scene) → (updates current).scene_id ≡ current.scene_id)
    → ((current : Scene)
        → find i s.scenes ≡ some current
        → current.revision ≡ base
        → bump ≡ false
        → reviewed current ≡ reviewed (next_scene base updates bump current))
    → Evolves s.scenes (write_scene_cas i base updates bump s).1.scenes
unfolding next_scene
write_scene_cas-Evolves i base updates bump s keeps same =
    elim (write_scene_cas-cases i base updates bump s) [
      | inl (code, e) ↦ inl (rw e refl)
      | inr (current, f, r, e) ↦
          let named = next_scene-id current f in
          inr (
            next_scene base updates bump current,
            current,
            rw named f,
            agrees bump current refl f r,
            rw e refl,
          )
    ]
  where
    next_scene-id :
        (current : Scene)
        → find i s.scenes ≡ some current
        → (next_scene base updates bump current).scene_id ≡ i
    next_scene-id current f = keeps current ∙ find-id i s.scenes current f

    agrees :
        (b : Bool) (current : Scene)
        → bump ≡ b
        → find i s.scenes ≡ some current
        → current.revision ≡ base
        → Agrees current (next_scene base updates bump current)
    agrees true current e f r = inl (rw e (omega arith))
    agrees false current e f r = inr (same current f r e)
