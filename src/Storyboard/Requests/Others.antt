-- ===== src/Storyboard/Requests/Others.antt =====
-- The steps of routes.py that write no scene under review, or add and delete whole scenes: rendering,
-- chaining, ungrouping and a new storyboard.
use si26_math_animation_john.Storyboard.Requests.Agreement.{Coherent, Evolves}
use si26_math_animation_john.Storyboard.Render.{
  claim_render_batch, resolve_cached_clip, publish_clip, Surroundings, published, reuse_clip,
  is_current, ready_scenes, require_valid_render_batch, with_clip,
}
use si26_math_animation_john.Storyboard.Chain.{
  commit_chain, ungroup_scene, delete, members_of, unchanged,
}
use si26_math_animation_john.Storyboard.Scenes.{
  Scene, Session, Response, ok, http, Templates, find, put, find-put, find-id, has,
}
use si26_math_animation_john.Base.{
  sym, refl, subst, ℕ, ◌≡◌, refl, ◌⊎◌, inl, inr, Bool, true, false, none, some, List, [], ◌∷◌, ◌++◌,
  map, arith, ◌==◌, Bool-cases, Option-cases, all,
}

pub claim_render_batch-scenes : (m : ℕ) (s : Session) → (claim_render_batch m s).1.scenes ≡ s.scenes
unfolding claim_render_batch
claim_render_batch-scenes m s = by_batch (ready_scenes s.scene_order s.scenes)
  where
    by_batch :
        (o : Response (List Scene))
        → (elim o as (λ z. Response (List Scene) × Session) [
          | http code ↦ (http code, s)
          | ok batch ↦
              elim (require_valid_render_batch m s batch)
                as (λ z. Response (List Scene) × Session) [
                  | some code ↦ (http code, s)
                  | none ↦ (
                    ok batch,
                    record s {
                      rendering_scene_ids =
                          map (λ (x : Scene). x.scene_id) batch ++ s.rendering_scene_ids;
                    },
                  )
                ]
        ]).1.scenes
          ≡ s.scenes
    by_batch o = ground arith

pub reuse_clip-scenes :
    (w : Surroundings) (i : ℕ) (s : Session) → (reuse_clip w i s).1.scenes ≡ s.scenes
unfolding reuse_clip
reuse_clip-scenes w i s = ground arith

pub resolve_cached_clip-scenes :
    (w : Surroundings) (x : Scene) (hash : ℕ) (s : Session)
    → (resolve_cached_clip w x hash s).1.scenes ≡ s.scenes
unfolding resolve_cached_clip
resolve_cached_clip-scenes w x hash s = ground (arith, reuse_clip-scenes w x.scene_id s)

-- A publication that returns a clip found the scene ready at the revision that was rendered, and wrote
-- the clip's path and hash over it; any other changes nothing.
pub publish_clip-cases :
    (w : Surroundings) (x : Scene) (hash : ℕ) (s : Session)
    → (publish_clip w x hash s ≡ (none, s))
      ⊎ ((current : Scene) × (clip : ℕ) × (find x.scene_id s.scenes ≡ some current)
          × (is_current x current ≡ true)
          × (publish_clip w x hash s ≡ (
            some clip,
            with_clip x.scene_id clip
                (record s { scenes = put (published w.output_path hash current) s.scenes }),
          )))
unfolding publish_clip
publish_clip-cases w x hash s = elim (Option-cases (find x.scene_id s.scenes)) [
  | inl e ↦ inl (rw (e, publish_clip) refl)
  | inr (current, e) ↦ elim (Bool-cases (is_current x current)) [
    | inr stale ↦ inl (rw (e, publish_clip, stale) refl)
    | inl fresh ↦ elim (Option-cases w.registered) [
      | inl lost ↦ inl (rw (e, publish_clip, fresh, lost) refl)
      | inr (clip, r) ↦ inr (current, clip, e, fresh, rw (e, publish_clip, fresh, r) refl)
    ]
  ]
]

pub publish_clip-Evolves :
    (w : Surroundings) (x : Scene) (hash : ℕ) (s : Session)
    → Evolves s.scenes (publish_clip w x hash s).1.scenes
publish_clip-Evolves w x hash s = elim (publish_clip-cases w x hash s) [
  | inl e ↦ inl (rw e refl)
  | inr (current, clip, e, fresh, p) ↦
      let named : current.scene_id ≡ x.scene_id = find-id x.scene_id s.scenes current e in
      let there : find current.scene_id s.scenes ≡ some current =
        subst (λ (j : ℕ). find j s.scenes ≡ some current) (sym named) e in
      inr (published w.output_path hash current, current, there, inr refl, rw p refl)
]

-- A scene that was read keeps its agreement where a scene of another id is added.
pub put_fresh-Coherent :
    (y x : Scene) (scenes : List Scene)
    → (x.scene_id == y.scene_id) ≡ false
    → Coherent scenes x
    → Coherent (put y scenes) x
put_fresh-Coherent y x scenes fresh k c e = k c (ground (arith, find-put y x.scene_id scenes))

find-delete :
    (i j : ℕ) (scenes : List Scene) (c : Scene)
    → find i (delete j scenes) ≡ some c
    → find i scenes ≡ some c
unfolding find delete
find-delete i j [] c e = ground arith
find-delete i j (y ∷ ys) c e = elim (Bool-cases (y.scene_id == j)) [
  | inl gone ↦ elim (Bool-cases (y.scene_id == i)) [
    | inl hit ↦ absurd (deleted ys (ground arith))
    | inr miss ↦ rw miss (find-delete i j ys c (ground arith))
  ]
  | inr kept ↦ ground (arith, find-delete i j ys c)
]
  where
    deleted : (zs : List Scene) → find i (delete i zs) ≡ some c → ⊥
    deleted [] h = cc
    deleted (z ∷ zs) h = ground (arith, deleted zs)

pub ungroup_scene-scenes :
    (i : ℕ) (s : Session)
    → ((ungroup_scene i s).1.scenes ≡ s.scenes) ⊎ ((ungroup_scene i s).1.scenes ≡ delete i s.scenes)
unfolding ungroup_scene
ungroup_scene-scenes i s = elim (Option-cases (members_of i s.scene_chain_members)) [
  | inl e ↦ inl (rw (e, ungroup_scene) refl)
  | inr (members, e) ↦ elim (Bool-cases (has s.scene_order i)) [
    | inl active ↦ inr (rw (e, ungroup_scene, active) refl)
    | inr gone ↦ inl (rw (e, ungroup_scene, gone) refl)
  ]
]

pub ungroup_scene-Coherent :
    (i : ℕ) (s : Session) (x : Scene)
    → Coherent s.scenes x
    → Coherent (ungroup_scene i s).1.scenes x
ungroup_scene-Coherent i s x k c e = elim (ungroup_scene-scenes i s) [
  | inl same ↦ k c (rw (← same) e)
  | inr less ↦ k c (find-delete x.scene_id i s.scenes c (rw (← less) e))
]

pub commit_chain-scenes :
    (t : Templates) (same : Scene → Scene → Bool) (read : List Scene) (made : Scene) (s : Session)
    → ((commit_chain t same read made s).1.scenes ≡ s.scenes)
      ⊎ ((commit_chain t same read made s).1.scenes ≡ put made s.scenes)
unfolding commit_chain
commit_chain-scenes t same read made s =
    elim (Bool-cases (all (unchanged t same made.template s) read)) [
      | inl e ↦ inr (rw (e, commit_chain) refl)
      | inr e ↦ inl (rw (e, commit_chain) refl)
    ]
