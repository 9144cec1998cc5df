-- ===== src/Storyboard/Requests/Reach.antt =====
-- What holds of an approval and of a published clip of routes.py after any interleaving of requests.
use si26_math_animation_john.Storyboard.Requests.Invariant.{Held-All, Steps-Coherent}
use si26_math_animation_john.Storyboard.Requests.Agreement.{
  Tracked, reviewed, write_scene_cas-cases,
}
use si26_math_animation_john.Storyboard.Requests.Others.{publish_clip-cases}
use si26_math_animation_john.Storyboard.Requests.{Requests, Held, idle, Steps}
use si26_math_animation_john.Storyboard.Review.{approve_read, approval}
use si26_math_animation_john.Storyboard.Render.{
  is_render_ready, Surroundings, publish_clip, published,
}
use si26_math_animation_john.Storyboard.Scenes.{
  has, approved, ok, has_open_mismatch, Scene, Session, Templates, find, put, find-id, next_scene,
  find-put,
}
use si26_math_animation_john.Base.{
  refl, ℕ, ◌≡◌, sym, ◌+◌, Bool-cases, ap, ◌∙◌, inl, inr, Bool, false, some, ◌==◌, true, arith,
  and→both,
}

-- After any interleaving of requests, retries of other scenes among them, an approval that is written of
-- a scene that no retry has replaced returns exactly the scene that its request read and checked, with
-- no open mismatch, in all that is reviewed; only the approval itself and the revision are new, and the
-- scene is then ready to render.
pub approve_read-reviewed :
    (t : Templates) (same : Scene → Scene → Bool) (s : Session) (r : Requests) (x y : Scene)
    (after : Session)
    → Steps t same (idle s) r
    → Held x r.read
    → has r.retried x.scene_id ≡ false
    → approve_read t x r.session ≡ (ok y, after)
    → (reviewed y ≡ record (reviewed x) {
      status = approved;
      revision = x.revision + 1;
      approved_revision = some (x.revision + 1);
    })
      × (has_open_mismatch t x ≡ false)
      × (is_render_ready y ≡ true)
unfolding approve_read next_scene is_render_ready
approve_read-reviewed t same s r x y after steps h once e =
    elim (Bool-cases (has_open_mismatch t x)) [
      | inl open_mismatch ↦ absurd (ground arith)
      | inr clear ↦
          elim (write_scene_cas-cases x.scene_id x.revision (approval x.revision) true r.session) [
            | inl (code, f) ↦ absurd (ground arith)
            | inr (current, f, v, w) ↦
                let made : next_scene x.revision (approval x.revision) true current ≡ y =
                  ground arith in
                let known =
                  Held-All (Tracked r.retried r.session.scenes) h (Steps-Coherent t same s steps)
                    once in
                elim (known current f) [
                  | inl less ↦ absurd (omega arith)
                  | inr agree ↦ (
                    ap reviewed (sym made)
                        ∙ ap
                            (λ (z : Scene). record z {
                              status = approved;
                              revision = x.revision + 1;
                              approved_revision = some (x.revision + 1);
                            })
                            (sym agree),
                    clear,
                    ground arith,
                  )
                ]
          ]
    ]

-- After any interleaving of requests, retries of other scenes among them, a clip that a render publishes
-- of a scene that no retry has replaced is of the stored scene: it was still approved at its own revision, and equals the scene that the render had read in all that is
-- reviewed, its template and parameters included; it now carries the hash of the rendered inputs.
pub publish_clip-reviewed :
    (t : Templates) (same : Scene → Scene → Bool) (s : Session) (r : Requests) (w : Surroundings)
    (x : Scene) (hash clip : ℕ) (after : Session)
    → Steps t same (idle s) r
    → Held x r.read
    → has r.retried x.scene_id ≡ false
    → publish_clip w x hash r.session ≡ (some clip, after)
    → (y : Scene) × (find x.scene_id after.scenes ≡ some y)
      × (reviewed y ≡ reviewed x)
      × (is_render_ready y ≡ true)
      × (y.render_path ≡ some w.output_path)
      × (y.rendered_params_hash ≡ some hash)
unfolding is_render_ready
publish_clip-reviewed t same s r w x hash clip after steps h once e =
    elim (publish_clip-cases w x hash r.session) [
      | inl f ↦ absurd (ground arith)
      | inr (current, c, f, fresh, p) ↦
          let known =
            Held-All (Tracked r.retried r.session.scenes) h (Steps-Coherent t same s steps) once in
          let ready = and→both (is_render_ready current) (current.revision == x.revision) fresh in
          elim (known current f) [
            | inl less ↦ absurd (ground (arith, ready.1))
            | inr agree ↦ (
              published w.output_path hash current,
              stored current f (ground arith),
              sym agree,
              ready.0,
              refl,
              refl,
            )
          ]
    ]
  where
    stored :
        (current : Scene)
        → find x.scene_id r.session.scenes ≡ some current
        → after.scenes ≡ put (published w.output_path hash current) r.session.scenes
        → find x.scene_id after.scenes ≡ some (published w.output_path hash current)
    stored current f q =
        let named = find-id x.scene_id r.session.scenes current f in
        ap (find x.scene_id) q
        ∙ find-put (published w.output_path hash current) x.scene_id r.session.scenes
        ∙ ground arith
