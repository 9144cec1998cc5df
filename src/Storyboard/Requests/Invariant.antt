-- ===== src/Storyboard/Requests/Invariant.antt =====
-- What holds of every scene that a request of routes.py has read, after any interleaving of requests.
use si26_math_animation_john.Storyboard.Requests.Agreement.{
  Coherent, Tracked, Evolves, reviewed, Evolves-Coherent,
}
use si26_math_animation_john.Storyboard.Requests.Writes.{
  approve_read-Evolves, set_status_read-Evolves, acknowledge_read-Evolves, edit_read-Evolves,
  edit_read-scenes,
}
use si26_math_animation_john.Storyboard.Requests.Others.{
  claim_render_batch-scenes, resolve_cached_clip-scenes, publish_clip-Evolves, put_fresh-Coherent,
  ungroup_scene-Coherent, commit_chain-scenes,
}
use si26_math_animation_john.Storyboard.Requests.{
  Requests, Held, first, later, Step, reads, approves, sets_status, acknowledges, edits, claims,
  releases, reuses, publishes, chains, ungroups, retries, clears, adds, idle, Steps, here, next,
}
use si26_math_animation_john.Storyboard.Review.{edit_read, SceneEditRequest}
use si26_math_animation_john.Storyboard.Render.{release_render_batch}
use si26_math_animation_john.Storyboard.Build.{cleared, add_scene, replace_scene}
use si26_math_animation_john.Storyboard.Scenes.{has, Scene, Session, Templates, find, put, find-id}
use si26_math_animation_john.Base.{
  refl, ℕ, ◌≡◌, sym, Bool-cases, ap, ◌∙◌, subst, inl, inr, Bool, false, Option, some, List, [], ◌∷◌,
  ◌==◌, All, All-weaken, true, arith,
}

abbrev AllTracked : Requests → Type 0
AllTracked r = All (Tracked r.retried r.session.scenes) r.read

pub Held-All : (P : Scene → Type 0) {x : Scene} {xs : List Scene} → Held x xs → All P xs → P x
Held-All P first a = a.0
Held-All P (later h) a = Held-All P h a.1

evolve :
    (retried : List ℕ) (read scenes scenes' : List Scene)
    → Evolves scenes scenes'
    → All (Tracked retried scenes) read
    → All (Tracked retried scenes') read
evolve retried read scenes scenes' e a =
    All-weaken (Tracked retried scenes) (Tracked retried scenes') read
      (λ x k once. Evolves-Coherent scenes scenes' x e (k once)) a

added :
    (retried : List ℕ) (y : Scene) (scenes : List Scene) (read : List Scene)
    → All (λ (x : Scene). (x.scene_id == y.scene_id) ≡ false) read
    → All (Tracked retried scenes) read
    → All (Tracked retried (put y scenes)) read
added retried y scenes [] f a = tt
added retried y scenes (x ∷ xs) f a =
    ((λ once. put_fresh-Coherent y x scenes f.0 (a.0 once)), added retried y scenes xs f.1 a.1)

-- A write over a retried id keeps the agreement of every scene that was not retried.
replaced :
    (retried retried' : List ℕ) (i : ℕ) (y : Scene) (scenes : List Scene) (read : List Scene)
    → y.scene_id ≡ i
    → has retried' i ≡ true
    → ((j : ℕ) → has retried' j ≡ false → has retried j ≡ false)
    → All (Tracked retried scenes) read
    → All (Tracked retried' (put y scenes)) read
replaced retried retried' i y scenes read named gone more a =
    All-weaken (Tracked retried scenes) (Tracked retried' (put y scenes)) read
      (λ x k once. put_fresh-Coherent y x scenes (apart x once) (k (more x.scene_id once))) a
  where
    apart : (x : Scene) → has retried' x.scene_id ≡ false → (x.scene_id == y.scene_id) ≡ false
    apart x once = elim (Bool-cases (x.scene_id == y.scene_id)) [
      | inr other ↦ other
      | inl hit ↦
          let same : x.scene_id ≡ i = ground (arith, named) in
          cc (once, gone, ap (has retried') same)
    ]

-- An edit by a request whose scene was retried.
edited :
    (t : Templates) (request : SceneEditRequest) (drawn : Option ℕ) (x : Scene) (r : Requests)
    → has r.retried x.scene_id ≡ true
    → AllTracked r
    → All (Tracked r.retried (edit_read t request drawn x r.session).1.scenes) r.read
edited t request drawn x r gone a = elim (edit_read-scenes t request drawn x r.session) [
  | inl e ↦ evolve r.retried r.read r.session.scenes _ (inl e) a
  | inr (y, named, e) ↦
      subst (λ (z : List Scene). All (Tracked r.retried z) r.read) (sym e)
        (replaced r.retried r.retried x.scene_id y r.session.scenes r.read named gone (λ j h. h) a)
]

nothing_stored : (retried : List ℕ) (read : List Scene) → All (Tracked retried []) read
unfolding find
nothing_stored retried [] = tt
nothing_stored retried (x ∷ xs) = ((λ once c e. cc), nothing_stored retried xs)

just_read : (x : Scene) (i : ℕ) (scenes : List Scene) → find i scenes ≡ some x → Coherent scenes x
unfolding find
just_read x i scenes e c f =
    let named = find-id i scenes x e in
    let same : x ≡ c = some_inj (sym e ∙ ap (λ (j : ℕ). find j scenes) (sym named) ∙ f) in
    inr (ap reviewed same)
  where
    some_inj : {a b : Scene} → some a ≡ some b → a ≡ b
    some_inj p = cc

Step-AllTracked :
    (t : Templates) (same : Scene → Scene → Bool) {q r : Requests}
    → Step t same q r
    → AllTracked q
    → AllTracked r
unfolding cleared add_scene release_render_batch replace_scene
Step-AllTracked t same (reads r i x e) a = ((λ once. just_read x i r.session.scenes e), a)
Step-AllTracked t same (approves r x h) a =
    evolve r.retried r.read r.session.scenes _ (approve_read-Evolves t x r.session) a
Step-AllTracked t same (sets_status r status x h) a =
    evolve r.retried r.read r.session.scenes _ (set_status_read-Evolves status x r.session) a
Step-AllTracked t same (acknowledges r x h) a =
    evolve r.retried r.read r.session.scenes _ (acknowledge_read-Evolves t x r.session) a
Step-AllTracked t same (edits r x request drawn h) a =
    elim (Bool-cases (has r.retried x.scene_id)) [
      | inl gone ↦ edited t request drawn x r gone a
      | inr once ↦
          evolve r.retried r.read r.session.scenes _
            (edit_read-Evolves t request drawn x r.session
              (Held-All (Tracked r.retried r.session.scenes) h a once))
            a
    ]
Step-AllTracked t same (retries r x fresh h) a =
    replaced r.retried (x.scene_id ∷ r.retried) x.scene_id
      (record fresh { scene_id = x.scene_id; grade_overridden = x.grade_overridden })
      r.session.scenes r.read refl (ground arith) (λ j f. ground arith) a
Step-AllTracked t same (claims r m) a =
    evolve r.retried r.read r.session.scenes _ (inl (claim_render_batch-scenes m r.session)) a
Step-AllTracked t same (releases r batch) a = a
Step-AllTracked t same (reuses r w x hash) a =
    evolve r.retried r.read r.session.scenes _ (inl (resolve_cached_clip-scenes w x hash r.session))
      a
Step-AllTracked t same (publishes r w x hash) a =
    evolve r.retried r.read r.session.scenes _ (publish_clip-Evolves w x hash r.session) a
Step-AllTracked t same (chains r read made f) a =
    elim (commit_chain-scenes t same read made r.session) [
      | inl e ↦ evolve r.retried r.read r.session.scenes _ (inl e) a
      | inr e ↦
          subst (λ (z : List Scene). All (Tracked r.retried z) r.read) (sym e)
            (added r.retried made r.session.scenes r.read f.1 a)
    ]
Step-AllTracked t same (ungroups r i) a =
    All-weaken (Tracked r.retried r.session.scenes) _ r.read
      (λ x k once. ungroup_scene-Coherent i r.session x (k once)) a
Step-AllTracked t same (clears r) a = nothing_stored r.retried r.read
Step-AllTracked t same (adds r x template f) a = added r.retried x r.session.scenes r.read f.1 a

-- After any interleaving of requests that starts with no scene read, a scene that was read and that no
-- retry has replaced, and the stored scene of its id, either differ in revision, the stored one's being greater, or agree in all
-- that is reviewed.
pub Steps-Coherent :
    (t : Templates) (same : Scene → Scene → Bool) (s : Session) {r : Requests}
    → Steps t same (idle s) r
    → All (Tracked r.retried r.session.scenes) r.read
Steps-Coherent t same s here = tt
Steps-Coherent t same s (next r st) = Step-AllTracked t same st (Steps-Coherent t same s r)
