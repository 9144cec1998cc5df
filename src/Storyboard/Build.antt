-- ===== src/Storyboard/Build.antt =====
-- `build_storyboard` and `retry_scene` of routes.py, which write the session's scenes without its lock.
-- `assemble_scene` calls a language model and the renderer: its result is an argument.
use si26_math_animation_john.Storyboard.Scenes.{
  Scene, Session, RequestedTemplate, Response, ok, http, ◌>>=◌, put, has, lookup_active_scene,
  lookup_candidate,
}
use si26_math_animation_john.Storyboard.Chain.Order.{all_distinct}
use si26_math_animation_john.Base.{
  ℕ, not, Option, none, some, List, [], ◌∷◌, ◌++◌, map, ◌==◌, if◌then◌else◌, reject,
}

-- A pick of the request.
pub record Pick : Type 0 where
  pub candidate_id : ℕ
  pub template : ℕ

-- What a pick is checked against and becomes: the options cached for a candidate, the reference that a
-- template resolves to (`none` where its contract has changed), and the assembled scene.
pub record Assembly : Type 0 where
  pub options : ℕ → Option (List ℕ)
  pub resolve : ℕ → Option ℕ
  pub assemble : ℕ → ℕ → Scene

unfoldable pub validate_pick : Assembly → Session → Pick → Response (ℕ × ℕ)
validate_pick a s pick =
    if not (has s.candidates pick.candidate_id)
    then http 404
    else elim (a.options pick.candidate_id) [
      | none ↦ http 400
      | some offered ↦
          if not (has offered pick.template) then http 400 else elim (a.resolve pick.template) [
            | none ↦ http 409
            | some template ↦ ok (pick.candidate_id, template)
          ]
    ]

unfoldable pub validate_picks : Assembly → Session → List Pick → Response (List (ℕ × ℕ))
unfolding validate_pick
validate_picks a s [] = ok []
validate_picks a s (pick ∷ picks) = do
  valid ← validate_pick a s pick
  rest ← validate_picks a s picks
  ok (valid ∷ rest)

unfoldable pub cleared : Session → Session
cleared s = record s {
  scenes = [];
  scene_order = [];
  scene_requested_template = [];
  scene_chain_members = [];
}

unfoldable pub add_scene : ℕ → Scene → Session → Session
unfolding put
add_scene template x s = record s {
  scenes = put x s.scenes;
  scene_order = s.scene_order ++ x.scene_id ∷ [];
  scene_requested_template =
      record { scene_id = x.scene_id; template = template }
      ∷ reject (λ (q : RequestedTemplate). q.scene_id == x.scene_id) s.scene_requested_template;
}

unfoldable pub add_scenes : Assembly → List (ℕ × ℕ) → Session → Session
unfolding add_scene
add_scenes a [] s = s
add_scenes a ((candidate, template) ∷ rest) s =
    add_scenes a rest (add_scene template (a.assemble candidate template) s)

unfoldable pub build_storyboard : Assembly → List Pick → Session → Response (List (ℕ × ℕ)) × Session
unfolding validate_picks add_scenes cleared all_distinct
build_storyboard a picks s =
    if not (all_distinct (map (λ (p : Pick). p.candidate_id) picks))
    then (http 400, s)
    else elim (validate_picks a s picks) [
      | http code ↦ (http code, s)
      | ok valid ↦ (ok valid, add_scenes a valid (cleared s))
    ]

unfoldable pub requested_template : ℕ → List RequestedTemplate → Option ℕ
requested_template i [] = none
requested_template i (q ∷ qs) = if q.scene_id == i then some q.template else requested_template i qs

-- The end of `retry_scene`: the fresh scene takes the place of the one that was read.
unfoldable pub replace_scene : Scene → Scene → Session → Response Scene × Session
unfolding put
replace_scene fresh scene s =
    let updated : Scene = record fresh {
      scene_id = scene.scene_id;
      grade_overridden = scene.grade_overridden;
    } in
    (ok updated, record s { scenes = put updated s.scenes })

unfoldable pub retry_scene : (ℕ → ℕ → ℕ → Scene) → ℕ → Session → Response Scene × Session
unfolding lookup_active_scene lookup_candidate requested_template replace_scene
retry_scene assemble i s = elim (lookup_active_scene i s) [
  | http code ↦ (http code, s)
  | ok scene ↦ elim (lookup_candidate scene s) [
    | http code ↦ (http code, s)
    | ok candidate ↦ elim candidate [
      | none ↦ (http 400, s)
      | some c ↦ elim (requested_template i s.scene_requested_template) [
        | none ↦ (http 400, s)
        | some template ↦ replace_scene (assemble c template scene.grade_level) scene s
      ]
    ]
  ]
]
