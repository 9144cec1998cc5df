-- ===== src/Storyboard/Chain.antt =====
-- `chain_scenes` and `ungroup_scene` of routes.py: several scenes become one of the storyboard, and
-- one becomes its members again.
pub mod Order
pub mod Sorting
pub mod Regroup
use si26_math_animation_john.Storyboard.Chain.Order.{
  all_distinct, chain_order, ungroup_order, sorted_by, index,
}
use si26_math_animation_john.Storyboard.Scenes.{
  Status, pending_review, is_pending, Scene, Session, Members, Response, ok, http, ◌>>=◌, Templates,
  find, put, has, has_open_mismatch, lookup_candidates, is_chained,
}
use si26_math_animation_john.Base.{
  ℕ, zero, suc, ◌+◌, ◌-◌, ◌*◌, ◌/◌, ◌%◌, ◌^◌, ◌≤◌, ◌<◌, min, max, String, ◌≡◌, refl, sym, ap, ◌∙◌,
  subst, ◌≢◌, ◌↔◌, ◌⊎◌, inl, inr, Bool, true, false, ◌&&◌, ◌||◌, not, Option, none, some, List, [],
  ◌∷◌, ◌++◌, map, arith, ltb, leb, ◌==◌, if◌then◌else◌, eq_option, eq_option→eq, eq_option_refl,
  eq→eq_option, Bool-cases, Option-cases, length, all, any, select, count, reject, update, All,
  length-append, count-append, count-le-length, length-select-le, length-reject-add-count,
  count-or-le, count-le-count, count-update, count-update-le, count-update-drop, length-update,
  All-update, any-false, All-any, All-weaken, codes, str_eq, eq_iff,
}

abbrev has_candidate : Scene → Bool
has_candidate scene = not (eq_option scene.candidate_id none)

-- The checks of one scene id, in the order of the code.
unfoldable pub chain_member : Templates → Session → ℕ → Response Scene
unfolding find has_open_mismatch
chain_member t s i = elim (find i s.scenes) [
  | none ↦ http 400
  | some scene ↦
      if not (is_pending scene.status)
      then http 400
      else if not (has_candidate scene)
      then http 400
      else if not (has s.scene_order i)
      then http 400
      else if has_open_mismatch t scene
      then http 409
      else ok scene
]

unfoldable pub chain_members : Templates → Session → List ℕ → Response (List Scene)
unfolding chain_member
chain_members t s [] = ok []
chain_members t s (i ∷ is) = do
  scene ← chain_member t s i
  rest ← chain_members t s is
  ok (scene ∷ rest)

-- The stored parameters of each scene, validated again; a ValidationError is not caught.
unfoldable pub valid_items : Templates → List Scene → Response (List ℕ)
valid_items t [] = ok []
valid_items t (x ∷ xs) = elim (t.validate x.template false x.params) [
  | none ↦ http 500
  | some p ↦ do rest ← valid_items t xs; ok (p ∷ rest)
]

-- `chained_params_cls(items=items)` with its dump, the thumbnail's path and the new scene's id.
pub record Combination : Type 0 where
  pub combine : List ℕ → Option ℕ
  pub thumbnail : Option ℕ
  pub new_id : ℕ

abbrev candidate_list : List Scene → List ℕ
candidate_list [] = []
candidate_list (x ∷ xs) = elim x.candidate_id [
  | none ↦ candidate_list xs
  | some c ↦ c ∷ candidate_list xs
]

abbrev combined_scene : ℕ → Scene → List Scene → ℕ → ℕ → Scene
combined_scene new_id first scenes params thumbnail = record {
  scene_id = new_id;
  candidate_id = none;
  candidate_ids = candidate_list scenes;
  template = first.template;
  grade_level = first.grade_level;
  grade_overridden = first.grade_overridden;
  params = params;
  stated_answer = none;
  mismatch_acknowledged = false;
  status = pending_review;
  revision = 0;
  approved_revision = none;
  fallback_reason = none;
  thumbnail_path = some thumbnail;
  render_path = none;
  rendered_params_hash = none;
}

-- The new scene, from the scenes that were read.
unfoldable pub build_chain : Templates → Combination → List Scene → Response Scene
unfolding valid_items
build_chain t k [] = http 500
build_chain t k (first ∷ rest) =
    if any (λ (x : Scene). not (eq_option x.template first.template)) (first ∷ rest)
    then http 400
    else if not (t.has_chained first.template)
    then http 400
    else (do
      items ← valid_items t (first ∷ rest)
      elim (k.combine items) [
        | none ↦ http 500
        | some params ↦ elim k.thumbnail [
          | none ↦ http 500
          | some path ↦ ok (combined_scene k.new_id first (first ∷ rest) params path)
        ]
      ])

-- The second check of one scene, under the lock. `same` is `is` on two scenes.
unfoldable pub unchanged : Templates → (Scene → Scene → Bool) → Option ℕ → Session → Scene → Bool
unfolding find has_open_mismatch
unchanged t same template s baseline = elim (find baseline.scene_id s.scenes) [
  | none ↦ false
  | some current ↦
      has s.scene_order baseline.scene_id
      && same current baseline
      && (current.revision == baseline.revision)
      && is_pending current.status
      && eq_option current.template template
      && has_candidate current
      && not (has_open_mismatch t current)
]

abbrev pub insert_chain : List ℕ → Scene → Session → Session
insert_chain ids scene s = record s {
  scene_order = chain_order ids scene.scene_id s.scene_order;
  scenes = put scene s.scenes;
  scene_chain_members =
      record { chain_id = scene.scene_id; ids = sorted_by (λ i. index i s.scene_order) ids }
      ∷ reject (λ (m : Members). m.chain_id == scene.scene_id) s.scene_chain_members;
}

-- The part of `chain_scenes` under the lock.
unfoldable pub commit_chain :
    Templates → (Scene → Scene → Bool) → List Scene → Scene → Session → Response Scene × Session
unfolding unchanged chain_order sorted_by index put
commit_chain t same read scene s =
    if all (unchanged t same scene.template s) read
    then (ok scene, insert_chain (map (λ (x : Scene). x.scene_id) read) scene s)
    else (http 409, s)

unfoldable pub read_chain : Templates → List ℕ → Session → Response (List Scene)
unfolding chain_members all_distinct
read_chain t ids s =
    if not (leb 2 (length ids) && leb (length ids) 4)
    then http 400
    else if not (all_distinct ids)
    then http 400
    else chain_members t s ids

unfoldable pub chain_scenes :
    Templates → (Scene → Scene → Bool) → Combination → List ℕ → Session → Response Scene × Session
unfolding read_chain build_chain commit_chain lookup_candidates
chain_scenes t same k ids s = elim (read_chain t ids s) [
  | http code ↦ (http code, s)
  | ok read ↦ elim (build_chain t k read) [
    | http code ↦ (http code, s)
    | ok scene ↦
        let (answer, after) = commit_chain t same read scene s in
        ((do made ← answer; cs ← lookup_candidates made after; ok made), after)
  ]
]

unfoldable pub members_of : ℕ → List Members → Option (List ℕ)
members_of i [] = none
members_of i (m ∷ ms) = if m.chain_id == i then some m.ids else members_of i ms

-- del session.scenes[scene_id]
unfoldable pub delete : ℕ → List Scene → List Scene
delete i scenes = reject (λ (x : Scene). x.scene_id == i) scenes

-- [session.scenes[member_id] for member_id in members]; a missing id is a KeyError.
unfoldable pub restored_scenes : List ℕ → List Scene → Response (List Scene)
unfolding find
restored_scenes [] scenes = ok []
restored_scenes (i ∷ is) scenes = elim (find i scenes) [
  | none ↦ http 500
  | some x ↦ do rest ← restored_scenes is scenes; ok (x ∷ rest)
]

-- The candidates of each restored scene, looked up for the response.
restored_out : List Scene → Session → Response (Unit {0})
unfolding lookup_candidates
restored_out [] s = ok tt
restored_out (x ∷ xs) s = do cs ← lookup_candidates x s; restored_out xs s

abbrev pub without_chain : ℕ → List ℕ → Session → Session
without_chain i members s = record s {
  scene_order = ungroup_order i members s.scene_order;
  scenes = delete i s.scenes;
  scene_chain_members = reject (λ (m : Members). m.chain_id == i) s.scene_chain_members;
}

unfoldable pub ungroup_scene : ℕ → Session → Response (List Scene) × Session
unfolding members_of delete ungroup_order restored_scenes restored_out
ungroup_scene i s = elim (members_of i s.scene_chain_members) [
  | none ↦ (http 404, s)
  | some members ↦
      if not (has s.scene_order i)
      then (http 500, s)
      else let after = without_chain i members s in
        (
          (do
            restored ← restored_scenes members after.scenes
            out ← restored_out restored after
            ok restored),
          after,
        )
]
