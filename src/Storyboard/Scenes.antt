-- ===== src/Storyboard/Scenes.antt =====
-- models/scene.py, the scene fields of session.py, pipeline/mismatch.py, and from routes.py the
-- lookups, `_scene_mismatch` guards and `_write_scene_cas`.
use si26_math_animation_john.Base.{
  ℕ, ◌+◌, ◌≡◌, refl, Bool, true, false, ◌&&◌, not, Option, none, some, List, [], ◌∷◌, arith, ◌==◌,
  if◌then◌else◌, length, all, any, ◌⊎◌, inl, inr,
}

pub data Status : Type 0 where
  pending_review approved rejected fallback : Status

abbrev pub is_approved : Status → Bool
is_approved approved = true
is_approved pending_review = false
is_approved rejected = false
is_approved fallback = false

abbrev pub is_pending : Status → Bool
is_pending pending_review = true
is_pending approved = false
is_pending rejected = false
is_pending fallback = false

pub record Scene : Type 0 where
  pub scene_id : ℕ
  pub candidate_id : Option ℕ
  pub candidate_ids : List ℕ
  pub template : Option ℕ
  pub grade_level : ℕ
  pub grade_overridden : Bool
  pub params : ℕ
  pub stated_answer : Option ℕ
  pub mismatch_acknowledged : Bool
  pub status : Status
  pub revision : ℕ
  pub approved_revision : Option ℕ
  pub fallback_reason : Option ℕ
  pub thumbnail_path : Option ℕ
  pub render_path : Option ℕ
  pub rendered_params_hash : Option ℕ

-- An entry of `scene_chain_members`, and one of `scene_clip_id`.
pub record Members : Type 0 where
  pub chain_id : ℕ
  pub ids : List ℕ

pub record SceneClip : Type 0 where
  pub scene_id : ℕ
  pub clip_id : ℕ

-- An entry of `scene_requested_template`.
pub record RequestedTemplate : Type 0 where
  pub scene_id : ℕ
  pub template : ℕ

pub record Session : Type 0 where
  pub candidates : List ℕ
  pub scenes : List Scene
  pub scene_order : List ℕ
  pub scene_requested_template : List RequestedTemplate
  pub scene_chain_members : List Members
  pub rendering_scene_ids : List ℕ
  pub scene_clip_id : List SceneClip

-- An answer, or the status code of the HTTPException.
pub data Response {ℓ} (A : Type ℓ) : Type ℓ where
  ok : A → Response A
  http : ℕ → Response A

infixl 5 ◌>>=◌
abbrev pub ◌>>=◌ {ℓ κ} : {A : Type ℓ} {B : Type κ} → Response A → (A → Response B) → Response B
ok a >>= f = f a
http code >>= f = http code

-- The parameter classes: of a template and whether it is chained, `model_validate` with the dump of
-- its result (`none` where it raises), `compute_answer` of such a dump, and whether the template has a
-- chained form at all.
pub record Templates : Type 0 where
  pub validate : Option ℕ → Bool → ℕ → Option ℕ
  pub compute_answer : Option ℕ → Bool → ℕ → Option ℕ
  pub has_chained : Option ℕ → Bool

abbrev pub has : List ℕ → ℕ → Bool
has ids a = any (λ b. b == a) ids

-- session.scenes.get(scene_id)
unfoldable pub find : ℕ → List Scene → Option Scene
find i [] = none
find i (x ∷ xs) = if x.scene_id == i then some x else find i xs

-- session.scenes[scene.scene_id] = scene
unfoldable pub put : Scene → List Scene → List Scene
put x [] = x ∷ []
put x (y ∷ ys) = if y.scene_id == x.scene_id then x ∷ ys else y ∷ put x ys

-- bool(scene.candidate_ids)
abbrev pub is_chained : Scene → Bool
is_chained scene = not (length scene.candidate_ids == 0)

unfoldable pub compute_answer_for : Templates → Scene → Option ℕ
compute_answer_for t scene = elim scene.template [
  | none ↦ none
  | some name ↦ elim (t.validate (some name) (is_chained scene) scene.params) [
    | none ↦ none
    | some params ↦ t.compute_answer (some name) (is_chained scene) params
  ]
]

-- The stated and the computed answer, where they differ.
unfoldable pub scene_mismatch : Templates → Scene → Option (ℕ × ℕ)
unfolding compute_answer_for
scene_mismatch t scene = elim scene.stated_answer [
  | none ↦ none
  | some stated ↦ elim (compute_answer_for t scene) [
    | none ↦ none
    | some computed ↦ if computed == stated then none else some (stated, computed)
  ]
]

abbrev is_some : Option (ℕ × ℕ) → Bool
is_some none = false
is_some (some a) = true

-- scene_mismatch(scene) is not None and not scene.mismatch_acknowledged
unfoldable pub has_open_mismatch : Templates → Scene → Bool
unfolding scene_mismatch
has_open_mismatch t scene = is_some (scene_mismatch t scene) && not scene.mismatch_acknowledged

unfoldable pub lookup_active_scene : ℕ → Session → Response Scene
unfolding find
lookup_active_scene i s = elim (find i s.scenes) [
  | none ↦ http 404
  | some scene ↦ if has s.scene_order i then ok scene else http 404
]

unfoldable pub lookup_candidate : Scene → Session → Response (Option ℕ)
lookup_candidate scene s = elim scene.candidate_id [
  | none ↦ ok none
  | some c ↦ if has s.candidates c then ok (some c) else http 404
]

unfoldable pub lookup_candidates : Scene → Session → Response (List ℕ)
unfolding lookup_candidate
lookup_candidates scene s =
    if is_chained scene
    then (if all (has s.candidates) scene.candidate_ids then ok scene.candidate_ids else http 404)
    else (do c ← lookup_candidate scene s; elim c [ none ↦ ok [] | some a ↦ ok (a ∷ []) ])

-- The write of `_write_scene_cas` over the scene that it finds.
unfoldable pub next_scene : ℕ → (Scene → Scene) → Bool → Scene → Scene
next_scene base updates bump current = record (updates current) {
  revision = if bump then base + 1 else base;
}

unfoldable pub write_scene_cas : ℕ → ℕ → (Scene → Scene) → Bool → Session → Response Scene × Session
unfolding find put next_scene
write_scene_cas i base updates bump s = elim (find i s.scenes) [
  | none ↦ (http 404, s)
  | some current ↦
      if not (has s.scene_order i)
      then (http 404, s)
      else if not (current.revision == base)
      then (http 409, s)
      else (
        ok (next_scene base updates bump current),
        record s { scenes = put (next_scene base updates bump current) s.scenes },
      )
]

pub find-put :
    (x : Scene) (i : ℕ) (xs : List Scene)
    → find i (put x xs) ≡ (if x.scene_id == i then some x else find i xs)
unfolding find put
find-put x i [] = refl
find-put x i (y ∷ ys) = ground (arith, find-put x i ys)

pub find-id : (i : ℕ) (xs : List Scene) (x : Scene) → find i xs ≡ some x → x.scene_id ≡ i
unfolding find
find-id i [] x e = ground arith
find-id i (y ∷ ys) x e = ground (arith, find-id i ys x)

pub Response-cases {ℓ} :
    {A : Type ℓ} (o : Response A) → ((code : ℕ) × (o ≡ http code)) ⊎ ((a : A) × (o ≡ ok a))
Response-cases (http code) = inl (code, refl)
Response-cases (ok a) = inr (a, refl)
