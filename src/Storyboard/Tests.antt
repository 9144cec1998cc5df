-- ===== src/Storyboard/Tests.antt =====
-- Examples of the theorems on the storyboard: two scenes that a teacher reviews.
use si26_math_animation_john.Storyboard.Scenes.{
  Status, pending_review, approved, Scene, Session, ok, Templates, find, has, has_open_mismatch,
}
use si26_math_animation_john.Storyboard.Review.{approve_read, edit_read, SceneEditRequest}
use si26_math_animation_john.Storyboard.Render.{
  is_render_ready, publish_clip, Surroundings, drawn, claim_render_batch, release_render_batch,
  ids_of,
}
use si26_math_animation_john.Storyboard.Build.{retry_scene, replace_scene}
use si26_math_animation_john.Storyboard.Requests.{
  Requests, idle, first, later, reads, retries, Steps, here, next,
}
use si26_math_animation_john.Storyboard.Requests.Agreement.{reviewed}
use si26_math_animation_john.Storyboard.Requests.Reach.{
  approve_read-reviewed, publish_clip-reviewed,
}
use si26_math_animation_john.Storyboard.Requests.Edits.{edit_read-ready}
use si26_math_animation_john.Storyboard.Claims.{claim_render_batch-release}
use si26_math_animation_john.Storyboard.Retry.{retry_scene-approve_read, retaken}
use si26_math_animation_john.Storyboard.Chain.Order.{
  all_distinct, index, sorted_by, chain_order, ungroup_order,
}
use si26_math_animation_john.Storyboard.Chain.Regroup.{ungroup_order-chain_order}
use si26_math_animation_john.Base.{
  ℕ, ◌+◌, ◌≤◌, ◌<◌, ◌≡◌, refl, Bool, true, false, ◌&&◌, ◌||◌, not, Option, none, some, [], ◌∷◌,
  ◌==◌, length, All,
}

-- A template of which every parameter is valid and is its own answer.
abbrev identity_templates : Templates
identity_templates = record {
  validate = λ name chained params. some params;
  compute_answer = λ name chained params. some params;
  has_chained = λ name. true;
}

abbrev scene_of : ℕ → ℕ → Status → ℕ → Option ℕ → Scene
scene_of i params status revision pinned = record {
  scene_id = i;
  candidate_id = some (i + 10);
  candidate_ids = [];
  template = some 3;
  grade_level = 4;
  grade_overridden = false;
  params = params;
  stated_answer = none;
  mismatch_acknowledged = false;
  status = status;
  revision = revision;
  approved_revision = pinned;
  fallback_reason = none;
  thumbnail_path = some 90;
  render_path = none;
  rendered_params_hash = none;
}

abbrev waiting : Scene
waiting = scene_of 1 50 pending_review 0 none

abbrev ready : Scene
ready = scene_of 2 60 approved 1 (some 1)

abbrev two_scenes : Session
two_scenes = record {
  candidates = 11 ∷ 12 ∷ [];
  scenes = waiting ∷ ready ∷ [];
  scene_order = 1 ∷ 2 ∷ [];
  scene_requested_template = record { scene_id = 1; template = 3 } ∷ [];
  scene_chain_members = [];
  rendering_scene_ids = 7 ∷ [];
  scene_clip_id = [];
}

abbrev any_same : Scene → Scene → Bool
any_same x y = true

abbrev reading : Scene → Requests
reading x = record { session = two_scenes; read = x ∷ []; retried = [] }

-- A scene that a retry of scene 2 has assembled, and the session with it.
abbrev taken_again : Scene
taken_again = scene_of 2 78 pending_review 0 none

abbrev other_retried : Session
other_retried = record two_scenes { scenes = waiting ∷ taken_again ∷ [] }

-- Two requests read scenes 1 and 2, and the second replaces scene 2 while the first is still to approve.
abbrev reading_beside_retry : Requests
reading_beside_retry = record {
  session = other_retried;
  read = ready ∷ waiting ∷ [];
  retried = 2 ∷ [];
}

read_waiting : Steps identity_templates any_same (idle two_scenes) reading_beside_retry
unfolding find replace_scene
read_waiting =
    next
      (next (next here (reads (idle two_scenes) 1 waiting refl))
        (reads (reading waiting) 2 ready refl))
      (retries (record (reading waiting) { read = ready ∷ waiting ∷ [] }) ready
        (record taken_again { scene_id = 99 }) first)

read_ready : Steps identity_templates any_same (idle two_scenes) (reading ready)
unfolding find
read_ready = next here (reads (idle two_scenes) 2 ready refl)

abbrev waiting_approved : Scene
waiting_approved = scene_of 1 50 approved 1 (some 1)

abbrev one_approved : Session
one_approved = record two_scenes { scenes = waiting_approved ∷ taken_again ∷ [] }

approve_read-reviewed_example :
    (reviewed waiting_approved ≡ record (reviewed waiting) {
      status = approved;
      revision = 0 + 1;
      approved_revision = some (0 + 1);
    })
    × (has_open_mismatch identity_templates waiting ≡ false)
    × (is_render_ready waiting_approved ≡ true)
unfolding approve_read
approve_read-reviewed_example =
    approve_read-reviewed identity_templates any_same two_scenes reading_beside_retry waiting
      waiting_approved one_approved read_waiting (later first) refl refl

abbrev rendering : Surroundings
rendering = record {
  exists = λ p. true;
  has_clip = λ c. true;
  reregistered = none;
  registered = some 40;
  past_deadline = false;
  output_path = 41;
  drawing = drawn;
  params_hash = λ t p c. p;
}

abbrev ready_published : Scene
ready_published = record ready { render_path = some 41; rendered_params_hash = some 60 }

abbrev one_published : Session
one_published = record two_scenes {
  scenes = waiting ∷ ready_published ∷ [];
  scene_clip_id = record { scene_id = 2; clip_id = 40 } ∷ [];
}

publish_clip-reviewed_example :
    (y : Scene) × (find 2 one_published.scenes ≡ some y)
    × (reviewed y ≡ reviewed ready)
    × (is_render_ready y ≡ true)
    × (y.render_path ≡ some 41)
    × (y.rendered_params_hash ≡ some 60)
unfolding publish_clip
publish_clip-reviewed_example =
    publish_clip-reviewed identity_templates any_same two_scenes (reading ready) rendering ready 60
      40 one_published read_ready first refl refl

abbrev new_params : SceneEditRequest
new_params = record { grade_level = none; params = some 61 }

abbrev ready_edited : Scene
ready_edited = record ready {
  params = 61;
  thumbnail_path = some 91;
  status = pending_review;
  revision = 2;
}

edit_read-ready_example :
    is_render_ready ready_edited ≡ (not (not (61 == 60) || not (4 == 4)) && is_render_ready ready)
unfolding edit_read
edit_read-ready_example =
    edit_read-ready identity_templates any_same two_scenes (reading ready) new_params (some 91)
      ready ready_edited (record two_scenes { scenes = waiting ∷ ready_edited ∷ [] }) read_ready
      first refl refl

abbrev claimed : Session
claimed = record two_scenes { rendering_scene_ids = 2 ∷ 7 ∷ [] }

claim_render_batch-release_example :
    (0 < length (ready ∷ []))
    × (length (ready ∷ []) ≤ 12)
    × All (λ (x : Scene). is_render_ready x ≡ true) (ready ∷ [])
    × ((i : ℕ)
        → has (ids_of (ready ∷ [])) i ≡ true
        → (has (7 ∷ []) i ≡ false) × (has claimed.rendering_scene_ids i ≡ true))
    × ((i : ℕ)
        → has (release_render_batch (ready ∷ []) claimed).rendering_scene_ids i ≡ has (7 ∷ []) i)
unfolding claim_render_batch
claim_render_batch-release_example =
    claim_render_batch-release 12 two_scenes claimed (ready ∷ []) refl

abbrev other_params : ℕ → ℕ → ℕ → Scene
other_params candidate template grade = record (scene_of 99 77 pending_review 0 none) {
  candidate_id = some 11;
}

abbrev retried : Scene
retried = scene_of 1 77 pending_review 0 none

abbrev one_retried : Session
one_retried = record two_scenes { scenes = retried ∷ ready ∷ [] }

-- The request read a scene with parameters 50; the scene that it approves has parameters 77.
retry_scene-approve_read_example :
    (c : ℕ) × (template : ℕ) × (y : Scene) × (retried ≡ retaken waiting (other_params c template 4))
    × (retried.revision ≡ waiting.revision)
    × ((approve_read identity_templates waiting one_retried).0 ≡ ok y)
    × (y ≡ record retried { status = approved; revision = 1; approved_revision = some 1 })
    × (is_render_ready y ≡ true)
unfolding retry_scene has_open_mismatch find
retry_scene-approve_read_example =
    retry_scene-approve_read identity_templates other_params 1 two_scenes one_retried waiting
      retried (λ c template grade. refl) refl refl refl refl

-- Scenes 8 and 4 of the order 2, 4, 6, 8, picked in the other order.
ungroup_order-chain_order_example :
    ungroup_order 5
      (sorted_by (λ i. index i (2 ∷ 4 ∷ 6 ∷ 8 ∷ [])) (8 ∷ 4 ∷ []))
      (chain_order (8 ∷ 4 ∷ []) 5 (2 ∷ 4 ∷ 6 ∷ 8 ∷ []))
    ≡ 2 ∷ 4 ∷ 8 ∷ 6 ∷ []
unfolding all_distinct
ungroup_order-chain_order_example =
    ungroup_order-chain_order (8 ∷ 4 ∷ []) (2 ∷ []) (6 ∷ 8 ∷ []) 4 5 refl refl refl refl refl refl
