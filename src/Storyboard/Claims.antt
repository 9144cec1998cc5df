-- ===== src/Storyboard/Claims.antt =====
-- The scenes that render requests of routes.py hold: a claim takes none that another request holds, and
-- its release gives back just what it took.
use si26_math_animation_john.Storyboard.Render.{
  claim_render_batch, release_render_batch, ready_scenes, require_valid_render_batch, discard_all,
  ids_of, is_render_ready,
}
use si26_math_animation_john.Storyboard.Scenes.{Response-cases, Scene, Session, ok, find, has}
use si26_math_animation_john.Base.{
  ℕ, ◌≤◌, ◌<◌, ◌≡◌, refl, ap, subst, inl, inr, true, false, ◌&&◌, ◌||◌, not, none, List, [], ◌∷◌,
  ◌++◌, arith, ◌==◌, Bool-cases, Option-cases, length, any, reject, All,
}

has-reject :
    (a b : ℕ) (ids : List ℕ) → has (reject (λ c. c == b) ids) a ≡ (not (a == b) && has ids a)
has-reject a b [] = ground arith
has-reject a b (x ∷ xs) = ground (arith, has-reject a b xs)

has-append : (a : ℕ) (xs ys : List ℕ) → has (xs ++ ys) a ≡ (has xs a || has ys a)
has-append a [] ys = refl
has-append a (x ∷ xs) ys = ground (arith, has-append a xs ys)

has-discard_all :
    (a : ℕ) (is ids : List ℕ) → has (discard_all is ids) a ≡ (not (has is a) && has ids a)
unfolding discard_all
has-discard_all a [] ids = ground arith
has-discard_all a (i ∷ is) ids =
    ground (arith, has-discard_all a is (reject (λ c. c == i) ids), has-reject a i ids)

-- No element of `is` is in `ids`.
disjoint :
    (a : ℕ) (is ids : List ℕ) → any (has ids) is ≡ false → has is a ≡ true → has ids a ≡ false
disjoint a [] ids d h = cc
disjoint a (i ∷ is) ids d h = elim (Bool-cases (i == a)) [
  | inl hit ↦
      let same : i ≡ a = ground arith in
      let out : has ids i ≡ false = ground arith in rw (← same) out
  | inr miss ↦ disjoint a is ids (ground arith) (ground arith)
]

require_valid-disjoint :
    (m : ℕ) (s : Session) (batch : List Scene)
    → require_valid_render_batch m s batch ≡ none
    → (any (has s.rendering_scene_ids) (ids_of batch) ≡ false)
      × (0 < length batch)
      × (length batch ≤ m)
unfolding require_valid_render_batch
require_valid-disjoint m s batch e = (ground arith, ground arith, ground arith)

abbrev AllReady : List Scene → Type 0
AllReady batch = All (λ (x : Scene). is_render_ready x ≡ true) batch

-- Every scene of a batch is ready.
pub ready_scenes-IsReady :
    (order : List ℕ) (scenes batch : List Scene)
    → ready_scenes order scenes ≡ ok batch
    → AllReady batch
unfolding ready_scenes
ready_scenes-IsReady [] scenes batch e =
    let none_ready : [] ≡ batch = ground arith in subst AllReady none_ready tt
ready_scenes-IsReady (i ∷ is) scenes batch e = elim (Option-cases (find i scenes)) [
  | inl f ↦ absurd (ground arith)
  | inr (x, f) ↦ elim (Response-cases (ready_scenes is scenes)) [
    | inl (code, g) ↦ absurd (ground arith)
    | inr (rest, g) ↦
        let ih = ready_scenes-IsReady is scenes rest g in
        elim (Bool-cases (is_render_ready x)) [
          | inl r ↦ (let both : x ∷ rest ≡ batch = ground arith in subst AllReady both (r, ih))
          | inr r ↦ (let only : rest ≡ batch = ground arith in subst AllReady only ih)
        ]
  ]
]

claim_render_batch-ok :
    (m : ℕ) (s after : Session) (batch : List Scene)
    → claim_render_batch m s ≡ (ok batch, after)
    → (ready_scenes s.scene_order s.scenes ≡ ok batch)
      × (require_valid_render_batch m s batch ≡ none)
      × (after ≡ record s { rendering_scene_ids = ids_of batch ++ s.rendering_scene_ids })
unfolding claim_render_batch
claim_render_batch-ok m s after batch e =
    elim (Response-cases (ready_scenes s.scene_order s.scenes)) [
      | inl (code, f) ↦ absurd (ground arith)
      | inr (found, f) ↦ elim (Option-cases (require_valid_render_batch m s found)) [
        | inr (code, g) ↦ absurd (ground arith)
        | inl g ↦
            let same : found ≡ batch = ground arith in
            (rw f (ap ok same), rw (← same) g, ground arith)
      ]
    ]

-- A claim that succeeds returns between one scene and the cap, all ready to render, none of which was
-- being rendered; then all of them are; and its release, right after it, leaves being rendered exactly
-- what was before the claim.
pub claim_render_batch-release :
    (m : ℕ) (s after : Session) (batch : List Scene)
    → claim_render_batch m s ≡ (ok batch, after)
    → (0 < length batch)
      × (length batch ≤ m)
      × AllReady batch
      × ((i : ℕ)
          → has (ids_of batch) i ≡ true
          → (has s.rendering_scene_ids i ≡ false) × (has after.rendering_scene_ids i ≡ true))
      × ((i : ℕ)
          → has (release_render_batch batch after).rendering_scene_ids i
            ≡ has s.rendering_scene_ids i)
unfolding release_render_batch
claim_render_batch-release m s after batch e =
    let done = claim_render_batch-ok m s after batch e in
    let valid = require_valid-disjoint m s batch done.1 in
    let ids : after.rendering_scene_ids ≡ ids_of batch ++ s.rendering_scene_ids =
      ap (λ (z : Session). z.rendering_scene_ids) done.2 in
    (
      valid.1,
      valid.2,
      ready_scenes-IsReady s.scene_order s.scenes batch done.0,
      (λ i h. (
        disjoint i (ids_of batch) s.rendering_scene_ids valid.0 h,
        rw ids (ground (arith, has-append i (ids_of batch) s.rendering_scene_ids)),
      )),
      λ i. rw ids (
          ground (
            arith,
            has-discard_all i (ids_of batch) (ids_of batch ++ s.rendering_scene_ids),
            has-append i (ids_of batch) s.rendering_scene_ids,
            disjoint i (ids_of batch) s.rendering_scene_ids valid.0,
          )),
    )
