-- ===== src/Meta/Promotion/Sharing.antt =====
-- When promotion.py shares a private version, and the names in a session's snapshot after it.
use si26_math_animation_john.Meta.Approval.Snapshot.{seen_as, HasUniqueNames}
use si26_math_animation_john.Meta.Models.{TemplateVersion, MetaDb, is_enabled}
use si26_math_animation_john.Meta.Promotion.{
  get_version, has_version_id, share_clashes, name_taken, shared_version, fingerprint_taken,
  privately_held, enabled_at, named_at, is_named, is_other_holder, promote_version, promote_found,
  ok, is_private, promote_row, version_evidence, Result,
}
use si26_math_animation_john.Base.{
  ℕ, ◌≤◌, String, ◌≡◌, refl, sym, ap, subst, ◌↔◌, inl, inr, Bool, true, false, ◌&&◌, ◌||◌, not,
  Option, none, some, List, [], ◌∷◌, arith, ltb, ◌==◌, if◌then◌else◌, Bool-cases, count, update,
  count-or-le, count-le-count, count-update, count-update-le, str_eq, eq_iff, count-update-add,
}

-- The primary key of the versions.
abbrev pub HasUniqueIds : List TemplateVersion → Type 0
HasUniqueIds versions = (i : ℕ) → count (has_version_id i) versions ≤ 1

abbrev is_misnamed : TemplateVersion → TemplateVersion → Bool
is_misnamed v x = (x.id == v.id) && not (str_eq x.template_name v.template_name)

get_version-id :
    (i : ℕ) (vs : List TemplateVersion) (v : TemplateVersion) → get_version i vs ≡ some v → v.id ≡ i
unfolding get_version
get_version-id i [] v e = ground arith
get_version-id i (x ∷ xs) v e = elim (Bool-cases (x.id == i)) [
  | inl hit ↦ ground arith
  | inr miss ↦ get_version-id i xs v (rw miss at e)
]

none_misnamed :
    (vs : List TemplateVersion) (v : TemplateVersion)
    → get_version v.id vs ≡ some v
    → count (has_version_id v.id) vs ≤ 1
    → count (is_misnamed v) vs ≡ 0
unfolding get_version
none_misnamed [] v e u = refl
none_misnamed (x ∷ xs) v e u = elim (Bool-cases (x.id == v.id)) [
  | inl hit ↦
      let same : x ≡ v = ground arith in
      let named : str_eq x.template_name v.template_name ≡ true =
        (eq_iff x.template_name v.template_name).1
          (ap (λ (y : TemplateVersion). y.template_name) same) in
      let others : count (is_misnamed v) xs ≤ count (has_version_id v.id) xs =
        count-le-count (is_misnamed v) (has_version_id v.id) xs (λ y h. ground arith) in
      ground arith
  | inr miss ↦ ground (arith, none_misnamed xs v (rw miss at e))
]

-- A version whose name no shared version and no other session holds.
module _ (now : ℕ) (v : TemplateVersion) (vs : List TemplateVersion)
    (unique : HasUniqueIds vs) where
  after : List TemplateVersion
  after = update (has_version_id v.id) (shared_version now) vs

  one_row : count (has_version_id v.id) after ≤ 1
  unfolding after shared_version
  one_row = omega (
    arith,
    unique v.id,
    count-update (has_version_id v.id) (has_version_id v.id) (shared_version now) vs (λ x h. refl),
  )

  sole_holder :
      name_taken v vs ≡ false
      → privately_held v vs ≡ false
      → count (is_named v.template_name) after ≤ 1
  unfolding after shared_version name_taken privately_held
  sole_holder shared private =
      let other = λ (x : TemplateVersion). is_named v.template_name x && not (x.id == v.id) in
      let untouched : count other after ≤ count other vs =
        count-update-le other (has_version_id v.id) (shared_version now) vs
          (λ x h k. ground arith) in
      let split : count other vs
          ≤ count (λ x. named_at v.template_name none x || is_other_holder v x) vs =
        count-le-count other (λ x. named_at v.template_name none x || is_other_holder v x) vs
          (λ x h. ground arith) in
      let parts = count-or-le (named_at v.template_name none) (is_other_holder v) vs in
      let whole : count (is_named v.template_name) after
          ≤ count (λ x. other x || has_version_id v.id x) after =
        count-le-count (is_named v.template_name) (λ x. other x || has_version_id v.id x) after
          (λ x h. ground arith) in
      let halves = count-or-le other (has_version_id v.id) after in
      let row = one_row in ground arith

  sole_key : fingerprint_taken v vs ≡ false → count (enabled_at v.fingerprint_key none) after ≤ 1
  unfolding after fingerprint_taken shared_version
  sole_key free =
      let grown =
        count-update-add (enabled_at v.fingerprint_key none) (has_version_id v.id)
          (has_version_id v.id) (shared_version now) vs (λ x h k. ground arith) in
      let row = unique v.id in ground arith

  no_clash :
      name_taken v vs ≡ false
      → privately_held v vs ≡ false
      → fingerprint_taken v vs ≡ false
      → share_clashes v after ≡ false
  unfolding share_clashes
  no_clash shared private free =
      let keys = sole_key free in
      let names = sole_holder shared private in
      let named =
        count-le-count (named_at v.template_name none) (is_named v.template_name) after
          (λ x h. ground arith) in
      ground arith

  other_name :
      (name : String) (s : ℕ)
      → get_version v.id vs ≡ some v
      → str_eq v.template_name name ≡ false
      → count (seen_as name s) after ≤ count (seen_as name s) vs
  unfolding after shared_version
  other_name name s found differs =
      let grown =
        count-update-add (seen_as name s) (has_version_id v.id) (is_misnamed v) (shared_version now)
          vs
          (λ x h k. elim (Bool-cases (str_eq x.template_name v.template_name)) [
            | inr other ↦ ground arith
            | inl same ↦
                let e : x.template_name ≡ v.template_name =
                  (eq_iff x.template_name v.template_name).0 same in
                absurd (ground (arith, ap (λ n. str_eq n name) e))
          ]) in
      omega (arith, none_misnamed vs v found (unique v.id))

  after-HasUniqueNames :
      get_version v.id vs ≡ some v
      → name_taken v vs ≡ false
      → privately_held v vs ≡ false
      → HasUniqueNames vs
      → HasUniqueNames after
  after-HasUniqueNames found shared private u name s =
      elim (Bool-cases (str_eq v.template_name name)) [
        | inl same ↦
            let e : v.template_name ≡ name = (eq_iff v.template_name name).0 same in
            let sole = sole_holder shared private in
            let seen =
              count-le-count (seen_as v.template_name s) (is_named v.template_name) after
                (λ x h. ground arith) in
            let few : count (seen_as v.template_name s) after ≤ 1 = omega arith in
            subst (λ n. count (seen_as n s) after ≤ 1) e few
        | inr differs ↦ omega (arith, other_name name s found differs, u name s)
      ]

-- A result that a test chooses keeps what both of its branches keep.
either :
    (b : Bool) (x y : Result TemplateVersion × MetaDb)
    → HasUniqueNames x.1.versions
    → (b ≡ false → HasUniqueNames y.1.versions)
    → HasUniqueNames (if b then x else y).1.versions
either true x y h k = h
either false x y h k = k refl

-- What a version must be to be shared.
pub record IsPromotable (configured i : ℕ) (db : MetaDb) (v : TemplateVersion) : Type 0 where
  pub found : get_version i db.versions ≡ some v
  pub enabled : is_enabled v.status ≡ true
  pub private : is_private v ≡ true
  pub evidence : configured ≤ version_evidence db v.draft_id
  pub no_shared_name : count (named_at v.template_name none) db.versions ≡ 0
  pub no_other_holder : count (is_other_holder v) db.versions ≡ 0
  pub no_shared_key : count (enabled_at v.fingerprint_key none) db.versions ≡ 0

module _ (configured now i : ℕ) (db : MetaDb) (unique : HasUniqueIds db.versions) where
  by_own_id :
      (v : TemplateVersion)
      → get_version i db.versions ≡ some v
      → get_version v.id db.versions ≡ some v
  by_own_id v e =
      subst (λ k. get_version k db.versions ≡ some v) (sym (get_version-id i db.versions v e)) e

  promote_found-ok :
      (o : Option TemplateVersion) (w : TemplateVersion)
      → get_version i db.versions ≡ o
      → ((promote_found configured now o db).0 ≡ ok w)
        ↔ ((v : TemplateVersion) × IsPromotable configured i db v × (w ≡ shared_version now v))
  unfolding promote_found promote_row
  promote_found-ok none w e =
      (λ h. absurd (ground arith), λ (v, p, same). absurd (let f = p.found in ground arith))
  promote_found-ok (some v) w e = (
    (λ h. (
      v,
      record {
        found = e;
        enabled = ground arith;
        private = ground arith;
        evidence = ground arith;
        no_shared_name = unfold name_taken in ground arith;
        no_other_holder = unfold privately_held in ground arith;
        no_shared_key = unfold fingerprint_taken in ground arith;
      },
      ground arith,
    )),
    λ (x, p, same).
        let this : x ≡ v = let f = p.found in ground arith in
        let names : name_taken x db.versions ≡ false =
          let f = p.no_shared_name in unfold name_taken in ground arith in
        let holders : privately_held x db.versions ≡ false =
          let f = p.no_other_holder in unfold privately_held in ground arith in
        let keys : fingerprint_taken x db.versions ≡ false =
          let f = p.no_shared_key in unfold fingerprint_taken in ground arith in
        let flush : share_clashes x (update (has_version_id x.id) (shared_version now) db.versions)
            ≡ false =
          unfold after in no_clash now x db.versions unique names holders keys in
        let enough : ltb (version_evidence db x.draft_id) configured ≡ false =
          let f = p.evidence in ground arith in
        rw (← this, p.enabled, p.private, enough, names, holders, keys, flush, same) refl,
  )

  promote_found-HasUniqueNames :
      (o : Option TemplateVersion)
      → get_version i db.versions ≡ o
      → HasUniqueNames db.versions
      → HasUniqueNames (promote_found configured now o db).1.versions
  unfolding promote_found promote_row after
  promote_found-HasUniqueNames none e u = u
  promote_found-HasUniqueNames (some v) e u = either (not (is_enabled v.status)) _ _ u (λ on.
      either (not (is_private v)) _ _ u (λ own.
        either (ltb (version_evidence db v.draft_id) configured) _ _ u (λ enough.
          either (name_taken v db.versions) _ _ u (λ names.
            either (privately_held v db.versions) _ _ u (λ holders.
              either (fingerprint_taken v db.versions) _ _ u (λ keys.
                either
                  (share_clashes v (update (has_version_id v.id) (shared_version now) db.versions))
                  _ _ u
                  (λ flush.
                    after-HasUniqueNames now v db.versions unique (by_own_id v e) names holders
                      u)))))))

-- In a table with unique ids, a promotion returns `w` exactly where the version of the id is enabled and
-- private, has the configured number of verified fixtures, and no shared version has its name or its
-- key and no other session's its name; `w` is then this version without its owner. So the unique
-- indexes never refuse a single writer.
pub promote_version-ok :
    (configured now i : ℕ) (db : MetaDb) (w : TemplateVersion)
    → HasUniqueIds db.versions
    → ((promote_version configured now i db).0 ≡ ok w)
      ↔ ((v : TemplateVersion) × IsPromotable configured i db v × (w ≡ shared_version now v))
unfolding promote_version
promote_version-ok configured now i db w unique =
    promote_found-ok configured now i db unique (get_version i db.versions) w refl

-- In a table with unique ids, if no name stands twice in any session's snapshot, that is still so after
-- a promotion, whatever its outcome.
pub promote_version-HasUniqueNames :
    (configured now i : ℕ) (db : MetaDb)
    → HasUniqueIds db.versions
    → HasUniqueNames db.versions
    → HasUniqueNames (promote_version configured now i db).1.versions
unfolding promote_version
promote_version-HasUniqueNames configured now i db unique u =
    promote_found-HasUniqueNames configured now i db unique (get_version i db.versions) refl u
