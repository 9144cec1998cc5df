-- ===== src/Meta/Approval/Snapshot.antt =====
-- The names that a session sees: the shared enabled versions and its own, under approval.py.
use si26_math_animation_john.Meta.Approval.{
  disable_replaced_versions, disabled_version, is_named, is_enabled, is_replaced, in_scope, publish,
  replaces, Approval, TemplateDraft, MetaDb, is_available, published_owner, name_is_reserved,
  new_template_version, pending_draft, version_clashes, approve_draft_service, approve_found,
  is_refinable, get_draft, is_publishable, is_revoked,
}
use si26_math_animation_john.Meta.Models.{TemplateVersion}
use si26_math_animation_john.Base.{
  ℕ, ◌+◌, ◌≤◌, String, ◌≡◌, subst, inl, inr, Bool, true, false, ◌&&◌, ◌||◌, Option, none, some,
  List, ◌∷◌, arith, ltb, ◌==◌, if◌then◌else◌, eq_option, eq_option→eq, Bool-cases, count,
  count-le-count, count-update-le, count-update-drop, eq_iff,
}

-- The versions that session `s` sees under a name.
abbrev pub seen_as : String → ℕ → TemplateVersion → Bool
seen_as name s v = is_named name v && in_scope (some s) v

abbrev pub HasUniqueNames : List TemplateVersion → Type 0
HasUniqueNames versions = (name : String) (s : ℕ) → count (seen_as name s) versions ≤ 1

disable-le :
    (q : TemplateVersion → Bool) (key : ℕ) (owner : Option ℕ) (shared : Bool) (now : ℕ)
    (versions : List TemplateVersion)
    → ((v : TemplateVersion) → q v ≡ true → is_enabled v.status ≡ true)
    → count q (disable_replaced_versions key owner shared now versions) ≤ count q versions
unfolding disable_replaced_versions disabled_version
disable-le q key owner shared now versions h =
    count-update-le q (is_replaced key owner shared) (disabled_version now) versions
      (λ v p e. ground (arith, h (disabled_version now v)))

-- How the scope of the new version is chosen.
abbrev chosen : Bool → Option ℕ → Option ℕ
chosen shared owner = if shared then none else owner

-- A row that the new version replaces was seen wherever the new version is, and is disabled.
module _ (name : String) (key : ℕ) (owner : Option ℕ) (s : ℕ) (now : ℕ)
    (vs : List TemplateVersion) where
  replaced-drop :
      (shared : Bool)
      → (eq_option (chosen shared owner) none || eq_option (chosen shared owner) (some s)) ≡ true
      → count (seen_as name s) (disable_replaced_versions key owner shared now vs)
          + count (replaces name key (chosen shared owner)) vs
        ≤ count (seen_as name s) vs
  unfolding disable_replaced_versions disabled_version
  replaced-drop true seen =
      count-update-drop (seen_as name s) (is_replaced key owner true) (replaces name key none)
        (disabled_version now) vs (λ v h. ground arith) (λ v h. ground arith)
  replaced-drop false seen =
      count-update-drop (seen_as name s) (is_replaced key owner false) (replaces name key owner)
        (disabled_version now) vs (λ v h. ground arith)
        (λ v h.
          let o : v.owner_session_id ≡ owner =
            eq_option→eq v.owner_session_id owner (ground arith) in
          let seen_row : (eq_option v.owner_session_id none
                || eq_option v.owner_session_id (some s))
              ≡ true =
            rw o seen in
          ground arith)

  unreserved :
      (scope : Option ℕ)
      → (eq_option scope none || eq_option scope (some s)) ≡ true
      → count (λ v. is_named name v && in_scope scope v) vs ≡ 0
      → count (seen_as name s) vs ≡ 0
  unreserved none seen h = omega (
    arith,
    count-le-count (seen_as name s) (λ v. is_named name v && in_scope none v) vs
        (λ v e. ground arith),
  )
  unreserved (some o) seen h =
      let same : o ≡ s = ground arith in subst (λ x. count (seen_as name x) vs ≡ 0) same h

-- One more version, seen by `s` under `name` as it was before or in place of what it replaces.
module _ (a : Approval) (draft : TemplateDraft) (db : MetaDb) (unique : HasUniqueNames db.versions)
    (free : is_available db draft a.template_name (published_owner a) ≡ true) where
  left : List TemplateVersion
  left =
      disable_replaced_versions draft.fingerprint_key a.owner_session_id a.publish_shared a.now
        db.versions

  left-le : (name : String) (s : ℕ) → count (seen_as name s) left ≤ 1
  unfolding left
  left-le name s = omega (
    arith,
    unique name s,
    disable-le (seen_as name s) draft.fingerprint_key a.owner_session_id a.publish_shared a.now
        db.versions (λ v h. ground arith),
  )

  left-none :
      (s : ℕ)
      → (eq_option (published_owner a) none || eq_option (published_owner a) (some s)) ≡ true
      → count (seen_as a.template_name s) left ≡ 0
  unfolding left is_available name_is_reserved
  left-none s seen =
      let le =
        disable-le (seen_as a.template_name s) draft.fingerprint_key a.owner_session_id
          a.publish_shared a.now db.versions (λ v h. ground arith) in
      elim (Bool-cases (
        ltb 0 (
          count (replaces a.template_name draft.fingerprint_key (published_owner a))
            db.versions))) [
              | inl own ↦ ground (
                arith,
                unique a.template_name s,
                replaced-drop a.template_name draft.fingerprint_key a.owner_session_id s a.now
                    db.versions a.publish_shared seen,
              )
              | inr fresh ↦
                  let unheld : count
                        (λ v. is_named a.template_name v && in_scope (published_owner a) v)
                        db.versions
                      ≡ 0 =
                    ground arith in
                  omega (
                    arith,
                    le,
                    unreserved a.template_name draft.fingerprint_key a.owner_session_id s a.now
                        db.versions (published_owner a) seen unheld,
                  )
            ]

  published-HasUniqueNames :
      HasUniqueNames (new_template_version a draft (published_owner a) ∷ left)
  unfolding new_template_version
  published-HasUniqueNames name s =
      elim (Bool-cases (seen_as name s (new_template_version a draft (published_owner a)))) [
        | inr unseen ↦ rw unseen (omega (arith, left-le name s))
        | inl seen ↦
            let named : a.template_name ≡ name = (eq_iff a.template_name name).0 (ground arith) in
            let scoped : (eq_option (published_owner a) none
                  || eq_option (published_owner a) (some s))
                ≡ true =
              ground arith in
            let gone : count (seen_as name s) left ≡ 0 =
              subst (λ n. count (seen_as n s) left ≡ 0) named (left-none s scoped) in
            rw seen (omega arith)
      ]

publish-HasUniqueNames :
    (a : Approval) (draft : TemplateDraft) (db : MetaDb)
    → HasUniqueNames db.versions
    → is_available db draft a.template_name (published_owner a) ≡ true
    → HasUniqueNames (publish a draft (published_owner a) db).1.versions
unfolding publish
publish-HasUniqueNames a draft db unique free =
    elim (Bool-cases (count (pending_draft draft.id) db.drafts == 1)) [
      | inr lost ↦ rw lost unique
      | inl claimed ↦
          rw claimed
            (elim (Bool-cases (
              version_clashes (new_template_version a draft (published_owner a)) (
                disable_replaced_versions draft.fingerprint_key a.owner_session_id a.publish_shared
                  a.now db.versions))) [
                    | inl clash ↦ rw clash unique
                    | inr fits ↦
                        rw fits (unfold left in published-HasUniqueNames a draft db unique free)
                  ])
    ]

approve_found-HasUniqueNames :
    (configured : ℕ) (o : Option TemplateDraft) (a : Approval) (db : MetaDb)
    → HasUniqueNames db.versions
    → HasUniqueNames (approve_found configured o a db).1.versions
unfolding approve_found
approve_found-HasUniqueNames configured none a db unique = unique
approve_found-HasUniqueNames configured (some draft) a db unique =
    elim (Bool-cases (is_refinable draft.status)) [
      | inr settled ↦ rw settled unique
      | inl pending ↦
          rw pending
            (elim (Bool-cases
              (is_publishable configured db draft a.math_semantics_confirmed (published_owner a))) [
                | inr unready ↦ rw unready unique
                | inl ready ↦
                    rw ready
                      (elim (Bool-cases (
                        ltb 0 (
                          count
                            (λ v.
                              (v.fingerprint_key == draft.fingerprint_key) && is_revoked v.status)
                            db.versions))) [
                              | inl vetoed ↦ rw vetoed unique
                              | inr open_key ↦
                                  rw open_key
                                    (elim (Bool-cases
                                      (is_available db draft a.template_name (published_owner a))) [
                                        | inr taken ↦ rw taken unique
                                        | inl free ↦
                                            rw free (publish-HasUniqueNames a draft db unique free)
                                      ])
                            ])
              ])
    ]

-- If in every session's snapshot (the shared enabled versions and its own) no name stands twice, that
-- is still so after an approval, whatever its outcome, for a private version and for a shared one.
pub approve_draft_service-HasUniqueNames :
    (configured : ℕ) (a : Approval) (db : MetaDb)
    → HasUniqueNames db.versions
    → HasUniqueNames (approve_draft_service configured a db).1.versions
unfolding approve_draft_service
approve_draft_service-HasUniqueNames configured a db =
    approve_found-HasUniqueNames configured (get_draft a.draft_id db.drafts) a db
