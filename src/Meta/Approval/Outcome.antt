-- ===== src/Meta/Approval/Outcome.antt =====
-- What an approval demands and leaves behind.
use si26_math_animation_john.Meta.Approval.{
  Approval, publish, record_review, approved_draft, MetaDb, TemplateVersion, TemplateDraft,
  DraftStatus, is_refinable, required_fixture_count, pending_draft, published_owner,
  verified_fixture_count, is_revoked, new_template_version, enabled_at, named_at, is_publishable,
  ok, version_clashes, disable_replaced_versions, is_enabled, approve_found, approve_draft_service,
  err, is_available, draft_not_approvable,
}
use si26_math_animation_john.Meta.Approval.Evidence.{
  IsCurrent, IsForRuntime, is_current-IsCurrent, is_for_runtime-IsForRuntime,
}
use si26_math_animation_john.Meta.ReviewActions.{record_review, get_draft}
use si26_math_animation_john.Base.{
  ℕ, ◌≤◌, ◌≡◌, refl, sym, subst, inl, inr, true, false, ◌&&◌, Option, none, some, List, [], ◌∷◌,
  arith, ltb, ◌==◌, eq_option_refl, Bool-cases, count, update, str_eq, eq_iff,
}

-- What an approval that returns a version has checked and done.
pub record IsApproved (configured : ℕ) (a : Approval) (db : MetaDb) (v : TemplateVersion)
    (db' : MetaDb) : Type 0 where
  pub draft : TemplateDraft
  pub found : get_draft a.draft_id db.drafts ≡ some draft
  pub pending : draft.status ≡ DraftStatus.pending_review
  pub confirmed : a.math_semantics_confirmed ≡ true
  pub validated : IsCurrent draft.artifact_hash draft.validation_report
  pub of_good_quality : IsCurrent draft.artifact_hash draft.quality_report
  pub for_runtime : IsForRuntime draft.predicate_count draft.validation_report
  pub evidence :
      required_fixture_count configured db draft (published_owner a)
      ≤ verified_fixture_count db draft.id
  pub unrevoked :
      count (λ w. (w.fingerprint_key == draft.fingerprint_key) && is_revoked w.status) db.versions
      ≡ 0
  pub version : v ≡ new_template_version a draft (published_owner a)
  pub sole_at_key : count (enabled_at draft.fingerprint_key (published_owner a)) db'.versions ≡ 1
  pub sole_of_name : count (named_at a.template_name (published_owner a)) db'.versions ≡ 1
  pub draft_done : get_draft a.draft_id db'.drafts ≡ some (approved_draft a.now draft)

get_draft-approved :
    (i now : ℕ) (ds : List TemplateDraft) (d : TemplateDraft)
    → get_draft i ds ≡ some d
    → is_refinable d.status ≡ true
    → (d.id ≡ i)
      × (get_draft i (update (pending_draft i) (approved_draft now) ds)
          ≡ some (approved_draft now d))
unfolding get_draft approved_draft
get_draft-approved i now [] d e p = absurd (ground arith)
get_draft-approved i now (x ∷ xs) d e p = elim (Bool-cases (x.id == i)) [
  | inl hit ↦ ground arith
  | inr miss ↦ let rest = get_draft-approved i now xs d (rw miss at e) p in ground arith
]

sole :
    (v : TemplateVersion) (vs : List TemplateVersion)
    → is_enabled v.status ≡ true
    → version_clashes v vs ≡ false
    → (count (enabled_at v.fingerprint_key v.owner_session_id) (v ∷ vs) ≡ 1)
      × (count (named_at v.template_name v.owner_session_id) (v ∷ vs) ≡ 1)
unfolding version_clashes
sole v vs on free =
    let own = eq_option_refl v.owner_session_id in
    let same : str_eq v.template_name v.template_name ≡ true =
      (eq_iff v.template_name v.template_name).1 refl in
    (ground arith, ground arith)

publish-IsApproved :
    (configured : ℕ) (a : Approval) (draft : TemplateDraft) (db : MetaDb) (v : TemplateVersion)
    → get_draft a.draft_id db.drafts ≡ some draft
    → draft.status ≡ DraftStatus.pending_review
    → is_publishable configured db draft a.math_semantics_confirmed (published_owner a) ≡ true
    → count (λ w. (w.fingerprint_key == draft.fingerprint_key) && is_revoked w.status) db.versions
      ≡ 0
    → (publish a draft (published_owner a) db).0 ≡ ok v
    → IsApproved configured a db v (publish a draft (published_owner a) db).1
unfolding publish record_review new_template_version
publish-IsApproved configured a draft db v found pending ready unrevoked h =
    elim (Bool-cases (count (pending_draft draft.id) db.drafts == 1)) [
      | inr lost ↦ absurd (ground arith)
      | inl claimed ↦
          elim (Bool-cases (
            version_clashes (new_template_version a draft (published_owner a)) (
              disable_replaced_versions draft.fingerprint_key a.owner_session_id a.publish_shared
                a.now db.versions))) [
                  | inl clash ↦ absurd (ground arith)
                  | inr fits ↦
                      rw (claimed, fits)
                        (let done =
                            get_draft-approved a.draft_id a.now db.drafts draft found
                              (rw pending) in
                          let alone =
                            sole (new_template_version a draft (published_owner a))
                              (disable_replaced_versions draft.fingerprint_key a.owner_session_id
                                a.publish_shared a.now db.versions)
                              refl fits in
                          record {
                            draft = draft;
                            found = found;
                            pending = pending;
                            confirmed = unfold is_publishable in ground arith;
                            validated =
                                is_current-IsCurrent draft.validation_report draft.artifact_hash
                                  (unfold is_publishable in ground arith);
                            of_good_quality =
                                is_current-IsCurrent draft.quality_report draft.artifact_hash
                                  (unfold is_publishable in ground arith);
                            for_runtime =
                                is_for_runtime-IsForRuntime draft.validation_report
                                  draft.predicate_count (unfold is_publishable in ground arith);
                            evidence = unfold is_publishable in ground arith;
                            unrevoked = unrevoked;
                            version = ground arith;
                            sole_at_key = alone.0;
                            sole_of_name = alone.1;
                            draft_done =
                                subst
                                  (λ i.
                                    get_draft a.draft_id
                                      (update (pending_draft i) (approved_draft a.now) db.drafts)
                                    ≡ some (approved_draft a.now draft))
                                  (sym done.0) done.1;
                          })
                ]
    ]

approve_found-IsApproved :
    (configured : ℕ) (o : Option TemplateDraft) (a : Approval) (db : MetaDb) (v : TemplateVersion)
    → get_draft a.draft_id db.drafts ≡ o
    → (approve_found configured o a db).0 ≡ ok v
    → IsApproved configured a db v (approve_found configured o a db).1
unfolding approve_found
approve_found-IsApproved configured none a db v e h = absurd (ground arith)
approve_found-IsApproved configured (some draft) a db v e h =
    elim (Bool-cases (is_refinable draft.status)) [
      | inr settled ↦ absurd (ground arith)
      | inl pending ↦
          elim (Bool-cases
            (is_publishable configured db draft a.math_semantics_confirmed (published_owner a))) [
              | inr unready ↦ absurd (ground arith)
              | inl ready ↦
                  elim (Bool-cases (
                    ltb 0 (
                      count
                        (λ v. (v.fingerprint_key == draft.fingerprint_key) && is_revoked v.status)
                        db.versions))) [
                          | inl vetoed ↦ absurd (ground arith)
                          | inr open_key ↦
                              elim (Bool-cases
                                (is_available db draft a.template_name (published_owner a))) [
                                  | inr taken ↦ absurd (ground arith)
                                  | inl free ↦
                                      rw (pending, ready, open_key, free)
                                        (publish-IsApproved configured a draft db v e (ground arith)
                                          ready (ground arith) (ground arith))
                                ]
                        ]
            ]
    ]

-- An approval that returns a version found the draft pending and confirmed, with a validation report
-- and a quality report that both passed and are of the draft's own artifact, the former by the running
-- compiler and renderer versions and covering exactly the predicates of its guard, with as many verified
-- observations as its publication scope demands, and no revoked version of its key. The version is the
-- only enabled one of its key and of its name in that scope, and the draft is approved.
pub approve_draft_service-IsApproved :
    (configured : ℕ) (a : Approval) (db : MetaDb) (v : TemplateVersion)
    → (approve_draft_service configured a db).0 ≡ ok v
    → IsApproved configured a db v (approve_draft_service configured a db).1
unfolding approve_draft_service
approve_draft_service-IsApproved configured a db v h =
    approve_found-IsApproved configured (get_draft a.draft_id db.drafts) a db v refl h

approve_settled :
    (configured : ℕ) (o : Option TemplateDraft) (d : TemplateDraft) (a : Approval) (db : MetaDb)
    → o ≡ some d
    → is_refinable d.status ≡ false
    → approve_found configured o a db ≡ (err draft_not_approvable, db)
unfolding approve_found
approve_settled configured o d a db e h = rw (e, h)

-- A draft is approved once: after an approval that returned a version, any later approval of the same
-- draft is refused as not approvable and changes nothing.
pub approve_draft_service-once :
    (configured : ℕ) (a b : Approval) (db : MetaDb) (v : TemplateVersion)
    → (approve_draft_service configured a db).0 ≡ ok v
    → b.draft_id ≡ a.draft_id
    → approve_draft_service configured b (approve_draft_service configured a db).1
      ≡ (err draft_not_approvable, (approve_draft_service configured a db).1)
unfolding approve_draft_service approved_draft
approve_draft_service-once configured a b db v h same =
    let done = approve_found-IsApproved configured (get_draft a.draft_id db.drafts) a db v refl h in
    let db' = (approve_found configured (get_draft a.draft_id db.drafts) a db).1 in
    approve_settled configured (get_draft b.draft_id db'.drafts) (approved_draft a.now done.draft) b
      db'
      (subst (λ i. get_draft i db'.drafts ≡ some (approved_draft a.now done.draft)) (sym same)
        done.draft_done)
      refl
