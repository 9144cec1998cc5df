-- ===== src/Meta/Promotion/Tests.antt =====
-- Examples of the promotion theorems: one private version with no evidence asked for.
use si26_math_animation_john.Meta.Models.{VersionStatus}
use si26_math_animation_john.Meta.Promotion.Sharing.{
  promote_version-HasUniqueNames, IsPromotable, promote_version-ok,
}
use si26_math_animation_john.Meta.Approval.Snapshot.{HasUniqueNames}
use si26_math_animation_john.Meta.Promotion.{
  ok, promote_version, TemplateVersion, MetaDb, shared_version,
}
use si26_math_animation_john.Base.{◌≡◌, ◌↔◌, none, some, [], ◌∷◌, arith}

abbrev own_version : TemplateVersion
own_version = record {
  id = 50;
  fingerprint_key = 7;
  template_name = "tape_diagram";
  draft_id = none;
  artifact_hash = 77;
  status = VersionStatus.enabled;
  owner_session_id = some 4;
  created_at = 20;
  updated_at = 20;
}

abbrev private_db : MetaDb
private_db = record {
  jobs = [];
  versions = own_version ∷ [];
  observations = [];
  tags = [];
  drafts = [];
  fixtures = [];
  reviews = [];
}

promote_version-ok_example :
    ((promote_version 0 100 50 private_db).0 ≡ ok (shared_version 100 own_version)) ↔ (
      (v : TemplateVersion) × IsPromotable 0 50 private_db v
      × (shared_version 100 own_version ≡ shared_version 100 v))
promote_version-ok_example =
    promote_version-ok 0 100 50 private_db (shared_version 100 own_version) (λ i. ground arith)

promote_version-HasUniqueNames_example :
    HasUniqueNames (promote_version 0 100 50 private_db).1.versions
promote_version-HasUniqueNames_example =
    promote_version-HasUniqueNames 0 100 50 private_db (λ i. ground arith) (λ name s. ground arith)
