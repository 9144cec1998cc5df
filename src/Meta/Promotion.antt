-- ===== src/Meta/Promotion.antt =====
-- promotion.py: sharing a private version with everyone. An error leaves the database as it was.
pub mod Sharing
pub mod Tests
use si26_math_animation_john.Meta.Approval.{verified_fixture_count, is_named, enabled_at, named_at}
use si26_math_animation_john.Meta.Models.{MetaDb, TemplateVersion, is_enabled}
use si26_math_animation_john.Base.{
  ℕ, Bool, ◌&&◌, ◌||◌, not, Option, none, some, List, [], ◌∷◌, ltb, ◌==◌, if◌then◌else◌, eq_option,
  count, update,
}

-- The refusals: the exceptions of the file.
pub data Error : Type 0 where
  version_not_found not_promotable evidence name_conflict : Error

pub data Result {ℓ} (A : Type ℓ) : Type ℓ where
  ok : A → Result A
  err : Error → Result A

unfoldable pub get_version : ℕ → List TemplateVersion → Option TemplateVersion
get_version i [] = none
get_version i (v ∷ vs) = if v.id == i then some v else get_version i vs

abbrev pub is_private : TemplateVersion → Bool
is_private v = not (eq_option v.owner_session_id none)

abbrev pub has_version_id : ℕ → TemplateVersion → Bool
has_version_id i v = v.id == i

-- The fixtures are those of the version's draft; a version with no draft has none.
unfoldable pub version_evidence : MetaDb → Option ℕ → ℕ
version_evidence db none = 0
version_evidence db (some draft_id) = verified_fixture_count db draft_id

-- name_taken, privately_held and fingerprint_taken
unfoldable pub name_taken : TemplateVersion → List TemplateVersion → Bool
name_taken v versions = ltb 0 (count (named_at v.template_name none) versions)

abbrev pub is_other_holder : TemplateVersion → TemplateVersion → Bool
is_other_holder v w = is_named v.template_name w && is_private w && not (w.id == v.id)

unfoldable pub privately_held : TemplateVersion → List TemplateVersion → Bool
privately_held v versions = ltb 0 (count (is_other_holder v) versions)

unfoldable pub fingerprint_taken : TemplateVersion → List TemplateVersion → Bool
fingerprint_taken v versions = ltb 0 (count (enabled_at v.fingerprint_key none) versions)

unfoldable pub shared_version : ℕ → TemplateVersion → TemplateVersion
shared_version now v = record v { owner_session_id = none; updated_at = now }

-- What the flush of the changed row meets in the two unique indexes: a second enabled row without an
-- owner, under the same key or the same name.
unfoldable pub share_clashes : TemplateVersion → List TemplateVersion → Bool
share_clashes v versions =
    ltb 1 (count (enabled_at v.fingerprint_key none) versions)
    || ltb 1 (count (named_at v.template_name none) versions)

unfoldable pub promote_row : ℕ → TemplateVersion → MetaDb → Result TemplateVersion × MetaDb
unfolding shared_version
promote_row now v db =
    let versions = update (has_version_id v.id) (shared_version now) db.versions in
    if share_clashes v versions
    then (err name_conflict, db)
    else (ok (shared_version now v), record db { versions = versions })

unfoldable pub promote_found :
    ℕ → ℕ → Option TemplateVersion → MetaDb → Result TemplateVersion × MetaDb
unfolding promote_row
promote_found configured now none db = (err version_not_found, db)
promote_found configured now (some v) db =
    if not (is_enabled v.status)
    then (err not_promotable, db)
    else if not (is_private v)
    then (err not_promotable, db)
    else if ltb (version_evidence db v.draft_id) configured
    then (err evidence, db)
    else if name_taken v db.versions
    then (err name_conflict, db)
    else if privately_held v db.versions
    then (err name_conflict, db)
    else if fingerprint_taken v db.versions
    then (err name_conflict, db)
    else promote_row now v db

unfoldable pub promote_version : ℕ → ℕ → ℕ → MetaDb → Result TemplateVersion × MetaDb
unfolding promote_found
promote_version configured now version_id db =
    promote_found configured now (get_version version_id db.versions) db
