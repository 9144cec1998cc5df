-- ===== src/PptxGuard.antt =====
-- backend/app/pipeline/pptx_guard.py: the preflight of an uploaded archive. The central directory that
-- `zipfile` reads is the argument; `none` is a `BadZipFile`. A member's name is its code points. The
-- code divides the totals as floats; at totals up to the size limit that is the exact comparison here.
use si26_math_animation_john.Base.{
  ℕ, ◌+◌, ◌*◌, ◌%◌, ◌≤◌, ◌≡◌, ◌↔◌, ◌⊎◌, inl, inr, Bool, true, false, ◌&&◌, ◌||◌, Option, none, some,
  List, [], ◌∷◌, arith, ltb, ◌==◌, if◌then◌else◌, length, any, All,
}

abbrev pub max_uncompressed_bytes : ℕ
max_uncompressed_bytes = 200 * 1024 * 1024

abbrev pub max_member_uncompressed : ℕ
max_member_uncompressed = 100 * 1024 * 1024

abbrev pub max_compression_ratio : ℕ
max_compression_ratio = 100

abbrev pub max_member_count : ℕ
max_member_count = 2000

pub record ZipInfo : Type 0 where
  pub filename : List ℕ
  pub flag_bits : ℕ
  pub file_size : ℕ
  pub compress_size : ℕ

pub data Reason : Type 0 where
  not_a_zip too_many_members encrypted suspicious_path member_too_large total_too_large
        ratio_too_high :
      Reason

-- name.replace("\\", "/").split("/"): the component under way comes in reversed
unfoldable pub split_path : List ℕ → List ℕ → List (List ℕ)
split_path part [] = part ∷ []
split_path part (c ∷ cs) =
    let here = split_path [] cs in
    let on = split_path (c ∷ part) cs in if (c == b'/') || (c == b'\\') then part ∷ here else on

abbrev pub is_dotdot : List ℕ → Bool
is_dotdot (a ∷ b ∷ []) = (a == b'.') && (b == b'.')
is_dotdot _ = false

abbrev pub has_root : List ℕ → Bool
has_root [] = false
has_root (c ∷ cs) = (c == b'/') || (c == b'\\')

-- len(name) >= 2 and name[1] == ":"
abbrev pub has_drive : List ℕ → Bool
has_drive (a ∷ b ∷ cs) = b == b':'
has_drive _ = false

abbrev pub is_empty : List ℕ → Bool
is_empty [] = true
is_empty (c ∷ cs) = false

unfoldable pub is_suspicious_path : List ℕ → Bool
is_suspicious_path name =
    is_empty name || has_root name || any is_dotdot (split_path [] name) || has_drive name

abbrev pub is_encrypted : ZipInfo → Bool
is_encrypted i = i.flag_bits % 2 == 1

-- The loop over the members, with the totals so far, and the ratio test after it; `none` accepts.
unfoldable pub check_ratio : ℕ → ℕ → Option Reason
check_ratio uncompressed compressed =
    if ltb 0 compressed && ltb (max_compression_ratio * compressed) uncompressed
    then some ratio_too_high
    else none

unfoldable pub check_members : ℕ → ℕ → List ZipInfo → Option Reason
unfolding check_ratio
check_members uncompressed compressed [] = check_ratio uncompressed compressed
check_members uncompressed compressed (i ∷ infos) =
    let rest = check_members (uncompressed + i.file_size) (compressed + i.compress_size) infos in
    if is_encrypted i
    then some encrypted
    else if is_suspicious_path i.filename
    then some suspicious_path
    else if ltb max_member_uncompressed i.file_size
    then some member_too_large
    else if ltb max_uncompressed_bytes (uncompressed + i.file_size)
    then some total_too_large
    else rest

unfoldable pub inspect_pptx_archive : Option (List ZipInfo) → Option Reason
unfolding check_members
inspect_pptx_archive none = some not_a_zip
inspect_pptx_archive (some infos) =
    if ltb max_member_count (length infos) then some too_many_members else check_members 0 0 infos

abbrev pub sum_of : (ZipInfo → ℕ) → List ZipInfo → ℕ
sum_of f [] = 0
sum_of f (i ∷ infos) = f i + sum_of f infos

-- What a member must be.
abbrev pub IsSafe : ZipInfo → Type 0
IsSafe i =
    (is_encrypted i ≡ false)
    × (is_suspicious_path i.filename ≡ false)
    × (i.file_size ≤ max_member_uncompressed)

-- What an archive must be, from the totals so far.
abbrev pub FitsArchive : ℕ → ℕ → List ZipInfo → Type 0
FitsArchive uncompressed compressed infos =
    All IsSafe infos
    × (uncompressed + sum_of (λ i. i.file_size) infos ≤ max_uncompressed_bytes)
    × ((compressed + sum_of (λ i. i.compress_size) infos ≡ 0)
        ⊎ (uncompressed + sum_of (λ i. i.file_size) infos
            ≤ max_compression_ratio * (compressed + sum_of (λ i. i.compress_size) infos)))

check_members_sound :
    (u c : ℕ) (infos : List ZipInfo)
    → u ≤ max_uncompressed_bytes
    → check_members u c infos ≡ none
    → FitsArchive u c infos
unfolding check_members
check_members_sound u c [] h e = (tt, omega arith, ground arith)
check_members_sound u c (i ∷ infos) h e =
    let rest =
      check_members_sound (u + i.file_size) (c + i.compress_size) infos (ground arith)
        (ground arith) in
    (
      ((ground arith, ground arith, ground arith), rest.0),
      omega arith,
      elim rest.2 [ inl z ↦ inl (omega arith) | inr d ↦ inr (omega arith) ],
    )

check_members_complete :
    (u c : ℕ) (infos : List ZipInfo) → FitsArchive u c infos → check_members u c infos ≡ none
unfolding check_members
check_members_complete u c [] (safe, small, dense) = ground arith
check_members_complete u c (i ∷ infos) (safe, small, dense) =
    let rest =
      check_members_complete (u + i.file_size) (c + i.compress_size) infos (
        safe.1,
        omega arith,
        elim dense [ inl z ↦ inl (omega arith) | inr d ↦ inr (omega arith) ],
      ) in
    ground arith

-- An archive that opens is accepted exactly where it has at most 2000 members, none is encrypted, at a
-- suspicious path or over 100 MB, the sizes sum to at most 200 MB, and to at most a hundred times the
-- compressed sizes, which is not asked where those sum to 0.
pub inspect_pptx_archive-none :
    (infos : List ZipInfo)
    → (inspect_pptx_archive (some infos) ≡ none)
      ↔ ((length infos ≤ max_member_count) × FitsArchive 0 0 infos)
unfolding inspect_pptx_archive
inspect_pptx_archive-none infos = (
  λ e. (ground arith, check_members_sound 0 0 infos (omega arith) (ground arith)),
  λ (few, fits). let done = check_members_complete 0 0 infos fits in ground arith,
)
