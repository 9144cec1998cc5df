-- ===== src/Tests.antt =====
-- Examples of the theorems on uploads and on quotas.
use si26_math_animation_john.Quota.{Counters, allowed_on, Settings, allowed_on-within, Call}
use si26_math_animation_john.PptxGuard.{
  ZipInfo, inspect_pptx_archive, max_member_count, FitsArchive, inspect_pptx_archive-none,
}
use si26_math_animation_john.Base.{
  ℕ, ◌≤◌, ◌≡◌, ◌↔◌, true, false, none, some, [], ◌∷◌, arith, length,
}

abbrev slide : ZipInfo
slide = record {
  filename = b'a' ∷ b'/' ∷ b'b' ∷ [];
  flag_bits = 0;
  file_size = 1000;
  compress_size = 100;
}

inspect_pptx_archive-none_example :
    (inspect_pptx_archive (some (slide ∷ [])) ≡ none)
    ↔ ((length (slide ∷ []) ≤ max_member_count) × FitsArchive 0 0 (slide ∷ []))
inspect_pptx_archive-none_example = inspect_pptx_archive-none (slide ∷ [])

abbrev caps : Settings
caps = record {
  bedrock_disabled = false;
  bedrock_per_ip_hourly_cap = 1;
  bedrock_daily_call_cap = 2;
}

abbrev call_at : ℕ → Call
call_at ip = record {
  client_ip = some ip;
  hour = 3;
  day = 1;
  ip_reachable = true;
  global_reachable = true;
}

abbrev fresh : Counters
fresh = record { by_ip = λ i h. 0; by_day = λ d. 0 }

allowed_on-within_example : allowed_on caps 1 (call_at 1 ∷ call_at 2 ∷ call_at 3 ∷ []) fresh ≤ 2
allowed_on-within_example =
    allowed_on-within caps 1 (call_at 1 ∷ call_at 2 ∷ call_at 3 ∷ []) fresh (omega arith)

abbrev spent : Counters
spent = record fresh { by_ip = λ i h. 1 }
