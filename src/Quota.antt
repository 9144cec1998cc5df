-- ===== src/Quota.antt =====
-- backend/app/quota.py: the three guards in front of every Bedrock call. The settings, the client's
-- address, the clock's hour and day, and whether Redis answers, are arguments. A Redis counter lives
-- past the end of its hour or day, by its TTL, so within one bucket it only grows.
use si26_math_animation_john.Base.{
  ℕ, ◌+◌, ◌-◌, ◌≤◌, ◌<◌, ◌≡◌, Bool, true, false, ◌&&◌, Option, none, some, List, [], ◌∷◌, arith,
  ltb, ◌==◌, if◌then◌else◌, eq_option,
}

pub record Settings : Type 0 where
  pub bedrock_disabled : Bool
  pub bedrock_per_ip_hourly_cap : ℕ
  pub bedrock_daily_call_cap : ℕ

-- The counters by address and hour, and by day.
pub record Counters : Type 0 where
  pub by_ip : ℕ → ℕ → ℕ
  pub by_day : ℕ → ℕ

pub record Call : Type 0 where
  pub client_ip : Option ℕ
  pub hour : ℕ
  pub day : ℕ
  pub ip_reachable : Bool
  pub global_reachable : Bool

pub data Outcome : Type 0 where
  allowed disabled unavailable ip_exceeded global_exceeded : Outcome

unfoldable pub bump_ip : ℕ → ℕ → Counters → Counters
bump_ip ip hour c = record c {
  by_ip = λ i h. if (i == ip) && (h == hour) then c.by_ip i h + 1 else c.by_ip i h;
}

unfoldable pub bump_day : ℕ → Counters → Counters
bump_day day c = record c { by_day = λ d. if d == day then c.by_day d + 1 else c.by_day d }

-- L3, the global daily cap
unfoldable pub enforce_global : Settings → Call → Counters → Outcome × Counters
enforce_global s k c =
    if ltb 0 s.bedrock_daily_call_cap
    then (if k.global_reachable
        then (let c' = bump_day k.day c in
            (
              if ltb s.bedrock_daily_call_cap (c'.by_day k.day) then global_exceeded else allowed,
              c',
            ))
        else (unavailable, c))
    else (allowed, c)

-- L2, the hourly cap of one address, and what follows where it is passed
unfoldable pub enforce_ip : Settings → Call → ℕ → Counters → Outcome × Counters
enforce_ip s k ip c =
    if k.ip_reachable
    then (let c' = bump_ip ip k.hour c in
        if ltb s.bedrock_per_ip_hourly_cap (c'.by_ip ip k.hour)
        then (ip_exceeded, c')
        else enforce_global s k c')
    else (unavailable, c)

unfoldable pub from_ip : Settings → Call → Option ℕ → Counters → Outcome × Counters
from_ip s k none c = enforce_global s k c
from_ip s k (some ip) c =
    if ltb 0 s.bedrock_per_ip_hourly_cap then enforce_ip s k ip c else enforce_global s k c

unfoldable pub enforce_bedrock_quota : Settings → Call → Counters → Outcome × Counters
unfolding from_ip
enforce_bedrock_quota s k c =
    if s.bedrock_disabled then (disabled, c) else from_ip s k k.client_ip c

abbrev pub is_allowed : Outcome → Bool
is_allowed allowed = true
is_allowed _ = false

-- How many of the calls of one day are allowed, and of one address and hour.
unfoldable pub allowed_on : Settings → ℕ → List Call → Counters → ℕ
allowed_on s day [] c = 0
allowed_on s day (k ∷ ks) c =
    let (o, c') = enforce_bedrock_quota s k c in
    (if is_allowed o && (k.day == day) then 1 else 0) + allowed_on s day ks c'

unfoldable pub allowed_from : Settings → ℕ → ℕ → List Call → Counters → ℕ
allowed_from s ip hour [] c = 0
allowed_from s ip hour (k ∷ ks) c =
    let (o, c') = enforce_bedrock_quota s k c in
    (if is_allowed o && eq_option k.client_ip (some ip) && (k.hour == hour) then 1 else 0)
    + allowed_from s ip hour ks c'

-- One call, allowed for the day, uses up what is left of the day's budget by one.
global-day :
    (s : Settings) (k : Call) (c : Counters) (day : ℕ)
    → 0 < s.bedrock_daily_call_cap
    → (if is_allowed (enforce_global s k c).0 && (k.day == day) then 1 else 0)
        + (s.bedrock_daily_call_cap - (enforce_global s k c).1.by_day day)
      ≤ s.bedrock_daily_call_cap - c.by_day day
unfolding enforce_global bump_day
global-day s k c day h = ground arith

ip-day :
    (s : Settings) (k : Call) (ip : ℕ) (c : Counters) (day : ℕ)
    → 0 < s.bedrock_daily_call_cap
    → (if is_allowed (enforce_ip s k ip c).0 && (k.day == day) then 1 else 0)
        + (s.bedrock_daily_call_cap - (enforce_ip s k ip c).1.by_day day)
      ≤ s.bedrock_daily_call_cap - c.by_day day
unfolding enforce_ip bump_ip
ip-day s k ip c day h = let spent = global-day s k (bump_ip ip k.hour c) day h in ground arith

from_ip-day :
    (s : Settings) (k : Call) (o : Option ℕ) (c : Counters) (day : ℕ)
    → 0 < s.bedrock_daily_call_cap
    → (if is_allowed (from_ip s k o c).0 && (k.day == day) then 1 else 0)
        + (s.bedrock_daily_call_cap - (from_ip s k o c).1.by_day day)
      ≤ s.bedrock_daily_call_cap - c.by_day day
unfolding from_ip
from_ip-day s k none c day h = global-day s k c day h
from_ip-day s k (some ip) c day h =
    let spent = global-day s k c day h in let taken = ip-day s k ip c day h in ground arith

call-day :
    (s : Settings) (k : Call) (c : Counters) (day : ℕ)
    → 0 < s.bedrock_daily_call_cap
    → (if is_allowed (enforce_bedrock_quota s k c).0 && (k.day == day) then 1 else 0)
        + (s.bedrock_daily_call_cap - (enforce_bedrock_quota s k c).1.by_day day)
      ≤ s.bedrock_daily_call_cap - c.by_day day
unfolding enforce_bedrock_quota
call-day s k c day h = let from = from_ip-day s k k.client_ip c day h in ground arith

-- With a daily cap set, whatever calls arrive and in whatever order, no more calls are allowed on a day
-- than the cap less what the day's counter already stands at.
pub allowed_on-within :
    (s : Settings) (day : ℕ) (ks : List Call) (c : Counters)
    → 0 < s.bedrock_daily_call_cap
    → allowed_on s day ks c ≤ s.bedrock_daily_call_cap - c.by_day day
unfolding allowed_on
allowed_on-within s day [] c h = ground arith
allowed_on-within s day (k ∷ ks) c h =
    let rest = allowed_on-within s day ks (enforce_bedrock_quota s k c).1 h in
    let spent = call-day s k c day h in omega arith

from_ip-rejected :
    (s : Settings) (k : Call) (o : Option ℕ) (c : Counters) (day : ℕ)
    → (from_ip s k o c).0 ≡ ip_exceeded
    → (from_ip s k o c).1.by_day day ≡ c.by_day day
unfolding from_ip enforce_ip enforce_global bump_ip
from_ip-rejected s k none c day e = ground arith
from_ip-rejected s k (some ip) c day e = ground arith

-- A call rejected by its address's cap takes nothing from any day's budget.
pub ip_exceeded-by_day :
    (s : Settings) (k : Call) (c : Counters) (day : ℕ)
    → (enforce_bedrock_quota s k c).0 ≡ ip_exceeded
    → (enforce_bedrock_quota s k c).1.by_day day ≡ c.by_day day
unfolding enforce_bedrock_quota
ip_exceeded-by_day s k c day e = let from = from_ip-rejected s k k.client_ip c day in ground arith
