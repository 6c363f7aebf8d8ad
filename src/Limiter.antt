-- ===== src/Limiter.antt =====
-- `InMemoryLimiter` of app/services/rate_limiter.py, with the limits of the plans: a sliding window
-- over the times of the calls that were let through. A time of the monotonic clock is a number of
-- microseconds. `RedisSlidingWindowLimiter` runs a Lua script inside Redis and is not in the model.
pub mod Window
mod Tests
use text.Mathlib.Text.{◌==◌ as str_eq}
use omni_crm_backend.Prelude.{
  ℕ, ◌+◌, ◌-◌, ◌/◌, max, String, Bool, true, false, Option, none, some, List, [], ◌∷◌, Outcome, ok,
  err, seconds, leb, if◌then◌else◌, length, insert,
}

pub record LimitResult : Type 0 where
  pub allowed : Bool
  pub retry_after : ℕ

-- `events[0]` of an empty deque
pub data LimiterError : Type 0 where
  index_error : LimiterError

-- while events and events[0] <= now - window: events.popleft()
pub expire : ℕ → ℕ → List ℕ → List ℕ
expire window now [] = []
expire window now (t ∷ ts) =
    let rest = expire window now ts in if leb (t + window) now then rest else t ∷ ts

refuse : ℕ → ℕ → List ℕ → Outcome LimiterError LimitResult × List ℕ
refuse window now [] = (err index_error, [])
refuse window now (t ∷ ts) =
    (ok (record { allowed = false; retry_after = max 1 ((t + window - now) / seconds 1) }), t ∷ ts)

decide : ℕ → ℕ → ℕ → List ℕ → Outcome LimiterError LimitResult × List ℕ
unfolding refuse
decide limit window now events =
    if leb limit (length events)
    then refuse window now events
    else (ok (record { allowed = true; retry_after = 0 }), insert now events)

-- The deque of one key; `window_seconds` is a whole number of seconds.
unfoldable pub check_limit : ℕ → ℕ → ℕ → List ℕ → Outcome LimiterError LimitResult × List ℕ
unfolding decide expire
check_limit limit window_seconds now events =
    decide limit (seconds window_seconds) now (expire (seconds window_seconds) now events)

-- The deques of all keys.
abbrev pub Events : Type 0
Events = String → List ℕ

pub check_key : String → ℕ → ℕ → ℕ → Events → Outcome LimiterError LimitResult × Events
check_key key limit window_seconds now events =
    let (result, own) = check_limit limit window_seconds now (events key) in
    (result, λ k. if str_eq k key then own else events k)

pub record PlanLimits : Type 0 where
  pub http_per_minute : ℕ
  pub provider_per_minute : ℕ

-- PLAN_LIMITS.get(plan_code or "free", PLAN_LIMITS["free"])
pub plan_limits : String → PlanLimits
plan_limits plan_code =
    if str_eq plan_code "starter"
    then record { http_per_minute = 120; provider_per_minute = 60 }
    else if str_eq plan_code "pro"
    then record { http_per_minute = 600; provider_per_minute = 240 }
    else record { http_per_minute = 60; provider_per_minute = 20 }

abbrev pub limits_for_plan : Option String → PlanLimits
unfolding plan_limits
limits_for_plan none = plan_limits "free"
limits_for_plan (some plan_code) = plan_limits plan_code

-- `key` is the text "provider:{tenant_id}:{provider}".
pub check_provider_limit :
    String → Option String → ℕ → Events → Outcome LimiterError LimitResult × Events
check_provider_limit key plan_code =
    check_key key (limits_for_plan plan_code).provider_per_minute 60
