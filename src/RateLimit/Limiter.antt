-- ===== src/RateLimit/Limiter.antt =====
-- The fixed-window limiter, apps/api/src/api/rate-limit/fixed-window-limiter.ts, and the two
-- numbers of an endpoint's policy from policy.ts beside it. Times are in milliseconds. JavaScript
-- numbers are exact up to 2 ^ 53, which no clock value or count here reaches.
pub mod Consumed
pub mod Bounds
pub mod Retry
mod Tests
use lux_ledger_demo.Common.{
  ℕ, ◌+◌, ◌-◌, ◌*◌, ◌/◌, max, Bool, true, false, Option, none, some, Text, Dict, lookup, insert,
  leb, if◌then◌else◌,
}

pub record EndpointRateLimitConfig : Type 0 where
  pub max_requests : ℕ
  pub window_seconds : ℕ

pub record FixedWindowBucket : Type 0 where
  pub window_start_ms : ℕ
  pub count : ℕ

pub record RateLimitDecision : Type 0 where
  pub allowed : Bool
  pub retry_after_seconds : ℕ

-- The Map of the class, from keys to buckets.
abbrev pub Buckets : Type 0
Buckets = Dict FixedWindowBucket

-- `current` if its window is still open at `now_ms`, and a new bucket otherwise.
pub active_bucket : Option FixedWindowBucket → ℕ → ℕ → FixedWindowBucket
active_bucket none window_ms now_ms = record { window_start_ms = now_ms; count = 0 }
active_bucket (some current) window_ms now_ms =
    if leb (current.window_start_ms + window_ms) now_ms
    then record { window_start_ms = now_ms; count = 0 }
    else current

-- Math.ceil(n / d)
abbrev ceil_div : ℕ → ℕ → ℕ
ceil_div n d = (n + (d - 1)) / d

-- In the branch that divides, `now_ms` is below the window's end, so the difference is exact.
unfoldable pub consume : Text → EndpointRateLimitConfig → ℕ → Buckets → RateLimitDecision × Buckets
unfolding active_bucket
consume key policy now_ms buckets =
    let window_ms = policy.window_seconds * 1000 in
    let active = active_bucket (lookup key buckets) window_ms now_ms in
    if leb policy.max_requests active.count
    then (
      record {
        allowed = false;
        retry_after_seconds = max 1 (ceil_div (active.window_start_ms + window_ms - now_ms) 1000);
      },
      buckets,
    )
    else (
      record { allowed = true; retry_after_seconds = 0 },
      insert key (record active { count = active.count + 1 }) buckets,
    )
