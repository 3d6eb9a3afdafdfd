-- ===== src/RateLimit/Limiter/Retry.antt =====
-- What a denied request is told to wait.
use lux_ledger_demo.Common.{
  ℕ, ◌+◌, ◌*◌, ◌<◌, ◌≡◌, false, arith, Text, lookup, leb, inl, inr, Option-cases, Bool-cases, ◌≤◌,
}
use lux_ledger_demo.RateLimit.Limiter.{EndpointRateLimitConfig, Buckets, active_bucket, consume}

-- The whole seconds that are told are the least that suffice, under a limit above zero: when the
-- same key asks again after `n` seconds, with no request of that key in between, it is allowed
-- exactly if `n` is at least the number told.
pub retry_after_exact :
    (key : Text) (policy : EndpointRateLimitConfig) (now n : ℕ) (buckets : Buckets)
    → 0 < policy.max_requests
    → (consume key policy now buckets).0.allowed ≡ false
    → let (d, after) = consume key policy now buckets in
      (consume key policy (now + n * 1000) after).0.allowed ≡ leb d.retry_after_seconds n
unfolding consume active_bucket
retry_after_exact key policy now n buckets some_room denied =
    elim (Option-cases (lookup key buckets)) [ inl e ↦ ground arith | inr (b, e) ↦ ground arith ]

-- A denial stores nothing and tells to wait for at least a second.
pub consume-denied :
    (key : Text) (policy : EndpointRateLimitConfig) (now : ℕ) (buckets : Buckets)
    → (consume key policy now buckets).0.allowed ≡ false
    → ((consume key policy now buckets).1 ≡ buckets)
      × (1 ≤ (consume key policy now buckets).0.retry_after_seconds)
unfolding consume
consume-denied key policy now buckets denied =
    let active = active_bucket (lookup key buckets) (policy.window_seconds * 1000) now in
    elim (Bool-cases (leb policy.max_requests active.count)) [
      | inl full ↦ (rw full, rw full (omega arith))
      | inr room ↦ ground arith
    ]
