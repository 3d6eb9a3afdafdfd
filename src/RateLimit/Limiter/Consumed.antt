-- ===== src/RateLimit/Limiter/Consumed.antt =====
-- What one call of `consume` decides and leaves.
use lux_ledger_demo.Common.{
  ℕ, ◌+◌, ◌*◌, ◌≤◌, ◌<◌, ◌≡◌, ◌≢◌, ◌⊎◌, true, false, some, arith, Text, lookup, text_eq,
  text_eq_iff, lookup-insert_self, lookup-insert_ne, inl, inr, Bool-cases, leb,
}
use lux_ledger_demo.RateLimit.Limiter.{
  EndpointRateLimitConfig, FixedWindowBucket, Buckets, active_bucket, consume,
}

-- The policy under which each key is consumed.
abbrev pub Policies : Type 0
Policies = Text → EndpointRateLimitConfig

-- No bucket has let through more than its key's policy allows.
abbrev pub IsWithinLimit : Policies → Buckets → Type 0
IsWithinLimit policy m =
    (k : Text) (b : FixedWindowBucket) → lookup k m ≡ some b → b.count ≤ (policy k).max_requests

-- A request at another key leaves a key's bucket alone.
pub consume_other :
    (k j : Text) (p : EndpointRateLimitConfig) (now : ℕ) (m : Buckets)
    → k ≢ j
    → lookup j (consume k p now m).1 ≡ lookup j m
unfolding consume
consume_other k j p now m h =
    let active = active_bucket (lookup k m) (p.window_seconds * 1000) now in
    ground (arith, lookup-insert_ne k j (record active { count = active.count + 1 }) m h)

-- What a request at a key leaves in that key's bucket.
pub consume_self :
    (k : Text) (p : EndpointRateLimitConfig) (now : ℕ) (m : Buckets)
    → let active = active_bucket (lookup k m) (p.window_seconds * 1000) now in
      let (d, m') = consume k p now m in
      ((d.allowed ≡ true)
        × (active.count < p.max_requests)
        × (lookup k m' ≡ some (record active { count = active.count + 1 })))
      ⊎ ((d.allowed ≡ false) × (p.max_requests ≤ active.count) × (m' ≡ m))
unfolding consume
consume_self k p now m =
    let active = active_bucket (lookup k m) (p.window_seconds * 1000) now in
    elim (Bool-cases (leb p.max_requests active.count)) [
      | inl full ↦ inr (rw full, ground arith, rw full)
      | inr room ↦ inl (
        rw room,
        ground arith,
        rw room (lookup-insert_self k (record active { count = active.count + 1 }) m),
      )
    ]

consume-IsWithinLimit_self :
    (policy : Policies) (k : Text) (now : ℕ) (m : Buckets) (b : FixedWindowBucket)
    → IsWithinLimit policy m
    → lookup k (consume k (policy k) now m).1 ≡ some b
    → b.count ≤ (policy k).max_requests
consume-IsWithinLimit_self policy k now m b h e =
    ground (arith, consume_self k (policy k) now m, h k b)

-- Every decision keeps every bucket within its key's limit.
pub consume-IsWithinLimit :
    (policy : Policies) (k : Text) (now : ℕ) (m : Buckets)
    → IsWithinLimit policy m
    → IsWithinLimit policy (consume k (policy k) now m).1
consume-IsWithinLimit policy k now m h j b e = elim (Bool-cases (text_eq k j)) [
  | inl same ↦
      let p = (text_eq_iff k j).0 same in
      rw (← p) (consume-IsWithinLimit_self policy k now m b h (rw (← p) at e))
  | inr other ↦
      h j b (rw (consume_other k j (policy k) now m (ground (arith, text_eq_iff k j))) at e)
]
