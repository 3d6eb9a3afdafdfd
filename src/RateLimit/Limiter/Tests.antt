-- ===== src/RateLimit/Limiter/Tests.antt =====
-- Two requests per second.
use lux_ledger_demo.Common.{
  ◌+◌, ◌*◌, ◌≤◌, ◌≡◌, refl, min, List, [], ◌∷◌, arith, Text, codes, leb, lookup, text_eq,
}
use lux_ledger_demo.RateLimit.Limiter.{EndpointRateLimitConfig, Buckets, active_bucket, consume}
use lux_ledger_demo.RateLimit.Limiter.Bounds.{
  Request, admitted, requested, admitted_exactly, admitted-le-double,
}
use lux_ledger_demo.RateLimit.Limiter.Consumed.{Policies}
use lux_ledger_demo.RateLimit.Limiter.Retry.{retry_after_exact}

abbrev two_a_second : EndpointRateLimitConfig
two_a_second = record { max_requests = 2; window_seconds = 1 }

abbrev policies : Policies
policies k = two_a_second

abbrev key : Text
key = codes "write:a"

abbrev burst : List Request
burst = (key, 1200) ∷ (codes "write:b", 1300) ∷ (key, 1400) ∷ (key, 1999) ∷ []

admitted_exactly_example :
    admitted policies key ((key, 1000) ∷ burst) []
    ≡ min 2 (requested policies key ((key, 1000) ∷ burst))
unfolding lookup
admitted_exactly_example =
    admitted_exactly policies key 1000 burst [] (λ b e. absurd (ground arith))
      ((λ e. omega arith), ((λ e. omega arith), ((λ e. omega arith), ((λ e. omega arith), tt))))

admitted-le-double_example : admitted policies key burst [] ≤ 2 * 2
admitted-le-double_example =
    admitted-le-double policies key 1200 burst []
      ((λ e. omega arith), ((λ e. omega arith), ((λ e. omega arith), ((λ e. omega arith), tt))))
      ((λ e. omega arith), ((λ e. omega arith), ((λ e. omega arith), ((λ e. omega arith), tt))))

-- The bucket of the key is full.
abbrev full : Buckets
full = (key, record { window_start_ms = 1000; count = 2 }) ∷ []

retry_after_exact_example :
    (consume key two_a_second (1300 + 1 * 1000) (consume key two_a_second 1300 full).1).0.allowed
    ≡ leb (consume key two_a_second 1300 full).0.retry_after_seconds 1
unfolding consume active_bucket lookup text_eq
retry_after_exact_example = retry_after_exact key two_a_second 1300 1 full (omega arith) refl
