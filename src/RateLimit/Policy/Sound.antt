-- ===== src/RateLimit/Policy/Sound.antt =====
-- What the limits that are accepted hold.
use lux_ledger_demo.Common.{ℕ, ◌≤◌, ◌≡◌, Option, Text, codes, arith, inl, inr}
use lux_ledger_demo.Common.Int.{ℤ, pos, pos_part}
use lux_ledger_demo.Config.{out_of_range, read, Read-cases, ProcessEnv, parse_integer-from}
use lux_ledger_demo.RateLimit.Limiter.{EndpointRateLimitConfig}
use lux_ledger_demo.RateLimit.Policy.{
  RateLimitConfig, parse_positive_integer, parse_rate_limit_config,
}

abbrev pub IsPositive : EndpointRateLimitConfig → Type 0
IsPositive policy = (1 ≤ policy.max_requests) × (1 ≤ policy.window_seconds)

positive :
    (to_integer : Text → Option ℤ) (value : Option Text) (name : Text) (d : ℕ) (n : ℤ)
    → 1 ≤ d
    → parse_positive_integer to_integer value name d ≡ read n
    → 1 ≤ pos_part n
positive to_integer value name d n h e =
    let from =
      parse_integer-from to_integer value (pos 1) (pos d) (out_of_range name) n (omega (arith, h))
        e in
    omega (arith, from)

-- Whatever the environment holds: if the limits are read from it, each lets at least one request
-- through in a window of at least one second.
pub parse_rate_limit_config-ArePositive :
    (to_integer : Text → Option ℤ) (env : ProcessEnv) (config : RateLimitConfig)
    → parse_rate_limit_config to_integer env ≡ read config
    → IsPositive config.auth_token × IsPositive config.write
unfolding parse_rate_limit_config
parse_rate_limit_config-ArePositive to_integer env config e =
    let name1 = codes "RATE_LIMIT_AUTH_TOKEN_MAX_REQUESTS" in
    let name2 = codes "RATE_LIMIT_AUTH_TOKEN_WINDOW_SECONDS" in
    let name3 = codes "RATE_LIMIT_WRITE_MAX_REQUESTS" in
    let name4 = codes "RATE_LIMIT_WRITE_WINDOW_SECONDS" in
    elim (Read-cases (parse_positive_integer to_integer (env name1) name1 20)) [
      | inr (_, e1) ↦ ground arith
      | inl (a, e1) ↦ elim (Read-cases (parse_positive_integer to_integer (env name2) name2 60)) [
        | inr (_, e2) ↦ ground arith
        | inl (b, e2) ↦
            elim (Read-cases (parse_positive_integer to_integer (env name3) name3 120)) [
              | inr (_, e3) ↦ ground arith
              | inl (c, e3) ↦
                  elim (Read-cases (parse_positive_integer to_integer (env name4) name4 60)) [
                    | inr (_, e4) ↦ ground arith
                    | inl (d, e4) ↦
                        let made : config ≡ record {
                          auth_token = record {
                            max_requests = pos_part a;
                            window_seconds = pos_part b;
                          };
                          write = record { max_requests = pos_part c; window_seconds = pos_part d };
                        } =
                          ground arith in
                        rw made (
                          (
                            positive to_integer (env name1) name1 20 a (omega arith) e1,
                            positive to_integer (env name2) name2 60 b (omega arith) e2,
                          ),
                          (
                            positive to_integer (env name3) name3 120 c (omega arith) e3,
                            positive to_integer (env name4) name4 60 d (omega arith) e4,
                          ),
                        )
                  ]
            ]
      ]
    ]
