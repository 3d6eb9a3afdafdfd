-- ===== src/RateLimit/Policy.antt =====
-- The settings of the rate limits, apps/api/src/api/rate-limit/policy.ts.
pub mod Sound
mod Tests
use lux_ledger_demo.Common.{ℕ, Option, none, some, Text, codes}
use lux_ledger_demo.Common.Int.{ℤ, pos, pos_part}
use lux_ledger_demo.Config.{
  ConfigError, out_of_range, Read, read, failed, ◌>>=◌, ProcessEnv, parse_integer_within_range,
}
use lux_ledger_demo.RateLimit.Limiter.{EndpointRateLimitConfig}

pub record RateLimitConfig : Type 0 where
  pub auth_token : EndpointRateLimitConfig
  pub write : EndpointRateLimitConfig

module _ (to_integer : Text → Option ℤ) where
  abbrev pub parse_positive_integer : Option Text → Text → ℕ → Read ℤ
  parse_positive_integer value name default_value =
      parse_integer_within_range to_integer value (record {
        default_value = pos default_value;
        min_value = some (pos 1);
        max_value = none;
        error = out_of_range name;
      })

  -- The numbers are above 0, so that `pos_part` keeps them.
  unfoldable pub parse_rate_limit_config : ProcessEnv → Read RateLimitConfig
  parse_rate_limit_config env = do
    token_max ←
        parse_positive_integer (env (codes "RATE_LIMIT_AUTH_TOKEN_MAX_REQUESTS"))
          (codes "RATE_LIMIT_AUTH_TOKEN_MAX_REQUESTS") 20
    token_window ←
        parse_positive_integer (env (codes "RATE_LIMIT_AUTH_TOKEN_WINDOW_SECONDS"))
          (codes "RATE_LIMIT_AUTH_TOKEN_WINDOW_SECONDS") 60
    write_max ←
        parse_positive_integer (env (codes "RATE_LIMIT_WRITE_MAX_REQUESTS"))
          (codes "RATE_LIMIT_WRITE_MAX_REQUESTS") 120
    write_window ←
        parse_positive_integer (env (codes "RATE_LIMIT_WRITE_WINDOW_SECONDS"))
          (codes "RATE_LIMIT_WRITE_WINDOW_SECONDS") 60
    read (record {
      auth_token = record {
        max_requests = pos_part token_max;
        window_seconds = pos_part token_window;
      };
      write = record { max_requests = pos_part write_max; window_seconds = pos_part write_window };
    })
