-- ===== src/RateLimit/Policy/Tests.antt =====
-- Limits in an environment that sets one of them.
use lux_ledger_demo.Common.{Option, none, some, Text, text_eq, codes, every, if◌then◌else◌}
use lux_ledger_demo.Common.Int.{ℤ, pos}
use lux_ledger_demo.Common.Decimal.{is_digit, value}
use lux_ledger_demo.Config.{ProcessEnv}
use lux_ledger_demo.RateLimit.Policy.{RateLimitConfig}

abbrev from_digits : Text → Option ℤ
from_digits t = if every is_digit t then some (pos (value t)) else none

abbrev env : ProcessEnv
env name = if text_eq name (codes "RATE_LIMIT_WRITE_MAX_REQUESTS") then some (codes "7") else none

abbrev limits : RateLimitConfig
limits = record {
  auth_token = record { max_requests = 20; window_seconds = 60 };
  write = record { max_requests = 7; window_seconds = 60 };
}
