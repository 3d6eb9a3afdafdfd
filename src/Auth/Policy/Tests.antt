-- ===== src/Auth/Policy/Tests.antt =====
-- Settings in an environment.
use lux_ledger_demo.RateLimit.Policy.{RateLimitConfig, parse_rate_limit_config}
use lux_ledger_demo.Start.{parse_port, parse_shutdown_timeout}
use lux_ledger_demo.Start.Run.{Server, server_of, listens, configure, run}
use lux_ledger_demo.Start.Run.Listening.{IsConfigured, run-IsConfigured}
use lux_ledger_demo.Common.{
  ◌≡◌, refl, ◌↔◌, Option, none, some, [], ◌∷◌, ◌++◌, Text, text_eq, codes, every, replicate,
  if◌then◌else◌, trim, split_on,
}
use lux_ledger_demo.Common.Int.{ℤ, pos}
use lux_ledger_demo.Common.Decimal.{is_digit, value, value_from}
use lux_ledger_demo.Config.{read, ProcessEnv, parse_integer_within_range}
use lux_ledger_demo.Auth.Base64url.{encode_bytes, decode_bytes, digit, sextet}
use lux_ledger_demo.Auth.Jwt.{JwtAuthConfig}
use lux_ledger_demo.Auth.Policy.{
  parse_jwt_signing_key, parse_jwt_auth_config, require_non_empty_env,
  parse_jwt_previous_signing_keys, collect_keys, read_issuer,
}
use lux_ledger_demo.Auth.Policy.Sound.{IsStrong, parse_jwt_signing_key_iff}

-- 32 zero bytes, and 32 bytes of which the last is 1.
abbrev zeros : Text
zeros = replicate 43 b'A'

abbrev other_key : Text
other_key = replicate 42 b'A' ++ b'E' ∷ []

-- Texts of digits only.
abbrev from_digits : Text → Option ℤ
from_digits t = if every is_digit t then some (pos (value t)) else none

abbrev env : ProcessEnv
env name =
    if text_eq name (codes "JWT_SIGNING_KEY")
    then some zeros
    else if text_eq name (codes "JWT_PREVIOUS_SIGNING_KEYS")
    then some other_key
    else if text_eq name (codes "JWT_ACCESS_TTL_SECONDS")
    then some (codes "600")
    else none

abbrev settings : JwtAuthConfig
settings = record {
  signing_key = zeros;
  previous_signing_keys = other_key ∷ [];
  issuer = codes "luxledger-api";
  access_token_ttl_seconds = 600;
  clock_skew_seconds = 5;
}

parse_jwt_signing_key_iff_example :
    (parse_jwt_signing_key zeros (codes "JWT_SIGNING_KEY") ≡ read zeros) ↔ IsStrong zeros
parse_jwt_signing_key_iff_example = parse_jwt_signing_key_iff zeros (codes "JWT_SIGNING_KEY")

abbrev limits : RateLimitConfig
limits = record {
  auth_token = record { max_requests = 20; window_seconds = 60 };
  write = record { max_requests = 120; window_seconds = 60 };
}

abbrev server : Server
server = server_of env settings limits settings (pos 3000) (pos 10_000)

run-IsConfigured_example : IsConfigured from_digits env server
unfolding run configure parse_jwt_auth_config require_non_empty_env text_eq trim
    parse_jwt_signing_key encode_bytes decode_bytes digit sextet parse_jwt_previous_signing_keys
    split_on collect_keys parse_integer_within_range value_from read_issuer parse_rate_limit_config
    parse_port parse_shutdown_timeout
run-IsConfigured_example = run-IsConfigured from_digits env listens server refl
