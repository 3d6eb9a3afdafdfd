-- ===== src/Start/Run.antt =====
-- `run` of apps/api/src/index.ts: the settings are read, the routes registered and the port opened,
-- in this order. The settings are all that is kept of what is registered.
pub mod Listening
use lux_ledger_demo.Common.{
  ℕ, Bool, true, false, not, Option, none, some, List, [], Text, text_eq, codes, if◌then◌else◌,
}
use lux_ledger_demo.Common.Int.{ℤ}
use lux_ledger_demo.Config.{ConfigError, Read, read, failed, ProcessEnv, ◌>>=◌}
use lux_ledger_demo.Auth.Jwt.{JwtAuthConfig}
use lux_ledger_demo.Auth.Policy.{parse_jwt_auth_config}
use lux_ledger_demo.RateLimit.Policy.{RateLimitConfig, parse_rate_limit_config}
use lux_ledger_demo.Demo.Service.{Config}
use lux_ledger_demo.Start.{parse_port, parse_shutdown_timeout}
use lux_ledger_demo.Start.Scripts.{env_or}

pub record Server : Type 0 where
  pub jwt_auth : JwtAuthConfig
  pub rate_limit : RateLimitConfig
  pub demo : Config
  pub has_demo_routes : Bool
  pub sandbox_jwt_auth : JwtAuthConfig
  pub port : ℤ
  pub shutdown_timeout_ms : ℤ

-- process.env.NODE_ENV !== 'production'
abbrev pub is_not_production : Option Text → Bool
is_not_production none = true
is_not_production (some value) = not (text_eq value (codes "production"))

abbrev pub demo_settings : ProcessEnv → Config
demo_settings env = record {
  admin_api_key = env_or env (codes "BOOTSTRAP_ADMIN_API_KEY") [];
  admin_key_name = env_or env (codes "BOOTSTRAP_ADMIN_KEY_NAME") (codes "Initial admin key");
  tenant_name = env_or env (codes "BOOTSTRAP_TENANT_NAME") (codes "Demo tenant");
  reset_enabled = is_not_production (env (codes "NODE_ENV"));
}

abbrev pub server_of : ProcessEnv → JwtAuthConfig → RateLimitConfig → JwtAuthConfig → ℤ → ℤ → Server
server_of env jwt_auth rate_limit sandbox_jwt_auth port timeout = record {
  jwt_auth = jwt_auth;
  rate_limit = rate_limit;
  demo = demo_settings env;
  has_demo_routes = is_not_production (env (codes "NODE_ENV"));
  sandbox_jwt_auth = sandbox_jwt_auth;
  port = port;
  shutdown_timeout_ms = timeout;
}

-- How `run` ends: a setting is refused, the process serves, the process exits with 1, or the
-- database client cannot be ended.
pub data Started : Type 0 where
  refused : ConfigError → Started
  listening : Server → Started
  exited_1 : Started
  not_ended : Started

-- What comes of server.listen, and of sql.end after its failure.
pub data Listen : Type 0 where
  listens : Listen
  fails_then_ends : Listen
  fails_and_fails : Listen

module _ (to_integer : Text → Option ℤ) where
  unfoldable pub configure : ProcessEnv → Read Server
  configure env = do
    jwt_auth ← parse_jwt_auth_config to_integer env
    rate_limit ← parse_rate_limit_config to_integer env
    sandbox_jwt_auth ← parse_jwt_auth_config to_integer env
    port ← parse_port to_integer (env (codes "PORT"))
    timeout ← parse_shutdown_timeout to_integer (env (codes "SHUTDOWN_TIMEOUT_MS"))
    read (server_of env jwt_auth rate_limit sandbox_jwt_auth port timeout)

  unfoldable pub run : ProcessEnv → Listen → Started
  run env listen = elim (configure env) [
    | failed e ↦ refused e
    | read server ↦ elim listen [
      | listens ↦ listening server
      | fails_then_ends ↦ exited_1
      | fails_and_fails ↦ not_ended
    ]
  ]
