-- ===== src/Start/Run/Listening.antt =====
-- What holds of a server that listens.
use lux_ledger_demo.Common.{
  ◌≡◌, refl, ap, ◌↔◌, ◌⊎◌, inl, inr, false, Option, none, some, Text, text_eq, codes, arith,
  Bool-cases, text_eq_iff,
}
use lux_ledger_demo.Common.Int.{ℤ}
use lux_ledger_demo.Config.{Read-cases, read, ProcessEnv}
use lux_ledger_demo.Auth.Jwt.{JwtAuthConfig}
use lux_ledger_demo.Auth.Policy.{parse_jwt_auth_config}
use lux_ledger_demo.Auth.Policy.Sound.{AreSafe, parse_jwt_auth_config-AreSafe}
use lux_ledger_demo.RateLimit.Policy.{RateLimitConfig, parse_rate_limit_config}
use lux_ledger_demo.RateLimit.Policy.Sound.{IsPositive, parse_rate_limit_config-ArePositive}
use lux_ledger_demo.Start.{parse_port, parse_shutdown_timeout, IsSetting, settings_iff}
use lux_ledger_demo.Start.Run.{
  Server, Listen, listens, fails_then_ends, fails_and_fails, server_of, listening,
  is_not_production, configure, run,
}

Listen-cases : (l : Listen) → (l ≡ listens) ⊎ (l ≡ fails_then_ends) ⊎ (l ≡ fails_and_fails)
Listen-cases listens = inl refl
Listen-cases fails_then_ends = inr (inl refl)
Listen-cases fails_and_fails = inr (inr refl)

production_given :
    (value : Option Text) → is_not_production value ≡ false → value ≡ some (codes "production")
production_given none h = absurd cc
production_given (some value) h = elim (Bool-cases (text_eq value (codes "production"))) [
  | inl same ↦ ap some ((text_eq_iff value (codes "production")).0 same)
  | inr other ↦ absurd (ground arith)
]

production_off :
    (value : Option Text) → value ≡ some (codes "production") → is_not_production value ≡ false
unfolding text_eq
production_off value h = rw h refl

module _ (to_integer : Text → Option ℤ) where
  -- Its tokens and limits are safe, its port and time for shutdown are those of the settings, and
  -- the demo with its reset is there exactly outside production.
  pub record IsConfigured (env : ProcessEnv) (server : Server) : Type 0 where
    pub tokens_safe : AreSafe server.jwt_auth
    pub sandbox_safe : AreSafe server.sandbox_jwt_auth
    pub limits : IsPositive server.rate_limit.auth_token × IsPositive server.rate_limit.write
    pub port : IsSetting to_integer 3000 (env (codes "PORT")) server.port
    pub timeout :
        IsSetting to_integer 10_000 (env (codes "SHUTDOWN_TIMEOUT_MS")) server.shutdown_timeout_ms
    pub demo_routes :
        (server.has_demo_routes ≡ false) ↔ (env (codes "NODE_ENV") ≡ some (codes "production"))
    pub reset_with_routes : server.demo.reset_enabled ≡ server.has_demo_routes

  parts-IsConfigured :
      (env : ProcessEnv) (jwt : JwtAuthConfig) (limits : RateLimitConfig) (port timeout : ℤ)
      → parse_jwt_auth_config to_integer env ≡ read jwt
      → parse_rate_limit_config to_integer env ≡ read limits
      → parse_port to_integer (env (codes "PORT")) ≡ read port
      → parse_shutdown_timeout to_integer (env (codes "SHUTDOWN_TIMEOUT_MS")) ≡ read timeout
      → IsConfigured env (server_of env jwt limits jwt port timeout)
  parts-IsConfigured env jwt limits port timeout e1 e2 e3 e4 = record {
    tokens_safe = parse_jwt_auth_config-AreSafe to_integer env jwt e1;
    sandbox_safe = parse_jwt_auth_config-AreSafe to_integer env jwt e1;
    limits = parse_rate_limit_config-ArePositive to_integer env limits e2;
    port = (settings_iff to_integer (env (codes "PORT")) port).0.0 e3;
    timeout = (settings_iff to_integer (env (codes "SHUTDOWN_TIMEOUT_MS")) timeout).1.0 e4;
    demo_routes =
        (production_given (env (codes "NODE_ENV")), production_off (env (codes "NODE_ENV")));
    reset_with_routes = refl;
  }

  configure-IsConfigured :
      (env : ProcessEnv) (server : Server)
      → configure to_integer env ≡ read server
      → IsConfigured env server
  unfolding configure
  configure-IsConfigured env server e = elim (Read-cases (parse_jwt_auth_config to_integer env)) [
    | inr (_, e1) ↦ ground arith
    | inl (jwt, e1) ↦ elim (Read-cases (parse_rate_limit_config to_integer env)) [
      | inr (_, e2) ↦ ground arith
      | inl (limits, e2) ↦ elim (Read-cases (parse_port to_integer (env (codes "PORT")))) [
        | inr (_, e3) ↦ ground arith
        | inl (port, e3) ↦
            elim (Read-cases
              (parse_shutdown_timeout to_integer (env (codes "SHUTDOWN_TIMEOUT_MS")))) [
                | inr (_, e4) ↦ ground arith
                | inl (timeout, e4) ↦
                    (let same : server_of env jwt limits jwt port timeout ≡ server = ground arith in
                      rw (← same) (parts-IsConfigured env jwt limits port timeout e1 e2 e3 e4))
              ]
      ]
    ]
  ]

  -- Whatever the environment holds: a server that listens has safe token settings, also for the
  -- sandbox, positive limits, the port and the time for shutdown that are set, and the demo's own
  -- routes and its reset exactly outside production.
  pub run-IsConfigured :
      (env : ProcessEnv) (listen : Listen) (server : Server)
      → run to_integer env listen ≡ listening server
      → IsConfigured env server
  unfolding run
  run-IsConfigured env listen server e = elim (Read-cases (configure to_integer env)) [
    | inr (_, bad) ↦ ground arith
    | inl (configured, good) ↦ elim (Listen-cases listen) [
      | inl ok ↦
          (let same : configured ≡ server = ground arith in
            rw (← same) (configure-IsConfigured env configured good))
      | inr bad ↦ ground arith
    ]
  ]
