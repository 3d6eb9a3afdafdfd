-- ===== src/Api/Server.antt =====
-- The request hooks of apps/api/src/api/server.ts, in the order in which Fastify runs them: the
-- rate limit, the authentication, and the sandbox's own check of
-- apps/api/src/demo/sandbox.ts. A hook that throws ends the request.
pub mod Info
pub mod Access
pub mod Throttle
pub mod Limited
mod Tests
use lux_ledger_demo.Common.{
  is_empty, ℕ, Bool, true, false, not, ◌&&◌, ◌||◌, Option, none, some, List, [], ◌∷◌, ◌++◌, Text,
  text_eq, starts_with, drop, trim, codes, ◌==◌, if◌then◌else◌,
}
use lux_ledger_demo.Common.Json.{Json}
use lux_ledger_demo.RateLimit.Policy.{RateLimitConfig}
use lux_ledger_demo.RateLimit.Limiter.{EndpointRateLimitConfig, Buckets, consume}
use lux_ledger_demo.Auth.Jwt.{
  Platform, ApiKeyRole, admin, service, AuthContext, JwtAuthConfig, TokenError,
  invalid_access_token, access_token_expired, Verified, ok, err, verify_access_token,
}
use lux_ledger_demo.Api.Errors.{Thrown, rate_limit_exceeded, other}

-- What the hooks read of a request; a header that is absent or given twice is `none`.
pub record Request : Type 0 where
  pub method : Text
  pub url : Text
  pub ip : Text
  pub api_key_header : Option Text
  pub authorization : Option Text

pub data KeyPrefix : Type 0 where
  auth_token write : KeyPrefix

pub record RateLimitTarget : Type 0 where
  pub key_prefix : KeyPrefix
  pub policy : EndpointRateLimitConfig

abbrev pub v1_route_prefix : Text
v1_route_prefix = codes "/v1/"

abbrev pub token_endpoint : Text
token_endpoint = codes "/v1/auth/token"

abbrev pub bearer_prefix : Text
bearer_prefix = codes "Bearer "

abbrev pub admin_prefix : Text
admin_prefix = codes "/v1/admin/"

-- The url up to its first question mark.
unfoldable pub route_path : Text → Text
route_path [] = []
route_path (c ∷ url) = if c == b'?' then [] else c ∷ route_path url

unfoldable pub resolve_rate_limit_target :
    Text → Text → EndpointRateLimitConfig → EndpointRateLimitConfig → Option RateLimitTarget
resolve_rate_limit_target method path auth_token_policy write_policy =
    if not (text_eq method (codes "POST")) || not (starts_with path v1_route_prefix)
    then none
    else if text_eq path token_endpoint
    then some (record { key_prefix = auth_token; policy = auth_token_policy })
    else some (record { key_prefix = write; policy = write_policy })

abbrev prefix_text : KeyPrefix → Text
prefix_text auth_token = codes "auth_token"
prefix_text write = codes "write"

-- `${target.keyPrefix}:${request.ip}`
unfoldable pub limiter_key : KeyPrefix → Text → Text
limiter_key prefix ip = prefix_text prefix ++ b':' ∷ ip

-- What a hook or a chain of hooks does: it throws, or goes on with the request's credentials.
pub data Hooked (A : Type 0) : Type 0 where
  passed : A → Hooked A
  thrown : Thrown → Hooked A

-- The first hook, with the buckets of the limiter.
unfoldable pub rate_limit_hook :
    RateLimitConfig → Request → ℕ → Buckets → Hooked (Unit {0}) × Buckets
rate_limit_hook config request now buckets =
    elim (resolve_rate_limit_target request.method (route_path request.url) config.auth_token
      config.write) [
        | none ↦ (passed tt, buckets)
        | some target ↦
            let (decision, after) =
              consume (limiter_key target.key_prefix request.ip) target.policy now buckets in
            (
              if decision.allowed
                  then passed tt
                  else thrown (rate_limit_exceeded decision.retry_after_seconds),
              after,
            )
      ]

-- What the hooks take from outside: the platform of the tokens, the errors of the core package
-- with their messages, and three questions to the database, as it stands at the request. A
-- question may be answered by a thrown value.
pub record Services : Type 0 where
  pub platform : Platform
  -- new UnauthorizedError(message), new ForbiddenError(message)
  pub unauthorized_error : Text → Json
  pub forbidden_error : Text → Json
  -- services.apiKeys.authenticate
  pub authenticate : Text → Hooked AuthContext
  -- services.apiKeys.assertAccessTokenIsActive
  pub assert_access_token_is_active : AuthContext → Hooked (Unit {0})
  -- whether demo_sessions has a row of this key that has expired
  pub has_expired_session : Text → Bool

abbrev token_error_message : TokenError → Text
token_error_message invalid_access_token = codes "Invalid access token"
token_error_message access_token_expired = codes "Access token expired"

module _ (services : Services) (jwt_auth : JwtAuthConfig) where
  open services use {
    platform, unauthorized_error, forbidden_error, authenticate, assert_access_token_is_active,
    has_expired_session,
  }

  -- The token endpoint is opened by an API key.
  unfoldable pub authenticate_key : Option Text → Hooked (Option AuthContext)
  authenticate_key none = thrown (other (unauthorized_error (codes "API key is required")))
  authenticate_key (some key) = elim (authenticate key) [
    | passed auth ↦ passed (some auth)
    | thrown e ↦ thrown e
  ]

  -- What follows the verification of a token.
  unfoldable pub authorize : Text → AuthContext → Hooked (Option AuthContext)
  authorize path auth = elim (assert_access_token_is_active auth) [
    | thrown e ↦ thrown e
    | passed _ ↦
        if starts_with path admin_prefix
        then elim auth.role [
          | admin ↦ passed (some auth)
          | service ↦ thrown (other (forbidden_error (codes "Admin API key is required")))
        ]
        else passed (some auth)
  ]

  -- All other routes below /v1/ are opened by a bearer token.
  unfoldable pub authenticate_bearer : Text → Option Text → ℕ → Hooked (Option AuthContext)
  authenticate_bearer path none now =
      thrown (other (unauthorized_error (codes "Bearer token is required")))
  authenticate_bearer path (some authorization) now =
      if not (starts_with authorization bearer_prefix)
      then thrown (other (unauthorized_error (codes "Bearer token is required")))
      else elim (verify_access_token platform (trim (drop 7 authorization)) jwt_auth now).result [
        | ok auth ↦ authorize path auth
        | err e ↦ thrown (other (unauthorized_error (token_error_message e)))
      ]

  -- The second hook: the credentials of the request, if its path asks for any.
  unfoldable pub authentication_hook : Request → ℕ → Hooked (Option AuthContext)
  authentication_hook request now =
      let path = route_path request.url in
      if not (starts_with path v1_route_prefix)
      then passed none
      else if text_eq path token_endpoint
      then authenticate_key request.api_key_header
      else authenticate_bearer path request.authorization now

  -- The hook that `registerSandbox` adds; credentials with an empty key are as none to it.
  unfoldable pub sandbox_hook : Request → Option AuthContext → Hooked (Option AuthContext)
  sandbox_hook request none = passed none
  sandbox_hook request (some auth) =
      if starts_with request.url v1_route_prefix
        && not (is_empty auth.api_key_id)
        && has_expired_session auth.api_key_id
      then thrown (other (unauthorized_error (codes "Demo session expired")))
      else passed (some auth)

  -- The three hooks in turn; what the rate limiter has stored stays stored if a later one throws.
  unfoldable pub on_request :
      RateLimitConfig → Request → ℕ → Buckets → Hooked (Option AuthContext) × Buckets
  on_request config request now buckets =
      let (limited, after) = rate_limit_hook config request now buckets in
      (
        elim limited [
          | thrown e ↦ thrown e
          | passed _ ↦ elim (authentication_hook request now) [
            | thrown e ↦ thrown e
            | passed auth ↦ sandbox_hook request auth
          ]
        ],
        after,
      )
