-- ===== src/Api/Token/Opens.antt =====
-- What a token from the endpoint opens.
use lux_ledger_demo.Common.{
  ℕ, ◌+◌, ◌/◌, ◌≤◌, ◌<◌, ◌≡◌, refl, ◌∙◌, true, false, some, ◌∷◌, ◌++◌, arith, Text, starts_with,
  drop, trim, trim-HasNoSpace, HasNoSpace, is_space, All-append, text_eq,
}
use lux_ledger_demo.Auth.Jwt.{
  Platform, AuthContext, JwtAuthConfig, ok, jwt_header, issue_access_token, verify_access_token,
}
use lux_ledger_demo.Auth.Jwt.Laws.{IsPlatform}
use lux_ledger_demo.Auth.Jwt.Issued.{times_outcome, signing_input, issue-verify}
use lux_ledger_demo.Auth.Jwt.Keys.{IsListed}
use lux_ledger_demo.Api.Server.{
  Request, Services, v1_route_prefix, token_endpoint, bearer_prefix, route_path, authorize,
  authenticate_bearer, authentication_hook,
}
use lux_ledger_demo.Api.Server.Access.{authentication_hook_at_v1}
use lux_ledger_demo.Api.Token.{token_handler}

dot_no_space : is_space b'.' ≡ false
unfolding is_space
dot_no_space = refl

module _ (platform : Platform) (laws : IsPlatform platform) where
  issue-HasNoSpace :
      (auth : AuthContext) (config : JwtAuthConfig) (t : ℕ)
      → HasNoSpace (issue_access_token platform auth config t)
  unfolding issue_access_token
  issue-HasNoSpace auth config t =
      let NoSpace = λ (c : ℕ). is_space c ≡ false in
      let header = platform.encode jwt_header in
      let input = signing_input platform laws auth config t in
      let dot : is_space b'.' ≡ false = dot_no_space in
      All-append NoSpace input (b'.' ∷ platform.sign input config.signing_key)
        (All-append NoSpace header _ (laws.encode-HasNoSpace jwt_header)
          (dot, laws.encode-HasNoSpace _))
        (dot, laws.sign-HasNoSpace input config.signing_key)

  times_outcome_in_time :
      (auth : AuthContext) (config later : JwtAuthConfig) (t now : ℕ)
      → t / 1000 ≤ now / 1000 + later.clock_skew_seconds
      → now / 1000 < t / 1000 + config.access_token_ttl_seconds + later.clock_skew_seconds
      → times_outcome platform laws auth config later t now ≡ ok auth
  times_outcome_in_time auth config later t now begun running = ground arith

bearer_given :
    (t : Text)
    → (starts_with (bearer_prefix ++ t) bearer_prefix ≡ true) × (drop 7 (bearer_prefix ++ t) ≡ t)
unfolding starts_with
bearer_given t = (refl, refl)

authenticate_bearer_at :
    (services : Services) (later : JwtAuthConfig) (path authorization : Text) (now : ℕ)
    (auth : AuthContext)
    → starts_with authorization bearer_prefix ≡ true
    → (verify_access_token services.platform (trim (drop 7 authorization)) later now).result
      ≡ ok auth
    → authenticate_bearer services later path (some authorization) now
      ≡ authorize services later path auth
unfolding authenticate_bearer
authenticate_bearer_at services later path authorization now auth bearer verified =
    rw (bearer, verified, authenticate_bearer)

module _ (services : Services) (laws : IsPlatform services.platform) where
  -- A token that the endpoint gave at the time `t` takes a request below /v1/, but for the token
  -- endpoint, to the check of the key and the role with just the context that the endpoint had:
  -- from the clock skew before `t` until the lifetime and the clock skew after it, and also after
  -- the issuing key has become a previous one. The lifetime is above zero and stays in the exact
  -- numbers, and the issuer is the same.
  pub token_opens :
      (config later : JwtAuthConfig) (auth : AuthContext) (t now : ℕ) (request : Request)
      → later.issuer ≡ config.issuer
      → IsListed config.signing_key (later.signing_key ∷ later.previous_signing_keys)
      → 0 < config.access_token_ttl_seconds
      → t / 1000 + config.access_token_ttl_seconds < 9007199254740992
      → t / 1000 ≤ now / 1000 + later.clock_skew_seconds
      → now / 1000 < t / 1000 + config.access_token_ttl_seconds + later.clock_skew_seconds
      → starts_with (route_path request.url) v1_route_prefix ≡ true
      → text_eq (route_path request.url) token_endpoint ≡ false
      → request.authorization
        ≡ some (bearer_prefix ++ (token_handler services.platform config auth t).access_token)
      → authentication_hook services later request now
        ≡ authorize services later (route_path request.url) auth
  unfolding token_handler
  token_opens config later auth t now request same listed ttl small begun running v1 other given =
      let token = issue_access_token services.platform auth config t in
      let (bearer, dropped) = bearer_given token in
      let trimmed : trim (drop 7 (bearer_prefix ++ token)) ≡ token =
        rw dropped
          (trim-HasNoSpace token (issue-HasNoSpace services.platform laws auth config t)) in
      let verified : (verify_access_token services.platform (trim (drop 7 (bearer_prefix ++ token)))
            later now).result
          ≡ ok auth =
        rw trimmed (
          issue-verify services.platform laws auth config later t now same listed ttl small
          ∙ times_outcome_in_time services.platform laws auth config later t now begun running) in
      authentication_hook_at_v1 services later request now v1 other
      ∙ rw given (
          authenticate_bearer_at services later (route_path request.url) (bearer_prefix ++ token)
            now auth bearer verified)
