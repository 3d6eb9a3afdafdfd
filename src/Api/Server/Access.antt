-- ===== src/Api/Server/Access.antt =====
-- Who gets past the hooks.
use lux_ledger_demo.Common.{
  is_empty, ℕ, ◌≡◌, refl, ◌⊎◌, true, false, Option, none, some, [], ◌∷◌, arith, Text, text_eq,
  text_eq_refl, starts_with, trim, drop, inl, inr, Bool-cases,
}
use lux_ledger_demo.RateLimit.Limiter.{Buckets}
use lux_ledger_demo.Auth.Jwt.{
  admin, AuthContext, JwtAuthConfig, Verified, TokenError, ok, err, verify_access_token,
}
use lux_ledger_demo.Api.Errors.{Thrown}
use lux_ledger_demo.RateLimit.Policy.{RateLimitConfig}
use lux_ledger_demo.Api.Server.{
  Request, Services, Hooked, passed, thrown, v1_route_prefix, token_endpoint, bearer_prefix,
  admin_prefix, route_path, resolve_rate_limit_target, rate_limit_hook, authenticate_key, authorize,
  authenticate_bearer, authentication_hook, sandbox_hook, on_request,
}

Hooked-cases :
    {A : Type 0} (h : Hooked A) → ((a : A) × (h ≡ passed a)) ⊎ ((e : Thrown) × (h ≡ thrown e))
Hooked-cases (passed a) = inl (a, refl)
Hooked-cases (thrown e) = inr (e, refl)

Verified-cases :
    (v : Verified) → ((a : AuthContext) × (v ≡ ok a)) ⊎ ((e : TokenError) × (v ≡ err e))
Verified-cases (ok a) = inl (a, refl)
Verified-cases (err e) = inr (e, refl)

-- A route below /v1/ is one by its url too: the prefix has no question mark.
starts_with-route_path :
    (url : Text)
    → starts_with (route_path url) v1_route_prefix ≡ true
    → starts_with url v1_route_prefix ≡ true
unfolding starts_with route_path
starts_with-route_path [] h = h
starts_with-route_path (a ∷ []) h = ground arith
starts_with-route_path (a ∷ b ∷ []) h = ground arith
starts_with-route_path (a ∷ b ∷ c ∷ []) h = ground arith
starts_with-route_path (a ∷ b ∷ c ∷ d ∷ url) h = ground arith

module _ (services : Services) (jwt_auth : JwtAuthConfig) where
  open services use {platform, authenticate, assert_access_token_is_active, has_expired_session}

  -- The context is that of a bearer token in the request which verification accepts at `now` and
  -- whose key the database calls active, with no expired sandbox session unless the key is the
  -- empty text, and below /v1/admin/ its role is ADMIN.
  pub record IsBearerAccess (request : Request) (now : ℕ) (auth : AuthContext) : Type 0 where
    pub authorization : Text
    pub header_is : request.authorization ≡ some authorization
    pub bearer : starts_with authorization bearer_prefix ≡ true
    pub verified :
        (verify_access_token platform (trim (drop 7 authorization)) jwt_auth now).result ≡ ok auth
    pub active : assert_access_token_is_active auth ≡ passed tt
    pub admin_only :
        (starts_with (route_path request.url) admin_prefix ≡ false) ⊎ (auth.role ≡ admin)
    pub unexpired :
        (is_empty auth.api_key_id ≡ true) ⊎ (has_expired_session auth.api_key_id ≡ false)

  authorize_sound :
      (path : Text) (auth : AuthContext) (got : Option AuthContext)
      → authorize services jwt_auth path auth ≡ passed got
      → (got ≡ some auth)
        × (assert_access_token_is_active auth ≡ passed tt)
        × ((starts_with path admin_prefix ≡ false) ⊎ (auth.role ≡ admin))
  unfolding authorize
  authorize_sound path auth got h = elim (Hooked-cases (assert_access_token_is_active auth)) [
    | inr (e, failed) ↦ ground arith
    | inl (t, fine) ↦ elim (Bool-cases (starts_with path admin_prefix)) [
      | inl below ↦ (ground arith, fine, inr (ground arith))
      | inr outside ↦ (ground arith, fine, inl outside)
    ]
  ]

  sandbox_hook_sound :
      (request : Request) (auth : AuthContext) (got : Option AuthContext)
      → sandbox_hook services jwt_auth request (some auth) ≡ passed got
      → starts_with request.url v1_route_prefix ≡ true
      → (got ≡ some auth)
        × ((is_empty auth.api_key_id ≡ true) ⊎ (has_expired_session auth.api_key_id ≡ false))
  unfolding sandbox_hook
  sandbox_hook_sound request auth got h v1 = elim (Bool-cases (is_empty auth.api_key_id)) [
    | inl empty ↦ (ground arith, inl empty)
    | inr given ↦ (ground arith, inr (ground arith))
  ]

  authenticate_bearer_sound :
      (path : Text) (header : Option Text) (now : ℕ) (got : Option AuthContext)
      → authenticate_bearer services jwt_auth path header now ≡ passed got
      → (authorization : Text) × (auth : AuthContext) × (header ≡ some authorization)
        × (starts_with authorization bearer_prefix ≡ true)
        × ((verify_access_token platform (trim (drop 7 authorization)) jwt_auth now).result
            ≡ ok auth)
        × (authorize services jwt_auth path auth ≡ passed got)
  unfolding authenticate_bearer
  authenticate_bearer_sound path none now got h = cc
  authenticate_bearer_sound path (some a) now got h =
      let verification = verify_access_token platform (trim (drop 7 a)) jwt_auth now in
      elim (Bool-cases (starts_with a bearer_prefix)) [
        | inr other ↦ ground arith
        | inl bearer ↦ elim (Verified-cases verification.result) [
          | inr (e, refused) ↦ ground arith
          | inl (auth, fine) ↦ (a, auth, refl, bearer, fine, ground arith)
        ]
      ]

  -- What the second and the third hook let pass comes from a chain of both.
  on_request_sound :
      (config : RateLimitConfig) (request : Request) (now : ℕ) (buckets : Buckets)
      (got : Option AuthContext)
      → (on_request services jwt_auth config request now buckets).0 ≡ passed got
      → (auth : Option AuthContext) × (authentication_hook services jwt_auth request now
          ≡ passed auth)
        × (sandbox_hook services jwt_auth request auth ≡ passed got)
  unfolding on_request
  on_request_sound config request now buckets got h =
      elim (Hooked-cases (rate_limit_hook config request now buckets).0) [
        | inr (e, limited) ↦ ground arith
        | inl (t, allowed) ↦
            elim (Hooked-cases (authentication_hook services jwt_auth request now)) [
              | inr (e, failed) ↦ ground arith
              | inl (auth, fine) ↦ (auth, fine, ground arith)
            ]
      ]

  pub authentication_hook_at_v1 :
      (request : Request) (now : ℕ)
      → starts_with (route_path request.url) v1_route_prefix ≡ true
      → text_eq (route_path request.url) token_endpoint ≡ false
      → authentication_hook services jwt_auth request now
        ≡ authenticate_bearer services jwt_auth (route_path request.url) request.authorization now
  unfolding authentication_hook
  authentication_hook_at_v1 request now v1 other = rw (v1, other)

  -- A request below /v1/, other than to the token endpoint, gets past the hooks only with the
  -- context of a bearer token in it: one that verification accepts at the time of the request,
  -- whose key is active and, unless it is the empty text, has no expired sandbox session, and with
  -- the role ADMIN below /v1/admin/.
  pub bearer_access :
      (config : RateLimitConfig) (request : Request) (now : ℕ) (buckets : Buckets)
      (got : Option AuthContext)
      → starts_with (route_path request.url) v1_route_prefix ≡ true
      → text_eq (route_path request.url) token_endpoint ≡ false
      → (on_request services jwt_auth config request now buckets).0 ≡ passed got
      → (auth : AuthContext) × (got ≡ some auth) × IsBearerAccess request now auth
  bearer_access config request now buckets got v1 other h =
      let (found, authenticated, checked) = on_request_sound config request now buckets got h in
      let path = route_path request.url in
      let (authorization, auth, header_is, bearer, verified, authorized) =
        authenticate_bearer_sound path request.authorization now found
          (rw (authentication_hook_at_v1 request now v1 other) at authenticated) in
      let (same, active, admin_only) = authorize_sound path auth found authorized in
      let (got_is, unexpired) =
        sandbox_hook_sound request auth got (rw same at checked)
          (starts_with-route_path request.url v1) in
      (
        auth,
        got_is,
        record {
          authorization = authorization;
          header_is = header_is;
          bearer = bearer;
          verified = verified;
          active = active;
          admin_only = admin_only;
          unexpired = unexpired;
        },
      )

  token_below_v1 : starts_with token_endpoint v1_route_prefix ≡ true
  unfolding starts_with
  token_below_v1 = refl

  authentication_hook_at_token :
      (request : Request) (now : ℕ)
      → route_path request.url ≡ token_endpoint
      → authentication_hook services jwt_auth request now
        ≡ authenticate_key services jwt_auth request.api_key_header
  unfolding authentication_hook
  authentication_hook_at_token request now e = rw (e, token_below_v1, text_eq_refl token_endpoint)

  authenticate_key_sound :
      (header : Option Text) (got : Option AuthContext)
      → authenticate_key services jwt_auth header ≡ passed got
      → (key : Text) × (auth : AuthContext) × (header ≡ some key)
        × (authenticate key ≡ passed auth)
        × (got ≡ some auth)
  unfolding authenticate_key
  authenticate_key_sound none got h = cc
  authenticate_key_sound (some key) got h = elim (Hooked-cases (authenticate key)) [
    | inr (e, failed) ↦ ground arith
    | inl (auth, fine) ↦ (key, auth, refl, fine, ground arith)
  ]

  -- A request to the token endpoint gets past the hooks only with the context that the database
  -- gives for the API key in its header, a key with no expired sandbox session
  -- unless the identifier of the key is the empty text.
  pub token_access :
      (config : RateLimitConfig) (request : Request) (now : ℕ) (buckets : Buckets)
      (got : Option AuthContext)
      → route_path request.url ≡ token_endpoint
      → (on_request services jwt_auth config request now buckets).0 ≡ passed got
      → (key : Text) × (auth : AuthContext) × (request.api_key_header ≡ some key)
        × (authenticate key ≡ passed auth)
        × (got ≡ some auth)
        × ((is_empty auth.api_key_id ≡ true) ⊎ (has_expired_session auth.api_key_id ≡ false))
  token_access config request now buckets got at_token h =
      let (found, authenticated, checked) = on_request_sound config request now buckets got h in
      let (key, auth, header_is, known, same) =
        authenticate_key_sound request.api_key_header found
          (rw (authentication_hook_at_token request now at_token) at authenticated) in
      let (got_is, unexpired) =
        sandbox_hook_sound request auth got (rw same at checked)
          (starts_with-route_path request.url (rw at_token (token_below_v1))) in
      (key, auth, header_is, known, got_is, unexpired)

  -- A request outside /v1/ passes all hooks with no credentials, and takes nothing from any limit.
  pub open_routes :
      (config : RateLimitConfig) (request : Request) (now : ℕ) (buckets : Buckets)
      → starts_with (route_path request.url) v1_route_prefix ≡ false
      → on_request services jwt_auth config request now buckets ≡ (passed none, buckets)
  unfolding on_request rate_limit_hook resolve_rate_limit_target authentication_hook sandbox_hook
  open_routes config request now buckets outside = ground arith
