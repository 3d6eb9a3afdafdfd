-- ===== src/Api/Server/Tests.antt =====
-- Requests at a server over the sample platform.
use lux_ledger_demo.Api.Docs.{PageRequest, session, intercept_request, intercept_response, remember}
use lux_ledger_demo.Api.Docs.Restricted.{IsRestricted, IsDiscreet, docs-IsRestricted}
use lux_ledger_demo.Common.{
  ◌⊎◌, is_empty, ℕ, ◌*◌, ◌≤◌, ◌≡◌, refl, ◌∙◌, true, false, Option, none, some, List, [], ◌∷◌, ◌++◌,
  arith, Text, text_eq, starts_with, trim, drop, inl, lookup, codes,
}
use lux_ledger_demo.Common.Json.{Json, str, obj, field, end}
use lux_ledger_demo.RateLimit.Limiter.{Buckets, consume}
use lux_ledger_demo.Auth.Jwt.{
  admin, AuthContext, JwtAuthConfig, ok, issue_access_token, verify_access_token,
}
use lux_ledger_demo.Auth.Jwt.Sample.{shape, write_shape, sample, sample-IsPlatform}
use lux_ledger_demo.Auth.Jwt.Issued.{issue-verify}
use lux_ledger_demo.RateLimit.Policy.{RateLimitConfig}
use lux_ledger_demo.Api.Server.{
  Request, Services, passed, bearer_prefix, token_endpoint, route_path, resolve_rate_limit_target,
  rate_limit_hook, authenticate_key, authorize, authenticate_bearer, authentication_hook,
  sandbox_hook, on_request,
}
use lux_ledger_demo.Api.Token.{token_handler}
use lux_ledger_demo.Api.Token.Opens.{token_opens}
use lux_ledger_demo.Api.Server.Access.{IsBearerAccess, bearer_access, token_access}
use lux_ledger_demo.Api.Server.Throttle.{passed_writes, passed_writes-le-double}

abbrev key_holder : AuthContext
key_holder = record { api_key_id = codes "k1"; tenant_id = codes "t1"; role = admin }

-- One key, "secret", is known; every token's key is active; no session has expired.
abbrev services : Services
services = record {
  platform = sample;
  unauthorized_error = λ m. obj (field (codes "message") (str m) end);
  forbidden_error = λ m. obj (field (codes "message") (str m) end);
  authenticate = λ key. passed key_holder;
  assert_access_token_is_active = λ auth. passed tt;
  has_expired_session = λ key. false;
}

abbrev jwt_auth : JwtAuthConfig
jwt_auth = record {
  signing_key = codes "a";
  previous_signing_keys = [];
  issuer = codes "lux";
  access_token_ttl_seconds = 900;
  clock_skew_seconds = 5;
}

abbrev config : RateLimitConfig
config = record {
  auth_token = record { max_requests = 1; window_seconds = 60 };
  write = record { max_requests = 1; window_seconds = 60 };
}

abbrev token : Text
token = issue_access_token sample key_holder jwt_auth 1000000

abbrev read_tenant : Request
read_tenant = record {
  method = codes "GET";
  url = codes "/v1/admin/keys";
  ip = codes "10.0.0.1";
  api_key_header = none;
  authorization = some (codes "Bearer " ++ token);
}

abbrev ask_token : Request
ask_token = record {
  method = codes "POST";
  url = token_endpoint;
  ip = codes "10.0.0.1";
  api_key_header = some (codes "secret");
  authorization = none;
}

abbrev health : Request
health = record read_tenant { url = codes "/health" }

abbrev post_account : Request
post_account = record ask_token { url = codes "/v1/accounts" }

abbrev both : List (Request × ℕ)
both = (post_account, 1000) ∷ (post_account, 2000) ∷ []

passed_writes-le-double_example :
    passed_writes config (codes "10.0.0.1") both [] ≤ 2 * config.write.max_requests
passed_writes-le-double_example =
    passed_writes-le-double config (codes "10.0.0.1") 1000 both []
      ((λ e _. (omega arith, omega arith)), ((λ e _. (omega arith, omega arith)), tt))

token_access_example :
    (key : Text) × (auth : AuthContext) × (ask_token.api_key_header ≡ some key)
    × (services.authenticate key ≡ passed auth)
    × (some key_holder ≡ some auth)
    × ((is_empty auth.api_key_id ≡ true) ⊎ (services.has_expired_session auth.api_key_id ≡ false))
unfolding route_path on_request rate_limit_hook resolve_rate_limit_target text_eq starts_with
    consume lookup authentication_hook authenticate_key sandbox_hook
token_access_example =
    token_access services jwt_auth config ask_token 1000 [] (some key_holder) refl refl

token_trimmed : trim (drop 7 (codes "Bearer " ++ token)) ≡ token
unfolding trim issue_access_token write_shape shape
token_trimmed = refl

token_verified :
    (verify_access_token sample (trim (drop 7 (codes "Bearer " ++ token))) jwt_auth 1500000).result
    ≡ ok key_holder
token_verified = rw token_trimmed (
    issue-verify sample sample-IsPlatform key_holder jwt_auth jwt_auth 1000000 1500000 refl
      (inl refl) (omega arith) (omega arith))

bearer_passes :
    (a : Text)
    → starts_with a bearer_prefix ≡ true
    → (verify_access_token sample (trim (drop 7 a)) jwt_auth 1500000).result ≡ ok key_holder
    → authenticate_bearer services jwt_auth (codes "/v1/admin/keys") (some a) 1500000
      ≡ passed (some key_holder)
unfolding authenticate_bearer authorize
bearer_passes a bearer verified = ground arith

bearer_given : starts_with (codes "Bearer " ++ token) bearer_prefix ≡ true
unfolding starts_with
bearer_given = refl

hooks_pass :
    (request : Request) (now : ℕ) (buckets : Buckets) (auth got : Option AuthContext)
    → (rate_limit_hook config request now buckets).0 ≡ passed tt
    → authentication_hook services jwt_auth request now ≡ passed auth
    → sandbox_hook services jwt_auth request auth ≡ passed got
    → (on_request services jwt_auth config request now buckets).0 ≡ passed got
unfolding on_request
hooks_pass request now buckets auth got limit authenticated checked = ground arith

admin_bearer :
    authentication_hook services jwt_auth read_tenant 1500000
    ≡ authenticate_bearer services jwt_auth
        (codes "/v1/admin/keys")
        (some (codes "Bearer " ++ token))
        1500000
unfolding authentication_hook text_eq starts_with route_path
admin_bearer = refl

admin_passes :
    (on_request services jwt_auth config read_tenant 1500000 []).0 ≡ passed (some key_holder)
unfolding rate_limit_hook resolve_rate_limit_target text_eq starts_with route_path sandbox_hook
admin_passes =
    hooks_pass read_tenant 1500000 [] (some key_holder) (some key_holder) refl
      (admin_bearer ∙ bearer_passes (codes "Bearer " ++ token) bearer_given token_verified) refl

bearer_access_example :
    (auth : AuthContext) × (some key_holder ≡ some auth)
    × IsBearerAccess services jwt_auth read_tenant 1500000 auth
unfolding starts_with route_path text_eq
bearer_access_example =
    bearer_access services jwt_auth config read_tenant 1500000 [] (some key_holder) refl refl
      admin_passes

-- The one token request of the minute has been made.
abbrev spent : Buckets
spent = (codes "auth_token:10.0.0.1", record { window_start_ms = 1000; count = 1 }) ∷ []

token_sent :
    read_tenant.authorization
    ≡ some (codes "Bearer " ++ (token_handler sample jwt_auth key_holder 1000000).access_token)
unfolding token_handler
token_sent = refl

token_opens_example :
    authentication_hook services jwt_auth read_tenant 1500000
    ≡ authorize services jwt_auth (route_path read_tenant.url) key_holder
unfolding starts_with route_path text_eq
token_opens_example =
    token_opens services sample-IsPlatform jwt_auth jwt_auth key_holder 1000000 1500000 read_tenant
      refl (inl refl) (omega arith) (omega arith) (omega arith) (omega arith) refl refl token_sent

abbrev page_request : PageRequest
page_request = record {
  method = codes "GET";
  origin = codes "https://demo";
  pathname = codes "/v1/ledgers";
  search = [];
  body = none;
}

abbrev told_body : Json
told_body = obj (field (codes "access_token") (str (codes "t")) end)

docs-IsRestricted_example :
    IsRestricted true
      (codes "https://demo")
      (session (codes "t"))
      page_request
      (intercept_request true (codes "https://demo") (session (codes "t")) page_request none).0
    × IsDiscreet true true (codes "https://demo") (some (remember page_request)) 200 told_body (
        intercept_response true true
          (codes "https://demo")
          (some (remember page_request))
          200
          told_body)
docs-IsRestricted_example =
    docs-IsRestricted true true (codes "https://demo") (session (codes "t")) page_request none
      (some (remember page_request)) 200 told_body
