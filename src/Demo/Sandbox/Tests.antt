-- ===== src/Demo/Sandbox/Tests.antt =====
-- The theorems about the sandbox at a host that logs what it is asked to write.
use lux_ledger_demo.Common.{
  ◌≡◌, refl, ◌≢◌, true, none, some, List, [], ◌∷◌, Text, codes, text_eq, lookup, split_on,
  starts_with, trim,
}
use lux_ledger_demo.Common.Json.{null}
use lux_ledger_demo.Common.Outcome.{done, raised, ◌>>=◌}
use lux_ledger_demo.RateLimit.Limiter.{Buckets, consume}
use lux_ledger_demo.Auth.Jwt.{JwtAuthConfig}
use lux_ledger_demo.Auth.Jwt.Sample.{sample}
use lux_ledger_demo.Api.Errors.{other}
use lux_ledger_demo.Demo.Sandbox.Sessions.{
  is_same_origin, provision_all, create_session, begin, open_session, provision_or_revoke,
  provision_currency, open_account, revoke_previous, payload,
}
use lux_ledger_demo.Demo.Sandbox.Model.{
  SandboxRequest, Session, Host, SessionReply, forbidden, session_limit, cookie_value,
}
use lux_ledger_demo.Demo.Sandbox.Sessions.Opened.{HasOpened, created-HasOpened, failed-revoked}

abbrev settings : JwtAuthConfig
settings = record {
  signing_key = codes "a";
  previous_signing_keys = [];
  issuer = codes "lux";
  access_token_ttl_seconds = 900;
  clock_skew_seconds = 5;
}

abbrev new_row : Session
new_row = record { tenant_id = codes "t1"; api_key_id = codes "k1"; expires_at = 28801000 }

abbrev log : Host (List Text)
log = record {
  platform = sample;
  unauthorized_error = λ message. null;
  hash = λ t. t;
  url_host = λ t. none;
  find_session = λ h s. done none;
  list_assets = λ tenant s. done [];
  begin_session = λ n s. (done new_row, codes "begin" ∷ s);
  provision = λ p s. (done (codes "id"), codes "provision" ∷ s);
  revoke_key = λ key s. (done tt, codes "revoke key" ∷ s);
  revoke_session = λ h s. (done tt, codes "revoke session" ∷ s);
}

-- The ledger package fails at once.
abbrev broken : Host (List Text)
broken = record log { provision = λ p s. (raised (other null), s) }

abbrev request : SandboxRequest
request = record {
  cookie = some (codes "a=b; luxledger_sandbox=old");
  sec_fetch_site = some (codes "same-origin");
  origin = none;
  host = none;
  ip = codes "1.2.3.4";
}

abbrev answer : SessionReply × (Buckets × List Text)
answer = create_session log settings request (codes "new") (codes "key") 1000 ([], [])

cookie_set : answer.0.cookie ≡ some (codes "new")
unfolding create_session is_same_origin text_eq consume lookup begin open_session ◌>>=◌
    provision_or_revoke provision_all provision_currency open_account revoke_previous cookie_value
    split_on starts_with trim payload
cookie_set = refl

created-HasOpened_example :
    (codes "new" ≡ codes "new")
    × HasOpened log settings request (codes "new") (codes "key") 1000 [] [] answer.1.1
created-HasOpened_example =
    created-HasOpened log settings request (codes "new") (codes "key") 1000 [] [] (codes "new")
      cookie_set

-- The answer is an error after the cookie is set.
abbrev unlisted : Host (List Text)
unlisted = record log { list_assets = λ tenant s. raised (other null) }

cookie_stays :
    (create_session unlisted settings request (codes "new") (codes "key") 1000 ([], [])).0
    ≡ record { cookie = some (codes "new"); outcome = raised (other null) }
unfolding create_session is_same_origin text_eq consume lookup begin open_session ◌>>=◌
    provision_or_revoke provision_all provision_currency open_account revoke_previous cookie_value
    split_on starts_with trim payload
cookie_stays = refl

own_request : is_same_origin broken.url_host request ≡ true
unfolding is_same_origin text_eq
own_request = refl

first_allowed : (consume request.ip session_limit 1000 []).0.allowed ≡ true
unfolding consume lookup
first_allowed = refl

broken_run :
    provision_all broken settings (codes "t1") (codes "begin" ∷ [])
    ≡ (raised (other null), codes "begin" ∷ [])
unfolding provision_all ◌>>=◌ provision_currency
broken_run = refl

failed-revoked_example :
    ((create_session broken settings request (codes "new") (codes "key") 1000 ([], [])).1.1
      ≡ codes "revoke key" ∷ codes "begin" ∷ [])
    × ((create_session broken settings request (codes "new") (codes "key") 1000 ([], [])).0.cookie
        ≡ none)
    × ((create_session broken settings request (codes "new") (codes "key") 1000 ([], [])).0.outcome
        ≢ done forbidden)
failed-revoked_example =
    failed-revoked broken settings request (codes "new") (codes "key") 1000 [] []
      (codes "begin" ∷ []) (codes "begin" ∷ []) new_row (other null) forbidden own_request
      first_allowed refl broken_run
