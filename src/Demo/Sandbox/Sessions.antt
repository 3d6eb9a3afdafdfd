-- ===== src/Demo/Sandbox/Sessions.antt =====
-- The sessions of the sandbox: who has one, and the handler that opens one. Random secrets and
-- the time are arguments, and the cookie itself is in Cookie; the state is that of the database, and the buckets of the limiter.
pub mod Opened
use lux_ledger_demo.Common.{
  ℕ, ◌+◌, ◌*◌, ◌==◌, leb, Bool, true, false, not, ◌&&◌, ◌||◌, Option, none, some, List, [], ◌∷◌,
  ◌++◌, map, find, every, length, drop, Text, text_eq, is_empty, codes, split_on, trim, starts_with,
  if◌then◌else◌,
}
use lux_ledger_demo.Common.Int.{ℤ, pos, negate}
use lux_ledger_demo.Common.Json.{Json}
use lux_ledger_demo.Common.Decimal.{is_digit}
use lux_ledger_demo.Common.Outcome.{
  Outcome, done, raised, out_of_fuel, Action, pure, raise, reads, ◌>>=◌,
}
use lux_ledger_demo.RateLimit.Limiter.{EndpointRateLimitConfig, Buckets, RateLimitDecision, consume}
use lux_ledger_demo.Auth.Jwt.{AuthContext, JwtAuthConfig, Platform, issue_access_token, service}
use lux_ledger_demo.Api.Errors.{Thrown, other, rate_limit_exceeded}
use lux_ledger_demo.Demo.Backend.{Side, debit, credit, OverdraftPolicy, allow, disallow, Entry}
use lux_ledger_demo.Demo.Sandbox.Model.{
  cookie_name, SandboxRequest, cookie_value, is_secret_text, Session, NewSession, NewAccount,
  Opening, Provision, create_asset, create_ledger, create_account, create_transaction, Host,
  Profile, usd_profile, eur_profile, Payload, Created, forbidden, created, SessionReply,
  session_seconds, session_limit,
}

-- The headers that let a request open a session.
module _ (url_host : Text → Option Text) where
  same_text : Option Text → Text → Bool
  same_text none t = false
  same_text (some s) t = text_eq s t

  -- new URL(origin).host === request.headers.host
  is_own_host : Text → Option Text → Bool
  unfolding same_text
  is_own_host origin host = elim (url_host origin) [ none ↦ false | some h ↦ same_text host h ]

  unfoldable pub is_same_origin : SandboxRequest → Bool
  unfolding is_own_host
  is_same_origin request =
      not (same_text request.sec_fetch_site (codes "cross-site"))
      && (same_text request.sec_fetch_site (codes "same-origin") || elim request.origin [
        | none ↦ true
        | some origin ↦ is_empty origin || is_own_host origin request.host
      ])

module _ {S : Type 0} (host : Host S) (jwt : JwtAuthConfig) where
  abbrev pub Does : Type 0 → Type 0
  Does = Action S Thrown

  abbrev pub provisions : Provision → Does Text
  provisions = host.provision

  abbrev unauthorized : Text → Thrown
  unauthorized message = other (host.unauthorized_error message)

  -- `session`
  unfoldable pub session_of : SandboxRequest → Does Session
  session_of request = elim (cookie_value request) [
    | none ↦ raise (unauthorized (codes "Start a demo session first"))
    | some secret ↦
        if is_secret_text secret
        then (do
          found ← reads (host.find_session (host.hash secret))
          elim found [
            | none ↦ raise (unauthorized (codes "Demo session expired. Start a new sandbox."))
            | some row ↦ pure row
          ])
        else raise (unauthorized (codes "Start a demo session first"))
  ]

  -- `payload`
  unfoldable pub payload : Session → ℕ → Does Payload
  payload row now = do
    assets ← reads (host.list_assets row.tenant_id)
    let context : AuthContext = record {
      tenant_id = row.tenant_id;
      api_key_id = row.api_key_id;
      role = service;
    }
    pure (record {
      access_token = issue_access_token host.platform context jwt now;
      expires_in = jwt.access_token_ttl_seconds;
      session_expires_at = row.expires_at;
      tenant_id = row.tenant_id;
      assets = assets;
    })

  -- GET /demo/session
  unfoldable pub show_session : SandboxRequest → ℕ → Does Payload
  show_session request now = do row ← session_of request; payload row now

  unfoldable pub open_account :
      Text → Text → Text → Text → Text → Side → OverdraftPolicy → Bool → Does Text
  open_account tenant_id ledger_id currency code name side policy grant = provisions (
      create_account (record {
        tenant_id = tenant_id;
        ledger_id = ledger_id;
        code = codes "DEMO_" ++ code;
        name = name;
        side = side;
        overdraft_policy = policy;
        grant_enabled = grant;
        currency = currency;
      }))

  -- What the loop over the currencies does for one of them.
  unfoldable pub provision_currency : Text → Profile → Does (Unit {0})
  provision_currency tenant_id profile = do
    _ ← provisions (create_asset tenant_id profile.currency 2)
    ledger_id ← provisions (create_ledger tenant_id (profile.currency ++ codes " product ledger"))
    let opens = open_account tenant_id ledger_id profile.currency
    funding ← opens (codes "FUNDING") profile.funding debit allow false
    primary ← opens (codes "PRIMARY") profile.primary credit disallow false
    _ ← opens (codes "SECONDARY") profile.secondary credit disallow false
    _ ← opens (codes "FEES") profile.fees credit disallow false
    _ ← opens (codes "CREDITS") profile.credits credit disallow true
    _ ← opens (codes "USAGE") profile.usage credit disallow false
    _ ← provisions (
        create_transaction (record {
          tenant_id = tenant_id;
          ledger_id = ledger_id;
          reference = codes "sandbox-" ++ (profile.currency ++ codes "-opening");
          currency = profile.currency;
          description = codes "Opening wallet funding";
          payment_id = profile.payment_id;
          entries =
              record {
                account_id = funding;
                signed_amount_minor = pos profile.opening_minor;
                currency = profile.currency;
              }
              ∷ record {
                account_id = primary;
                signed_amount_minor = negate (pos profile.opening_minor);
                currency = profile.currency;
              }
              ∷ [];
        }))
    pure tt

  unfoldable pub provision_all : Text → Does (Unit {0})
  provision_all tenant_id = do
    _ ← provision_currency tenant_id usd_profile
    provision_currency tenant_id eur_profile

  -- The catch: what is thrown revokes the new key, and is thrown on.
  abbrev pub caught : Session → Outcome Thrown (Unit {0}) × S → Outcome Thrown (Unit {0}) × S
  caught row (done _, s) = (done tt, s)
  caught row (raised e, s) = (host.revoke_key row.api_key_id >>= λ _. raise e) s
  caught row (out_of_fuel, s) = (out_of_fuel, s)

  unfoldable pub provision_or_revoke : Session → Does (Unit {0})
  provision_or_revoke row s = caught row (provision_all row.tenant_id s)

  unfoldable pub revoke_previous : Option Text → Does (Unit {0})
  revoke_previous none = pure tt
  revoke_previous (some previous) =
      if is_empty previous then pure tt else host.revoke_session (host.hash previous)

  -- The handler, once the request has been let through, until the header set-cookie.
  unfoldable pub open_session : SandboxRequest → Text → Text → ℕ → Does Session
  open_session request secret key_secret now = do
    row ← host.begin_session (record {
      token_hash = host.hash secret;
      key_hash = host.hash key_secret;
      expires_at = now + session_seconds * 1000;
    })
    _ ← provision_or_revoke row
    _ ← revoke_previous (cookie_value request)
    pure row

  abbrev pub created_of : Outcome Thrown Payload → Outcome Thrown Created
  created_of (done shown) = done (created shown)
  created_of (raised e) = raised e
  created_of out_of_fuel = out_of_fuel

  -- The cookie is set before the payload is read.
  abbrev pub reply_to : Text → ℕ → Outcome Thrown Session × S → SessionReply × S
  reply_to secret now (done row, s) =
      let (shown, t) = payload row now s in
      (record { cookie = some secret; outcome = created_of shown }, t)
  reply_to secret now (raised e, s) = (record { cookie = none; outcome = raised e }, s)
  reply_to secret now (out_of_fuel, s) = (record { cookie = none; outcome = out_of_fuel }, s)

  unfoldable pub begin : SandboxRequest → Text → Text → ℕ → S → SessionReply × S
  begin request secret key_secret now s =
      reply_to secret now (open_session request secret key_secret now s)

  abbrev pub without_cookie : Outcome Thrown Created → SessionReply
  without_cookie outcome = record { cookie = none; outcome = outcome }

  -- POST /demo/session
  unfoldable pub create_session :
      SandboxRequest → Text → Text → ℕ → Buckets × S → SessionReply × (Buckets × S)
  create_session request secret key_secret now (buckets, s) =
      if is_same_origin host.url_host request
      then (let (decision, after) = consume request.ip session_limit now buckets in
          if decision.allowed
          then (let (r, t) = begin request secret key_secret now s in (r, (after, t)))
          else (
            without_cookie (raised (rate_limit_exceeded decision.retry_after_seconds)),
            (after, s),
          ))
      else (without_cookie (done forbidden), (buckets, s))
