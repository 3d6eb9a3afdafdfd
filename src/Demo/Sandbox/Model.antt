-- ===== src/Demo/Sandbox/Model.antt =====
-- The types of the sandbox in apps/api/src/demo/sandbox.ts: its requests, its rows, what it takes
-- from outside, and the profiles of its currencies.
use lux_ledger_demo.Common.{
  ℕ, ◌+◌, ◌*◌, ◌==◌, leb, Bool, ◌&&◌, ◌||◌, Option, none, some, List, ◌++◌, map, find, every,
  length, drop, Text, codes, split_on, trim, starts_with,
}
use lux_ledger_demo.Common.Json.{Json}
use lux_ledger_demo.Common.Decimal.{is_digit}
use lux_ledger_demo.Common.Outcome.{Outcome}
use lux_ledger_demo.RateLimit.Limiter.{EndpointRateLimitConfig}
use lux_ledger_demo.Auth.Jwt.{Platform}
use lux_ledger_demo.Api.Errors.{Thrown}
use lux_ledger_demo.Demo.Backend.{Side, OverdraftPolicy, Entry}

abbrev pub cookie_name : Text
cookie_name = codes "luxledger_sandbox"

-- The headers and properties of a request that the handlers read.
pub record SandboxRequest : Type 0 where
  pub cookie : Option Text
  pub sec_fetch_site : Option Text
  pub origin : Option Text
  pub host : Option Text
  pub ip : Text

-- `cookieValue`
unfoldable pub cookie_value : SandboxRequest → Option Text
cookie_value request = elim request.cookie [
  | none ↦ none
  | some header ↦
      elim (find (λ (part : Text). starts_with part (cookie_name ++ codes "="))
        (map trim (split_on b';' header))) [
          | none ↦ none
          | some part ↦ some (drop (length cookie_name + 1) part)
        ]
]

-- /^[a-f0-9]{64}$/
abbrev pub is_secret_text : Text → Bool
is_secret_text t = length t == 64 && every (λ c. is_digit c || leb b'a' c && leb c b'f') t

-- A row of demo_sessions.
pub record Session : Type 0 where
  pub tenant_id : Text
  pub api_key_id : Text
  pub expires_at : ℕ

pub record NewSession : Type 0 where
  pub token_hash : Text
  pub key_hash : Text
  pub expires_at : ℕ

pub record NewAccount : Type 0 where
  pub tenant_id : Text
  pub ledger_id : Text
  pub code : Text
  pub name : Text
  pub side : Side
  pub overdraft_policy : OverdraftPolicy
  pub grant_enabled : Bool
  pub currency : Text

pub record Opening : Type 0 where
  pub tenant_id : Text
  pub ledger_id : Text
  pub reference : Text
  pub currency : Text
  pub description : Text
  pub payment_id : Text
  pub entries : List Entry

-- A request to the ledger package, which gives the identifier of what it made.
pub data Provision : Type 0 where
  create_asset : Text → Text → ℕ → Provision
  create_ledger : Text → Text → Provision
  create_account : NewAccount → Provision
  create_transaction : Opening → Provision

-- What the sandbox takes from outside: the database, the ledger package, SHA-256, the host of a URL
-- (none, where it is no URL), the platform of the tokens and the error of the core package.
pub record Host (S : Type 0) : Type 0 where
  pub platform : Platform
  pub unauthorized_error : Text → Json
  pub hash : Text → Text
  pub url_host : Text → Option Text
  pub find_session : Text → S → Outcome Thrown (Option Session)
  pub list_assets : Text → S → Outcome Thrown (List (Text × ℕ))
  pub begin_session : NewSession → S → Outcome Thrown Session × S
  pub provision : Provision → S → Outcome Thrown Text × S
  pub revoke_key : Text → S → Outcome Thrown (Unit {0}) × S
  pub revoke_session : Text → S → Outcome Thrown (Unit {0}) × S

-- An entry of `sandboxProfiles`, with its currency and the text that the payment's identifier has.
pub record Profile : Type 0 where
  pub currency : Text
  pub payment_id : Text
  pub opening_minor : ℕ
  pub funding : Text
  pub primary : Text
  pub secondary : Text
  pub fees : Text
  pub credits : Text
  pub usage : Text

abbrev pub usd_profile : Profile
usd_profile = record {
  currency = codes "USD";
  payment_id = codes "pay_opening_usd";
  opening_minor = 10000;
  funding = codes "system:funding";
  primary = codes "wallet:alice";
  secondary = codes "wallet:bob";
  fees = codes "platform:fees";
  credits = codes "credits:alice";
  usage = codes "service:usage";
}

abbrev pub eur_profile : Profile
eur_profile = record {
  currency = codes "EUR";
  payment_id = codes "pay_opening_eur";
  opening_minor = 17500;
  funding = codes "treasury:eu";
  primary = codes "wallet:eva";
  secondary = codes "wallet:leo";
  fees = codes "platform:commission";
  credits = codes "credits:eva";
  usage = codes "service:subscription";
}

pub record Payload : Type 0 where
  pub access_token : Text
  pub expires_in : ℕ
  pub session_expires_at : ℕ
  pub tenant_id : Text
  pub assets : List (Text × ℕ)

-- The answer 403, or 201 with the payload.
pub data Created : Type 0 where
  forbidden : Created
  created : Payload → Created

-- What goes back: the secret in the header set-cookie, which stays set where the answer is an
-- error, and the answer.
pub record SessionReply : Type 0 where
  pub cookie : Option Text
  pub outcome : Outcome Thrown Created

abbrev pub session_seconds : ℕ
session_seconds = 8 * 60 * 60

abbrev pub session_limit : EndpointRateLimitConfig
session_limit = record { max_requests = 20; window_seconds = 3600 }
