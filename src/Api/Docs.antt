-- ===== src/Api/Docs.antt =====
-- The page of the API's documentation that apps/api/src/api/server.ts holds as a text: what its
-- interceptors do to a request and to a response, and the groups of the operations.
pub mod Restricted
use lux_ledger_demo.Common.{
  ℕ, ◌+◌, Bool, true, false, not, ◌&&◌, ◌==◌, Option, none, some, List, [], ◌∷◌, ◌++◌, get_elem?,
  Text, text_eq, codes, starts_with, split_on, if◌then◌else◌,
}
use lux_ledger_demo.Common.Decimal.{print}
use lux_ledger_demo.Common.Json.{
  Json, null, bool, num, str, arr, obj, Items, nil, cons, Fields, end, field, get_field, set_field,
}
use lux_ledger_demo.Api.Server.{v1_route_prefix, token_endpoint, bearer_prefix}

-- `ROUTE_TAGS`, and the tag of a path: ROUTE_TAGS[path.split('/')[2]] ?? 'Operations'
unfoldable pub route_tag_of : Text → Text
route_tag_of name =
    if text_eq name (codes "ledgers")
    then codes "Ledgers"
    else if text_eq name (codes "accounts")
    then codes "Accounts"
    else if text_eq name (codes "transactions")
    then codes "Transactions"
    else if text_eq name (codes "entries")
    then codes "Entries"
    else if text_eq name (codes "holds")
    then codes "Holds"
    else if text_eq name (codes "credit-grants")
    then codes "Credit grants"
    else if text_eq name (codes "adjustments")
    then codes "Adjustments"
    else if text_eq name (codes "reconciliation")
    then codes "Reconciliation"
    else if text_eq name (codes "admin")
    then codes "Administration"
    else if text_eq name (codes "auth")
    then codes "Authentication"
    else codes "Operations"

unfoldable pub route_tag : Text → Text
route_tag path = elim (get_elem? (split_on b'/' path) 2) [
  | none ↦ codes "Operations"
  | some name ↦ route_tag_of name
]

-- A request of the page, with its url resolved: origin, pathname and search.
pub record PageRequest : Type 0 where
  pub method : Text
  pub origin : Text
  pub pathname : Text
  pub search : Text
  pub body : Option Json

-- window.demoApiRequest
pub record Remembered : Type 0 where
  pub method : Text
  pub path : Text
  pub body : Option Json

-- The answer to GET /demo/session, of which the token is used.
pub data SessionAnswer : Type 0 where
  session : Text → SessionAnswer
  not_ok : SessionAnswer

pub data Refusal : Type 0 where
  other_origin session_expired : Refusal

-- What becomes of a request: it is refused, or it is sent with or without the header
-- Authorization.
pub data Intercepted : Type 0 where
  refused : Refusal → Intercepted
  sent : Option Text → Intercepted

abbrev pub remember : PageRequest → Remembered
remember request = record {
  method = request.method;
  path = request.pathname ++ request.search;
  body = request.body;
}

-- What is remembered before the origin is known.
abbrev pub remember_write : PageRequest → Option Remembered → Option Remembered
remember_write request old =
    if text_eq request.method (codes "GET") then old else some (remember request)

abbrev pub needs_token : Text → Bool
needs_token path = starts_with path v1_route_prefix && not (text_eq path token_endpoint)

-- `requestInterceptor`; `is_demo` tells whether the page was opened with demo=1.
unfoldable pub intercept_request :
    Bool → Text → SessionAnswer → PageRequest → Option Remembered → Intercepted × Option Remembered
intercept_request false origin answer request old = (sent none, remember_write request old)
intercept_request true origin answer request old =
    let early = remember_write request old in
    if text_eq request.origin origin
    then (if needs_token request.pathname
        then elim answer [
          | not_ok ↦ (refused session_expired, early)
          | session token ↦ (sent (some (bearer_prefix ++ token)), some (remember request))
        ]
        else (sent none, some (remember request)))
    else (refused other_origin, early)

abbrev pub redacted : Json
redacted = str (codes "[redacted]")

abbrev pub hide : Text → Fields → Fields
hide key body = elim (get_field key body) [ none ↦ body | some _ ↦ set_field key redacted body ]

-- The own properties of an array are its items, by their indices.
abbrev pub index_fields : ℕ → Items → Fields
index_fields i nil = end
index_fields i (cons v vs) = field (print i) v (index_fields (i + 1) vs)

abbrev pub hide_both : Fields → Fields
hide_both body = hide (codes "api_key") (hide (codes "access_token") body)

-- The copy of the body that is posted; only its own properties are hidden.
unfoldable pub hide_secrets : Json → Json
hide_secrets (obj body) = obj (hide_both body)
hide_secrets (arr vs) = obj (hide_both (index_fields 0 vs))
hide_secrets other = other

pub record Posted : Type 0 where
  pub request : Remembered
  pub status : ℕ
  pub response : Json
  pub target_origin : Text

-- `responseInterceptor`: what it posts to the parent window, if anything.
unfoldable pub intercept_response :
    Bool → Bool → Text → Option Remembered → ℕ → Json → Option Posted
intercept_response is_demo is_framed origin remembered status body = elim remembered [
  | none ↦ none
  | some request ↦
      if is_demo && is_framed
      then some (record {
        request = request;
        status = status;
        response = hide_secrets body;
        target_origin = origin;
      })
      else none
]
