-- ===== src/Web/Requests.antt =====
-- What the console sends and records: apps/web/src/api.ts.
pub mod Redacted
pub mod Quoted
pub mod Pages
pub mod Sending
pub mod Query
use lux_ledger_demo.Common.{
  ℕ, zero, suc, leb, ◌+◌, ◌==◌, Bool, true, false, not, ◌&&◌, ◌||◌, Option, none, some, List, [],
  ◌∷◌, ◌++◌, map, any, Text, text_eq, codes, starts_with, if◌then◌else◌, is_empty,
}
use lux_ledger_demo.Common.Json.{
  Json, null, bool, num, str, arr, obj, Items, nil, cons, Fields, end, field,
}
use lux_ledger_demo.Common.Outcome.{Outcome, done, raised, out_of_fuel}
use lux_ledger_demo.Common.Paging.{Page}

-- The flag /i, on names of ASCII letters.
abbrev lower : ℕ → ℕ
lower c = if leb b'A' c && leb c b'Z' then c + 32 else c

abbrev secret_names : List Text
secret_names =
    codes "access_token"
    ∷ codes "api_key"
    ∷ codes "authorization"
    ∷ codes "x-api-key"
    ∷ codes "token_hash"
    ∷ []

unfoldable pub lower_text : Text → Text
lower_text [] = []
lower_text (c ∷ t) = lower c ∷ lower_text t

-- /^(access_token|api_key|authorization|x-api-key|token_hash)$/i.test(key)
unfoldable pub is_secret : Text → Bool
unfolding lower_text
is_secret key = any (λ (name : Text). text_eq (lower_text key) name) secret_names

abbrev pub redacted : Json
redacted = str (codes "[redacted]")

unfoldable mutual
  pub redact : Json → Json
  redact null = null
  redact (bool b) = bool b
  redact (num n) = num n
  redact (str t) = str t
  redact (arr xs) = arr (redact_items xs)
  redact (obj fs) = obj (redact_fields fs)

  pub redact_items : Items → Items
  redact_items nil = nil
  redact_items (cons x xs) = cons (redact x) (redact_items xs)

  pub redact_fields : Fields → Fields
  redact_fields end = end
  redact_fields (field key child fs) =
      field key (if is_secret key then redacted else redact child) (redact_fields fs)

-- /^\/(?:v1\/|demo\/session(?:[/?]|$))/.test(path)
unfoldable pub is_documented : Text → Bool
is_documented path =
    starts_with path (codes "/v1/")
    || starts_with path (codes "/demo/session/")
    || starts_with path (codes "/demo/session?")
    || text_eq path (codes "/demo/session")

-- The first guard of `request`.
unfoldable pub may_request : Text → Bool
may_request path = is_documented path && not (any (λ c. c == b'\\' || c == b'#') path)

-- `token && operation.path.startsWith('/v1/')`: whether the bearer token goes with a request.
unfoldable pub sends_token : Text → Text → Bool
sends_token token path = not (is_empty token) && starts_with path (codes "/v1/")

abbrev pub quote : ℕ
quote = 39

-- value.replaceAll("'", "'\"'\"'")
unfoldable pub replace_quotes : Text → Text
replace_quotes [] = []
replace_quotes (c ∷ t) =
    let rest = replace_quotes t in if c == quote then codes "'\"'\"'" ++ rest else c ∷ rest

-- `shellSingleQuote`
unfoldable pub shell_single_quote : Text → Text
unfolding replace_quotes
shell_single_quote value = quote ∷ (replace_quotes value ++ quote ∷ [])

pub data Method : Type 0 where
  http_get http_post : Method

abbrev pub method_name : Method → Text
method_name http_get = codes "GET"
method_name http_post = codes "POST"

pub record DemoRequest : Type 0 where
  pub method : Method
  pub path : Text
  pub body : Option Fields

-- `requestToCurl`; `stringify` is JSON.stringify.
unfoldable pub request_to_curl : (Json → Text) → DemoRequest → Text → Text
request_to_curl stringify operation origin =
    let line_end = codes " \\\n" in
    (codes "curl -X " ++ method_name operation.method ++ codes " ")
    ++ shell_single_quote (origin ++ operation.path)
    ++ (if starts_with operation.path (codes "/v1/")
        then line_end ++ codes "  -H \"Authorization: Bearer $ACCESS_TOKEN\""
        else [])
    ++ elim operation.body [
      | none ↦ []
      | some body ↦
          line_end
          ++ codes "  -H 'content-type: application/json'"
          ++ line_end
          ++ codes "  --data "
          ++ shell_single_quote (stringify (obj body))
    ]

-- The test of the loop: no cursor, or an empty one, ends it.
abbrev pub goes_on : Option Text → Bool
goes_on none = false
goes_on (some cursor) = not (is_empty cursor)

module _ {E A : Type 0} (request : Option Text → Outcome E (Page A)) where
  -- `allPages`, on fuel; `request` sets the cursor that it is given.
  unfoldable pub all_pages : ℕ → Option Text → List A → Outcome E (List A)
  all_pages zero cursor data_so_far = out_of_fuel
  all_pages (suc fuel) cursor data_so_far = elim (request cursor) [
    | raised e ↦ raised e
    | out_of_fuel ↦ out_of_fuel
    | done page ↦
        let rest = all_pages fuel page.next_cursor (data_so_far ++ page.items) in
        if goes_on page.next_cursor then rest else done (data_so_far ++ page.items)
  ]
