-- ===== src/Web/Requests/Sending.antt =====
-- `request` of apps/web/src/api.ts, with the journal that apps/web/src/App.tsx keeps of it.
pub mod Recorded
use lux_ledger_demo.Common.{
  ℕ, ◌+◌, leb, Bool, true, false, not, ◌&&◌, ◌||◌, Option, none, some, List, [], ◌∷◌, ◌++◌, take,
  Text, text_eq, codes, is_empty, if◌then◌else◌,
}
use lux_ledger_demo.Common.Json.{Json, null, str, Fields}
use lux_ledger_demo.Common.Outcome.{Outcome, done, raised}
use lux_ledger_demo.Web.Requests.{
  Method, DemoRequest, redact, is_documented, may_request, sends_token,
}

pub record RequestRecord : Type 0 where
  pub id : ℕ
  pub request : DemoRequest
  pub status : ℕ
  pub response : Json
  pub duration : ℕ
  pub request_id : Option Text
  pub foreground : Bool

-- What is thrown: an error of the console, what new URL, fetch or text() throws, or a
-- DemoApiError.
pub data RequestFailure : Type 0 where
  refused : Text → RequestFailure
  invalid_url : RequestFailure
  network : Text → RequestFailure
  api_error : ℕ → Json → RequestFailure

-- What is handed to fetch.
pub record Sent : Type 0 where
  pub method : Method
  pub target : Text
  pub authorization : Option Text
  pub content_type : Option Text
  pub body : Option Fields

pub record Headers : Type 0 where
  pub status : ℕ
  pub request_id : Option Text

-- What comes of fetch: no response, a response with a text that cannot be read, or one with it.
pub data Fetched : Type 0 where
  no_response : Text → Fetched
  unread : Headers → Text → Fetched
  response : Headers → Text → Fetched

pub record Url : Type 0 where
  pub origin : Text
  pub pathname : Text
  pub search : Text

-- The state of the module and of the page's journal; S is that of the world.
pub record Console (S : Type 0) : Type 0 where
  pub token : Text
  pub last_record_id : ℕ
  pub records : List RequestRecord
  pub record_id : Option ℕ
  pub world : S

-- response.ok
abbrev pub is_ok : ℕ → Bool
is_ok status = leb 200 status && leb status 299

abbrev pub draft : Headers → Json → DemoRequest → Bool → ℕ → ℕ → RequestRecord
draft headers body operation foreground duration id = record {
  id = id;
  request = operation;
  status = headers.status;
  response = redact body;
  duration = duration;
  request_id = headers.request_id;
  foreground = foreground;
}

module _ {S : Type 0} where
  -- The observer that the page sets.
  unfoldable pub observe : RequestRecord → Console S → Console S
  observe record_ c = record c {
    records = take 150 (record_ ∷ c.records);
    record_id = if record_.foreground then some record_.id else c.record_id;
  }

  -- The finally: an aborted request is not recorded.
  unfoldable pub record_request :
      Bool → Headers → Json → DemoRequest → Bool → ℕ → Console S → Console S
  record_request aborted headers body operation foreground duration c =
      let id = c.last_record_id + 1 in
      if aborted
      then c
      else observe (draft headers body operation foreground duration id)
          (record c { last_record_id = id })

-- `recordExternal`, of a request that another part of the page has made
unfoldable pub record_external : {S : Type 0} → RequestRecord → Console S → Console S
record_external r c =
    let id = c.last_record_id + 1 in
    observe (record r { id = id; response = redact r.response }) (record c { last_record_id = id })

-- Before there is a response.
abbrev no_headers : Headers
no_headers = record { status = 0; request_id = none }

-- `resolve` is new URL(path, window.location.origin), `none` where it throws; `parse` is
-- JSON.parse.
module _ {S : Type 0} (origin : Text) (resolve : Text → Option Url) (parse : Text → Option Json)
    (fetch : Sent → S → Fetched × S) where
  unfoldable pub response_body : Text → Json
  response_body raw =
      if is_empty raw then null else elim (parse raw) [ some v ↦ v | none ↦ str raw ]

  abbrev pub to_send : Text → DemoRequest → Url → Sent
  to_send token operation url = record {
    method = operation.method;
    target = url.pathname ++ url.search;
    authorization =
        if sends_token token operation.path then some (codes "Bearer " ++ token) else none;
    content_type = elim operation.body [ none ↦ none | some _ ↦ some (codes "application/json") ];
    body = operation.body;
  }

  abbrev pub headers_of : Fetched → Headers
  headers_of (no_response e) = no_headers
  headers_of (unread headers e) = headers
  headers_of (response headers raw) = headers

  abbrev pub body_of : Fetched → Json
  body_of (no_response e) = null
  body_of (unread headers e) = null
  body_of (response headers raw) = response_body raw

  abbrev pub result_of : Fetched → Outcome RequestFailure Json
  result_of (no_response e) = raised (network e)
  result_of (unread headers e) = raised (network e)
  result_of (response headers raw) =
      if is_ok headers.status
      then done (response_body raw)
      else raised (api_error headers.status (response_body raw))

  -- The second guard, on the path as the browser resolves it.
  abbrev pub is_local : Url → Bool
  is_local url = text_eq url.origin origin && is_documented url.pathname

  -- The rest of `request`, once both guards have let it through.
  unfoldable pub send :
      DemoRequest → Url → Bool → Bool → ℕ → Console S → Outcome RequestFailure Json × Console S
  send operation url aborted foreground duration c =
      let (fetched, world) = fetch (to_send c.token operation url) c.world in
      (
        result_of fetched,
        record_request aborted (headers_of fetched) (body_of fetched) operation foreground duration
            (record c { world = world }),
      )

  -- `request`; whether the signal is aborted in the end and the time that it took are arguments.
  unfoldable pub request :
      DemoRequest → Bool → Bool → ℕ → Console S → Outcome RequestFailure Json × Console S
  request operation aborted foreground duration c =
      if may_request operation.path
      then elim (resolve operation.path) [
        | none ↦ (raised invalid_url, c)
        | some url ↦
            if is_local url
            then send operation url aborted foreground duration c
            else (raised (refused (codes "Use a local API endpoint")), c)
      ]
      else (raised (refused (codes "Use a local /v1/ or sandbox path")), c)
