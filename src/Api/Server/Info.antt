-- ===== src/Api/Server/Info.antt =====
-- What apps/api/src/api/server.ts answers and logs apart from the API: the identifier of a request,
-- the context of a log line, the routes of health and readiness, and the static documents.
use lux_ledger_demo.Common.{ℕ, true, Option, none, some, List, [], ◌∷◌, Text, codes}
use lux_ledger_demo.Common.Int.{ℤ}
use lux_ledger_demo.Common.Json.{Json, bool, str, obj, fields}

-- genReqId: the header x-request-id, if it is one text that is not empty; `uuid` is randomUUID().
unfoldable pub gen_req_id : Option Text → Text → Text
gen_req_id none uuid = uuid
gen_req_id (some []) uuid = uuid
gen_req_id (some (c ∷ id)) uuid = c ∷ id

pub record RequestLogContext : Type 0 where
  pub request_id : Text
  pub tenant_id : Option Text
  pub api_key_id : Option Text
  pub route : Text

-- `buildRequestLogContext`; an absent property and null are both `none`.
unfoldable pub build_request_log_context :
    Text → Option Text → Option Text → Text → RequestLogContext
build_request_log_context id tenant_id api_key_id route = record {
  request_id = id;
  tenant_id = tenant_id;
  api_key_id = api_key_id;
  route = route;
}

pub record Answer : Type 0 where
  pub status : ℕ
  pub headers : List (Text × Text)
  pub body : Json

abbrev pub is_ok_body : Json
is_ok_body = obj (fields ((codes "ok", bool true) ∷ []))

unfoldable pub health : Answer
health = record { status = 200; headers = []; body = is_ok_body }

-- What the check of readiness does: it passes, or it throws a text.
pub data Readiness : Type 0 where
  is_ready : Readiness
  not_ready : Text → Readiness

pub record ErrorLine : Type 0 where
  pub context : RequestLogContext
  pub err : Text
  pub message : Text

abbrev pub not_ready_body : Json
not_ready_body = obj (
    fields (
      (codes "error", str (codes "NOT_READY"))
      ∷ (codes "message", str (codes "Service not ready"))
      ∷ []))

-- The handler of /ready: its answer, and the error that it logs.
unfoldable pub ready : Text → Option Text → Option Text → Readiness → Answer × Option ErrorLine
ready id tenant_id api_key_id is_ready =
    (record { status = 200; headers = []; body = is_ok_body }, none)
ready id tenant_id api_key_id (not_ready err) = (
  record { status = 503; headers = []; body = not_ready_body },
  some (record {
    context = build_request_log_context id tenant_id api_key_id (codes "/ready");
    err = err;
    message = codes "Readiness check failed";
  }),
)

-- The routes whose documents are read once, when the module is loaded.
pub data Document : Type 0 where
  openapi_yaml demo_contract swagger_css swagger_bundle docs : Document

unfoldable pub document_route : Document → Text
document_route openapi_yaml = codes "/openapi.yaml"
document_route demo_contract = codes "/demo/contract"
document_route swagger_css = codes "/docs/swagger-ui.css"
document_route swagger_bundle = codes "/docs/swagger-ui-bundle.js"
document_route docs = codes "/docs"

abbrev for_a_day : Text × Text
for_a_day = (codes "cache-control", codes "public, max-age=86400")

unfoldable pub document_headers : Document → List (Text × Text)
document_headers openapi_yaml = (codes "content-type", codes "application/yaml; charset=utf-8") ∷ []
document_headers demo_contract = (codes "cache-control", codes "public, max-age=300") ∷ []
document_headers swagger_css = (codes "content-type", codes "text/css") ∷ for_a_day ∷ []
document_headers swagger_bundle =
    (codes "content-type", codes "application/javascript") ∷ for_a_day ∷ []
document_headers docs = (codes "content-type", codes "text/html; charset=utf-8") ∷ []

-- `content` is what was read; the API's contract is sent as JSON.
unfoldable pub serve_document : (Document → Json) → Document → Answer
serve_document content document = record {
  status = 200;
  headers = document_headers document;
  body = content document;
}

-- The line that the hook on a response logs; `duration` is in nanoseconds.
pub record CompletedLine : Type 0 where
  pub context : RequestLogContext
  pub method : Text
  pub status_code : ℕ
  pub duration : ℤ

unfoldable pub completed_line :
    Text → Option Text → Option Text → Text → Text → ℕ → ℤ → CompletedLine
completed_line id tenant_id api_key_id route method status_code duration = record {
  context = build_request_log_context id tenant_id api_key_id route;
  method = method;
  status_code = status_code;
  duration = duration;
}
