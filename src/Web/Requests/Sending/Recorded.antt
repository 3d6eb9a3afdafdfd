-- ===== src/Web/Requests/Sending/Recorded.antt =====
-- What a request of the console sends, and what its journal tells of it.
use lux_ledger_demo.Common.{
  ◌+◌, ◌≡◌, ◌⊎◌, Bool, true, false, ◌&&◌, Option, none, some, ◌∷◌, take, Text, text_eq, codes,
  starts_with,
}
use lux_ledger_demo.Common.Json.{Json}
use lux_ledger_demo.Web.Requests.{DemoRequest, is_documented}
use lux_ledger_demo.Web.Requests.Redacted.{IsRedacted}
use lux_ledger_demo.Web.Requests.Sending.{
  RequestRecord, Sent, Fetched, Url, Console, to_send, request,
}

module _ {S : Type 0} where
  -- The journal after a request: one more record with the next number, which has the request as it
  -- was given and a response that holds no secret; none for an aborted one.
  abbrev pub IsRecorded : Bool → DemoRequest → Console S → Console S → Type 0
  IsRecorded aborted operation c c' =
      ((aborted ≡ true) × (c'.records ≡ c.records) × (c'.last_record_id ≡ c.last_record_id))
      ⊎ ((aborted ≡ false)
          × (r : RequestRecord) × (c'.records ≡ take 150 (r ∷ c.records))
          × (r.id ≡ c.last_record_id + 1)
          × (c'.last_record_id ≡ c.last_record_id + 1)
          × (r.request ≡ operation)
          × IsRedacted r.response)

module _ {S : Type 0} (origin : Text) (resolve : Text → Option Url) (parse : Text → Option Json)
    (fetch : Sent → S → Fetched × S) where
  -- What is sent goes to a documented path of the console's own origin, as the browser resolves
  -- it, and has the token only if the path as it was given starts with /v1/.
  abbrev pub IsSafe : Text → DemoRequest → Sent → Type 0
  IsSafe token operation sent =
      (url : Url) × (resolve operation.path ≡ some url)
      × (text_eq url.origin origin && is_documented url.pathname ≡ true)
      × (sent ≡ to_send origin resolve parse fetch token operation url)
      × ((sent.authorization ≡ none) ⊎ (starts_with operation.path (codes "/v1/") ≡ true))
