-- ===== src/Web/Operations/Building.antt =====
-- How the operations of apps/web/src/operations.ts write their requests.
use lux_ledger_demo.Common.{none, some, List, [], ◌∷◌, map, Text, codes}
use lux_ledger_demo.Common.Json.{Json, str, arr, obj, Fields, fields, items, set_field}
use lux_ledger_demo.Web.Requests.{http_get, http_post, DemoRequest}
use lux_ledger_demo.Web.Operations.{Context, primary, secondary, Entry, entries}

pub data Area : Type 0 where
  accounts transactions holds credits reconciliation reports : Area

-- An operation without its texts for the screen; it is built from the context and a reference.
pub record Operation : Type 0 where
  pub id : Text
  pub area : Area
  pub build : Context → Text → DemoRequest

unfoldable pub post : Text → Fields → DemoRequest
post path body = record { method = http_post; path = path; body = some body }

unfoldable pub post_empty : Text → DemoRequest
post_empty path = record { method = http_post; path = path; body = none }

unfoldable pub get : Text → DemoRequest
get path = record { method = http_get; path = path; body = none }

abbrev pub entry_json : Entry → Json
entry_json e = obj (
    fields (
      (codes "account_id", str e.account_id)
      ∷ (codes "signed_amount_minor", str e.signed_amount_minor)
      ∷ (codes "currency", str e.currency)
      ∷ []))

abbrev pub entries_json : List Entry → Json
entries_json es = arr (items (map entry_json es))

abbrev pub amount_2500 : Text
amount_2500 = codes "2500"

-- `tx`, whose amount is 2500 where none is given
unfoldable pub tx : Context → Text → Text → Fields
tx c reference amount = fields (
    (codes "ledger_id", str c.ledger)
    ∷ (codes "reference", str reference)
    ∷ (codes "currency", str c.currency)
    ∷ (codes "description", str (codes "Wallet payment"))
    ∷ (
      codes "metadata",
      obj (
          fields (
            (codes "order_id", str reference)
            ∷ (codes "provider", obj (fields ((codes "payment_id", str (codes "pay_1042")) ∷ [])))
            ∷ [])),
    )
    ∷ (codes "entries", entries_json (entries c amount primary secondary))
    ∷ [])

-- { ...fs, entries }
abbrev pub with_entries : List Entry → Fields → Fields
with_entries es fs = set_field (codes "entries") (entries_json es) fs
