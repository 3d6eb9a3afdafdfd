-- ===== src/Web/App/Transfer.antt =====
-- The forms of apps/web/src/App.tsx that send requests: `sendTransfer` and `submitDraft`.
pub mod Balanced
use lux_ledger_demo.Common.{
  ℕ, Bool, true, false, not, ◌&&◌, Option, none, some, List, [], ◌∷◌, ◌++◌, find, filter, Text,
  text_eq, codes, is_empty, trim, if◌then◌else◌,
}
use lux_ledger_demo.Common.Json.{Json, str, arr, obj, Items, nil, Fields, end, fields, items}
use lux_ledger_demo.Web.Requests.{Method, http_get, http_post, DemoRequest}
use lux_ledger_demo.Web.Amounts.{to_minor}
use lux_ledger_demo.Web.App.Refresh.{Account}
use lux_ledger_demo.Web.App.Execute.{as_object, text_at}

-- What the form of a transfer reads.
pub record Form : Type 0 where
  pub ledger : Text
  pub currency : Text
  pub scale : ℕ
  pub accounts : List Account
  pub from : Text
  pub to : Text
  pub amount : Text
  pub reference : Text

abbrev pub named : Text → Account → Bool
named name a = text_eq a.name name

abbrev entry : Text → Text → Text → Json
entry account_id amount currency = obj (
    fields (
      (codes "account_id", str account_id)
      ∷ (codes "signed_amount_minor", str amount)
      ∷ (codes "currency", str currency)
      ∷ []))

-- ...(!hold ? { metadata } : {})
abbrev metadata : Bool → Text → List (Text × Json)
metadata hold reference =
    if hold
    then []
    else (
      codes "metadata",
      obj (fields ((codes "order_id", str reference) ∷ (codes "channel", str (codes "web")) ∷ [])),
    )
      ∷ []

abbrev pub transfer_operation : Bool → Form → Account → Account → Text → DemoRequest
transfer_operation hold form source target minor = record {
  method = http_post;
  path = if hold then codes "/v1/holds" else codes "/v1/transactions";
  body = some (
      fields (
        (codes "ledger_id", str form.ledger)
          ∷ (codes "reference", str form.reference)
          ∷ (codes "currency", str form.currency)
          ∷ (codes "description", str (form.from ++ codes " to " ++ form.to))
          ∷ metadata hold form.reference
        ++ (
          codes "entries",
          arr (
              items (
                entry source.id minor form.currency
                ∷ entry target.id (b'-' ∷ minor) form.currency
                ∷ [])),
        )
          ∷ []));
}

-- The request of `sendTransfer`; none, where an error is shown instead.
unfoldable pub send_transfer : Bool → Form → Option DemoRequest
send_transfer hold form = elim (to_minor form.amount form.scale) [
  | none ↦ none
  | some minor ↦ elim (find (named form.from) form.accounts) [
    | none ↦ none
    | some source ↦ elim (find (named form.to) form.accounts) [
      | none ↦ none
      | some target ↦
          if text_eq source.id target.id
          then none
          else some (transfer_operation hold form source target minor)
    ]
  ]
]

-- The request that `sendTransfer` makes after the transfer, for the transaction that it then
-- inspects; `result` is none where `execute` gave nothing.
unfoldable pub follow_up : Bool → Option Json → Option DemoRequest
follow_up true result = none
follow_up false none = none
follow_up false (some result) = elim (text_at (codes "transaction_id") (as_object result)) [
  | none ↦ none
  | some id ↦
      some (record { method = http_get; path = codes "/v1/transactions/" ++ id; body = none })
]

-- An object that is no array.
abbrev as_record : Json → Option Fields
as_record (obj fs) = some fs
as_record _ = none

abbrev with_body : Method → Text → Option Fields → DemoRequest
with_body method path body = record { method = method; path = path; body = body }

-- The request of `submitDraft`; none, where an error is shown instead. `parse` is JSON.parse.
unfoldable pub submit_draft : (Text → Option Json) → Method → Text → Text → Option DemoRequest
submit_draft parse http_get path draft = some (with_body http_get path none)
submit_draft parse http_post path draft =
    if is_empty (trim draft) then some (with_body http_post path none) else elim (parse draft) [
      | none ↦ none
      | some v ↦ elim (as_record v) [
        | none ↦ none
        | some body ↦ some (with_body http_post path (some body))
      ]
    ]
