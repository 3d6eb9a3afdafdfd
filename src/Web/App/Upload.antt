-- ===== src/Web/App/Upload.antt =====
-- The import of a statement in apps/web/src/App.tsx: the file becomes the body of the draft.
use lux_ledger_demo.Common.{
  ℕ, ◌≡◌, refl, true, Option, none, some, List, [], ◌∷◌, Text, text_eq, codes,
}
use lux_ledger_demo.Common.Int.{pos}
use lux_ledger_demo.Common.Json.{
  Json, num, str, obj, arr, Items, nil, cons, Fields, end, field, fields, get_field,
}
use lux_ledger_demo.Web.Csv.{Result, ok, err, StatementRecord, parse_statement_csv}
use lux_ledger_demo.Web.Operations.Contract
use lux_ledger_demo.Web.App.Guide.{Workbench}

-- { description, raw } and { raw }, as `parseStatementCsv` writes them.
abbrev raw_line : ℕ → Fields
raw_line line = field (codes "raw") (obj (field (codes "source_line") (num (pos line)) end)) end

abbrev pub described : Option Text → ℕ → Fields
described none line = raw_line line
described (some description) line = field (codes "description") (str description) (raw_line line)

abbrev pub record_json : StatementRecord → Json
record_json r = obj (
    field (codes "id") (str r.id) (
      field (codes "amount_minor") (str r.amount_minor) (
        field (codes "currency") (str r.currency) (
          field (codes "reference") (str r.reference)
            (field (codes "date") (str r.date) (described r.description r.source_line))))))

unfoldable pub record_items : List StatementRecord → Items
record_items [] = nil
record_items (r ∷ rs) = cons (record_json r) (record_items rs)

-- { source, records }
abbrev pub upload_body : Text → List StatementRecord → Fields
upload_body source records =
    fields ((codes "source", str source) ∷ (codes "records", arr (record_items records)) ∷ [])

-- The draft with the file of that name and content, or what is thrown. `iso_date` is that of the
-- import, `pretty` is JSON.stringify with indents.
unfoldable pub import_statement :
    (Text → Option Text) → (Json → Text) → Text → Text → Workbench → Result Workbench
import_statement iso_date pretty source text w = elim (parse_statement_csv iso_date text) [
  | ok records ↦ ok (record w { draft_body = pretty (obj (upload_body source records)) })
  | err e ↦ err e
]

record_json-conforms :
    (r : StatementRecord)
    → Contract.conforms Contract.external_record_request (record_json r) ≡ true
unfolding Contract.conforms Contract.only_members Contract.is_member get_field text_eq
record_json-conforms r =
    elim r.description
      as (λ d.
        Contract.conforms Contract.external_record_request
          (record_json (record r { description = d }))
        ≡ true) [ none ↦ refl | some t ↦ refl ]

record_items-conforms :
    (rs : List StatementRecord)
    → Contract.every_item (Contract.conforms Contract.external_record_request) (record_items rs)
      ≡ true
unfolding record_items
record_items-conforms [] = refl
record_items-conforms (r ∷ rs) = rw (record_json-conforms r) (record_items-conforms rs)

-- The body that an import makes of any records has exactly the type of the request that uploads
-- them.
pub upload_body-conforms :
    (source : Text) (records : List StatementRecord)
    → Contract.conforms Contract.ingest_external_records_request (obj (upload_body source records))
      ≡ true
unfolding Contract.conforms Contract.only_members Contract.is_member get_field text_eq
upload_body-conforms source records = rw (record_items-conforms records) refl
