-- ===== src/Web/Csv/Import.antt =====
-- The headers and the records of a statement: what `parseStatementCsv` does with the rows.
use lux_ledger_demo.Common.{
  is_empty, ℕ, ◌+◌, Bool, true, not, ◌&&◌, ◌||◌, Option, none, some, List, [], ◌∷◌, map, Text,
  text_eq, trim, any, length, ltb, ◌==◌, codes, if◌then◌else◌, lookup, Dict,
}
use lux_ledger_demo.Common.Decimal.{is_positive_decimal}
use lux_ledger_demo.Web.Csv.Scan.{
  too_large, bad_headers, bad_record_count, different_column_count, bad_amount, missing_value,
  Result, ok, err, drop_mark, scan_rows,
}

-- The object that a row becomes.
pub record StatementRecord : Type 0 where
  pub id : Text
  pub amount_minor : Text
  pub currency : Text
  pub reference : Text
  pub date : Text
  pub description : Option Text
  pub source_line : ℕ

abbrev pub required : List Text
required =
    codes "id" ∷ codes "amount_minor" ∷ codes "currency" ∷ codes "reference" ∷ codes "date" ∷ []

unfoldable pub includes : List Text → Text → Bool
includes hs h = any (λ x. text_eq x h) hs

-- new Set(headers).size === headers.length
unfoldable pub all_unique : List Text → Bool
all_unique [] = true
all_unique (h ∷ hs) = not (includes hs h) && all_unique hs

-- Object.fromEntries(headers.map((h, j) => [h, values[j]])), for lists of one length
unfoldable pub from_entries : List Text → List Text → Dict Text
from_entries [] vs = []
from_entries (h ∷ hs) [] = []
from_entries (h ∷ hs) (v ∷ vs) = (h, v) ∷ from_entries hs vs

abbrev pub is_blank : Text → Bool
is_blank v = is_empty (trim v)

-- A column that the headers have.
abbrev pub column : Text → Dict Text → Text
column h values = elim (lookup h values) [ none ↦ [] | some v ↦ v ]

-- `description` is copied if it is there and not empty.
abbrev pub optional_column : Text → Dict Text → Option Text
optional_column h values = elim (lookup h values) [
  | none ↦ none
  | some v ↦ if is_empty v then none else some v
]

-- `iso_date` is new Date(d).toISOString(), and `none` where Date.parse(d) is not finite.
module _ (iso_date : Text → Option Text) where
  -- The checks on a row's columns, and the object built of them.
  unfoldable pub check_columns : Dict Text → ℕ → Result StatementRecord
  check_columns entries i =
      let id = column (codes "id") entries in
      let amount_minor = column (codes "amount_minor") entries in
      let currency = column (codes "currency") entries in
      let reference = column (codes "reference") entries in
      let date = iso_date (column (codes "date") entries) in
      if not (is_positive_decimal amount_minor)
      then err (bad_amount (i + 2))
      else if is_blank id || is_blank reference || is_blank currency
      then err (missing_value (i + 2))
      else elim date [
        | none ↦ err (missing_value (i + 2))
        | some d ↦ ok (record {
          id = id;
          amount_minor = amount_minor;
          currency = currency;
          reference = reference;
          date = d;
          description = optional_column (codes "description") entries;
          source_line = i + 2;
        })
      ]

  -- The row with the index `i`, from its values.
  unfoldable pub read_record : List Text → List Text → ℕ → Result StatementRecord
  unfolding check_columns
  read_record headers values i =
      if length values == length headers
      then check_columns (from_entries headers values) i
      else err (different_column_count (i + 2))

  -- rows.map(…), which stops at the first row that throws
  unfoldable pub read_records : List Text → List (List Text) → ℕ → Result (List StatementRecord)
  read_records headers [] i = ok []
  read_records headers (values ∷ rows) i = elim (read_record headers values i) [
    | ok r ↦ elim (read_records headers rows (i + 1)) [ ok rs ↦ ok (r ∷ rs) | err e ↦ err e ]
    | err e ↦ err e
  ]

  -- From the rows on: the first one is the headers, and no row at all is no header.
  unfoldable pub import_rows : List (List Text) → Result (List StatementRecord)
  import_rows [] = err bad_headers
  import_rows (first ∷ rows) =
      let headers = map trim first in
      if any (λ h. not (includes headers h)) required || not (all_unique headers)
      then err bad_headers
      else if length rows == 0 || ltb 1000 (length rows)
      then err bad_record_count
      else read_records headers rows 0

  unfoldable pub parse_statement_csv : Text → Result (List StatementRecord)
  unfolding import_rows
  parse_statement_csv input =
      let text = drop_mark input in
      if ltb 1_000_000 (length text)
      then err too_large
      else elim (scan_rows text) [ ok rows ↦ import_rows rows | err e ↦ err e ]
