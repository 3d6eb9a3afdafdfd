-- ===== src/Web/Csv/Records.antt =====
-- What holds of the records of a statement that is imported.
use lux_ledger_demo.Common.{
  ℕ, ◌+◌, ◌≤◌, ◌<◌, ◌≡◌, refl, sym, ◌≢◌, ◌⊎◌, true, false, Option, some, List, [], ◌∷◌, arith, Text,
  Dict, lookup, length, codes, trim, map, inl, inr, Bool-cases, ◌==◌, not, any,
}
use lux_ledger_demo.Common.Decimal.{is_positive_decimal, value, print, print-value}
use lux_ledger_demo.Web.Csv.Scan.{Result, CsvError, ok, err, scan_rows, drop_mark}
use lux_ledger_demo.Web.Csv.Import.{
  StatementRecord, from_entries, is_blank, column, check_columns, read_record, read_records,
  parse_statement_csv, required, includes, all_unique,
}

module _ (iso_date : Text → Option Text) where
  -- The record `r` holds what the columns of one row hold, at the index `i`: an identifier, a
  -- currency and a reference that are more than white space, an amount that is the decimal text
  -- of a number above zero, and the date in ISO form.
  pub record IsImported (entries : Dict Text) (i : ℕ) (r : StatementRecord) : Type 0 where
    pub id_is : lookup (codes "id") entries ≡ some r.id
    pub amount_is : lookup (codes "amount_minor") entries ≡ some r.amount_minor
    pub currency_is : lookup (codes "currency") entries ≡ some r.currency
    pub reference_is : lookup (codes "reference") entries ≡ some r.reference
    pub id_present : trim r.id ≢ []
    pub currency_present : trim r.currency ≢ []
    pub reference_present : trim r.reference ≢ []
    pub amount_decimal : (n : ℕ) × (0 < n) × (r.amount_minor ≡ print n)
    pub date_is : iso_date (column (codes "date") entries) ≡ some r.date
    pub line : r.source_line ≡ i + 2

  blank_of_nil : (t : Text) → is_blank t ≡ false → trim t ≢ []
  blank_of_nil t h e = ground arith

  check_columns-positive :
      (entries : Dict Text) (i : ℕ) (r : StatementRecord)
      → check_columns iso_date entries i ≡ ok r
      → is_positive_decimal r.amount_minor ≡ true
  unfolding check_columns
  check_columns-positive entries i r h = ground arith

  check_columns_sound :
      (entries : Dict Text) (i : ℕ) (r : StatementRecord)
      → check_columns iso_date entries i ≡ ok r
      → IsImported entries i r
  unfolding check_columns trim is_positive_decimal
  check_columns_sound entries i r h =
      let (positive, text) = print-value r.amount_minor (check_columns-positive entries i r h) in
      record {
        id_is = ground arith;
        amount_is = ground arith;
        currency_is = ground arith;
        reference_is = ground arith;
        id_present = ground arith;
        currency_present = ground arith;
        reference_present = ground arith;
        amount_decimal = (value r.amount_minor, positive, sym text);
        date_is = ground arith;
        line = ground arith;
      }

  -- Row by row: the records are those of the rows, in order, with the same indices.
  abbrev pub AreImported : List Text → List (List Text) → ℕ → List StatementRecord → Type 0
  AreImported headers [] i [] = Unit
  AreImported headers [] i (r ∷ rs) = ⊥
  AreImported headers (v ∷ rows) i [] = ⊥
  AreImported headers (v ∷ rows) i (r ∷ rs) =
      (length v ≡ length headers)
      × IsImported (from_entries headers v) i r
      × AreImported headers rows (i + 1) rs

  read_record_sound :
      (headers v : List Text) (i : ℕ) (r : StatementRecord)
      → read_record iso_date headers v i ≡ ok r
      → (length v ≡ length headers) × (check_columns iso_date (from_entries headers v) i ≡ ok r)
  unfolding read_record
  read_record_sound headers v i r h = elim (Bool-cases (length v == length headers)) [
    | inl same ↦ (ground arith, rw same at h)
    | inr other ↦ ground arith
  ]

  Result-cases {ℓ} :
      {A : Type ℓ} (m : Result A) → ((a : A) × (m ≡ ok a)) ⊎ ((e : CsvError) × (m ≡ err e))
  Result-cases (ok a) = inl (a, refl)
  Result-cases (err e) = inr (e, refl)

  read_records_sound :
      (headers : List Text) (rows : List (List Text)) (i : ℕ) (rs : List StatementRecord)
      → read_records iso_date headers rows i ≡ ok rs
      → AreImported headers rows i rs
  unfolding read_records
  read_records_sound headers [] i [] h = tt
  read_records_sound headers [] i (r ∷ rs) h = cc
  read_records_sound headers (v ∷ rows) i rs h =
      elim (Result-cases (read_record iso_date headers v i)) [
        | inr (e, failed) ↦ ground arith
        | inl (r, read) ↦ elim (Result-cases (read_records iso_date headers rows (i + 1))) [
          | inr (e, failed) ↦ ground arith
          | inl (rest, more) ↦
              let (width, columns) = read_record_sound headers v i r read in
              let whole : r ∷ rest ≡ rs = ground arith in
              rw (← whole) (
                width,
                check_columns_sound (from_entries headers v) i r columns,
                read_records_sound headers rows (i + 1) rest more,
              )
        ]
      ]

  -- When a statement is imported, its rows with content are a first row of headers and 1 to 1000
  -- further rows, the trimmed headers hold the five required names and none twice, each row has
  -- as many fields as there are headers, and the records are those of the rows, one for each and
  -- in order: with the row's identifier, amount, currency and reference as they stand, none of
  -- the first, third and fourth blank, the amount the decimal text of a positive number, and the
  -- date in ISO form.
  pub parse-AreImported :
      (input : Text) (rs : List StatementRecord)
      → parse_statement_csv iso_date input ≡ ok rs
      → (first : List Text) × (rows : List (List Text)) × (scan_rows (drop_mark input)
          ≡ ok (first ∷ rows))
        × (1 ≤ length rows)
        × (length rows ≤ 1000)
        × (any (λ h. not (includes (map trim first) h)) required ≡ false)
        × (all_unique (map trim first) ≡ true)
        × AreImported (map trim first) rows 0 rs
  unfolding parse_statement_csv
  parse-AreImported input rs h = elim (Result-cases (scan_rows (drop_mark input))) [
    | inr (e, failed) ↦ ground arith
    | inl ([], scanned) ↦ ground arith
    | inl (first ∷ rows, scanned) ↦
        let read : read_records iso_date (map trim first) rows 0 ≡ ok rs = ground arith in
        (
          first,
          rows,
          scanned,
          ground arith,
          ground arith,
          ground arith,
          ground arith,
          read_records_sound (map trim first) rows 0 rs read,
        )
  ]
