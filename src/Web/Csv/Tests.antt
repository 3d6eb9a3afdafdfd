-- ===== src/Web/Csv/Tests.antt =====
-- A statement of one row.
use lux_ledger_demo.Common.{
  ◌≤◌, ◌≡◌, refl, true, false, not, Option, none, some, List, [], ◌∷◌, ◌++◌, map, any, length,
  arith, Text, codes, trim, lookup, text_eq,
}
use lux_ledger_demo.Web.Csv.{
  ok, StatementRecord, required, includes, all_unique, scan_rows, drop_mark, parse_statement_csv,
  scan_loop, scan_step, finish, has_content, read_records, read_record, from_entries,
}
use lux_ledger_demo.Common.Decimal.{is_positive_decimal}
use lux_ledger_demo.Web.Csv.RoundTrip.{write_rows, with_content, scan-write}
use lux_ledger_demo.Web.Csv.Records.{AreImported, parse-AreImported}

abbrev sheet : List (List Text)
sheet = (codes "a,b" ∷ codes "say \"x\"" ∷ []) ∷ ([] ∷ codes " " ∷ []) ∷ (codes "c" ∷ []) ∷ []

scan-write_example : scan_rows (write_rows sheet) ≡ ok (with_content sheet)
scan-write_example =
    scan-write sheet ((λ e. ground arith), ((λ e. ground arith), ((λ e. ground arith), tt)))

-- Every date is taken as it stands.
abbrev as_it_stands : Text → Option Text
as_it_stands t = some t

abbrev statement : Text
statement = codes "id,amount_minor,currency,reference,date" ++ 10 ∷ codes "1,250,EUR,r,2026-01-02"

abbrev imported : List StatementRecord
imported =
    record {
      id = codes "1";
      amount_minor = codes "250";
      currency = codes "EUR";
      reference = codes "r";
      date = codes "2026-01-02";
      description = none;
      source_line = 2;
    }
    ∷ []

parse-AreImported_example :
    (first : List Text) × (rows : List (List Text)) × (scan_rows (drop_mark statement)
      ≡ ok (first ∷ rows))
    × (1 ≤ length rows)
    × (length rows ≤ 1000)
    × (any (λ h. not (includes (map trim first) h)) required ≡ false)
    × (all_unique (map trim first) ≡ true)
    × AreImported as_it_stands (map trim first) rows 0 imported
unfolding parse_statement_csv scan_rows scan_loop scan_step finish has_content trim includes text_eq
    all_unique read_records read_record is_positive_decimal lookup from_entries
parse-AreImported_example = parse-AreImported as_it_stands statement imported refl
