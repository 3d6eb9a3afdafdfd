-- ===== src/Web/Csv/Scan.antt =====
-- The loop of `parseStatementCsv` over the characters of the file.
use lux_ledger_demo.Common.{
  is_empty, ℕ, Bool, true, false, not, ◌&&◌, ◌||◌, Option, none, some, List, [], ◌∷◌, ◌++◌, Text,
  trim, any, ◌==◌, if◌then◌else◌,
}

-- The errors that the function throws; the row of the file is in the message of some.
pub data CsvError : Type 0 where
  too_large malformed_quoting unterminated_field bad_headers bad_record_count : CsvError
  different_column_count bad_amount missing_value : ℕ → CsvError

pub data Result {ℓ} (A : Type ℓ) : Type ℓ where
  ok : A → Result A
  err : CsvError → Result A

-- The loop's variables. `skip` stands for the second `i++` of a round: the next character is
-- passed over.
pub record Scan : Type 0 where
  pub rows : List (List Text)
  pub row : List Text
  pub text : Text
  pub quoted : Bool
  pub closed : Bool
  pub skip : Bool

-- row.some(v => v.trim())
unfoldable pub has_content : List Text → Bool
has_content = any (λ v. not (is_empty (trim v)))

-- text[i + 1] === c
abbrev pub is_next : Option ℕ → ℕ → Bool
is_next none c = false
is_next (some d) c = d == c

-- row.push(field)
abbrev pub push_field : Scan → List Text
push_field st = st.row ++ st.text ∷ []

-- The end of a row: a row with nothing but white space is dropped.
unfoldable pub end_row : Scan → List (List Text)
end_row st = if has_content (push_field st) then st.rows ++ push_field st ∷ [] else st.rows

-- One round of the loop at the character `c`, with the one after it.
unfoldable pub scan_step : Scan → ℕ → Option ℕ → Result Scan
scan_step st c next =
    if st.quoted
    then if c == b'"'
      then if is_next next b'"'
        then ok (record st { text = st.text ++ b'"' ∷ []; skip = true })
        else ok (record st { quoted = false; closed = true })
      else ok (record st { text = st.text ++ c ∷ [] })
    else if c == b'"' && is_empty st.text && not st.closed
    then ok (record st { quoted = true })
    else if c == b','
    then ok (record st { row = push_field st; text = []; closed = false })
    else if c == 10 || c == 13
    then ok (record st {
      rows = end_row st;
      row = [];
      text = [];
      closed = false;
      skip = c == 13 && is_next next 10;
    })
    else if st.closed || c == b'"'
    then err malformed_quoting
    else ok (record st { text = st.text ++ c ∷ [] })

abbrev pub first? : Text → Option ℕ
first? [] = none
first? (c ∷ s) = some c

unfoldable pub scan_loop : Scan → Text → Result Scan
scan_loop st [] = ok st
scan_loop st (c ∷ s) =
    if st.skip
    then scan_loop (record st { skip = false }) s
    else elim (scan_step st c (first? s)) [ ok st' ↦ scan_loop st' s | err e ↦ err e ]

abbrev pub start : Scan
start = record { rows = []; row = []; text = []; quoted = false; closed = false; skip = false }

-- What follows the loop, up to the list of rows.
unfoldable pub finish : Scan → Result (List (List Text))
unfolding end_row
finish st = if st.quoted then err unterminated_field else ok (end_row st)

-- input.replace(/^\uFEFF/, '')
abbrev pub drop_mark : Text → Text
drop_mark [] = []
drop_mark (c ∷ s) = if c == 0xfeff then s else c ∷ s

-- The rows of a file that have content.
unfoldable pub scan_rows : Text → Result (List (List Text))
scan_rows text = elim (scan_loop start text) [ ok st ↦ finish st | err e ↦ err e ]
