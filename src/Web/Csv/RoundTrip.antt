-- ===== src/Web/Csv/RoundTrip.antt =====
-- The scanner reads back what RFC 4180 quoting writes.
use lux_ledger_demo.Common.{
  ℕ, ◌≡◌, refl, ap, ◌∙◌, ◌≢◌, true, false, List, [], ◌∷◌, ◌++◌, append_assoc, append-nil, arith,
  Text, All, ◌==◌, if◌then◌else◌, inl, inr, Bool-cases, trim,
}
use lux_ledger_demo.Web.Csv.Scan.{
  Scan, ok, has_content, scan_step, scan_loop, scan_rows, start, finish, end_row, first?,
}

-- A field in quotes, with each quote in it doubled.
abbrev pub escape_quotes : Text → Text
escape_quotes [] = []
escape_quotes (c ∷ s) = if c == b'"' then b'"' ∷ b'"' ∷ escape_quotes s else c ∷ escape_quotes s

abbrev pub write_field : Text → Text
write_field f = b'"' ∷ escape_quotes f ++ b'"' ∷ []

-- A row: its fields with commas between them, and a line feed.
abbrev pub write_row : List Text → Text
write_row [] = 10 ∷ []
write_row (f ∷ []) = write_field f ++ 10 ∷ []
write_row (f ∷ g ∷ fs) = write_field f ++ b',' ∷ write_row (g ∷ fs)

abbrev pub write_rows : List (List Text) → Text
write_rows [] = []
write_rows (r ∷ rs) = write_row r ++ write_rows rs

-- Inside quotes, at the text `acc` of the field.
abbrev inside : List (List Text) → List Text → Text → Scan
inside rows row acc = record {
  rows = rows;
  row = row;
  text = acc;
  quoted = true;
  closed = false;
  skip = false;
}

-- Behind the closing quote.
abbrev behind : List (List Text) → List Text → Text → Scan
behind rows row acc = record {
  rows = rows;
  row = row;
  text = acc;
  quoted = false;
  closed = true;
  skip = false;
}

abbrev between : List (List Text) → List Text → Scan
between rows row = record start { rows = rows; row = row }

-- A round that is not skipped, and does not throw.
loop-step :
    (st st' : Scan) (c : ℕ) (s : Text)
    → st.skip ≡ false
    → scan_step st c (first? s) ≡ ok st'
    → scan_loop st (c ∷ s) ≡ scan_loop st' s
unfolding scan_loop
loop-step st st' c s live e = rw e (rw live)

loop-skip :
    (st : Scan) (c : ℕ) (s : Text)
    → st.skip ≡ true
    → scan_loop st (c ∷ s) ≡ scan_loop (record st { skip = false }) s
unfolding scan_loop
loop-skip st c s dead = rw dead

-- The body of a quoted field is taken over as it is, up to a quote that no quote follows.
scan_body :
    (rows : List (List Text)) (row : List Text) (acc f : Text) (d : ℕ) (rest : Text)
    → d ≢ b'"'
    → scan_loop (inside rows row acc) (escape_quotes f ++ b'"' ∷ d ∷ rest)
      ≡ scan_loop (behind rows row (acc ++ f)) (d ∷ rest)
unfolding scan_step
scan_body rows row acc [] d rest h =
    loop-step (inside rows row acc) (behind rows row (acc ++ [])) b'"' (d ∷ rest) refl
      (rw (append-nil acc) (ground arith))
scan_body rows row acc (c ∷ f) d rest h = elim (Bool-cases (c == b'"')) [
  | inl quote ↦
      let st' : Scan = record (inside rows row (acc ++ c ∷ [])) { skip = true } in
      let tail = escape_quotes f ++ b'"' ∷ d ∷ rest in
      rw quote (
        loop-step (inside rows row acc) st' b'"' (b'"' ∷ tail) refl (ground arith)
        ∙ loop-skip st' b'"' tail refl
        ∙ scan_body rows row (acc ++ c ∷ []) f d rest h
        ∙ ap (λ a. scan_loop (behind rows row a) (d ∷ rest)) (append_assoc acc (c ∷ []) f))
  | inr plain ↦
      let st' = inside rows row (acc ++ c ∷ []) in
      let tail = escape_quotes f ++ b'"' ∷ d ∷ rest in
      rw plain (
        loop-step (inside rows row acc) st' c tail refl (ground arith)
        ∙ scan_body rows row (acc ++ c ∷ []) f d rest h
        ∙ ap (λ a. scan_loop (behind rows row a) (d ∷ rest)) (append_assoc acc (c ∷ []) f))
]

-- A quoted field, from the start of the field to behind its closing quote.
scan_field :
    (rows : List (List Text)) (row : List Text) (f : Text) (d : ℕ) (rest : Text)
    → d ≢ b'"'
    → scan_loop (between rows row) (write_field f ++ d ∷ rest)
      ≡ scan_loop (behind rows row f) (d ∷ rest)
unfolding scan_step
scan_field rows row f d rest h = rw (append_assoc (escape_quotes f) (b'"' ∷ []) (d ∷ rest)) (
    loop-step (between rows row) (inside rows row []) b'"' _ refl refl
    ∙ scan_body rows row [] f d rest h)

-- A row that has content is added, any other one is dropped.
abbrev pub keep : List (List Text) → List Text → List (List Text)
keep rows row = if has_content row then rows ++ row ∷ [] else rows

scan_row :
    (rows : List (List Text)) (row : List Text) (f : Text) (fs : List Text) (rest : Text)
    → scan_loop (between rows row) (write_row (f ∷ fs) ++ rest)
      ≡ scan_loop (between (keep rows (row ++ f ∷ fs)) []) rest
unfolding scan_step end_row
scan_row rows row f [] rest = rw (append_assoc (write_field f) (10 ∷ []) rest) (
    scan_field rows row f 10 rest (omega arith)
    ∙ loop-step (behind rows row f) (between (keep rows (row ++ f ∷ [])) []) 10 rest refl refl)
scan_row rows row f (g ∷ fs) rest =
    rw (append_assoc (write_field f) (b',' ∷ write_row (g ∷ fs)) rest) (
      scan_field rows row f b',' (write_row (g ∷ fs) ++ rest) (omega arith)
      ∙ loop-step (behind rows row f) (between rows (row ++ f ∷ [])) b','
          (write_row (g ∷ fs) ++ rest) refl refl
      ∙ scan_row rows (row ++ f ∷ []) g fs rest
      ∙ ap (λ r. scan_loop (between (keep rows r) []) rest) (append_assoc row (f ∷ []) (g ∷ fs)))

-- The rows that have content, in order.
pub with_content : List (List Text) → List (List Text)
with_content [] = []
with_content (r ∷ rs) = if has_content r then r ∷ with_content rs else with_content rs

keep-append :
    (rows : List (List Text)) (r : List Text) (rest : List (List Text))
    → keep rows r ++ rest ≡ rows ++ (if has_content r then r ∷ rest else rest)
keep-append rows r rest = elim (Bool-cases (has_content r)) [
  | inl full ↦ rw (full, append_assoc rows (r ∷ []) rest)
  | inr blank ↦ rw blank
]

scan-All_rows :
    (rows : List (List Text)) (rs : List (List Text))
    → All (λ r. r ≢ []) rs
    → scan_loop (between rows []) (write_rows rs) ≡ ok (between (rows ++ with_content rs) [])
unfolding scan_loop with_content
scan-All_rows rows [] h = rw (append-nil rows)
scan-All_rows rows ([] ∷ rs) (n, h) = absurd (n refl)
scan-All_rows rows ((f ∷ fs) ∷ rs) (n, h) =
    scan_row rows [] f fs (write_rows rs)
    ∙ scan-All_rows (keep rows (f ∷ fs)) rs h
    ∙ ap (λ r. ok (between r [])) (keep-append rows (f ∷ fs) (with_content rs))

-- Whatever texts the fields hold, with commas, quotes and line ends among them: the rows written
-- with every field in quotes are read back, in order and field by field, less those rows that
-- hold nothing but white space.
pub scan-write :
    (rs : List (List Text))
    → All (λ r. r ≢ []) rs
    → scan_rows (write_rows rs) ≡ ok (with_content rs)
unfolding finish has_content trim scan_rows with_content
scan-write rs h = rw (scan-All_rows [] rs h, scan_rows)
