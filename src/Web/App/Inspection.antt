-- ===== src/Web/App/Inspection.antt =====
-- `inspectTransaction` of apps/web/src/App.tsx: the transaction that is selected and its entries.
pub mod Matching
use lux_ledger_demo.Common.{ℕ, ◌+◌, ◌==◌, Option, none, some, List, [], ◌∷◌, Text, if◌then◌else◌}
use lux_ledger_demo.Web.App.Refresh.{Transaction}

pub record Entry : Type 0 where
  pub id : Text
  pub transaction_id : Text
  pub signed_amount_minor : Text

-- A reading of entries that is under way.
pub record Reading : Type 0 where
  pub version : ℕ
  pub tx : Text

pub record Panel : Type 0 where
  pub inspection_version : ℕ
  pub readings : List Reading
  pub selected_tx : Option Transaction
  pub tx : Text
  pub tx_entries : List Entry
  pub error : Option Text

abbrev pub opened : Panel
opened = record {
  inspection_version = 0;
  readings = [];
  selected_tx = none;
  tx = [];
  tx_entries = [];
  error = none;
}

-- Until the await.
unfoldable pub inspect_transaction : Transaction → Panel → Panel
inspect_transaction t p =
    let version = p.inspection_version + 1 in
    record p {
      inspection_version = version;
      readings = record { version = version; tx = t.id } ∷ p.readings;
      selected_tx = some t;
      tx = t.id;
      tx_entries = [];
    }

-- After it, with the entries of all pages, or with what is thrown.
unfoldable pub entries_read : Reading → List Entry → Panel → Panel
entries_read q data_read p =
    if p.inspection_version == q.version then record p { tx_entries = data_read } else p

unfoldable pub reading_failed : Text → Panel → Panel
reading_failed message p = record p { error = some message }

-- What another ledger or a new sandbox does to the panel.
unfoldable pub leave : Panel → Panel
leave p = record p { tx = []; selected_tx = none; tx_entries = [] }
