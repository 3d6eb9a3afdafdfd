-- ===== src/Web/App/Tests.antt =====
-- The theorems about the page's requests at concrete inputs.
use lux_ledger_demo.Common.{
  ℕ, suc, ◌≡◌, refl, ◌⊎◌, true, false, Option, none, some, List, [], ◌∷◌, Text, codes,
}
use lux_ledger_demo.Common.Json.{Json, str, obj, field, end}
use lux_ledger_demo.Common.Outcome.{done, out_of_fuel, Action}
use lux_ledger_demo.Common.Steps.{Star, stay, then_step}
use lux_ledger_demo.Web.Requests.{DemoRequest}
use lux_ledger_demo.Web.Requests.Sending.{RequestFailure}
use lux_ledger_demo.Web.App.Refresh.{Account, Transaction}
use lux_ledger_demo.Web.App.Execute.{Desk, execute}
use lux_ledger_demo.Web.App.Execute.Settled.{IsSettled, execute-IsSettled}
use lux_ledger_demo.Web.App.Transfer.{Form, transfer_operation}
use lux_ledger_demo.Web.App.Inspection.{
  Entry, Reading, Panel, opened, inspect_transaction, entries_read,
}
use lux_ledger_demo.Web.App.Inspection.Matching.{
  Step, inspects, reads, Matches, entries_shown-Matches,
}

abbrev wallet : Text → Text → Account
wallet id name = record { id = id; code = none; name = name; ledger_id = codes "L1" }

abbrev alice : Account
alice = wallet (codes "a1") (codes "wallet:alice")

abbrev bob : Account
bob = wallet (codes "a2") (codes "wallet:bob")

abbrev form : Form
form = record {
  ledger = codes "L1";
  currency = codes "USD";
  scale = 2;
  accounts = alice ∷ bob ∷ [];
  from = codes "wallet:alice";
  to = codes "wallet:bob";
  amount = codes "25.00";
  reference = codes "demo-1";
}

abbrev transfer : DemoRequest
transfer = transfer_operation false form alice bob (codes "2500")

abbrev answered : DemoRequest → Action ℕ RequestFailure Json
answered operation n = (done (obj (field (codes "transaction_id") (str (codes "t1")) end)), suc n)

abbrev not_refreshed : Action ℕ RequestFailure (Option (List Account))
not_refreshed n = (done none, n)

abbrev no_books : Action ℕ RequestFailure (List Text)
no_books n = (done [], n)

abbrev told : RequestFailure → Text
told _ = codes "failed"

abbrev desk : Desk ℕ
desk = record {
  busy = false;
  error = some (codes "old");
  copied = true;
  expiration_as_of = [];
  last_sent = none;
  ids = record { tx = []; hold = []; grant = []; upload = []; rule = []; run = [] };
  before_after = none;
  ledgers = [];
  world = 0;
}

execute-IsSettled_example :
    ((execute answered not_refreshed no_books told transfer [] desk).0 ≡ out_of_fuel)
    ⊎ IsSettled answered not_refreshed no_books told transfer desk
        (execute answered not_refreshed no_books told transfer [] desk).0
        (execute answered not_refreshed no_books told transfer [] desk).1
execute-IsSettled_example = execute-IsSettled answered not_refreshed no_books told transfer [] desk

abbrev first_tx : Transaction
first_tx = record { id = codes "t1"; reference = codes "r1" }

abbrev second_tx : Transaction
second_tx = record { id = codes "t2"; reference = codes "r2" }

abbrev entry_of : Text → ℕ → List Entry
entry_of tx n =
    record { id = codes "e1"; transaction_id = tx; signed_amount_minor = codes "5" } ∷ []

abbrev both_selected : Panel
both_selected = inspect_transaction second_tx (inspect_transaction first_tx opened)

abbrev first_reading : Reading
first_reading = record { version = 1; tx = codes "t1" }

abbrev late_panel : Panel
late_panel = entries_read first_reading (entry_of (codes "t1") 0) both_selected

inspections : Star (Step entry_of) opened late_panel
unfolding inspect_transaction entries_read
inspections =
    then_step opened both_selected late_panel
      (then_step opened (inspect_transaction first_tx opened) both_selected
        (then_step opened opened (inspect_transaction first_tx opened) (stay opened)
          (inspects opened first_tx))
        (inspects (inspect_transaction first_tx opened) second_tx))
      (reads both_selected 1 first_reading 0 refl)

entries_shown-Matches_example : Matches late_panel
entries_shown-Matches_example =
    entries_shown-Matches entry_of (λ tx n. (refl, tt)) late_panel inspections
