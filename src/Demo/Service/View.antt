-- ===== src/Demo/Service/View.antt =====
-- The state that `getState` presents.
use lux_ledger_demo.Common.{
  Bool, true, false, Option, none, some, List, [], ◌∷◌, map, Text, text_eq, Dict, lookup, insert,
  codes, if◌then◌else◌,
}
use lux_ledger_demo.Common.Int.{ℤ, negate}
use lux_ledger_demo.Common.Decimal.{print_ℤ}
use lux_ledger_demo.Common.Paging.{Page}
use lux_ledger_demo.Observability.Metrics.{sort}
use lux_ledger_demo.Demo.Backend.{
  Side, debit, credit, Account, Entry, Transaction, Hold, BalanceEvent,
}
use lux_ledger_demo.Demo.Input.{funding_address}

pub record AccountView : Type 0 where
  pub id : Text
  pub address : Text
  pub balance_minor : Text
  pub currency : Text

pub record EntryView : Type 0 where
  pub account_address : Text
  pub signed_amount_minor : Text

pub record TransactionView : Type 0 where
  pub id : Text
  pub reference : Text
  pub description : Option Text
  pub created_at : Option Text
  pub entries : List EntryView

pub record DemoState : Type 0 where
  pub holds : List Hold
  pub debits_minor : Text
  pub credits_minor : Text
  pub transactions_limited : Bool
  pub currency : Text
  pub ledger_id : Text
  pub reset_enabled : Bool
  pub accounts : List AccountView
  pub transactions : List TransactionView

-- new Map of the identifiers and names: a later entry replaces an earlier one.
unfoldable pub add_names : List Account → Dict Text → Dict Text
add_names [] names = names
add_names (a ∷ listed) names = add_names listed (insert a.id a.name names)

-- addresses.get(id) ?? id
abbrev pub name_of : Dict Text → Text → Text
name_of names id = elim (lookup id names) [ some name ↦ name | none ↦ id ]

-- What the account holds, for an account of its side.
abbrev pub own_balance : Side → ℤ → ℤ
own_balance debit balance = balance
own_balance credit balance = negate balance

abbrev pub account_view : Account → AccountView
account_view a = record {
  id = a.id;
  address = a.name;
  balance_minor = print_ℤ (own_balance a.side a.balance_minor);
  currency = a.currency;
}

abbrev pub entry_view : Dict Text → Entry → EntryView
entry_view names e = record {
  account_address = name_of names e.account_id;
  signed_amount_minor = print_ℤ e.signed_amount_minor;
}

abbrev pub transaction_view : Dict Text → Transaction → TransactionView
transaction_view names t = record {
  id = t.id;
  reference = t.reference;
  description = t.description;
  created_at = t.created_at;
  entries = map (entry_view names) t.entries;
}

-- accounts.filter(account => account.name !== FUNDING_ADDRESS)
unfoldable pub without_funding : List Account → List Account
without_funding [] = []
without_funding (a ∷ listed) =
    let rest = without_funding listed in if text_eq a.name funding_address then rest else a ∷ rest

abbrev pub is_some : {A : Type 0} → Option A → Bool
is_some none = false
is_some (some a) = true

unfoldable pub view :
    (Text → Text → Bool)
    → Text
    → Bool
    → List Account
    → Page Transaction
    → List Hold
    → ℤ × ℤ
    → DemoState
view precedes ledger_id reset_enabled listed transactions holds trial =
    let names = add_names listed [] in
    record {
      holds = holds;
      debits_minor = print_ℤ trial.0;
      credits_minor = print_ℤ trial.1;
      transactions_limited = is_some transactions.next_cursor;
      currency = codes "USD";
      ledger_id = ledger_id;
      reset_enabled = reset_enabled;
      accounts =
          sort (λ (a b : AccountView). precedes a.address b.address)
            (map account_view (without_funding listed));
      transactions = map (transaction_view names) transactions.items;
    }

pub record EventView : Type 0 where
  pub id : Text
  pub event : Text
  pub posted_minor : Text
  pub reserved_minor : Text
  pub created_at : Text

pub record AccountDetails : Type 0 where
  pub address : Text
  pub currency : Text
  pub available_minor : Text
  pub history_limited : Bool
  pub history : List EventView

abbrev pub event_view : BalanceEvent → EventView
event_view e = record {
  id = e.id;
  event = e.event_type;
  posted_minor = print_ℤ e.posted_minor;
  reserved_minor = print_ℤ e.reserved_delta_minor;
  created_at = e.created_at;
}

abbrev pub details_view : Account → ℤ → Page BalanceEvent → AccountDetails
details_view account available history = record {
  address = account.name;
  currency = account.currency;
  available_minor = print_ℤ available;
  history_limited = is_some history.next_cursor;
  history = map event_view history.items;
}
