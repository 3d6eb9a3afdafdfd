-- ===== src/Demo/Backend.antt =====
-- What the demo takes from the ledger package and its database: questions about the state, and
-- writes. The state is opaque; a question leaves it as it is, as far as these operations see it.
use lux_ledger_demo.Common.{ℕ, Bool, Option, List, Text}
use lux_ledger_demo.Common.Int.{ℤ}
use lux_ledger_demo.Common.Outcome.{Outcome}
use lux_ledger_demo.Common.Paging.{Page}
use lux_ledger_demo.Api.Errors.{Thrown}

pub data Side : Type 0 where
  debit credit : Side

pub data OverdraftPolicy : Type 0 where
  allow disallow : OverdraftPolicy

pub record Account : Type 0 where
  pub id : Text
  pub name : Text
  pub side : Side
  pub balance_minor : ℤ
  pub currency : Text

pub record Entry : Type 0 where
  pub account_id : Text
  pub signed_amount_minor : ℤ
  pub currency : Text

pub record Transaction : Type 0 where
  pub id : Text
  pub reference : Text
  pub description : Option Text
  pub created_at : Option Text
  pub entries : List Entry

pub record Hold : Type 0 where
  pub id : Text
  pub reference : Text
  pub description : Option Text
  pub state : Text
  pub original_amount_minor : Text
  pub remaining_amount_minor : Text

-- An event of the history of a balance.
pub record BalanceEvent : Type 0 where
  pub id : Text
  pub event_type : Text
  pub posted_minor : ℤ
  pub reserved_delta_minor : ℤ
  pub created_at : Text

-- The ledger that the demo works in.
pub record Scope : Type 0 where
  pub tenant_id : Text
  pub ledger_id : Text

pub record NewAccount : Type 0 where
  pub scope : Scope
  pub name : Text
  pub side : Side
  pub overdraft_policy : OverdraftPolicy
  pub currency : Text

-- A transaction or a hold that is asked for.
pub record Posting : Type 0 where
  pub scope : Scope
  pub reference : Text
  pub currency : Text
  pub description : Text
  pub entries : List Entry

pub record ExternalRecord : Type 0 where
  pub external_id : Text
  pub reference : Text
  pub amount_minor : ℤ
  pub currency : Text

pub data Write : Type 0 where
  truncate : Write
  create_asset : Text → Text → Write
  create_ledger : Text → Text → Write
  create_account : NewAccount → Write
  create_transaction : Posting → Write
  create_hold : Posting → Write
  commit_hold : Text → Text → Text → Write
  void_hold : Text → Text → Write
  ingest : Text → Text → ExternalRecord → Write
  create_rule : Text → Text → Write
  run_reconciliation : Scope → Text → Text → Write

-- The result of apiKeys.bootstrapInitialAdmin.
pub record Bootstrap : Type 0 where
  pub created : Bool
  pub tenant_id : Option Text
  pub api_key_id : Option Text

pub record Backend (S : Type 0) : Type 0 where
  -- apiKeys.authenticate, of which the tenant is used
  pub authenticate : Text → S → Outcome Thrown Text
  -- the first asset of the tenant with a code, ledger with a name, account with a name, and rule
  -- with a name; none, where the page is empty
  pub find_asset : Text → Text → S → Outcome Thrown (Option Text)
  pub find_ledger : Text → Text → S → Outcome Thrown (Option Text)
  pub find_account : Scope → Text → S → Outcome Thrown (Option Account)
  pub find_rule : Text → Text → S → Outcome Thrown (Option Text)
  -- a page of at most 100 accounts, and the first 100 transactions
  pub list_accounts : Scope → Option Text → S → Outcome Thrown (Page Account)
  pub list_transactions : Scope → S → Outcome Thrown (Page Transaction)
  -- the query of `getState`, and whether there is a hold with an identifier
  pub select_holds : Scope → S → Outcome Thrown (List Hold)
  pub has_hold : Scope → Text → S → Outcome Thrown Bool
  -- the totals of the trial balance, debits first
  pub trial_balance : Scope → S → Outcome Thrown (ℤ × ℤ)
  -- by the tenant, the account and the time: what is available, and the first 100 events until then
  pub balance_at : Text → Text → ℕ → S → Outcome Thrown ℤ
  pub list_history : Text → Text → ℕ → S → Outcome Thrown (Page BalanceEvent)
  -- a write gives the identifier of what it made, or a report
  pub write : Write → S → Outcome Thrown Text × S
  -- by the name of the tenant, the name of the key, and the key
  pub bootstrap : Text → Text → Text → S → Outcome Thrown Bootstrap × S
