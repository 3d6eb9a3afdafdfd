-- ===== src/Web/App/Balance.antt =====
-- The effect of apps/web/src/App.tsx that reads the balance of the selected account, with its
-- AbortController. A controller is its number, and a reading that is under way is an entry of
-- `readings`. React keeps the cleanup of the last run, and runs the effect again when what it
-- depends on has changed: until then the strip is stale.
pub mod Selected
mod Tests
use lux_ledger_demo.Common.{
  ℕ, ◌+◌, ◌==◌, Bool, true, false, ◌&&◌, Option, none, some, List, [], ◌∷◌, any, Text, text_eq,
  if◌then◌else◌,
}

-- BalanceAsOfResponse
pub record Balance : Type 0 where
  pub account_id : Text
  pub posted_minor : Text
  pub reserved_delta_minor : Text
  pub available_minor : Text

pub record Held : Type 0 where
  pub id : Text
  pub ledger_id : Text
  pub tenant_id : Text

-- What the effect depends on, with session?.tenant_id.
pub record Choice : Type 0 where
  pub selected_account : Text
  pub accounts : List Held
  pub ledger : Text
  pub tenant_id : Option Text

pub record BalanceReading : Type 0 where
  pub controller : ℕ
  pub account : Text

pub record Strip : Type 0 where
  pub choice : Choice
  pub stale : Bool
  pub controllers : ℕ
  pub aborted : List ℕ
  pub cleanup : Option ℕ
  pub balance_controller : Option ℕ
  pub readings : List BalanceReading
  pub balance : Option Balance
  pub error : Option Text

abbrev is_tenant : Option Text → Text → Bool
is_tenant none tenant = false
is_tenant (some t) tenant = text_eq tenant t

unfoldable pub is_shown : Choice → Bool
is_shown c =
    any
      (λ (a : Held).
        text_eq a.id c.selected_account
        && (text_eq a.ledger_id c.ledger && is_tenant c.tenant_id a.tenant_id))
      c.accounts

abbrev pub is_aborted : Strip → ℕ → Bool
is_aborted s n = any (λ m. m == n) s.aborted

abbrev pub abort : ℕ → Strip → Strip
abort n s = record s { aborted = n ∷ s.aborted }

-- balanceController.current?.abort()
abbrev pub abort_current : Option ℕ → Strip → Strip
abort_current none s = s
abort_current (some n) s = abort n s

abbrev pub without : ℕ → Option ℕ → Option ℕ
without n none = none
without n (some m) = if m == n then none else some m

-- What the last run returned.
abbrev pub run_cleanup : Option ℕ → Strip → Strip
run_cleanup none s = s
run_cleanup (some n) s = record (abort n s) { balance_controller = without n s.balance_controller }

abbrev pub start_reading : Strip → Strip
start_reading s =
    let n = s.controllers + 1 in
    record s {
      controllers = n;
      cleanup = some n;
      balance_controller = some n;
      readings = record { controller = n; account = s.choice.selected_account } ∷ s.readings;
    }

-- The cleanup, and then the effect until its request is sent.
unfoldable pub read_balance : Strip → Strip
read_balance s =
    let t : Strip = record (run_cleanup s.cleanup s) { stale = false; balance = none } in
    if is_shown t.choice then start_reading t else record t { cleanup = none }

unfoldable pub balance_read : Balance → Strip → Strip
balance_read b s = record s { balance = some b }

unfoldable pub balance_failed : BalanceReading → Text → Strip → Strip
balance_failed q message s =
    if is_aborted s q.controller then s else record s { error = some message }

-- Any change of what the effect depends on.
unfoldable pub choose_balance : Choice → Strip → Strip
choose_balance c s = record s { choice = c; stale = true }

-- `setBalance(null)` of `bootstrap` and of the effect on the ledger.
unfoldable pub clear_balance : Strip → Strip
clear_balance s = record s { balance = none }

-- What `bootstrap` does first for a fresh sandbox.
unfoldable pub abort_balance : Strip → Strip
abort_balance s = abort_current s.balance_controller (record s { error = none })

abbrev pub no_balance : Choice → Strip
no_balance c = record {
  choice = c;
  stale = true;
  controllers = 0;
  aborted = [];
  cleanup = none;
  balance_controller = none;
  readings = [];
  balance = none;
  error = none;
}
