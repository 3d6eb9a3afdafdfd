-- ===== src/Demo/Service.antt =====
-- The class DemoService of apps/api/src/demo/demo-service.ts, over the ledger package. Random
-- identifiers are arguments, as is the fuel of the loop over the pages of accounts.
pub mod View
pub mod Seed
pub mod Reset
pub mod Writes
pub mod Refusals
pub mod Postings
pub mod Pages
use lux_ledger_demo.Common.{
  ℕ, Bool, true, false, not, Option, none, some, List, [], ◌∷◌, ◌++◌, Text, text_eq, is_empty,
  codes, if◌then◌else◌,
}
use lux_ledger_demo.Common.Int.{ℤ, negate}
use lux_ledger_demo.Common.Outcome.{
  Outcome, done, raised, out_of_fuel, Action, pure, raise, reads, ◌>>=◌,
}
use lux_ledger_demo.Common.Paging.{collect}
use lux_ledger_demo.Api.Errors.{Thrown}
use lux_ledger_demo.Demo.Backend.{
  Side, credit, OverdraftPolicy, disallow, Account, Entry, Posting, Scope, NewAccount,
  ExternalRecord, Write, create_account, create_transaction, create_hold, commit_hold, void_hold,
  ingest, create_rule, run_reconciliation, Backend,
}
use lux_ledger_demo.Demo.Input.{
  Failure, Locale, input, not_ready, service, funding_address, normalize_address, parse_amount,
}
use lux_ledger_demo.Demo.Service.View.{DemoState, view, AccountDetails, details_view}

abbrev pub ledger_name : Text
ledger_name = codes "LuxLedger transfer demo"

abbrev pub usd : Text
usd = codes "USD"

pub record Config : Type 0 where
  pub admin_api_key : Text
  pub admin_key_name : Text
  pub tenant_name : Text
  pub reset_enabled : Bool

-- What the ledger package throws is passed on.
abbrev pub from_service : {A : Type 0} → Outcome Thrown A → Outcome Failure A
from_service (done a) = done a
from_service (raised e) = raised (service e)
from_service out_of_fuel = out_of_fuel

abbrev pub or_raise : {A : Type 0} → Option A → Failure → Outcome Failure A
or_raise none e = raised e
or_raise (some a) e = done a

abbrev pub entry : Text → ℤ → Entry
entry account_id amount = record {
  account_id = account_id;
  signed_amount_minor = amount;
  currency = usd;
}

-- The two entries that move an amount.
abbrev pub move : Account → Account → ℤ → List Entry
move source destination amount = entry source.id amount ∷ entry destination.id (negate amount) ∷ []

pub data HoldAction : Type 0 where
  commit void : HoldAction

-- `fuel` bounds the pages of accounts that are read.
module _ {S : Type 0} (backend : Backend S) (config : Config) (locale : Locale) (fuel : ℕ) where
  abbrev pub Does : Type 0 → Type 0
  Does = Action S Failure

  abbrev pub asks : {A : Type 0} → (S → Outcome Thrown A) → Does A
  asks question = reads (λ s. from_service (question s))

  unfoldable pub writes : Write → Does Text
  writes w s = let (r, s') = backend.write w s in (from_service r, s')

  -- A value, or what is thrown.
  abbrev pub settle : {A : Type 0} → Outcome Failure A → Does A
  settle o = reads (λ _. o)

  -- Whatever authentication throws, the demo is not ready.
  unfoldable pub authenticated : S → Outcome Failure Text
  authenticated s = elim (backend.authenticate config.admin_api_key s) [
    | done tenant_id ↦ done tenant_id
    | raised _ ↦ raised not_ready
    | out_of_fuel ↦ out_of_fuel
  ]

  unfoldable pub context : Does Scope
  context = do
    tenant_id ← reads authenticated
    found ← asks (backend.find_ledger tenant_id ledger_name)
    ledger_id ← settle (or_raise found not_ready)
    pure (record { tenant_id = tenant_id; ledger_id = ledger_id })

  unfoldable pub accounts : Scope → Does (List Account)
  accounts scope = asks (λ s. collect (λ cursor. backend.list_accounts scope cursor s) fuel none [])

  unfoldable pub account_by_address : Scope → Text → Does Account
  account_by_address scope name = do
    found ← asks (backend.find_account scope name)
    settle (or_raise found (input (codes "Unknown account " ++ name)))

  unfoldable pub account_exists : Scope → Text → Does Bool
  account_exists scope name = do
    found ← asks (backend.find_account scope name)
    pure (elim found [ none ↦ false | some _ ↦ true ])

  unfoldable pub get_state : Does DemoState
  get_state = do
    scope ← context
    listed ← accounts scope
    transactions ← asks (backend.list_transactions scope)
    holds ← asks (backend.select_holds scope)
    trial ← asks (backend.trial_balance scope)
    pure (view locale.precedes scope.ledger_id config.reset_enabled listed transactions holds trial)

  -- `at` is the time of the call.
  unfoldable pub get_account_details : Text → ℕ → Does AccountDetails
  get_account_details address at = do
    scope ← context
    normalized ← settle (normalize_address locale address)
    account ← account_by_address scope normalized
    available ← asks (backend.balance_at scope.tenant_id account.id at)
    history ← asks (backend.list_history scope.tenant_id account.id at)
    pure (details_view account available history)

  unfoldable pub create_demo_account : Text → Does DemoState
  create_demo_account address = do
    normalized ← settle (normalize_address locale address)
    scope ← context
    exists ← account_exists scope normalized
    _ ← settle (
        if exists
        then raised (input (codes "Account " ++ (normalized ++ codes " already exists")))
        else done tt)
    _ ← writes (
        create_account (record {
          scope = scope;
          name = normalized;
          side = credit;
          overdraft_policy = disallow;
          currency = usd;
        }))
    get_state

  unfoldable pub fund : Text → Text → Text → Does DemoState
  fund address amount_minor reference = do
    amount ← settle (parse_amount amount_minor)
    scope ← context
    normalized ← settle (normalize_address locale address)
    destination ← account_by_address scope normalized
    funding ← account_by_address scope funding_address
    _ ← writes (
        create_transaction (record {
          scope = scope;
          reference = reference;
          currency = usd;
          description = codes "Fund " ++ destination.name;
          entries = move funding destination amount;
        }))
    get_state

  unfoldable pub transfer : Text → Text → Text → Text → Does DemoState
  transfer uuid from to amount_minor = do
    source_address ← settle (normalize_address locale from)
    destination_address ← settle (normalize_address locale to)
    _ ← settle (
        if text_eq source_address destination_address
        then raised (input (codes "Source and destination accounts must be different"))
        else done tt)
    amount ← settle (parse_amount amount_minor)
    scope ← context
    source ← account_by_address scope source_address
    destination ← account_by_address scope destination_address
    _ ← writes (
        create_transaction (record {
          scope = scope;
          reference = codes "demo-transfer-" ++ uuid;
          currency = usd;
          description = source.name ++ (codes " to " ++ destination.name);
          entries = move source destination amount;
        }))
    get_state

  unfoldable pub create_demo_hold : Text → Text → Text → Text → Does DemoState
  create_demo_hold uuid from to amount_minor = do
    scope ← context
    source_address ← settle (normalize_address locale from)
    source ← account_by_address scope source_address
    destination_address ← settle (normalize_address locale to)
    destination ← account_by_address scope destination_address
    _ ← settle (
        if text_eq source.id destination.id
        then raised (input (codes "Source and destination accounts must be different"))
        else done tt)
    amount ← settle (parse_amount amount_minor)
    _ ← writes (
        create_hold (record {
          scope = scope;
          reference = codes "demo-hold-" ++ uuid;
          currency = usd;
          description = source.name ++ (codes " to " ++ destination.name);
          entries = move source destination amount;
        }))
    get_state

  abbrev pub hold_write : HoldAction → Text → Text → Write
  hold_write commit tenant_id hold_id =
      commit_hold tenant_id hold_id (codes "demo-commit-" ++ hold_id)
  hold_write void tenant_id hold_id = void_hold tenant_id hold_id

  unfoldable pub resolve_hold : Text → HoldAction → Does DemoState
  resolve_hold hold_id action = do
    scope ← context
    known ← asks (backend.has_hold scope hold_id)
    _ ← settle (if known then done tt else raised (input (codes "Unknown demo hold")))
    _ ← writes (hold_write action scope.tenant_id hold_id)
    get_state

  -- rules.data[0], or a new rule.
  unfoldable pub matching_rule : Text → Does Text
  matching_rule tenant_id = do
    found ← asks (backend.find_rule tenant_id (codes "Demo statement match"))
    elim found [
      | some rule ↦ pure rule
      | none ↦ writes (create_rule tenant_id (codes "Demo statement match"))
    ]

  -- The report of the reconciliation.
  unfoldable pub reconcile : Text → Text → Text → Does Text
  reconcile uuid reference amount_minor = do
    scope ← context
    amount ← settle (parse_amount amount_minor)
    upload ← writes (
        ingest scope.tenant_id (codes "demo-statement") (record {
          external_id = uuid;
          reference = reference;
          amount_minor = amount;
          currency = usd;
        }))
    rule ← matching_rule scope.tenant_id
    writes (run_reconciliation scope upload rule)
