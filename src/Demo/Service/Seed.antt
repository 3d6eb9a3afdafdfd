-- ===== src/Demo/Service/Seed.antt =====
-- `performReset`, `seed` and `performSeed` of DemoService.
pub mod Writes
use lux_ledger_demo.Common.{
  ℕ, Bool, true, false, Option, none, some, List, [], ◌∷◌, Text, text_eq, is_empty, codes, any,
  if◌then◌else◌,
}
use lux_ledger_demo.Common.Outcome.{Outcome, done, raised, out_of_fuel, pure, raise, reads, ◌>>=◌}
use lux_ledger_demo.Demo.Backend.{
  Side, debit, credit, OverdraftPolicy, allow, disallow, Account, Transaction, Scope, NewAccount,
  Bootstrap, truncate, create_asset, create_ledger, create_account, Backend,
}
use lux_ledger_demo.Demo.Input.{Failure, Locale, input, not_ready, error, service, funding_address}
use lux_ledger_demo.Demo.Service.{
  Config, Does, from_service, or_raise, asks, writes, settle, accounts, get_state, fund,
  ledger_name, usd,
}
use lux_ledger_demo.Demo.Service.View.{DemoState}

-- An account that the seed makes.
pub record SeedAccount : Type 0 where
  pub name : Text
  pub side : Side
  pub policy : OverdraftPolicy

abbrev pub seed_accounts : List SeedAccount
seed_accounts =
    record { name = funding_address; side = debit; policy = allow }
    ∷ record { name = codes "wallet:alice"; side = credit; policy = disallow }
    ∷ record { name = codes "wallet:bob"; side = credit; policy = disallow }
    ∷ []

abbrev pub seed_reference : Text
seed_reference = codes "demo-seed-funding-alice-v1"

module _ {S : Type 0} (backend : Backend S) (config : Config) (locale : Locale) (fuel : ℕ) where
  unfoldable pub bootstraps : Does backend config locale fuel Bootstrap
  bootstraps s =
      let (r, s') =
        backend.bootstrap config.tenant_name config.admin_key_name config.admin_api_key s in
      (from_service r, s')

  -- The tenant that was made, or that of the key.
  unfoldable pub seed_tenant : Bootstrap → Does backend config locale fuel Text
  seed_tenant bootstrap =
      if bootstrap.created
      then settle backend config locale fuel
          (or_raise bootstrap.tenant_id (error (codes "Unable to create the demo tenant")))
      else asks backend config locale fuel (backend.authenticate config.admin_api_key)

  unfoldable pub ensure_asset : Text → Does backend config locale fuel (Unit {0})
  ensure_asset tenant_id = do
    found ← asks backend config locale fuel (backend.find_asset tenant_id usd)
    elim found [
      | some _ ↦ pure tt
      | none ↦ do _ ← writes backend config locale fuel (create_asset tenant_id usd); pure tt
    ]

  unfoldable pub ensure_ledger : Text → Does backend config locale fuel Text
  ensure_ledger tenant_id = do
    found ← asks backend config locale fuel (backend.find_ledger tenant_id ledger_name)
    elim found [
      | some ledger_id ↦ pure ledger_id
      | none ↦ writes backend config locale fuel (create_ledger tenant_id ledger_name)
    ]

  -- The loop over the accounts of the seed; those that exist are passed over.
  unfoldable pub create_missing :
      Scope → List Account → List SeedAccount → Does backend config locale fuel (Unit {0})
  create_missing scope existing [] = pure tt
  create_missing scope existing (a ∷ wanted) =
      let rest = create_missing scope existing wanted in
      if any (λ (candidate : Account). text_eq candidate.name a.name) existing
      then rest
      else (writes backend config locale fuel (
            create_account (record {
              scope = scope;
              name = a.name;
              side = a.side;
              overdraft_policy = a.policy;
              currency = usd;
            }))
          >>= λ _. rest)

  unfoldable pub seed_funding : List Transaction → Does backend config locale fuel (Unit {0})
  seed_funding transactions =
      if any (λ (t : Transaction). text_eq t.reference seed_reference) transactions
      then pure tt
      else (fund backend config locale fuel (codes "wallet:alice") (codes "10000") seed_reference
          >>= λ _. pure tt)

  unfoldable pub perform_seed : Does backend config locale fuel DemoState
  perform_seed = do
    bootstrap ← bootstraps
    tenant_id ← seed_tenant bootstrap
    _ ← ensure_asset tenant_id
    ledger_id ← ensure_ledger tenant_id
    let scope : Scope = record { tenant_id = tenant_id; ledger_id = ledger_id }
    existing ← accounts backend config locale fuel scope
    _ ← create_missing scope existing seed_accounts
    transactions ← asks backend config locale fuel (backend.list_transactions scope)
    _ ← seed_funding transactions.items
    get_state backend config locale fuel

  -- The catch: all but a DemoNotReadyError is thrown on.
  abbrev pub seed_after : Outcome Failure DemoState × S → Outcome Failure DemoState × S
  seed_after (done found, s) = (done found, s)
  seed_after (out_of_fuel, s) = (out_of_fuel, s)
  seed_after (raised not_ready, s) = perform_seed s
  seed_after (raised (input m), s) = (raised (input m), s)
  seed_after (raised (error m), s) = (raised (error m), s)
  seed_after (raised (service t), s) = (raised (service t), s)

  unfoldable pub seed : Does backend config locale fuel DemoState
  seed s = seed_after (get_state backend config locale fuel s)

  unfoldable pub perform_reset : Does backend config locale fuel DemoState
  perform_reset =
      if is_empty config.admin_api_key
      then raise (error (codes "BOOTSTRAP_ADMIN_API_KEY is required for demo reset"))
      else do _ ← writes backend config locale fuel truncate; perform_seed
