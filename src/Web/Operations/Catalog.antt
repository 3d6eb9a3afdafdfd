-- ===== src/Web/Operations/Catalog.antt =====
-- The list of the console's operations and its scenarios.
use lux_ledger_demo.Common.{Option, List, [], ◌∷◌, ◌++◌, Text, text_eq, codes, find}
use lux_ledger_demo.Common.Int.{ℤ}
use lux_ledger_demo.Web.Operations.Building.{Operation}
use lux_ledger_demo.Web.Operations.Postings.{
  accounts_operations, transactions_operations, holds_operations,
}
use lux_ledger_demo.Web.Operations.Credits.{credits_operations}
use lux_ledger_demo.Web.Operations.Reconciliation.{reconciliation_operations}

-- `iso` is new Date(ms).toISOString(), `now` is Date.now().
module _ (iso : ℤ → Text) (now : ℤ) where
  abbrev pub operations : List Operation
  operations =
      accounts_operations
      ++ transactions_operations iso now
      ++ holds_operations
      ++ credits_operations iso now
      ++ reconciliation_operations iso now

  -- operations.find(o => o.id === id), which the console takes to be found
  unfoldable pub find_operation : Text → Option Operation
  find_operation id = find (λ (o : Operation). text_eq o.id id) operations

-- A scenario, of which the steps are used.
abbrev pub scenarios : List (List Text)
scenarios =
    (codes "fund" ∷ codes "transfer" ∷ codes "overdraft" ∷ [])
    ∷ (codes "marketplace" ∷ codes "reverse" ∷ codes "transfer" ∷ codes "correct" ∷ [])
    ∷ (codes "hold" ∷ codes "commit" ∷ codes "void" ∷ [])
    ∷ (codes "grant"
        ∷ codes "grant-expiring"
        ∷ codes "credit-hold"
        ∷ codes "consume"
        ∷ codes "refund"
        ∷ codes "void"
        ∷ codes "expiration-preview"
        ∷ codes "expiration-run"
        ∷ codes "allocations"
        ∷ [])
    ∷ (codes "rule"
        ∷ codes "upload"
        ∷ codes "reconcile-preview"
        ∷ codes "reconcile"
        ∷ codes "recon-results"
        ∷ codes "adjust-credit"
        ∷ codes "reconcile"
        ∷ [])
    ∷ []
