-- ===== src/Web/Operations/Cases.antt =====
-- What holds of each group of the console's operations holds of all.
use lux_ledger_demo.Common.{List, ◌∷◌, ◌++◌, All, All-append, Text}
use lux_ledger_demo.Common.Int.{ℤ}
use lux_ledger_demo.Web.Operations.Building.{Operation}
use lux_ledger_demo.Web.Operations.Postings.{
  accounts_operations, payments, batches, following_up, rejected, backdated,
  transactions_operations, holds_operations,
}
use lux_ledger_demo.Web.Operations.Credits.{
  issues, spending, expirations, allocations, credits_operations,
}
use lux_ledger_demo.Web.Operations.Reconciliation.{reconciliation_operations}
use lux_ledger_demo.Web.Operations.Catalog.{operations}

module _ (P : Operation → Type 0) (iso : ℤ → Text) (now : ℤ) where
  pub All-transactions :
      All P payments
      → All P batches
      → All P following_up
      → P (backdated iso now)
      → All P rejected
      → All P (transactions_operations iso now)
  All-transactions hp hb hf hd hr =
      All-append P payments (batches ++ (following_up ++ (backdated iso now ∷ rejected))) hp (
        All-append P batches (following_up ++ (backdated iso now ∷ rejected)) hb
          (All-append P following_up (backdated iso now ∷ rejected) hf (hd, hr)))

  pub All-credits :
      All P (issues iso now)
      → All P spending
      → All P (expirations iso now)
      → All P allocations
      → All P (credits_operations iso now)
  All-credits hi hs he ha =
      All-append P (issues iso now) (spending ++ (expirations iso now ++ allocations)) hi (
        All-append P spending (expirations iso now ++ allocations) hs
          (All-append P (expirations iso now) allocations he ha))

  pub All-operations :
      All P accounts_operations
      → All P (transactions_operations iso now)
      → All P holds_operations
      → All P (credits_operations iso now)
      → All P (reconciliation_operations iso now)
      → All P (operations iso now)
  All-operations ha ht hh hc hr =
      let later : List Operation =
        credits_operations iso now ++ reconciliation_operations iso now in
      All-append P accounts_operations
        (transactions_operations iso now ++ (holds_operations ++ later)) ha
        (All-append P (transactions_operations iso now) (holds_operations ++ later) ht (
          All-append P holds_operations later hh
            (All-append P (credits_operations iso now) (reconciliation_operations iso now) hc hr)))
