-- ===== src/Web/Operations/Typed.antt =====
-- That the console's requests have the types of the contract.
use lux_ledger_demo.Common.{
  ◌≡◌, refl, Bool, true, false, Option, none, some, List, [], ◌∷◌, All, Text, text_eq, codes,
  lookup,
}
use lux_ledger_demo.Common.Int.{ℤ}
use lux_ledger_demo.Common.Json.{obj, get_field, set_field}
use lux_ledger_demo.Web.Requests.{DemoRequest}
use lux_ledger_demo.Web.Operations.{Context, entries, marketplace, unbalanced}
use lux_ledger_demo.Web.Operations.Building.{Operation, post, post_empty, get, tx}
use lux_ledger_demo.Web.Operations.Postings.{
  accounts_operations, payments, batches, following_up, rejected, backdated, holds_operations,
}
use lux_ledger_demo.Web.Operations.Credits.{issues, spending, expirations, allocations}
use lux_ledger_demo.Web.Operations.Reconciliation.{reconciliation_operations}
use lux_ledger_demo.Web.Operations.Catalog.{operations}
use lux_ledger_demo.Web.Operations.Cases.{All-transactions, All-credits, All-operations}
use lux_ledger_demo.Web.Operations.Contract

-- The type of the request that each operation is documented to send; the others send no body.
abbrev pub request_types : List (Text × Contract.Shape)
request_types =
    (codes "ledger", Contract.create_ledger_request)
    ∷ (codes "account", Contract.create_account_request)
    ∷ (codes "transfer", Contract.create_transaction_request)
    ∷ (codes "fund", Contract.create_transaction_request)
    ∷ (codes "marketplace", Contract.create_transaction_request)
    ∷ (codes "bulk", Contract.bulk_create_transaction_request)
    ∷ (codes "bulk-failure", Contract.bulk_create_transaction_request)
    ∷ (codes "reverse", Contract.reverse_transaction_request)
    ∷ (codes "correct", Contract.correct_transaction_request)
    ∷ (codes "backdate", Contract.create_transaction_request)
    ∷ (codes "unbalanced", Contract.create_transaction_request)
    ∷ (codes "currency-failure", Contract.create_transaction_request)
    ∷ (codes "overdraft", Contract.create_transaction_request)
    ∷ (codes "hold", Contract.create_hold_request)
    ∷ (codes "commit", Contract.commit_hold_request)
    ∷ (codes "commit-all", Contract.commit_hold_request)
    ∷ (codes "grant", Contract.create_credit_grant_request)
    ∷ (codes "grant-expiring", Contract.create_credit_grant_request)
    ∷ (codes "consume", Contract.create_transaction_request)
    ∷ (codes "credit-hold", Contract.create_hold_request)
    ∷ (codes "refund", Contract.refund_credit_grant_request)
    ∷ (codes "grant-reverse", Contract.reverse_credit_grant_request)
    ∷ (codes "expiration-preview", Contract.process_credit_grant_expirations_request)
    ∷ (codes "expiration-run", Contract.process_credit_grant_expirations_request)
    ∷ (codes "rule", Contract.create_reconciliation_matching_rule_request)
    ∷ (codes "upload", Contract.ingest_external_records_request)
    ∷ (codes "reconcile-preview", Contract.run_reconciliation_request)
    ∷ (codes "reconcile", Contract.run_reconciliation_request)
    ∷ (codes "adjust-credit", Contract.create_adjustment_request)
    ∷ (codes "adjust-debit", Contract.create_adjustment_request)
    ∷ []

-- A body of the type, and no body where there is no type.
abbrev pub has_type : Option Contract.Shape → DemoRequest → Bool
has_type none request = elim request.body [ none ↦ true | some _ ↦ false ]
has_type (some shape) request = elim request.body [
  | none ↦ false
  | some body ↦ Contract.conforms shape (obj body)
]

module _ (c : Context) (r : Text) where
  abbrev pub IsTyped : Operation → Type 0
  IsTyped o = has_type (lookup o.id request_types) (o.build c r) ≡ true

  accounts-AreTyped : All IsTyped accounts_operations
  unfolding post get_field text_eq lookup Contract.conforms Contract.only_members Contract.is_member
  accounts-AreTyped = (refl, (refl, tt))

  payments-AreTyped : All IsTyped payments
  unfolding post get_field set_field text_eq lookup Contract.conforms Contract.only_members
      Contract.is_member tx entries marketplace
  payments-AreTyped = (refl, (refl, (refl, tt)))

  batches-AreTyped : All IsTyped batches
  unfolding post get_field text_eq lookup Contract.conforms Contract.only_members Contract.is_member
      set_field tx entries unbalanced
  batches-AreTyped = (refl, (refl, tt))

  following_up-AreTyped : All IsTyped following_up
  unfolding post get_field text_eq lookup Contract.conforms Contract.only_members Contract.is_member
      entries
  following_up-AreTyped = (refl, (refl, tt))

  rejected-AreTyped : All IsTyped rejected
  unfolding post get_field text_eq lookup Contract.conforms Contract.only_members Contract.is_member
      set_field tx entries unbalanced
  rejected-AreTyped = (refl, (refl, (refl, tt)))

  holds-AreTyped : All IsTyped holds_operations
  unfolding post get_field text_eq lookup Contract.conforms Contract.only_members Contract.is_member
      entries post_empty
  holds-AreTyped = (refl, (refl, (refl, (refl, tt))))

  spending-AreTyped : All IsTyped spending
  unfolding post get_field text_eq lookup Contract.conforms Contract.only_members Contract.is_member
      entries set_field tx
  spending-AreTyped = (refl, (refl, (refl, (refl, tt))))

  allocations-AreTyped : All IsTyped allocations
  unfolding post get_field text_eq lookup Contract.conforms Contract.only_members Contract.is_member
      get
  allocations-AreTyped = (refl, (refl, tt))

  module _ (iso : ℤ → Text) (now : ℤ) where
    backdated-IsTyped : IsTyped (backdated iso now)
    unfolding post get_field text_eq lookup Contract.conforms Contract.only_members
        Contract.is_member entries set_field tx
    backdated-IsTyped = refl

    issues-AreTyped : All IsTyped (issues iso now)
    unfolding post get_field text_eq lookup Contract.conforms Contract.only_members
        Contract.is_member
    issues-AreTyped = (refl, (refl, tt))

    expirations-AreTyped : All IsTyped (expirations iso now)
    unfolding post get_field text_eq lookup Contract.conforms Contract.only_members
        Contract.is_member
    expirations-AreTyped = (refl, (refl, tt))

    reconciliation-AreTyped : All IsTyped (reconciliation_operations iso now)
    unfolding post get_field text_eq lookup Contract.conforms Contract.only_members
        Contract.is_member get
    reconciliation-AreTyped = (refl, (refl, (refl, (refl, (refl, (refl, (refl, tt)))))))

    -- Whatever the page knows and whatever the reference is: the body that an operation of the
    -- console sends has exactly the type that the contract gives the operation's request (each
    -- required property, no other than those of the type, each of its type), and an operation
    -- whose request has no type sends no body.
    pub operations-AreTyped : All IsTyped (operations iso now)
    operations-AreTyped =
        All-operations IsTyped iso now accounts-AreTyped
          (All-transactions IsTyped iso now payments-AreTyped batches-AreTyped following_up-AreTyped
            backdated-IsTyped rejected-AreTyped)
          holds-AreTyped
          (All-credits IsTyped iso now issues-AreTyped spending-AreTyped expirations-AreTyped
            allocations-AreTyped)
          reconciliation-AreTyped
