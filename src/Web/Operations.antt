-- ===== src/Web/Operations.antt =====
-- What the console's operations are built from: apps/web/src/operations.ts.
pub mod Building
pub mod Postings
pub mod Credits
pub mod Reconciliation
pub mod Catalog
pub mod Cases
pub mod Scenarios
pub mod Rejections
pub mod Documented
pub mod Contract
pub mod Typed
pub mod Balanced
mod Tests
use lux_ledger_demo.Common.{
  Bool, true, false, Option, none, some, List, [], ◌∷◌, ◌++◌, Text, text_eq, codes, find,
}

-- An account as the API describes it.
pub record Account : Type 0 where
  pub id : Text
  pub code : Option Text
  pub name : Text

pub record Context : Type 0 where
  pub ledger : Text
  pub currency : Text
  pub accounts : List Account
  pub tx : Text
  pub hold : Text
  pub grant : Text
  pub upload : Text
  pub rule : Text
  pub run : Text
  pub expiration_as_of : Text

pub data SeedRole : Type 0 where
  funding primary secondary fees credits usage : SeedRole

pub record Entry : Type 0 where
  pub account_id : Text
  pub signed_amount_minor : Text
  pub currency : Text

-- `legacyNames`
abbrev pub legacy_name : SeedRole → Text
legacy_name funding = codes "system:funding"
legacy_name primary = codes "wallet:alice"
legacy_name secondary = codes "wallet:bob"
legacy_name fees = codes "platform:fees"
legacy_name credits = codes "credits:alice"
legacy_name usage = codes "service:usage"

-- `DEMO_${role.toUpperCase()}`
abbrev pub role_code : SeedRole → Text
role_code funding = codes "DEMO_FUNDING"
role_code primary = codes "DEMO_PRIMARY"
role_code secondary = codes "DEMO_SECONDARY"
role_code fees = codes "DEMO_FEES"
role_code credits = codes "DEMO_CREDITS"
role_code usage = codes "DEMO_USAGE"

abbrev has_code : Text → Account → Bool
has_code code a = elim a.code [ none ↦ false | some c ↦ text_eq c code ]

unfoldable pub account : Context → SeedRole → Text
account c role = elim (find (has_code (role_code role)) c.accounts) [
  | some a ↦ a.id
  | none ↦ elim (find (λ (a : Account). text_eq a.name (legacy_name role)) c.accounts) [
    | some a ↦ a.id
    | none ↦ codes "<select-account-id>"
  ]
]

unfoldable pub entries : Context → Text → SeedRole → SeedRole → List Entry
entries c amount from to =
    record { account_id = account c from; signed_amount_minor = amount; currency = c.currency }
    ∷ record {
      account_id = account c to;
      signed_amount_minor = b'-' ∷ amount;
      currency = c.currency;
    }
    ∷ []

-- The entries of the operation `marketplace`.
unfoldable pub marketplace : Context → List Entry
marketplace c =
    record {
      account_id = account c primary;
      signed_amount_minor = codes "2500";
      currency = c.currency;
    }
    ∷ record {
      account_id = account c secondary;
      signed_amount_minor = codes "-2300";
      currency = c.currency;
    }
    ∷ record {
      account_id = account c fees;
      signed_amount_minor = codes "-200";
      currency = c.currency;
    }
    ∷ []

-- The entries of the operation `unbalanced`, and of the second item of `bulk-failure`.
unfoldable pub unbalanced : Context → List Entry
unbalanced c =
    record {
      account_id = account c primary;
      signed_amount_minor = codes "2500";
      currency = c.currency;
    }
    ∷ record {
      account_id = account c secondary;
      signed_amount_minor = codes "-2499";
      currency = c.currency;
    }
    ∷ []
