-- ===== src/Web/Operations/Postings.antt =====
-- The operations of the areas Accounts, Transactions and Holds.
use lux_ledger_demo.Common.{false, List, [], ◌∷◌, ◌++◌, map, Text, text_eq, codes, if◌then◌else◌}
use lux_ledger_demo.Common.Int.{ℤ, pos, ◌+ℤ◌, negate}
use lux_ledger_demo.Common.Json.{bool, str, arr, obj, Fields, fields, items, set_field}
use lux_ledger_demo.Web.Operations.{
  Context, funding, primary, secondary, Entry, entries, marketplace, unbalanced,
}
use lux_ledger_demo.Web.Operations.Building.{
  accounts, transactions, holds, Operation, post, post_empty, entries_json, amount_2500, tx,
  with_entries,
}

abbrev pub accounts_operations : List Operation
accounts_operations =
    record {
      id = codes "ledger";
      area = accounts;
      build = λ _ r. post (codes "/v1/ledgers") (fields ((codes "name", str r) ∷ []));
    }
    ∷ record {
      id = codes "account";
      area = accounts;
      build = λ c r. post (codes "/v1/accounts") (
          fields (
            (codes "ledger_id", str c.ledger)
            ∷ (codes "name", str (codes "wallet:" ++ r))
            ∷ (codes "side", str (codes "CREDIT"))
            ∷ (codes "currency", str c.currency)
            ∷ (codes "overdraft_policy", str (codes "DISALLOW"))
            ∷ (codes "grant_enabled", bool false)
            ∷ []));
    }
    ∷ []

abbrev transactions_path : Text
transactions_path = codes "/v1/transactions"

abbrev pub payments : List Operation
payments =
    record {
      id = codes "transfer";
      area = transactions;
      build = λ c r. post transactions_path (tx c r amount_2500);
    }
    ∷ record {
      id = codes "fund";
      area = transactions;
      build = λ c r.
          post transactions_path
            (with_entries (entries c (codes "10000") funding primary) (tx c r amount_2500));
    }
    ∷ record {
      id = codes "marketplace";
      area = transactions;
      build = λ c r. post transactions_path (
          with_entries (marketplace c) (
            set_field (codes "description") (str (codes "Order settlement with platform fee"))
              (tx c r amount_2500)));
    }
    ∷ []

-- { transactions: [first, second] }
abbrev batch : Fields → Fields → Fields
batch first second = fields ((codes "transactions", arr (items (obj first ∷ obj second ∷ []))) ∷ [])

abbrev pub batches : List Operation
batches =
    record {
      id = codes "bulk";
      area = transactions;
      build = λ c r.
          post (codes "/v1/transactions/bulk")
            (batch (tx c (r ++ codes "-1") (codes "200")) (tx c (r ++ codes "-2") (codes "300")));
    }
    ∷ record {
      id = codes "bulk-failure";
      area = transactions;
      build = λ c r. post (codes "/v1/transactions/bulk") (
          batch (tx c (r ++ codes "-1") (codes "200"))
            (with_entries (unbalanced c) (tx c (r ++ codes "-2") amount_2500)));
    }
    ∷ []

-- The reversal and the correction of the selected transaction.
abbrev pub following_up : List Operation
following_up =
    record {
      id = codes "reverse";
      area = transactions;
      build = λ c r. post (codes "/v1/transactions/" ++ c.tx ++ codes "/reverse") (
          fields (
            (codes "reference", str r)
            ∷ (codes "description", str (codes "Customer payment reversal"))
            ∷ []));
    }
    ∷ record {
      id = codes "correct";
      area = transactions;
      build = λ c r. post (codes "/v1/transactions/" ++ c.tx ++ codes "/correct") (
          fields (
            (codes "reversal_reference", str (r ++ codes "-reversal"))
            ∷ (codes "corrected_reference", str (r ++ codes "-corrected"))
            ∷ (codes "description", str (codes "Corrected order amount"))
            ∷ (codes "entries", entries_json (entries c (codes "2600") primary secondary))
            ∷ []));
    }
    ∷ []

-- c.currency === 'USD' ? 'EUR' : 'USD'
abbrev pub other_currency : Text → Text
other_currency currency = if text_eq currency (codes "USD") then codes "EUR" else codes "USD"

abbrev pub in_other_currency : Context → Entry → Entry
in_other_currency c e = record e { currency = other_currency c.currency }

abbrev pub rejected : List Operation
rejected =
    record {
      id = codes "unbalanced";
      area = transactions;
      build = λ c r. post transactions_path (with_entries (unbalanced c) (tx c r amount_2500));
    }
    ∷ record {
      id = codes "currency-failure";
      area = transactions;
      build = λ c r. post transactions_path (
          with_entries (map (in_other_currency c) (entries c amount_2500 primary secondary))
            (tx c r amount_2500));
    }
    ∷ record {
      id = codes "overdraft";
      area = transactions;
      build = λ c r. post transactions_path (tx c r (codes "999999999"));
    }
    ∷ []

-- `iso` is new Date(ms).toISOString(), `now` is Date.now().
module _ (iso : ℤ → Text) (now : ℤ) where
  abbrev pub backdated : Operation
  backdated = record {
    id = codes "backdate";
    area = transactions;
    build = λ c r. post transactions_path (
        with_entries (entries c (codes "100") funding primary) (
          set_field (codes "effective_at") (str (iso (now +ℤ negate (pos 86_400_000))))
            (tx c r (codes "100"))));
  }

  abbrev pub transactions_operations : List Operation
  transactions_operations = payments ++ batches ++ following_up ++ (backdated ∷ rejected)

abbrev hold_path : Context → Text → Text
hold_path c action = codes "/v1/holds/" ++ c.hold ++ action

abbrev pub holds_operations : List Operation
holds_operations =
    record {
      id = codes "hold";
      area = holds;
      build = λ c r. post (codes "/v1/holds") (
          fields (
            (codes "ledger_id", str c.ledger)
            ∷ (codes "reference", str r)
            ∷ (codes "currency", str c.currency)
            ∷ (codes "description", str (codes "Order authorization"))
            ∷ (codes "entries", entries_json (entries c amount_2500 primary secondary))
            ∷ []));
    }
    ∷ record {
      id = codes "commit";
      area = holds;
      build = λ c r.
          post (hold_path c (codes "/commit"))
            (fields ((codes "reference", str r) ∷ (codes "amount_minor", str (codes "1000")) ∷ []));
    }
    ∷ record {
      id = codes "commit-all";
      area = holds;
      build =
          λ c r. post (hold_path c (codes "/commit")) (fields ((codes "reference", str r) ∷ []));
    }
    ∷ record {
      id = codes "void";
      area = holds;
      build = λ c _. post_empty (hold_path c (codes "/void"));
    }
    ∷ []
