-- ===== src/Web/Operations/Credits.antt =====
-- The operations of the area Credits.
use lux_ledger_demo.Common.{List, [], ◌∷◌, ◌++◌, Text, codes, is_empty, if◌then◌else◌}
use lux_ledger_demo.Common.Int.{ℤ, pos, ◌+ℤ◌}
use lux_ledger_demo.Common.Json.{num, str, Fields, fields}
use lux_ledger_demo.Web.Operations.{Context, SeedRole, funding, usage, account, entries}
use lux_ledger_demo.Web.Operations.Building.{
  Area, Operation, post, get, entries_json, amount_2500, tx, with_entries,
}

abbrev grants_path : Text
grants_path = codes "/v1/credit-grants"

abbrev grant_path : Context → Text → Text
grant_path c action = codes "/v1/credit-grants/" ++ c.grant ++ action

abbrev pub spending : List Operation
spending =
    record {
      id = codes "consume";
      area = Area.credits;
      build = λ c r.
          post (codes "/v1/transactions")
            (with_entries (entries c (codes "1200") SeedRole.credits usage) (tx c r amount_2500));
    }
    ∷ record {
      id = codes "credit-hold";
      area = Area.credits;
      build = λ c r. post (codes "/v1/holds") (
          fields (
            (codes "ledger_id", str c.ledger)
            ∷ (codes "reference", str r)
            ∷ (codes "currency", str c.currency)
            ∷ (codes "entries", entries_json (entries c (codes "1000") SeedRole.credits usage))
            ∷ []));
    }
    ∷ record {
      id = codes "refund";
      area = Area.credits;
      build = λ c r.
          post (grant_path c (codes "/refund"))
            (fields ((codes "reference", str r) ∷ (codes "amount_minor", str (codes "500")) ∷ []));
    }
    ∷ record {
      id = codes "grant-reverse";
      area = Area.credits;
      build =
          λ c r. post (grant_path c (codes "/reversal")) (fields ((codes "reference", str r) ∷ []));
    }
    ∷ []

abbrev pub allocations : List Operation
allocations =
    record {
      id = codes "allocations";
      area = Area.credits;
      build = λ c _. get (grant_path c (codes "/allocations?limit=25"));
    }
    ∷ record {
      id = codes "tx-allocations";
      area = Area.credits;
      build =
          λ c _. get (codes "/v1/transactions/" ++ c.tx ++ codes "/credit-allocations?limit=25");
    }
    ∷ []

-- `iso` is new Date(ms).toISOString(), `now` is Date.now().
module _ (iso : ℤ → Text) (now : ℤ) where
  abbrev pub issues : List Operation
  issues =
      record {
        id = codes "grant";
        area = Area.credits;
        build = λ c r. post grants_path (
            fields (
              (codes "ledger_id", str c.ledger)
              ∷ (codes "account_id", str (account c SeedRole.credits))
              ∷ (codes "funding_account_id", str (account c funding))
              ∷ (codes "reference", str r)
              ∷ (codes "external_reference", str (codes "billing-" ++ r))
              ∷ (codes "amount_minor", str (codes "5000"))
              ∷ (codes "expires_at", str (iso (now +ℤ pos 86_400_000)))
              ∷ []));
      }
      ∷ record {
        id = codes "grant-expiring";
        area = Area.credits;
        build = λ c r. post grants_path (
            fields (
              (codes "ledger_id", str c.ledger)
              ∷ (codes "account_id", str (account c SeedRole.credits))
              ∷ (codes "funding_account_id", str (account c funding))
              ∷ (codes "reference", str r)
              ∷ (codes "amount_minor", str (codes "2000"))
              ∷ (codes "expires_at", str (iso (now +ℤ pos 15_000)))
              ∷ []));
      }
      ∷ []

  -- { as_of, limit: 25 }
  abbrev due : Text → Fields
  due as_of = fields ((codes "as_of", str as_of) ∷ (codes "limit", num (pos 25)) ∷ [])

  abbrev pub expirations : List Operation
  expirations =
      record {
        id = codes "expiration-preview";
        area = Area.credits;
        build = λ _ _. post (codes "/v1/credit-grants/expiration/preview") (due (iso now));
      }
      ∷ record {
        id = codes "expiration-run";
        area = Area.credits;
        build = λ c _.
            post (codes "/v1/credit-grants/expiration/run")
              (due (if is_empty c.expiration_as_of then iso now else c.expiration_as_of));
      }
      ∷ []

  abbrev pub credits_operations : List Operation
  credits_operations = issues ++ spending ++ expirations ++ allocations
