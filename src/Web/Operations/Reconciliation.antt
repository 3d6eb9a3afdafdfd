-- ===== src/Web/Operations/Reconciliation.antt =====
-- The operations of the area Reconciliation.
use lux_ledger_demo.Common.{
  Bool, true, false, ◌&&◌, List, [], ◌∷◌, ◌++◌, Text, text_eq, codes, any, if◌then◌else◌,
}
use lux_ledger_demo.Common.Int.{ℤ, pos}
use lux_ledger_demo.Common.Json.{Json, bool, num, str, arr, obj, Fields, fields, items}
use lux_ledger_demo.Web.Operations.{Context, funding, primary, account, has_code}
use lux_ledger_demo.Web.Operations.Building.{reconciliation, Operation, post, get}

-- { field, operator: 'equals', ...more }
abbrev equals : Text → List (Text × Json) → Json
equals name more =
    obj (fields ((codes "field", str name) ∷ (codes "operator", str (codes "equals")) ∷ more))

abbrev pub matching_rule : Operation
matching_rule = record {
  id = codes "rule";
  area = reconciliation;
  build = λ _ r. post (codes "/v1/reconciliation/matching-rules") (
      fields (
        (codes "name", str r)
        ∷ (
          codes "criteria",
          arr (
              items (
                equals (codes "reference") []
                ∷ equals (codes "currency") []
                ∷ equals (codes "amount") ((codes "amount_tolerance_minor", str (codes "0")) ∷ [])
                ∷ [])),
        )
        ∷ []));
}

-- The amount of the opening posting: c.currency === 'EUR' && c.accounts.some(…) ? … : …
abbrev opening_amount : Context → Text
opening_amount c =
    if text_eq c.currency (codes "EUR") && any (has_code (codes "DEMO_PRIMARY")) c.accounts
    then codes "17500"
    else codes "10000"

-- { ledger_id, upload_id, strategy, matching_rule_ids, dry_run }
abbrev reconciliation_run : Context → Bool → Fields
reconciliation_run c dry_run = fields (
    (codes "ledger_id", str c.ledger)
    ∷ (codes "upload_id", str c.upload)
    ∷ (codes "strategy", str (codes "one_to_one"))
    ∷ (codes "matching_rule_ids", arr (items (str c.rule ∷ [])))
    ∷ (codes "dry_run", bool dry_run)
    ∷ [])

abbrev pub runs : List Operation
runs =
    record {
      id = codes "reconcile-preview";
      area = reconciliation;
      build = λ c _. post (codes "/v1/reconciliation/runs") (reconciliation_run c true);
    }
    ∷ record {
      id = codes "reconcile";
      area = reconciliation;
      build = λ c _. post (codes "/v1/reconciliation/runs") (reconciliation_run c false);
    }
    ∷ record {
      id = codes "recon-results";
      area = reconciliation;
      build = λ c _. get (codes "/v1/reconciliation/runs/" ++ c.run ++ codes "/results?limit=25");
    }
    ∷ []

-- The operation `adjust-${direction}`.
abbrev pub adjustment : Text → Operation
adjustment direction = record {
  id = codes "adjust-" ++ direction;
  area = reconciliation;
  build = λ c r. post (codes "/v1/adjustments/" ++ direction) (
      fields (
        (codes "ledger_id", str c.ledger)
        ∷ (codes "account_id", str (account c primary))
        ∷ (codes "offset_account_id", str (account c funding))
        ∷ (codes "reference", str r)
        ∷ (codes "amount_minor", str (codes "100"))
        ∷ (codes "description", str (codes "Provider reconciliation adjustment"))
        ∷ (codes "reason_code", str (codes "PROVIDER_DIFFERENCE"))
        ∷ (codes "actor_id", str (codes "finance-demo-operator"))
        ∷ (codes "attributes", obj (fields ((codes "ticket_id", str (codes "FIN-1042")) ∷ [])))
        ∷ []));
}

-- `iso` is new Date(ms).toISOString(), `now` is Date.now().
module _ (iso : ℤ → Text) (now : ℤ) where
  abbrev external_record : Text → Text → Text → Text → ℤ → Json
  external_record id amount currency reference line = obj (
      fields (
        (codes "id", str id)
        ∷ (codes "amount_minor", str amount)
        ∷ (codes "currency", str currency)
        ∷ (codes "reference", str reference)
        ∷ (codes "date", str (iso now))
        ∷ (codes "raw", obj (fields ((codes "source_line", num line) ∷ [])))
        ∷ []))

  abbrev pub upload : Operation
  upload = record {
    id = codes "upload";
    area = reconciliation;
    build = λ c r. post (codes "/v1/reconciliation/external-records") (
        fields (
          (codes "source", str (codes "payment-provider"))
          ∷ (
            codes "records",
            arr (
                items (
                  external_record (r ++ codes "-matched") (opening_amount c) c.currency
                    (codes "sandbox-" ++ c.currency ++ codes "-opening") (pos 1)
                  ∷ external_record (r ++ codes "-missing") (codes "1500") c.currency
                      (codes "external-only-payment") (pos 2)
                  ∷ [])),
          )
          ∷ []));
  }

  abbrev pub reconciliation_operations : List Operation
  reconciliation_operations =
      matching_rule ∷ upload ∷ runs
      ++ (adjustment (codes "credit") ∷ adjustment (codes "debit") ∷ [])
