-- ===== src/Web/Operations/Tests.antt =====
-- The theorems about the console's operations at concrete inputs.
use lux_ledger_demo.Common.{refl, [], ◌∷◌, All, Text, codes, some}
use lux_ledger_demo.Common.Int.{ℤ, pos}
use lux_ledger_demo.Web.Operations.{Context, Account}
use lux_ledger_demo.Web.Operations.Catalog.{operations}
use lux_ledger_demo.Web.Operations.Typed.{IsTyped, operations-AreTyped}
use lux_ledger_demo.Web.Operations.Rejections.{IsToldById, operations-AreToldById}
use lux_ledger_demo.Web.Operations.Documented.{HasPlainIds}

abbrev alice : Account
alice = record { id = codes "a1"; code = some (codes "DEMO_PRIMARY"); name = codes "wallet:alice" }

abbrev euros : Context
euros = record {
  ledger = codes "l1";
  currency = codes "EUR";
  accounts = alice ∷ [];
  tx = codes "t1";
  hold = codes "h1";
  grant = [];
  upload = [];
  rule = [];
  run = [];
  expiration_as_of = [];
}

abbrev midnight : ℤ → Text
midnight _ = codes "2026-01-01T00:00:00.000Z"

operations-AreToldById_example :
    All (IsToldById euros (codes "demo-1")) (operations midnight (pos 1_767_225_600_000))
operations-AreToldById_example =
    operations-AreToldById midnight (pos 1_767_225_600_000) euros (codes "demo-1")

plain_ids : HasPlainIds euros
plain_ids = (refl, refl, refl, refl)

operations-AreTyped_example :
    All (IsTyped euros (codes "demo-1")) (operations midnight (pos 1_767_225_600_000))
operations-AreTyped_example =
    operations-AreTyped euros (codes "demo-1") midnight (pos 1_767_225_600_000)
