-- ===== src/Web/App/Guide/Tests.antt =====
-- The theorem about the guide at a concrete input.
use lux_ledger_demo.Common.{◌+◌, ◌≡◌, refl, false, none, some, [], Text, codes}
use lux_ledger_demo.Common.Int.{ℤ, pos}
use lux_ledger_demo.Common.Json.{Json}
use lux_ledger_demo.Web.Requests.{http_get}
use lux_ledger_demo.Web.Operations.{Context}
use lux_ledger_demo.Web.Operations.Building.{Operation, accounts}
use lux_ledger_demo.Web.App.Guide.{Workbench, next_step}
use lux_ledger_demo.Web.App.Guide.Steps.{IsOpened, next_step-IsOpened}

abbrev book : Context
book = record {
  ledger = codes "L1";
  currency = codes "USD";
  accounts = [];
  tx = [];
  hold = codes "H1";
  grant = [];
  upload = [];
  rule = [];
  run = [];
  expiration_as_of = [];
}

abbrev iso : ℤ → Text
iso t = codes "2026-01-01T00:00:00.000Z"

abbrev written : Json → Text
written body = codes "{}"

-- The first step of the third scenario, the hold.
abbrev at_hold : Workbench
at_hold = record {
  area = accounts;
  preset = none;
  draft_path = [];
  draft_method = http_get;
  draft_body = [];
  copied = false;
  scenario = some 2;
  step = 0;
}

next_step-IsOpened_example :
    (v : Workbench) × (op : Operation) × (next_step iso
        (pos 0)
        written
        book
        (codes "demo-1")
        at_hold
      ≡ some v)
    × (v.step ≡ 0 + 1)
    × (v.scenario ≡ some 2)
    × IsOpened iso (pos 0) written book (codes "demo-1") v op
next_step-IsOpened_example =
    next_step-IsOpened iso (pos 0) written book (codes "demo-1") at_hold refl
