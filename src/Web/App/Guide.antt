-- ===== src/Web/App/Guide.antt =====
-- The workbench of apps/web/src/App.tsx and its guided scenarios: `choose`, `switchArea`,
-- `openOperation` and the buttons of the scenarios.
pub mod Steps
mod Tests
use lux_ledger_demo.Common.{
  ℕ, ◌+◌, ltb, Bool, false, Option, none, some, List, [], ◌∷◌, length, get_elem?, Text,
}
use lux_ledger_demo.Common.Int.{ℤ}
use lux_ledger_demo.Common.Json.{Json, obj, Fields, end}
use lux_ledger_demo.Web.Requests.{Method, DemoRequest}
use lux_ledger_demo.Web.Operations.{Context}
use lux_ledger_demo.Web.Operations.Building.{Area, Operation}
use lux_ledger_demo.Web.Operations.Catalog.{find_operation, scenarios}

pub record Workbench : Type 0 where
  pub area : Area
  pub preset : Option Operation
  pub draft_path : Text
  pub draft_method : Method
  pub draft_body : Text
  pub copied : Bool
  pub scenario : Option ℕ
  pub step : ℕ

-- draft.body ?? {}
abbrev pub or_empty : Option Fields → Fields
or_empty none = end
or_empty (some body) = body

unfoldable pub switch_area : Area → Workbench → Workbench
switch_area next w = record w { area = next; preset = none; copied = false }

unfoldable pub exit_guide : Workbench → Workbench
exit_guide w = record w { scenario = none }

-- The steps of the scenario that is open.
abbrev pub steps_of : Option ℕ → List Text
steps_of none = []
steps_of (some i) = elim (get_elem? scenarios i) [ none ↦ [] | some ids ↦ ids ]

-- Whether the button of the next step is enabled, as long as the page is not busy.
abbrev pub has_next : Workbench → Bool
has_next w = ltb (w.step + 1) (length (steps_of w.scenario))

-- `iso` and `now` are the clock's, `pretty` is JSON.stringify with indents; an operation is built
-- with the context of the page and a new reference.
module _ (iso : ℤ → Text) (now : ℤ) (pretty : Json → Text) (c : Context) (reference : Text) where
  unfoldable pub choose : Operation → Workbench → Workbench
  choose op w =
      let draft = op.build c reference in
      record w {
        preset = some op;
        draft_path = draft.path;
        draft_method = draft.method;
        draft_body = pretty (obj (or_empty draft.body));
      }

  -- None, where it throws: the operation that is named is taken to be there.
  unfoldable pub open_operation : Text → Workbench → Option Workbench
  open_operation id w = elim (find_operation iso now id) [
    | none ↦ none
    | some op ↦ some (choose op (record w { area = op.area }))
  ]

  abbrev pub open_step : Workbench → Option Workbench
  open_step w = elim (get_elem? (steps_of w.scenario) w.step) [
    | none ↦ none
    | some id ↦ open_operation id w
  ]

  unfoldable pub start_scenario : ℕ → Workbench → Option Workbench
  start_scenario i w = open_step (record w { scenario = some i; step = 0 })

  unfoldable pub next_step : Workbench → Option Workbench
  next_step w = open_step (record w { step = w.step + 1 })
