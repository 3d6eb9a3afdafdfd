-- ===== src/Web/App/Guide/Steps.antt =====
-- That the guide leads through the steps of a scenario.
use lux_ledger_demo.Common.{
  ℕ, zero, suc, ◌+◌, ◌<◌, ltb→lt, ◌≡◌, refl, sym, false, Option, none, some, inl, inr, List, [],
  ◌∷◌, length, get_elem?, All, All-get, Text, is_empty, trim, Option-cases, true, arith,
}
use mathlib.Core.Path.{subst}
use lux_ledger_demo.Common.Int.{ℤ}
use lux_ledger_demo.Common.Json.{Json, obj, Fields}
use lux_ledger_demo.Web.Requests.{Method, http_get, http_post, DemoRequest}
use lux_ledger_demo.Web.Operations.{Context}
use lux_ledger_demo.Web.Operations.Building.{Operation}
use lux_ledger_demo.Web.Operations.Catalog.{find_operation, scenarios}
use lux_ledger_demo.Web.Operations.Scenarios.{IsFound, scenarios-AreFound}
use lux_ledger_demo.Web.App.Transfer.{submit_draft}
use lux_ledger_demo.Web.App.Guide.{
  Workbench, has_next, or_empty, steps_of, choose, open_operation, open_step, start_scenario,
  next_step,
}

-- The step that the guide is at has its operation in the workbench, in the operation's area, and
-- the draft is the request that the operation builds, with {} for a body that is missing.
pub record IsOpened (iso : ℤ → Text) (now : ℤ) (pretty : Json → Text) (c : Context)
    (reference : Text) (w : Workbench) (op : Operation) : Type 0 where
  pub listed : find_operation iso now op.id ≡ some op
  pub named : get_elem? (steps_of w.scenario) w.step ≡ some op.id
  pub shown : w.preset ≡ some op
  pub placed : w.area ≡ op.area
  pub method : w.draft_method ≡ (op.build c reference).method
  pub path : w.draft_path ≡ (op.build c reference).path
  pub body : w.draft_body ≡ pretty (obj (or_empty (op.build c reference).body))

get_elem?_of_lt :
    {A : Type 0} (xs : List A) (i : ℕ) → i < length xs → (x : A) × (get_elem? xs i ≡ some x)
get_elem?_of_lt [] i h = absurd (omega arith)
get_elem?_of_lt (x ∷ xs) zero h = (x, refl)
get_elem?_of_lt (x ∷ xs) (suc i) h = get_elem?_of_lt xs i (omega arith)

first_step : (i : ℕ) → i < length scenarios → 0 < length (steps_of (some i))
first_step zero h = omega arith
first_step (suc zero) h = omega arith
first_step (suc (suc zero)) h = omega arith
first_step (suc (suc (suc zero))) h = omega arith
first_step (suc (suc (suc (suc zero)))) h = omega arith
first_step (suc (suc (suc (suc (suc i))))) h = absurd (omega arith)

-- The request with a body exactly where it is posted.
abbrev pub with_draft : Method → Text → Option Fields → DemoRequest
with_draft http_get path body = record { method = http_get; path = path; body = none }
with_draft http_post path body = record {
  method = http_post;
  path = path;
  body = some (or_empty body);
}

-- A draft that is sent as `choose` wrote it is the request that was built, where JSON.parse reads
-- back what JSON.stringify wrote of its body, and this text is not blank.
pub submit_draft-choose :
    (parse : Text → Option Json) (pretty : Json → Text) (method : Method) (path : Text)
    (body : Option Fields)
    → parse (pretty (obj (or_empty body))) ≡ some (obj (or_empty body))
    → is_empty (trim (pretty (obj (or_empty body)))) ≡ false
    → submit_draft parse method path (pretty (obj (or_empty body)))
      ≡ some (with_draft method path body)
unfolding submit_draft
submit_draft-choose parse pretty http_get path body parses given = refl
submit_draft-choose parse pretty http_post path body parses given = rw (given, parses) refl

module _ (iso : ℤ → Text) (now : ℤ) (pretty : Json → Text) (c : Context) (reference : Text) where
  steps-AreFound : (scenario : Option ℕ) → All (IsFound iso now) (steps_of scenario)
  steps-AreFound none = tt
  steps-AreFound (some i) = elim (Option-cases (get_elem? scenarios i)) [
    | inl nothing ↦ rw nothing tt
    | inr (ids, there) ↦
        rw there (All-get (All (IsFound iso now)) scenarios i (scenarios-AreFound iso now) there)
  ]

  open_operation-IsOpened :
      (w : Workbench) (id : Text) (op : Operation)
      → find_operation iso now id ≡ some op
      → op.id ≡ id
      → get_elem? (steps_of w.scenario) w.step ≡ some id
      → (v : Workbench) × (open_operation iso now pretty c reference id w ≡ some v)
        × (v.step ≡ w.step)
        × (v.scenario ≡ w.scenario)
        × IsOpened iso now pretty c reference v op
  unfolding open_operation choose
  open_operation-IsOpened w id op found same there = (
    choose iso now pretty c reference op (record w { area = op.area }),
    (rw (found, open_operation) refl),
    refl,
    refl,
    record {
      listed = subst (λ x. find_operation iso now x ≡ some op) (sym same) found;
      named = rw same there;
      shown = refl;
      placed = refl;
      method = refl;
      path = refl;
      body = refl;
    },
  )

  -- The step of a scenario that is there is opened, without an error.
  open_step-IsOpened :
      (w : Workbench)
      → w.step < length (steps_of w.scenario)
      → (v : Workbench) × (op : Operation) × (open_step iso now pretty c reference w ≡ some v)
        × (v.step ≡ w.step)
        × (v.scenario ≡ w.scenario)
        × IsOpened iso now pretty c reference v op
  open_step-IsOpened w h =
      let (id, there) = get_elem?_of_lt (steps_of w.scenario) w.step h in
      let (op, found, same) =
        All-get (IsFound iso now) (steps_of w.scenario) w.step (steps-AreFound w.scenario) there in
      let (v, opened, at_step, in_scenario, is_opened) =
        open_operation-IsOpened w id op found same there in
      (v, op, (rw (there, open_step) opened), at_step, in_scenario, is_opened)

  -- Any scenario that is started is opened at its first step.
  pub start_scenario-IsOpened :
      (i : ℕ) (w : Workbench)
      → i < length scenarios
      → (v : Workbench) × (op : Operation) × (start_scenario iso now pretty c reference i w
          ≡ some v)
        × (v.step ≡ 0)
        × (v.scenario ≡ some i)
        × IsOpened iso now pretty c reference v op
  unfolding start_scenario
  start_scenario-IsOpened i w h =
      open_step-IsOpened (record w { scenario = some i; step = 0 }) (first_step i h)

  -- Any next step of a scenario that the page offers: the guide moves to this step without an
  -- error, the operation that the step names is in the workbench, in its own area, and the draft
  -- is the request that this operation builds, with {} for a body that is missing.
  pub next_step-IsOpened :
      (w : Workbench)
      → has_next w ≡ true
      → (v : Workbench) × (op : Operation) × (next_step iso now pretty c reference w ≡ some v)
        × (v.step ≡ w.step + 1)
        × (v.scenario ≡ w.scenario)
        × IsOpened iso now pretty c reference v op
  unfolding next_step
  next_step-IsOpened w h =
      open_step-IsOpened (record w { step = w.step + 1 })
        (ltb→lt (w.step + 1) (length (steps_of w.scenario)) h)
