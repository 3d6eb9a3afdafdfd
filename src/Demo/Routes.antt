-- ===== src/Demo/Routes.antt =====
-- The routes of apps/api/src/demo/routes.ts.
pub mod Writes
pub mod Refusals
-- mod Tests
use lux_ledger_demo.Common.{
  ℕ, Bool, true, false, none, some, Text, codes, ◌++◌, leb, ◌&&◌, if◌then◌else◌,
}
use lux_ledger_demo.Common.Int.{pos}
use lux_ledger_demo.Common.Json.{Json, str, num, null, obj, field, end}
use lux_ledger_demo.Common.Decimal.{is_positive_decimal}
use lux_ledger_demo.Common.Outcome.{Outcome, done, raised, out_of_fuel, ◌>>=◌, pure}
use lux_ledger_demo.Api.Errors.{Thrown, other, Reply, error_handler}
use lux_ledger_demo.Demo.Backend.{Backend}
use lux_ledger_demo.Demo.Input.{Failure, Locale, input, not_ready, error, service}
use lux_ledger_demo.Demo.Service.{
  Config, HoldAction, Does, get_state, get_account_details, create_demo_account, fund, transfer,
  create_demo_hold, resolve_hold, reconcile,
}
use lux_ledger_demo.Demo.Service.Seed.{perform_reset}
use lux_ledger_demo.Demo.Service.View.{DemoState, AccountDetails}

-- The routes that hand what is thrown to `handleError`, with their parameters; `text` arguments in
-- the order of the source. Random identifiers and the time come with the request.
pub data Call : Type 0 where
  show_state : Call
  show_details : Text → ℕ → Call
  open_account : Text → Call
  fund_account : Text → Text → Text → Call
  make_transfer : Text → Text → Text → Text → Call
  make_hold : Text → Text → Text → Text → Call
  end_hold : Text → HoldAction → Call
  match_statement : Text → Text → Text → Call

-- All routes: the one that is left, POST /demo/reset, has no parameters and no handler of its own
-- for what is thrown.
pub data Route : Type 0 where
  calls : Call → Route
  reset_demo : Route

-- The body of an answer.
pub data Answer : Type 0 where
  state : DemoState → Answer
  details : AccountDetails → Answer
  report : Text → Answer

pub data Response : Type 0 where
  answered : Answer → Response
  refused : Reply → Response
  unanswered : Response

-- `handleError`; what it throws on goes to the server's error handler.
abbrev pub demo_reply : Failure → Reply
demo_reply (input m) = record {
  status = pos 400;
  error = codes "DEMO_INPUT_ERROR";
  message = m;
  details = none;
  retry_after_seconds = none;
}
demo_reply not_ready = record {
  status = pos 409;
  error = codes "DEMO_NOT_READY";
  message = codes "Demo data has not been seeded";
  details = none;
  retry_after_seconds = none;
}
demo_reply (error m) = error_handler (other (obj (field (codes "message") (str m) end)))
demo_reply (service t) = error_handler t

abbrev pub respond : {S : Type 0} → Outcome Failure Answer × S → Response × S
respond (done a, s) = (answered a, s)
respond (raised e, s) = (refused (demo_reply e), s)
respond (out_of_fuel, s) = (unanswered, s)

-- What the validation of the web framework knows: the characters of a text, which text is a uuid,
-- and its message on what is not valid.
pub record Schema : Type 0 where
  pub characters : Text → ℕ
  pub is_uuid : Text → Bool
  pub message : Call → Text

module _ (schema : Schema) where
  abbrev has_length : ℕ → Text → Bool
  has_length most t = leb 1 (schema.characters t) && leb (schema.characters t) most

  -- The `schema` of each route.
  unfoldable pub is_valid : Call → Bool
  is_valid show_state = true
  is_valid (show_details address at) = has_length 80 address
  is_valid (open_account address) = has_length 80 address
  is_valid (fund_account uuid address amount_minor) = is_positive_decimal amount_minor
  is_valid (make_transfer uuid from to amount_minor) =
      has_length 80 from && has_length 80 to && is_positive_decimal amount_minor
  is_valid (make_hold uuid from to amount_minor) =
      has_length 80 from && has_length 80 to && is_positive_decimal amount_minor
  is_valid (end_hold hold_id action) = schema.is_uuid hold_id
  is_valid (match_statement uuid reference amount_minor) =
      has_length 255 reference && is_positive_decimal amount_minor

  -- The validation error that is thrown in place of the call.
  abbrev pub rejection : Call → Thrown
  rejection call = other (
      obj
        (field (codes "validation") null (field (codes "message") (str (schema.message call)) end)))

module _ {S : Type 0} (backend : Backend S) (config : Config) (locale : Locale) (fuel : ℕ) where
  -- The call of the service that a route makes.
  unfoldable pub serve : Call → Does backend config locale fuel Answer
  serve show_state = do s ← get_state backend config locale fuel; pure (state s)
  serve (show_details address at) = do
    d ← get_account_details backend config locale fuel address at
    pure (details d)
  serve (open_account address) = do
    s ← create_demo_account backend config locale fuel address
    pure (state s)
  serve (fund_account uuid address amount_minor) = do
    s ← fund backend config locale fuel address amount_minor (codes "demo-funding-" ++ uuid)
    pure (state s)
  serve (make_transfer uuid from to amount_minor) = do
    s ← transfer backend config locale fuel uuid from to amount_minor
    pure (state s)
  serve (make_hold uuid from to amount_minor) = do
    s ← create_demo_hold backend config locale fuel uuid from to amount_minor
    pure (state s)
  serve (end_hold hold_id action) = do
    s ← resolve_hold backend config locale fuel hold_id action
    pure (state s)
  serve (match_statement uuid reference amount_minor) = do
    r ← reconcile backend config locale fuel uuid reference amount_minor
    pure (report r)

  unfoldable pub handle : Schema → Call → S → Response × S
  handle schema call s =
      if is_valid schema call
      then respond (serve call s)
      else (refused (error_handler (rejection schema call)), s)

  abbrev route_not_found : Reply
  route_not_found = record {
    status = pos 404;
    error = codes "NOT_FOUND";
    message = codes "Route not found";
    details = none;
    retry_after_seconds = none;
  }

  -- What a thrown value of the demo is to the server's error handler, with no handler between.
  abbrev thrown_value : Failure → Thrown
  thrown_value (input m) =
      other (obj (field (codes "statusCode") (num (pos 400)) (field (codes "message") (str m) end)))
  thrown_value not_ready = other (
      obj (
        field (codes "statusCode") (num (pos 409))
          (field (codes "message") (str (codes "Demo data has not been seeded")) end)))
  thrown_value (error m) = other (obj (field (codes "message") (str m) end))
  thrown_value (service t) = t

  abbrev pub respond_reset : Outcome Failure DemoState × S → Response × S
  respond_reset (done found, s) = (answered (state found), s)
  respond_reset (raised e, s) = (refused (error_handler (thrown_value e)), s)
  respond_reset (out_of_fuel, s) = (unanswered, s)

  -- POST /demo/reset, with the run that the call starts or shares.
  unfoldable pub handle_reset : S → Response × S
  handle_reset s =
      if config.reset_enabled
      then respond_reset (perform_reset backend config locale fuel s)
      else (refused route_not_found, s)

  -- Every request to a route of the demo.
  unfoldable pub handle_route : Schema → Route → S → Response × S
  handle_route schema (calls call) s = handle schema call s
  handle_route schema reset_demo s = handle_reset s
