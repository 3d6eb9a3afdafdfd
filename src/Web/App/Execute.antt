-- ===== src/Web/App/Execute.antt =====
-- `execute` of apps/web/src/App.tsx: a request of the page and what the page takes from its
-- answer.
pub mod Settled
use lux_ledger_demo.Common.{
  Bool, true, false, not, ◌&&◌, ◌==◌, ℕ, Option, none, some, List, Text, text_eq, codes, is_empty,
  starts_with, if◌then◌else◌,
}
use lux_ledger_demo.Common.Int.{ℤ, pos, eqb_ℤ}
use lux_ledger_demo.Common.Json.{
  Json, null, bool, num, str, arr, obj, Items, Fields, end, get_field,
}
use lux_ledger_demo.Common.Outcome.{
  Outcome, done, raised, out_of_fuel, Action, pure, raise, reads, ◌>>=◌,
}
use lux_ledger_demo.Web.Requests.{Method, http_get, http_post, DemoRequest}
use lux_ledger_demo.Web.Requests.Sending.{RequestFailure}
use lux_ledger_demo.Web.App.Refresh.{Account}

pub record Ids : Type 0 where
  pub tx : Text
  pub hold : Text
  pub grant : Text
  pub upload : Text
  pub rule : Text
  pub run : Text

pub record BeforeAfter : Type 0 where
  pub before : List Account
  pub after : List Account

-- What `execute` writes; S is all else, with the requests and the state that `refresh` fills.
pub record Desk (S : Type 0) : Type 0 where
  pub busy : Bool
  pub error : Option Text
  pub copied : Bool
  pub expiration_as_of : Text
  pub last_sent : Option DemoRequest
  pub ids : Ids
  pub before_after : Option BeforeAfter
  pub ledgers : List Text
  pub world : S

-- `asObject`
abbrev pub as_object : Json → Fields
as_object (obj fs) = fs
as_object _ = end

-- typeof body[key] === 'string'
unfoldable pub text_at : Text → Fields → Option Text
text_at key body = elim (get_field key body) [ some (str t) ↦ some t | _ ↦ none ]

-- !value, of a property that may be missing
abbrev pub is_falsy : Option Json → Bool
is_falsy none = true
is_falsy (some null) = true
is_falsy (some (bool b)) = not b
is_falsy (some (num n)) = eqb_ℤ n (pos 0)
is_falsy (some (str t)) = is_empty t
is_falsy (some (arr _)) = false
is_falsy (some (obj _)) = false

abbrev pub or_old : Option Text → Text → Text
or_old none old = old
or_old (some t) old = t

-- A later entry of the object literal overrides an earlier one.
abbrev pub first_of : Option Text → Option Text → Option Text
first_of none b = b
first_of (some a) b = some a

abbrev pub when : Bool → Option Text → Option Text
when b t = if b then t else none

abbrev is_dry_run : DemoRequest → Bool
is_dry_run operation = elim operation.body [
  | none ↦ false
  | some body ↦ not (is_falsy (get_field (codes "dry_run") body))
]

-- What `setIds` makes of the old identifiers.
unfoldable pub ids_after : DemoRequest → Fields → Ids → Ids
ids_after operation body old =
    let id = text_at (codes "id") body in
    let runs = text_eq operation.path (codes "/v1/reconciliation/runs") in
    record {
      tx =
          or_old
            (first_of (text_at (codes "corrected_transaction_id") body)
              (text_at (codes "transaction_id") body))
            old.tx;
      hold = or_old (text_at (codes "hold_id") body) old.hold;
      grant = or_old (when (text_eq operation.path (codes "/v1/credit-grants")) id) old.grant;
      upload = or_old (text_at (codes "upload_id") body) old.upload;
      rule =
          or_old (when (text_eq operation.path (codes "/v1/reconciliation/matching-rules")) id)
            old.rule;
      run = or_old (when (runs && not (is_dry_run operation)) id) old.run;
    }

-- operation.method === 'POST' && operation.path.startsWith('/v1/')
unfoldable pub is_write : DemoRequest → Bool
is_write operation = elim operation.method [
  | http_get ↦ false
  | http_post ↦ starts_with operation.path (codes "/v1/")
]

module _ {S : Type 0} where
  -- What leaves the fields of the desk as they are.
  unfoldable pub lift : {A : Type 0} → Action S RequestFailure A → Action (Desk S) RequestFailure A
  lift m d = let (r, w) = m d.world in (r, record d { world = w })

  unfoldable pub updates : (Desk S → Desk S) → Action (Desk S) RequestFailure (Unit {0})
  updates f d = (done tt, f d)

  unfoldable pub take_boundary : DemoRequest → Fields → Desk S → Desk S
  take_boundary operation body d =
      if text_eq operation.path (codes "/v1/credit-grants/expiration/preview")
      then record d { expiration_as_of = or_old (text_at (codes "as_of") body) d.expiration_as_of }
      else d

  unfoldable pub take_ids : DemoRequest → Fields → Desk S → Desk S
  take_ids operation body d = record d {
    last_sent = some operation;
    ids = ids_after operation body d.ids;
  }

  abbrev pub show_change : List Account → Option (List Account) → Desk S → Desk S
  show_change before none d = d
  show_change before (some after) d = record d {
    before_after = some (record { before = before; after = after });
  }

  unfoldable pub set_ledgers : List Text → Desk S → Desk S
  set_ledgers books d = record d { ledgers = books }

  -- The catch and the finally; `describe` gives the text of an error.
  abbrev pub settle :
      (RequestFailure → Text)
      → Outcome RequestFailure Json × Desk S
      → Outcome RequestFailure (Option Json) × Desk S
  settle describe (done result, d) = (done (some result), record d { busy = false })
  settle describe (raised e, d) = (done none, record d { error = some (describe e); busy = false })
  settle describe (out_of_fuel, d) = (out_of_fuel, d)

  abbrev pub begin : Desk S → Desk S
  begin d = record d { busy = true; error = none; copied = false }

  -- `request`, `refresh` and the reading of all ledgers.
  module _ (request : DemoRequest → Action S RequestFailure Json)
      (refresh : Action S RequestFailure (Option (List Account)))
      (all_ledgers : Action S RequestFailure (List Text)) where
    unfoldable pub after_ledger : DemoRequest → Action (Desk S) RequestFailure (Unit {0})
    after_ledger operation =
        if text_eq operation.path (codes "/v1/ledgers")
        then (lift all_ledgers >>= λ books. updates (set_ledgers books))
        else pure tt

    -- What follows a successful write; `accounts` are those that were shown before.
    unfoldable pub after_write :
        DemoRequest → List Account → Fields → Action (Desk S) RequestFailure (Unit {0})
    after_write operation accounts body = do
      _ ← updates (take_ids operation body)
      after ← lift refresh
      _ ← updates (show_change accounts after)
      after_ledger operation

    -- The try.
    unfoldable pub attempt : DemoRequest → List Account → Action (Desk S) RequestFailure Json
    attempt operation accounts = do
      result ← lift (request operation)
      let body : Fields = as_object result
      _ ← updates (take_boundary operation body)
      _ ← if is_write operation then after_write operation accounts body else pure tt
      pure result

    unfoldable pub execute :
        (RequestFailure → Text)
        → DemoRequest
        → List Account
        → Action (Desk S) RequestFailure (Option Json)
    execute describe operation accounts d = settle describe (attempt operation accounts (begin d))
