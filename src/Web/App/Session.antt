-- ===== src/Web/App/Session.antt =====
-- `bootstrap` of apps/web/src/App.tsx: the page gets its sandbox and its ledgers.
use lux_ledger_demo.Common.{
  ℕ, ◌-◌, ◌*◌, ◌==◌, max, Bool, true, false, Option, none, some, List, [], ◌∷◌, ◌≤◌, ◌+◌, Text,
  if◌then◌else◌, arith,
}
use lux_ledger_demo.Common.Outcome.{Outcome, done, raised, out_of_fuel, Action, ◌>>=◌}
use lux_ledger_demo.Web.Requests.{Method, http_get, http_post}
use lux_ledger_demo.Web.Requests.Sending.{RequestFailure, api_error}

pub record Session : Type 0 where
  pub access_token : Text
  pub expires_in : ℕ

pub record Ledger : Type 0 where
  pub id : Text
  pub name : Text

-- What `bootstrap` writes, but for what refresh and the inspection keep; S is all else.
pub record Entrance (S : Type 0) : Type 0 where
  pub busy : Bool
  pub error : Option Text
  pub session : Option Session
  pub access_token : Text
  pub expiration_as_of : Text
  pub ledgers : List Ledger
  pub ledger : Text
  pub world : S

-- e instanceof Error && 'status' in e && e.status === 401
abbrev pub is_unauthorized : RequestFailure → Bool
is_unauthorized (api_error status payload) = status == 401
is_unauthorized _ = false

-- books[0]?.id ?? ''
abbrev pub first_id : List Ledger → Text
first_id [] = []
first_id (book ∷ _) = book.id

-- Every (expires_in - 60) seconds, but not more often than every 10.
unfoldable pub renewal_ms : Session → ℕ
renewal_ms session = max 10_000 ((session.expires_in - 60) * 1000)

module _ {S : Type 0} (ask_session : Method → Action S RequestFailure Session)
    (all_ledgers : Action S RequestFailure (List Ledger)) (describe : RequestFailure → Text) where
  -- A session that has expired is answered by a new one.
  abbrev pub or_new : Outcome RequestFailure Session × S → Outcome RequestFailure Session × S
  or_new (done session, s) = (done session, s)
  or_new (out_of_fuel, s) = (out_of_fuel, s)
  or_new (raised e, s) = if is_unauthorized e then ask_session http_post s else (raised e, s)

  unfoldable pub get_session : Bool → Action S RequestFailure Session
  get_session fresh s = if fresh then ask_session http_post s else or_new (ask_session http_get s)

  unfoldable pub on_world :
      {A : Type 0} → Action S RequestFailure A → Action (Entrance S) RequestFailure A
  on_world m e = let (r, w) = m e.world in (r, record e { world = w })

  unfoldable pub take_session : Session → Entrance S → Entrance S
  take_session session e = record e {
    access_token = session.access_token;
    session = some session;
    expiration_as_of = [];
  }

  unfoldable pub take_ledgers : List Ledger → Entrance S → Entrance S
  take_ledgers books e = record e { ledgers = books; ledger = first_id books }

  unfoldable pub updates : (Entrance S → Entrance S) → Action (Entrance S) RequestFailure (Unit {0})
  updates f e = (done tt, f e)

  unfoldable pub enter : Bool → Action (Entrance S) RequestFailure (Unit {0})
  enter fresh = do
    session ← on_world (get_session fresh)
    _ ← updates (take_session session)
    books ← on_world all_ledgers
    updates (take_ledgers books)

  -- The catch and the finally.
  abbrev pub leave_busy :
      Outcome RequestFailure (Unit {0}) × Entrance S
      → Outcome RequestFailure (Unit {0}) × Entrance S
  leave_busy (done _, e) = (done tt, record e { busy = false })
  leave_busy (raised x, e) = (done tt, record e { error = some (describe x); busy = false })
  leave_busy (out_of_fuel, e) = (out_of_fuel, e)

  unfoldable pub bootstrap : Bool → Action (Entrance S) RequestFailure (Unit {0})
  bootstrap fresh e = leave_busy (enter fresh (record e { busy = true; error = none }))

  -- What the timer's request makes of the page: the token and the session that it gives.
  abbrev renewed : Outcome RequestFailure Session × S → Entrance S → Entrance S
  renewed (done session, w) e = record e {
    access_token = session.access_token;
    session = some session;
    world = w;
  }
  renewed (raised x, w) e = record e { error = some (describe x); world = w }
  renewed (out_of_fuel, w) e = record e { world = w }

  unfoldable pub renew : Entrance S → Entrance S
  renew e = renewed (ask_session http_get e.world) e

-- A token that lives for at least 70 seconds is renewed a minute before it expires.
pub renewal_ms-le :
    (session : Session)
    → 70 ≤ session.expires_in
    → renewal_ms session + 60_000 ≤ session.expires_in * 1000
unfolding renewal_ms
renewal_ms-le session h = omega arith
