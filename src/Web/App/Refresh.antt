-- ===== src/Web/App/Refresh.antt =====
-- `refresh` of apps/web/src/App.tsx with the state that it fills. A request that is under way is
-- an entry of `pending`; what React runs after a change of the ledger or of the filter is `due`
-- until it has run.
pub mod Selection
pub mod Current
mod Tests
use lux_ledger_demo.Common.{
  ℕ, ◌+◌, ◌==◌, Bool, true, false, ◌||◌, Option, none, some, List, [], ◌∷◌, any, find, Text,
  text_eq, codes, is_empty, if◌then◌else◌,
}
use lux_ledger_demo.Common.Paging.{Page}

-- What the page reads of an account.
pub record Account : Type 0 where
  pub id : Text
  pub code : Option Text
  pub name : Text
  pub ledger_id : Text

pub record Request : Type 0 where
  pub version : ℕ
  pub ledger : Text
  pub tx_filter : Text

pub data Due : Type 0 where
  -- the effect on [refresh] alone, or after that on [ledger]
  nothing refreshing clearing : Due

pub record Transaction : Type 0 where
  pub id : Text
  pub reference : Text

pub record Hold : Type 0 where
  pub id : Text
  pub reference : Text
  pub description : Option Text
  pub state : Text
  pub original_amount_minor : Text
  pub remaining_amount_minor : Text

pub record Answer : Type 0 where
  pub accounts : List Account
  pub transactions : Page Transaction
  pub holds : Page Hold

pub record View : Type 0 where
  pub ledger : Text
  pub tx_filter : Text
  pub refresh_version : ℕ
  pub pending : List Request
  pub due : Due
  pub accounts : List Account
  pub transactions : List Transaction
  pub tx_cursor : Option Text
  pub holds : List Hold
  pub hold_cursor : Option Text
  pub selected_account : Text
  pub from : Text
  pub to : Text
  pub error : Option Text

-- The first state of the page.
abbrev pub opened : View
opened = record {
  ledger = [];
  tx_filter = [];
  refresh_version = 0;
  pending = [];
  due = nothing;
  accounts = [];
  transactions = [];
  tx_cursor = none;
  holds = [];
  hold_cursor = none;
  selected_account = [];
  from = codes "wallet:alice";
  to = codes "wallet:bob";
  error = none;
}

-- `refresh` until its await
unfoldable pub refresh : View → View
refresh v =
    if is_empty v.ledger
    then v
    else (let version = v.refresh_version + 1 in
        record v {
          refresh_version = version;
          pending =
              record { version = version; ledger = v.ledger; tx_filter = v.tx_filter } ∷ v.pending;
        })

abbrev pub is_role : Text → Text → Account → Bool
is_role code name a = elim a.code [ none ↦ false | some c ↦ text_eq c code ] || text_eq a.name name

abbrev pub id_of_first : List Account → Text
id_of_first [] = []
id_of_first (a ∷ _) = a.id

-- What `setSelectedAccount` makes of the old selection.
unfoldable pub select_account : List Account → Text → Text
select_account a old =
    if any (λ (x : Account). text_eq x.id old) a
    then old
    else elim (find (is_role (codes "DEMO_PRIMARY") (codes "wallet:alice")) a) [
      | some x ↦ x.id
      | none ↦ id_of_first a
    ]

-- What `setFrom` and `setTo` make of the old name.
unfoldable pub select_name : Text → Text → List Account → Text → Text
select_name code name a old =
    if any (λ (x : Account). text_eq x.name old) a
    then old
    else elim (find (is_role code name) a) [ some x ↦ x.name | none ↦ [] ]

-- The rest of `refresh`, with the answers to its three requests.
unfoldable pub arrived : Request → Answer → View → View
arrived q answer v =
    if q.version == v.refresh_version
    then record v {
      accounts = answer.accounts;
      transactions = answer.transactions.items;
      tx_cursor = answer.transactions.next_cursor;
      holds = answer.holds.items;
      hold_cursor = answer.holds.next_cursor;
      selected_account = select_account answer.accounts v.selected_account;
      from = select_name (codes "DEMO_PRIMARY") (codes "wallet:alice") answer.accounts v.from;
      to = select_name (codes "DEMO_SECONDARY") (codes "wallet:bob") answer.accounts v.to;
    }
    else v

-- The same, where a request fails; the caller shows what is thrown.
unfoldable pub failed : Request → Text → View → View
failed q message v = if q.version == v.refresh_version then record v { error = some message } else v

-- `setLedger`: another ledger makes the effects due that depend on it.
unfoldable pub set_ledger : Text → View → View
set_ledger ledger v =
    if text_eq v.ledger ledger then v else record v { ledger = ledger; due = clearing }

abbrev pub more_due : Due → Due
more_due clearing = clearing
more_due _ = refreshing

unfoldable pub set_tx_filter : Text → View → View
set_tx_filter tx_filter v =
    if text_eq v.tx_filter tx_filter
    then v
    else record v { tx_filter = tx_filter; due = more_due v.due }

-- The effect on [ledger], of the state that is modelled here.
unfoldable pub clear : View → View
clear v = record v { accounts = []; transactions = []; holds = []; selected_account = [] }

abbrev pub run_due : Due → View → View
run_due nothing v = v
run_due refreshing v = refresh (record v { due = nothing })
run_due clearing v = refresh (clear (record v { due = nothing }))

unfoldable pub run_effects : View → View
run_effects v = run_due v.due v

-- `bootstrap` for a fresh sandbox, before its first await; and for any, once it has the session.
unfoldable pub start_bootstrap : Bool → View → View
start_bootstrap fresh v =
    let w : View = record v { error = none } in
    if fresh then record w { refresh_version = w.refresh_version + 1 } else w

unfoldable pub enter_session : View → View
enter_session v = record v { selected_account = []; accounts = [] }
