-- ===== src/Web/App/Panel/Paged.antt =====
-- That the pages of a table follow one another.
use lux_ledger_demo.Common.{
  ◌≡◌, ◌≢◌, refl, lookup-insert_ne, true, Option, some, Text, lookup, insert, codes,
  lookup-insert_self,
}
use lux_ledger_demo.Common.Json.{Json}
use lux_ledger_demo.Web.App.Execute.{as_object, text_at}
use lux_ledger_demo.Web.App.Panel.{Target, Panel, target, loaded}

-- After a page with a cursor, the next one is asked for at the same address with this cursor, all
-- other parameters as they were.
pub target-loaded :
    (parse : Text → Option Json) (stringify : Json → Text) (t : Target) (value : Json) (p : Panel)
    (cursor : Text)
    → text_at (codes "next_cursor") (as_object value) ≡ some cursor
    → (q : Target) × (target parse stringify true (loaded t (some value) p) ≡ some q)
      × (q.pathname ≡ t.pathname)
      × (lookup (codes "cursor") q.params ≡ some cursor)
      × ((key : Text) → codes "cursor" ≢ key → lookup key q.params ≡ lookup key t.params)
unfolding target loaded
target-loaded parse stringify t value p cursor given = (
  record t { params = insert (codes "cursor") cursor t.params },
  rw given refl,
  refl,
  lookup-insert_self (codes "cursor") cursor t.params,
  λ key other. lookup-insert_ne (codes "cursor") key cursor t.params other,
)
