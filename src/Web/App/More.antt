-- ===== src/Web/App/More.antt =====
-- The buttons "Load more" of apps/web/src/App.tsx: `moreTransactions`, and the one for holds.
pub mod Whole
use lux_ledger_demo.Common.{Option, none, some, List, [], ◌∷◌, ◌++◌, Text, codes, is_empty}
use lux_ledger_demo.Common.Json.{Json, str, obj, fields}
use lux_ledger_demo.Common.Paging.{Page}
use lux_ledger_demo.Web.Requests.{http_get, DemoRequest}
use lux_ledger_demo.Web.Requests.Query.{query}
use lux_ledger_demo.Web.App.Refresh.{Transaction, Hold, View}

abbrev eq_filter : Text → Json
eq_filter reference =
    obj (fields ((codes "reference", obj (fields ((codes "eq", str reference) ∷ []))) ∷ []))

-- `encode` is that of URLSearchParams, `pretty` is JSON.stringify with indents.
module _ (encode : Text → Text) (pretty : Json → Text) where
  -- No filter where the text is empty.
  abbrev pub where_of : Text → Option Text
  where_of [] = none
  where_of (c ∷ cs) = some (pretty (eq_filter (c ∷ cs)))

  abbrev asks : Text → DemoRequest
  asks path = record { method = http_get; path = path; body = none }

  -- The request for the next page; none, where there is no cursor.
  unfoldable pub next_transactions : View → Option DemoRequest
  next_transactions v = elim v.tx_cursor [
    | none ↦ none
    | some cursor ↦ some (
        asks (
          query encode (codes "/v1/transactions") (
            (codes "ledger_id", some v.ledger)
            ∷ (codes "limit", some (codes "10"))
            ∷ (codes "cursor", some cursor)
            ∷ (codes "where", where_of v.tx_filter)
            ∷ [])))
  ]

  unfoldable pub next_holds : View → Option DemoRequest
  next_holds v = elim v.hold_cursor [
    | none ↦ none
    | some cursor ↦ some (
        asks (
          query encode (codes "/demo/session/holds") (
            (codes "ledger_id", some v.ledger)
            ∷ (codes "limit", some (codes "25"))
            ∷ (codes "cursor", some cursor)
            ∷ [])))
  ]

-- With the answer, on the state of that time; none, where `execute` gave nothing.
unfoldable pub more_transactions : Option (Page Transaction) → View → View
more_transactions none v = v
more_transactions (some page) v = record v {
  transactions = v.transactions ++ page.items;
  tx_cursor = page.next_cursor;
}

unfoldable pub more_holds : Option (Page Hold) → View → View
more_holds none v = v
more_holds (some page) v = record v {
  holds = v.holds ++ page.items;
  hold_cursor = page.next_cursor;
}
