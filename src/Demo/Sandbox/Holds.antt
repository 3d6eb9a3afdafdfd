-- ===== src/Demo/Sandbox/Holds.antt =====
-- The page of holds that the sandbox answers. The table is given as the rows of a tenant's ledger
-- in the order of their identifiers, and the query by what SQL says of `where`, `order by`
-- and `limit`.
use lux_ledger_demo.Common.{
  ℕ, ◌+◌, ◌-◌, ltb, Bool, Option, none, some, List, [], ◌∷◌, take, get_elem?, length, Text,
  if◌then◌else◌,
}
use lux_ledger_demo.Common.Paging.{Page}
use lux_ledger_demo.Demo.Backend.{Hold}

module _ (before : Text → Text → Bool) where
  -- id > cursor
  unfoldable pub following : Text → List Hold → List Hold
  following cursor [] = []
  following cursor (h ∷ rows) =
      let rest = following cursor rows in if before cursor h.id then h ∷ rest else rest

  -- $3::uuid is null or id > $3::uuid
  abbrev pub where_after : Option Text → List Hold → List Hold
  where_after none rows = rows
  where_after (some cursor) rows = following cursor rows

  -- The handler of GET /demo/session/holds: one row more than the limit is asked for.
  unfoldable pub holds_page : List Hold → ℕ → Option Text → Page Hold
  holds_page rows limit cursor =
      let holds = take (limit + 1) (where_after cursor rows) in
      record {
        items = take limit holds;
        next_cursor =
            if ltb limit (length holds)
            then elim (get_elem? holds (limit - 1)) [ none ↦ none | some h ↦ some h.id ]
            else none;
      }
