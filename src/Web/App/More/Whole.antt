-- ===== src/Web/App/More/Whole.antt =====
-- That the pages that are loaded one after the other are a list as a whole.
use lux_ledger_demo.Common.{
  ◌≡◌, ◌==◌, true, ◌∙◌, ap, inl, inr, Option, none, some, List, [], ◌++◌, append-nil, append_assoc,
  Text, Option-cases,
}
use mathlib.Core.Path.{subst}
use lux_ledger_demo.Common.Outcome.{Outcome, done}
use lux_ledger_demo.Common.Paging.{Page, IsPaged}
use lux_ledger_demo.Common.Steps.{Star, Star-keeps}
use lux_ledger_demo.Web.App.Refresh.{Transaction, Hold, Request, Answer, View, arrived}
use lux_ledger_demo.Web.App.More.{more_transactions, more_holds}

-- What the pages from a cursor on hold; nothing, where there is no cursor.
abbrev rest : {A : Type 0} → (Option Text → List A) → Option Text → List A
rest left none = []
rest left (some cursor) = left (some cursor)

module _ {E A : Type 0} (read : Option Text → Outcome E (Page A)) (left : Option Text → List A)
    (paged : IsPaged read left) where
  -- A page and what is left after it are what was left before.
  page-rest :
      (cursor : Option Text) (page : Page A)
      → read cursor ≡ done page
      → page.items ++ rest left page.next_cursor ≡ left cursor
  page-rest cursor page e = elim (Option-cases page.next_cursor) [
    | inl end ↦ rw end (append-nil page.items ∙ paged.last cursor page e end)
    | inr (next, more) ↦ rw more ((paged.more cursor page next e more).0)
  ]

  -- The same behind the pages that are loaded.
  append-rest :
      (loaded : List A) (cursor : Text) (page : Page A)
      → read (some cursor) ≡ done page
      → loaded ++ left (some cursor) ≡ left none
      → (loaded ++ page.items) ++ rest left page.next_cursor ≡ left none
  append-rest loaded cursor page e h =
      append_assoc loaded page.items (rest left page.next_cursor)
      ∙ ap (λ xs. loaded ++ xs) (page-rest (some cursor) page e)
      ∙ h

-- `read_transactions` and `read_holds` answer for a cursor; none is the first page.
module _ {E : Type 0} (read_transactions : Option Text → Outcome E (Page Transaction))
    (read_holds : Option Text → Outcome E (Page Hold)) where
  -- The buttons, with no other change of the lists between.
  pub data Loads : View → View → Type 0 where
    transactions_loaded :
        (v : View) (cursor : Text) (page : Page Transaction)
        → v.tx_cursor ≡ some cursor
        → read_transactions (some cursor) ≡ done page
        → Loads v (more_transactions (some page) v)
    holds_loaded :
        (v : View) (cursor : Text) (page : Page Hold)
        → v.hold_cursor ≡ some cursor
        → read_holds (some cursor) ≡ done page
        → Loads v (more_holds (some page) v)
    given_up : (v : View) → Loads v (more_transactions none (more_holds none v))

record IsWhole (all_transactions : Option Text → List Transaction)
    (all_holds : Option Text → List Hold) (v : View) : Type 0 where
  transactions : v.transactions ++ rest all_transactions v.tx_cursor ≡ all_transactions none
  holds : v.holds ++ rest all_holds v.hold_cursor ≡ all_holds none

module _ {E : Type 0} (read_transactions : Option Text → Outcome E (Page Transaction))
    (read_holds : Option Text → Outcome E (Page Hold))
    (all_transactions : Option Text → List Transaction) (all_holds : Option Text → List Hold)
    (paged_transactions : IsPaged read_transactions all_transactions)
    (paged_holds : IsPaged read_holds all_holds) where
  Loads-IsWhole :
      (v w : View)
      → Loads read_transactions read_holds v w
      → IsWhole all_transactions all_holds v
      → IsWhole all_transactions all_holds w
  unfolding more_transactions more_holds
  Loads-IsWhole _ _ (transactions_loaded v cursor page at_cursor e) h = record {
    transactions =
        append-rest read_transactions all_transactions paged_transactions v.transactions cursor page
          e
          (subst (λ d. v.transactions ++ rest all_transactions d ≡ all_transactions none) at_cursor
            h.transactions);
    holds = h.holds;
  }
  Loads-IsWhole _ _ (holds_loaded v cursor page at_cursor e) h = record {
    transactions = h.transactions;
    holds =
        append-rest read_holds all_holds paged_holds v.holds cursor page e
          (subst (λ d. v.holds ++ rest all_holds d ≡ all_holds none) at_cursor h.holds);
  }
  Loads-IsWhole _ _ (given_up v) h = record { transactions = h.transactions; holds = h.holds }

  -- After a refresh that has the first pages, and whatever was loaded since: what the page shows of
  -- transactions and of holds, with what the pages from its cursors on still hold, is the list as a
  -- whole. So it is the whole list when the button is gone.
  pub loaded_pages-AreWhole :
      (q : Request) (answer : Answer) (v w : View)
      → q.version == v.refresh_version ≡ true
      → read_transactions none ≡ done answer.transactions
      → read_holds none ≡ done answer.holds
      → Star (Loads read_transactions read_holds) (arrived q answer v) w
      → (w.transactions ++ rest all_transactions w.tx_cursor ≡ all_transactions none)
        × (w.holds ++ rest all_holds w.hold_cursor ≡ all_holds none)
  unfolding arrived
  loaded_pages-AreWhole q answer v w current first_transactions first_holds run =
      let start : IsWhole all_transactions all_holds (arrived q answer v) =
        rw (current, arrived)
          (record {
            transactions =
                page-rest read_transactions all_transactions paged_transactions none
                  answer.transactions first_transactions;
            holds = page-rest read_holds all_holds paged_holds none answer.holds first_holds;
          }) in
      let h : IsWhole all_transactions all_holds w =
        Star-keeps (IsWhole all_transactions all_holds) Loads-IsWhole (arrived q answer v) w run
          start in
      (h.transactions, h.holds)
