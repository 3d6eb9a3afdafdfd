-- ===== src/Web/Requests/Pages.antt =====
-- The loop of `allPages` ends with all that the API has.
use lux_ledger_demo.Common.{
  ℕ, zero, suc, ◌<◌, ◌≡◌, ap, ◌∙◌, ◌⊎◌, true, false, Option, inl, inr, List, ◌++◌, append_assoc,
  Text, length, arith,
}
use lux_ledger_demo.Common.Outcome.{Outcome, done}
use lux_ledger_demo.Common.Paging.{Page}
use lux_ledger_demo.Web.Requests.{goes_on, all_pages}

module _ {E A : Type 0} (request : Option Text → Outcome E (Page A))
    (left : Option Text → List A) where
  -- The API answers every page of a list: a page is the start of what is left at its cursor. Either
  -- it is all of it, and has no cursor or an empty one, or what is left at its own cursor follows
  -- it and is shorter.
  pub record IsServed : Type 0 where
    pub served :
        (cursor : Option Text)
        → (page : Page A) × (request cursor ≡ done page)
          × ((goes_on page.next_cursor ≡ false) × (page.items ≡ left cursor)
              ⊎ (goes_on page.next_cursor ≡ true)
                × (page.items ++ left page.next_cursor ≡ left cursor)
                × (length (left page.next_cursor) < length (left cursor)))

  -- The loop ends, and returns what was read before and all that was left, in order, once its
  -- fuel is above the length of what was left.
  pub all_pages_lem :
      IsServed
      → (fuel : ℕ) (cursor : Option Text) (before : List A) → length (left cursor) < fuel
      → all_pages request fuel cursor before ≡ done (before ++ left cursor)
  unfolding all_pages
  all_pages_lem h zero cursor before enough = elim enough [ ]
  all_pages_lem h (suc fuel) cursor before enough =
      let (page, e, cases) = h.served cursor in
      elim cases [
        | inl (end, all) ↦ rw (e, all_pages) (rw end (ap (λ xs. done (before ++ xs)) all))
        | inr (more, all, shorter) ↦
            rw (e, all_pages)
              (rw more (
                all_pages_lem h fuel page.next_cursor (before ++ page.items)
                  (omega (arith, shorter))
                ∙ ap done (
                    append_assoc before page.items (left page.next_cursor)
                    ∙ ap (λ xs. before ++ xs) all)))
      ]
