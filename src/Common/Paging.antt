-- ===== src/Common/Paging.antt =====
-- Lists that a service gives in pages, and the loop that reads them all.
use Prim.Native.Nat.{ℕ, zero, suc, ◌<◌}
use mathlib.Core.Path.{◌≡◌, ap, ◌∙◌}
use mathlib.Core.Option.{Option, none, some}
use mathlib.Core.List.{List, ◌++◌, append_assoc}
use native.Mathlib.Omega.{arith}
use lux_ledger_demo.Common.Lists.{length}
use mathlib.Core.Logic.{inl, inr}
use lux_ledger_demo.Common.Tests.{Option-cases}
use lux_ledger_demo.Common.Texts.{Text}
use lux_ledger_demo.Common.Outcome.{Outcome, done, raised, out_of_fuel}

pub record Page (A : Type 0) : Type 0 where
  pub items : List A
  pub next_cursor : Option Text

module _ {E A : Type 0} (read_page : Option Text → Outcome E (Page A)) where
  -- do { page = …; found.push(...page.data); cursor = page.next } while (cursor); each round
  -- takes one unit of fuel.
  unfoldable pub collect : ℕ → Option Text → List A → Outcome E (List A)
  collect zero cursor found = out_of_fuel
  collect (suc fuel) cursor found = elim (read_page cursor) [
    | raised e ↦ raised e
    | out_of_fuel ↦ out_of_fuel
    | done page ↦ elim page.next_cursor [
      | none ↦ done (found ++ page.items)
      | some next ↦ collect fuel (some next) (found ++ page.items)
    ]
  ]

  -- The page at a cursor is the start of what is left there, its own cursor stands for the rest,
  -- which is shorter, and there is none where nothing is left.
  pub record IsPaged (left : Option Text → List A) : Type 0 where
    pub last :
        (cursor : Option Text) (page : Page A)
        → read_page cursor ≡ done page
        → page.next_cursor ≡ none
        → page.items ≡ left cursor
    pub more :
        (cursor : Option Text) (page : Page A) (next : Text)
        → read_page cursor ≡ done page
        → page.next_cursor ≡ some next
        → (page.items ++ left (some next) ≡ left cursor)
          × (length (left (some next)) < length (left cursor))

  -- Where the service answers, and pages a list, the loop ends with all of it: as many rounds as
  -- the list has items, and one, are enough.
  pub collect_all :
      (left : Option Text → List A)
      → IsPaged left
      → ((cursor : Option Text) → (page : Page A) × (read_page cursor ≡ done page))
      → (fuel : ℕ) (cursor : Option Text) (found : List A) → length (left cursor) < fuel
      → collect fuel cursor found ≡ done (found ++ left cursor)
  unfolding collect
  collect_all left paged answers zero cursor found h = elim h [ ]
  collect_all left paged answers (suc fuel) cursor found h =
      let (page, e) = answers cursor in
      elim (Option-cases page.next_cursor) [
        | inl end ↦
            rw (e, collect)
              (rw (end, collect) (ap (λ xs. done (found ++ xs)) (paged.last cursor page e end)))
        | inr (next, more) ↦
            let (same, less) = paged.more cursor page next e more in
            rw (e, collect)
              (rw (more, collect)
                (collect_all left paged answers fuel (some next) (found ++ page.items)
                    (omega (arith, less))
                  ∙ ap done (
                      append_assoc found page.items (left (some next))
                      ∙ ap (λ xs. found ++ xs) same)))
      ]
