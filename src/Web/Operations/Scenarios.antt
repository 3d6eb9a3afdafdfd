-- ===== src/Web/Operations/Scenarios.antt =====
-- The steps of the console's scenarios.
use lux_ledger_demo.Common.{◌≡◌, refl, some, All, Text, text_eq}
use lux_ledger_demo.Common.Int.{ℤ}
use lux_ledger_demo.Web.Operations.Building.{Operation}
use lux_ledger_demo.Web.Operations.Catalog.{find_operation, scenarios}

module _ (iso : ℤ → Text) (now : ℤ) where
  -- The button of a step finds an operation that is named as the step is.
  abbrev pub IsFound : Text → Type 0
  IsFound id = (o : Operation) × (find_operation iso now id ≡ some o) × (o.id ≡ id)

  pub scenarios-AreFound : All (All IsFound) scenarios
  unfolding find_operation text_eq
  scenarios-AreFound = (
    ((_, refl, refl), ((_, refl, refl), ((_, refl, refl), tt))),
    (
      ((_, refl, refl), ((_, refl, refl), ((_, refl, refl), ((_, refl, refl), tt)))),
      (
        ((_, refl, refl), ((_, refl, refl), ((_, refl, refl), tt))),
        (
          (
            (_, refl, refl),
            (
              (_, refl, refl),
              (
                (_, refl, refl),
                (
                  (_, refl, refl),
                  (
                    (_, refl, refl),
                    ((_, refl, refl), ((_, refl, refl), ((_, refl, refl), ((_, refl, refl), tt)))),
                  ),
                ),
              ),
            ),
          ),
          (
            (
              (_, refl, refl),
              (
                (_, refl, refl),
                (
                  (_, refl, refl),
                  ((_, refl, refl), ((_, refl, refl), ((_, refl, refl), ((_, refl, refl), tt)))),
                ),
              ),
            ),
            tt,
          ),
        ),
      ),
    ),
  )
