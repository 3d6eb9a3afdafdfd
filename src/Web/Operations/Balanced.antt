-- ===== src/Web/Operations/Balanced.antt =====
-- The entries that the console builds balance.
use lux_ledger_demo.Common.{
  ℕ, zero, suc, ◌<◌, ◌≡◌, refl, true, false, some, List, [], ◌∷◌, Text, arith,
}
use lux_ledger_demo.Common.Int.{pos, negsuc, ◌+ℤ◌, eq_of_parts, int_laws}
use lux_ledger_demo.Common.Decimal.{is_positive_decimal, value, print, print_ℤ, print-value}
use lux_ledger_demo.Common.BigInt.{big_int}
use lux_ledger_demo.Web.Display.{entries_are_balanced, amounts_of, total_from}
use lux_ledger_demo.Web.Display.Balanced.{entries_are_balanced_iff}
use lux_ledger_demo.Web.Operations.{Context, SeedRole, Entry, entries, marketplace, unbalanced}

abbrev pub amounts : List Entry → List Text
amounts [] = []
amounts (e ∷ es) = e.signed_amount_minor ∷ amounts es

-- A positive amount and the same amount with a sign.
pub paired-balance :
    (n : ℕ) → 0 < n → entries_are_balanced (print_ℤ (pos n) ∷ (b'-' ∷ print n) ∷ []) ≡ some true
paired-balance zero h = absurd (omega arith)
paired-balance (suc n) h =
    (entries_are_balanced_iff (pos (suc n) ∷ negsuc n ∷ [])).1
      (λ e. cc, (λ e. cc, (λ e. cc, tt)), eq_of_parts _ _ (omega int_laws))

entries-balance :
    (c : Context) (amount : Text) (from to : SeedRole)
    → is_positive_decimal amount ≡ true
    → entries_are_balanced (amounts (entries c amount from to)) ≡ some true
unfolding entries
entries-balance c amount from to h =
    let p = print-value amount h in rw (← p.1) (paired-balance (value amount) p.0)

-- Whatever accounts the console knows: the entries of a positive amount between any two roles
-- balance by the console's own test, so do those of the marketplace payment with its fee, and
-- those of the operation that shows a rejection do not.
pub operations-balance :
    (c : Context) (amount : Text) (from to : SeedRole)
    → is_positive_decimal amount ≡ true
    → (entries_are_balanced (amounts (entries c amount from to)) ≡ some true)
      × (entries_are_balanced (amounts (marketplace c)) ≡ some true)
      × (entries_are_balanced (amounts (unbalanced c)) ≡ some false)
unfolding entries_are_balanced marketplace unbalanced amounts_of big_int total_from ◌+ℤ◌
operations-balance c amount from to h = (entries-balance c amount from to h, refl, refl)
