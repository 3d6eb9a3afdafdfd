-- ===== src/Web/Display.antt =====
-- How the console presents entries: apps/web/src/ledger-display.ts.
pub mod Balanced
use lux_ledger_demo.Common.{
  Bool, true, false, not, ◌&&◌, Option, none, some, List, [], ◌∷◌, every, Text, if◌then◌else◌,
}
use lux_ledger_demo.Common.Int.{ℤ, pos, ltb_ℤ, eqb_ℤ, ◌+ℤ◌, negate}
use lux_ledger_demo.Common.Decimal.{print_ℤ}
use lux_ledger_demo.Common.BigInt.{big_int}

pub data Direction : Type 0 where
  debit credit : Direction

pub record EntryDisplay : Type 0 where
  pub direction : Direction
  pub magnitude_minor : Text

abbrev pub display : ℤ → Option EntryDisplay
display signed =
    if eqb_ℤ signed (pos 0)
    then none
    else some (record {
      direction = if ltb_ℤ (pos 0) signed then debit else credit;
      magnitude_minor = print_ℤ (if ltb_ℤ signed (pos 0) then negate signed else signed);
    })

-- `toEntryDisplay`: none where it throws, some none where it returns null.
unfoldable pub to_entry_display : Text → Option (Option EntryDisplay)
to_entry_display signed_amount_minor = elim (big_int signed_amount_minor) [
  | none ↦ none
  | some signed ↦ some (display signed)
]

-- entries.map(entry => BigInt(entry.signed_amount_minor))
unfoldable pub amounts_of : List Text → Option (List ℤ)
amounts_of [] = some []
amounts_of (t ∷ entries) = elim (big_int t) [
  | none ↦ none
  | some a ↦ elim (amounts_of entries) [ none ↦ none | some amounts ↦ some (a ∷ amounts) ]
]

-- amounts.reduce((total, amount) => total + amount, total)
unfoldable pub total_from : ℤ → List ℤ → ℤ
total_from total [] = total
total_from total (a ∷ amounts) = total_from (total +ℤ a) amounts

abbrev pub is_nil : List ℤ → Bool
is_nil [] = true
is_nil (a ∷ amounts) = false

abbrev pub balanced : List ℤ → Bool
balanced amounts =
    not (is_nil amounts)
    && every (λ a. not (eqb_ℤ a (pos 0))) amounts
    && eqb_ℤ (total_from (pos 0) amounts) (pos 0)

-- `entriesAreBalanced`, of the signed amounts of the entries
unfoldable pub entries_are_balanced : List Text → Option Bool
entries_are_balanced entries = elim (amounts_of entries) [
  | none ↦ none
  | some amounts ↦ some (balanced amounts)
]
