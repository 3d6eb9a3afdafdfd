-- ===== src/Web/App/Shown.antt =====
-- What the page of apps/web/src/App.tsx derives from its state.
use lux_ledger_demo.Common.{
  ℕ, ◌==◌, Bool, false, not, ◌&&◌, ◌||◌, Option, none, some, List, [], ◌∷◌, find, Text, text_eq,
  codes, starts_with, if◌then◌else◌,
}
use lux_ledger_demo.Common.Int.{◌+ℤ◌, negate}
use lux_ledger_demo.Common.Decimal.{print_ℤ}
use lux_ledger_demo.Common.BigInt.{big_int}
use lux_ledger_demo.Web.Requests.Sending.{RequestRecord}
use lux_ledger_demo.Web.App.Session.{Ledger}

pub record Shown : Type 0 where
  pub id : Text
  pub code : Option Text
  pub name : Text
  pub currency : Text
  pub is_credit : Bool
  pub grant_enabled : Bool
  pub balance_minor : Text

abbrev is_euro_book : Text → List Ledger → Bool
is_euro_book ledger books = elim (find (λ (l : Ledger). text_eq l.id ledger) books) [
  | none ↦ false
  | some l ↦ starts_with l.name (codes "EUR")
]

unfoldable pub currency_of : List Shown → List Ledger → Text → Text
currency_of [] books ledger = if is_euro_book ledger books then codes "EUR" else codes "USD"
currency_of (a ∷ _) books ledger = a.currency

-- records.find(…) ?? records[0]
unfoldable pub journal : List RequestRecord → Option ℕ → Option RequestRecord
journal [] id = none
journal (r ∷ records) none = some r
journal (r ∷ records) (some id) = elim (find (λ (x : RequestRecord). x.id == id) (r ∷ records)) [
  | some found ↦ some found
  | none ↦ some r
]

unfoldable pub wallet_accounts : List Shown → List Shown
wallet_accounts [] = []
wallet_accounts (a ∷ accounts) =
    let rest = wallet_accounts accounts in
    if starts_with a.name (codes "wallet:") && not a.grant_enabled then a ∷ rest else rest

abbrev is_credits : Shown → Bool
is_credits a =
    elim a.code [ none ↦ false | some c ↦ text_eq c (codes "DEMO_CREDITS") ]
    || text_eq a.name (codes "credits:alice")

unfoldable pub base_credit_account : List Shown → Text → Text
base_credit_account accounts selected = elim (find is_credits accounts) [
  | some a ↦ a.id
  | none ↦ selected
]

-- The balance on an account's card, in the sense of its side; none, where BigInt throws.
unfoldable pub card_balance : Shown → Option Text
card_balance a = elim (big_int a.balance_minor) [
  | none ↦ none
  | some n ↦ some (print_ℤ (if a.is_credit then negate n else n))
]

abbrev old_balance : List Shown → Text → Text
old_balance before id = elim (find (λ (b : Shown). text_eq b.id id) before) [
  | some b ↦ b.balance_minor
  | none ↦ codes "0"
]

-- (BigInt(after) - BigInt(before)).toString(), with '0' for an account that was not there.
unfoldable pub delta : List Shown → Shown → Option Text
delta before a = elim (big_int a.balance_minor) [
  | none ↦ none
  | some n ↦ elim (big_int (old_balance before a.id)) [
    | none ↦ none
    | some m ↦ some (print_ℤ (n +ℤ negate m))
  ]
]
