-- ===== src/Web/App/Transfer/Balanced.antt =====
-- What the form of a transfer sends.
use lux_ledger_demo.Common.{ℕ, ◌<◌, ◌≡◌, Bool, false, some, find, text_eq}
use lux_ledger_demo.Common.Decimal.{print}
use lux_ledger_demo.Web.Amounts.{to_minor}
use lux_ledger_demo.Web.Requests.{DemoRequest}
use lux_ledger_demo.Web.App.Refresh.{Account}
use lux_ledger_demo.Web.App.Transfer.{Form, named, transfer_operation}

-- The operation moves a positive amount between two of the accounts that are shown.
abbrev pub IsTransfer : Bool → Form → DemoRequest → Type 0
IsTransfer hold form operation =
    (source : Account) × (target : Account) × (n : ℕ) × (find (named form.from) form.accounts
      ≡ some source)
    × (find (named form.to) form.accounts ≡ some target)
    × (text_eq source.id target.id ≡ false)
    × (0 < n)
    × (to_minor form.amount form.scale ≡ some (print n))
    × (operation ≡ transfer_operation hold form source target (print n))
