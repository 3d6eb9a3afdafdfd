-- ===== src/Demo/Service/Pages.antt =====
-- The loop over the pages of accounts: `listAccounts` of the service.
use lux_ledger_demo.Common.{ℕ, ◌<◌, ◌≡◌, Option, none, List, [], Text, length}
use lux_ledger_demo.Common.Outcome.{done, reads}
use lux_ledger_demo.Common.Paging.{Page, IsPaged, collect_all}
use lux_ledger_demo.Demo.Backend.{Backend, Scope, Account}
use lux_ledger_demo.Demo.Input.{Locale}
use lux_ledger_demo.Demo.Service.{Config, accounts}

-- Where the ledger package answers every page, and its pages stand for a list of accounts, the
-- loop ends with the whole list in order, once the fuel is above its length; nothing is written.
pub accounts_all :
    {S : Type 0} (backend : Backend S) (config : Config) (locale : Locale) (fuel : ℕ)
    (scope : Scope) (s : S) (left : Option Text → List Account)
    → IsPaged (λ cursor. backend.list_accounts scope cursor s) left
    → ((cursor : Option Text)
        → (page : Page Account) × (backend.list_accounts scope cursor s ≡ done page))
    → length (left none) < fuel
    → accounts backend config locale fuel scope s ≡ (done (left none), s)
unfolding accounts reads
accounts_all backend config locale fuel scope s left paged answers enough = rw (
    collect_all (λ cursor. backend.list_accounts scope cursor s) left paged answers fuel none []
      enough)
