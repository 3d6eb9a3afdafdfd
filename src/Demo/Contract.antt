-- ===== src/Demo/Contract.antt =====
-- What the demo may ask the ledger package to write, and what its state becomes by such writes.
-- An independent description, against which the service is judged.
use lux_ledger_demo.Common.{ℕ, ◌<◌, ◌≡◌, refl, List, [], ◌∷◌, Text, ◌⊎◌}
use lux_ledger_demo.Common.Int.{ℤ, pos, ◌+ℤ◌, eq_of_parts, int_laws}
use lux_ledger_demo.Common.Outcome.Rules.{IsPreorder}
use lux_ledger_demo.Demo.Backend.{
  credit, debit, disallow, Account, Entry, NewAccount, Posting, Write, create_asset, create_ledger,
  create_account, create_transaction, create_hold, commit_hold, void_hold, ingest, create_rule,
  run_reconciliation, Backend,
}
use lux_ledger_demo.Demo.Input.{funding_address}
use lux_ledger_demo.Demo.Input.Laws.{IsAddress}
use lux_ledger_demo.Demo.Service.{usd, ledger_name, move}

abbrev pub total : List Entry → ℤ
total [] = pos 0
total (e ∷ entries) = e.signed_amount_minor +ℤ total entries

-- A posting of double-entry bookkeeping: two entries of the posting's currency, the dollar,
-- one of them a positive amount, that sum to zero.
pub record IsBalanced (p : Posting) : Type 0 where
  pub in_usd : p.currency ≡ usd
  pub moved :
      (source destination : Account) × (amount : ℕ) × (0 < amount)
      × (p.entries ≡ move source destination (pos amount))
  pub balances : total p.entries ≡ pos 0

-- An account of a client: no overdraft, in dollars.
pub record IsClientAccount (a : NewAccount) : Type 0 where
  pub named : IsAddress a.name
  pub on_credit : a.side ≡ credit
  pub no_overdraft : a.overdraft_policy ≡ disallow
  pub in_usd : a.currency ≡ usd

-- What the calls of a client may write.
abbrev pub IsSound : Write → Type 0
IsSound (create_account a) = IsClientAccount a
IsSound (create_transaction p) = IsBalanced p
IsSound (create_hold p) = IsBalanced p
IsSound (ingest tenant source r) =
    (amount : ℕ) × (0 < amount) × (r.amount_minor ≡ pos amount) × (r.currency ≡ usd)
IsSound (commit_hold tenant hold reference) = Unit
IsSound (void_hold tenant hold) = Unit
IsSound (create_rule tenant name) = Unit
IsSound (run_reconciliation scope upload rule) = Unit
IsSound _ = ⊥

-- What the seed may write besides: the asset, the ledger, and accounts of which the system's own
-- alone may be overdrawn.
abbrev pub IsSeeding : Write → Type 0
IsSeeding (create_asset tenant code) = code ≡ usd
IsSeeding (create_ledger tenant name) = name ≡ ledger_name
IsSeeding (create_account a) =
    IsClientAccount a ⊎ (a.name ≡ funding_address) × (a.side ≡ debit) × (a.currency ≡ usd)
IsSeeding (create_transaction p) = IsBalanced p
IsSeeding _ = ⊥

module _ {S : Type 0} (backend : Backend S) where
  -- The states that writes of a kind lead to, whether they succeed or fail. The first tenant may
  -- be made where ledgers may.
  pub data Via (Allowed : Write → Type 0) (s : S) : S → Type 0 where
    here : Via Allowed s s
    wrote :
        {t u : S} (w : Write)
        → Via Allowed s t
        → Allowed w
        → u ≡ (backend.write w t).1
        → Via Allowed s u
    booted :
        {t u : S} (tenant name key : Text)
        → Via Allowed s t
        → Allowed (create_ledger tenant ledger_name)
        → u ≡ (backend.bootstrap tenant name key t).1
        → Via Allowed s u

  pub Via-trans :
      {Allowed : Write → Type 0} {s t u : S} → Via Allowed s t → Via Allowed t u → Via Allowed s u
  Via-trans v here = v
  Via-trans v (wrote w r allowed e) = wrote w (Via-trans v r) allowed e
  Via-trans v (booted tenant name key r allowed e) =
      booted tenant name key (Via-trans v r) allowed e

  pub Via-IsPreorder : {Allowed : Write → Type 0} → IsPreorder (Via Allowed)
  Via-IsPreorder = record { stay = λ s. here; go_on = λ s t u. Via-trans }

pub Via-nothing : {S : Type 0} (backend : Backend S) {s u : S} → Via backend (λ _. ⊥) s u → u ≡ s
Via-nothing backend here = refl
Via-nothing backend (wrote w r allowed e) = absurd allowed
Via-nothing backend (booted tenant name key r allowed e) = absurd allowed

pub move-total :
    (source destination : Account) (amount : ℤ) → total (move source destination amount) ≡ pos 0
move-total source destination amount = eq_of_parts _ _ (omega int_laws)
