-- ===== src/Demo/Service/Writes.antt =====
-- What the operations of the service write.
use lux_ledger_demo.Common.{ℕ, ◌≡◌, refl, ap, Option, none, some, Text, codes}
use lux_ledger_demo.Common.Int.{ℤ}
use lux_ledger_demo.Common.Outcome.{done, pure}
use lux_ledger_demo.Common.Outcome.Rules.{
  Moves, Moves-pure, Moves-reads, Moves-bind, Moves-bind_reads, IsPreorder,
}
use lux_ledger_demo.Demo.Backend.{
  Backend, Write, Scope, Account, Posting, create_transaction, credit, disallow, ingest,
  create_rule,
}
use lux_ledger_demo.Demo.Input.{Failure, Locale, normalize_address, parse_amount}
use lux_ledger_demo.Demo.Input.Laws.{normalize_address_iff, parse_amount_iff}
use lux_ledger_demo.Demo.Contract.{
  IsSound, IsBalanced, IsClientAccount, Via, here, wrote, Via-IsPreorder, move-total, Via-nothing,
}
use lux_ledger_demo.Demo.Service.{
  Config, HoldAction, commit, void, writes, context, accounts, account_by_address, account_exists,
  get_state, get_account_details, create_demo_account, fund, transfer, create_demo_hold,
  resolve_hold, hold_write, matching_rule, reconcile, usd, move,
}

IsClientAccount-opened :
    (locale : Locale) (scope : Scope) (address name : Text)
    → normalize_address locale address ≡ done name
    → IsClientAccount (record {
      scope = scope;
      name = name;
      side = credit;
      overdraft_policy = disallow;
      currency = usd;
    })
IsClientAccount-opened locale scope address name e = record {
  named = ((normalize_address_iff locale address name).0 e).1;
  on_credit = refl;
  no_overdraft = refl;
  in_usd = refl;
}

ruleset moves_rules = (Moves-reads, Moves-pure, Moves-bind_reads, Moves-bind)

IsBalanced-move :
    (scope : Scope) (reference description amount_minor : Text) (source destination : Account)
    (amount : ℤ)
    → parse_amount amount_minor ≡ done amount
    → IsBalanced (record {
      scope = scope;
      reference = reference;
      currency = usd;
      description = description;
      entries = move source destination amount;
    })
IsBalanced-move scope reference description amount_minor source destination amount e =
    let (n, positive, same, _) = (parse_amount_iff amount_minor amount).0 e in
    record {
      in_usd = refl;
      moved = (source, destination, n, positive, ap (move source destination) same);
      balances = move-total source destination amount;
    }

module _ {S : Type 0} (backend : Backend S) (config : Config) (locale : Locale) (fuel : ℕ)
    (Allowed : Write → Type 0) where
  abbrev R : S → S → Type 0
  R = Via backend Allowed

  order : IsPreorder R
  order = Via-IsPreorder backend

  pub Moves-writes : (w : Write) → Allowed w → Moves R (writes backend config locale fuel w)
  unfolding writes
  Moves-writes w allowed = record { at = λ s. wrote w here allowed refl }

  pub Moves-context : Moves R (context backend config locale fuel)
  unfolding context
  Moves-context = search (order, moves_rules)

  pub Moves-account_by_address :
      (scope : Scope) (name : Text)
      → Moves R (account_by_address backend config locale fuel scope name)
  unfolding account_by_address
  Moves-account_by_address scope name = search (order, moves_rules)

  pub Moves-account_exists :
      (scope : Scope) (name : Text) → Moves R (account_exists backend config locale fuel scope name)
  unfolding account_exists
  Moves-account_exists scope name = search (order, moves_rules)

  pub Moves-accounts : (scope : Scope) → Moves R (accounts backend config locale fuel scope)
  unfolding accounts
  Moves-accounts scope = search (order, moves_rules)

  pub Moves-get_state : Moves R (get_state backend config locale fuel)
  unfolding get_state
  Moves-get_state = search (order, moves_rules, Moves-context, Moves-accounts) depth 14

  pub Moves-fund :
      (address amount_minor reference : Text)
      → ((p : Posting) → IsBalanced p → Allowed (create_transaction p))
      → Moves R (fund backend config locale fuel address amount_minor reference)
  unfolding fund
  Moves-fund address amount_minor reference allowed =
      search
        (
          order, moves_rules, Moves-context, Moves-account_by_address, Moves-get_state,
          Moves-writes, allowed, IsBalanced-move,
        )
        depth 16

-- To ask for the state of the demo changes nothing.
pub get_state-same :
    {S : Type 0} (backend : Backend S) (config : Config) (locale : Locale) (fuel : ℕ) (s : S)
    → (get_state backend config locale fuel s).1 ≡ s
get_state-same backend config locale fuel s =
    Via-nothing backend ((Moves-get_state backend config locale fuel (λ _. ⊥)).at s)

-- What the operations of a client write is sound.
module _ {S : Type 0} (backend : Backend S) (config : Config) (locale : Locale) (fuel : ℕ) where
  abbrev Reaches : S → S → Type 0
  Reaches = Via backend IsSound

  preorder : IsPreorder Reaches
  preorder = Via-IsPreorder backend

  posts : (p : Posting) → IsBalanced p → IsSound (create_transaction p)
  posts p balanced = balanced

  ruleset shared = (
    preorder, moves_rules, Moves-context, Moves-account_by_address, Moves-account_exists,
    Moves-get_state, Moves-writes,
  )

  pub Moves-create_demo_account :
      (address : Text) → Moves Reaches (create_demo_account backend config locale fuel address)
  unfolding create_demo_account
  Moves-create_demo_account address = search (shared, IsClientAccount-opened) depth 16

  pub Moves-transfer :
      (uuid from to amount_minor : Text)
      → Moves Reaches (transfer backend config locale fuel uuid from to amount_minor)
  unfolding transfer
  Moves-transfer uuid from to amount_minor = search (shared, IsBalanced-move) depth 20 fits 9000

  pub Moves-create_demo_hold :
      (uuid from to amount_minor : Text)
      → Moves Reaches (create_demo_hold backend config locale fuel uuid from to amount_minor)
  unfolding create_demo_hold
  Moves-create_demo_hold uuid from to amount_minor = search (shared, IsBalanced-move) depth 20

  IsSound-hold_write :
      (action : HoldAction) (tenant_id hold_id : Text)
      → IsSound (hold_write backend config locale fuel action tenant_id hold_id)
  IsSound-hold_write commit tenant_id hold_id = tt
  IsSound-hold_write void tenant_id hold_id = tt

  pub Moves-resolve_hold :
      (hold_id : Text) (action : HoldAction)
      → Moves Reaches (resolve_hold backend config locale fuel hold_id action)
  unfolding resolve_hold
  Moves-resolve_hold hold_id action = search (shared, IsSound-hold_write) depth 16

  pub Moves-get_account_details :
      (address : Text) (at : ℕ)
      → Moves Reaches (get_account_details backend config locale fuel address at)
  unfolding get_account_details
  Moves-get_account_details address at = search shared depth 16

  matched :
      (tenant_id : Text) (found : Option Text)
      → Moves {E = Failure} Reaches (elim found [
        | some rule ↦ pure rule
        | none ↦
            writes backend config locale fuel (create_rule tenant_id (codes "Demo statement match"))
      ])
  matched tenant_id none = Moves-writes backend config locale fuel IsSound _ tt
  matched tenant_id (some rule) = Moves-pure preorder rule

  Moves-matching_rule :
      (tenant_id : Text) → Moves Reaches (matching_rule backend config locale fuel tenant_id)
  unfolding matching_rule
  Moves-matching_rule tenant_id =
      Moves-bind_reads preorder _ _ (λ found _ _. matched tenant_id found)

  IsSound-ingest :
      (amount_minor tenant_id source uuid reference : Text) (amount : ℤ)
      → parse_amount amount_minor ≡ done amount
      → IsSound (
          ingest tenant_id source (record {
            external_id = uuid;
            reference = reference;
            amount_minor = amount;
            currency = usd;
          }))
  IsSound-ingest amount_minor tenant_id source uuid reference amount e =
      let (n, positive, same, _) = (parse_amount_iff amount_minor amount).0 e in
      (n, positive, same, refl)

  pub Moves-reconcile :
      (uuid reference amount_minor : Text)
      → Moves Reaches (reconcile backend config locale fuel uuid reference amount_minor)
  unfolding reconcile
  Moves-reconcile uuid reference amount_minor =
      search (shared, Moves-matching_rule, IsSound-ingest) depth 16
