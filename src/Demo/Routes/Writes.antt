-- ===== src/Demo/Routes/Writes.antt =====
-- What the routes of the demo write.
use lux_ledger_demo.Common.{
  ℕ, ◌≡◌, refl, sym, ap, ◌∙◌, Bool, true, false, if◌then◌else◌, ◌⊎◌, Bool-cases, inl, inr, is_empty,
}
use mathlib.Core.Path.{subst}
use lux_ledger_demo.Common.Outcome.{Outcome, done, raised, out_of_fuel}
use lux_ledger_demo.Common.Outcome.Rules.{Moves, Moves-bind, Moves-pure, IsPreorder}
use lux_ledger_demo.Demo.Backend.{Backend, truncate}
use lux_ledger_demo.Demo.Input.{Failure, Locale}
use lux_ledger_demo.Demo.Contract.{IsSound, IsSeeding, Via, here, Via-IsPreorder}
use lux_ledger_demo.Demo.Service.{Config}
use lux_ledger_demo.Demo.Service.Writes.{
  Moves-get_state, Moves-fund, Moves-create_demo_account, Moves-transfer, Moves-create_demo_hold,
  Moves-resolve_hold, Moves-get_account_details, Moves-reconcile,
}
use lux_ledger_demo.Demo.Service.View.{DemoState}
use lux_ledger_demo.Demo.Service.Seed.Writes.{perform_reset-Via}
use lux_ledger_demo.Demo.Service.Seed.{perform_reset}
use lux_ledger_demo.Demo.Routes.{
  Call, show_state, show_details, open_account, fund_account, make_transfer, make_hold, end_hold,
  match_statement, Route, calls, reset_demo, handle_reset, handle_route, respond_reset, Answer,
  Schema, is_valid, serve, handle, respond,
}

pub respond-state : {S : Type 0} (r : Outcome Failure Answer × S) → (respond r).1 ≡ r.1
respond-state (done a, s) = refl
respond-state (raised e, s) = refl
respond-state (out_of_fuel, s) = refl

if_state : {A S : Type 0} (b : Bool) (p q : A × S) → b ≡ true → (if b then p else q).1 ≡ p.1
if_state true p q h = refl
if_state false p q h = absurd cc

else_state : {A S : Type 0} (b : Bool) (p q : A × S) → b ≡ false → (if b then p else q).1 ≡ q.1
else_state true p q h = absurd cc
else_state false p q h = refl

respond_reset-state :
    {S : Type 0} (backend : Backend S) (config : Config) (locale : Locale) (fuel : ℕ)
    (r : Outcome Failure DemoState × S)
    → (respond_reset backend config locale fuel r).1 ≡ r.1
respond_reset-state backend config locale fuel (done a, s) = refl
respond_reset-state backend config locale fuel (raised e, s) = refl
respond_reset-state backend config locale fuel (out_of_fuel, s) = refl

module _ {S : Type 0} (backend : Backend S) (config : Config) (locale : Locale) (fuel : ℕ) where
  order : IsPreorder (Via backend IsSound)
  order = Via-IsPreorder backend

  Moves-serve : (call : Call) → Moves (Via backend IsSound) (serve backend config locale fuel call)
  unfolding serve
  Moves-serve show_state = search (order, Moves-bind, Moves-pure, Moves-get_state)
  Moves-serve (show_details address at) =
      search (order, Moves-bind, Moves-pure, Moves-get_account_details)
  Moves-serve (open_account address) =
      search (order, Moves-bind, Moves-pure, Moves-create_demo_account)
  Moves-serve (fund_account uuid address amount_minor) =
      search (order, Moves-bind, Moves-pure, Moves-fund)
  Moves-serve (make_transfer uuid from to amount_minor) =
      search (order, Moves-bind, Moves-pure, Moves-transfer)
  Moves-serve (make_hold uuid from to amount_minor) =
      search (order, Moves-bind, Moves-pure, Moves-create_demo_hold)
  Moves-serve (end_hold hold_id action) = search (order, Moves-bind, Moves-pure, Moves-resolve_hold)
  Moves-serve (match_statement uuid reference amount_minor) =
      search (order, Moves-bind, Moves-pure, Moves-reconcile)

  handle-Via :
      (schema : Schema) (call : Call) (s : S)
      → Via backend IsSound s (handle backend config locale fuel schema call s).1
  unfolding handle
  handle-Via schema call s = elim (Bool-cases (is_valid schema call)) [
    | inl valid ↦ rw valid (rw respond-state ((Moves-serve call).at s))
    | inr wrong ↦ rw wrong here
  ]

  -- What a reset leaves: the state as it was, where it is not enabled or there is no key; else
  -- what the seed makes of the state that the truncation of all tables left.
  abbrev pub IsReset : S → S → Type 0
  IsReset s t =
      ((config.reset_enabled ≡ false) ⊎ (is_empty config.admin_api_key ≡ true)) × (t ≡ s)
      ⊎ (config.reset_enabled ≡ true)
        × (is_empty config.admin_api_key ≡ false)
        × Via backend IsSeeding (backend.write truncate s).1 t

  abbrev pub Leaves : Route → S → S → Type 0
  Leaves (calls call) s t = Via backend IsSound s t
  Leaves reset_demo s t = IsReset s t

  handle_reset_state :
      (s : S)
      → config.reset_enabled ≡ true
      → (handle_reset backend config locale fuel s).1
        ≡ (perform_reset backend config locale fuel s).1
  unfolding handle_reset
  handle_reset_state s on =
      if_state config.reset_enabled _ _ on ∙ respond_reset-state backend config locale fuel _

  handle_reset_off :
      (s : S) → config.reset_enabled ≡ false → (handle_reset backend config locale fuel s).1 ≡ s
  unfolding handle_reset
  handle_reset_off s off = else_state config.reset_enabled _ _ off

  handle_reset-IsReset : (s : S) → IsReset s (handle_reset backend config locale fuel s).1
  handle_reset-IsReset s = elim (Bool-cases config.reset_enabled) [
    | inr off ↦ inl (inl off, handle_reset_off s off)
    | inl on ↦
        subst (IsReset s) (sym (handle_reset_state s on))
          (elim (perform_reset-Via backend config locale fuel s) [
            | inl (missing, e) ↦
                inl (inr missing, ap (λ (p : Outcome Failure DemoState × S). p.1) e)
            | inr (given, run) ↦ inr (on, given, run)
          ])
  ]

  -- Whatever route of the demo a client calls, and whether the call is answered or refused. Of any
  -- route but the reset, the state it leaves is reached by sound writes alone: postings of two
  -- entries in dollars that move a positive amount and sum to zero, accounts without overdraft at
  -- an address that matches the pattern and is not the system's, positive statement amounts, holds
  -- that end, and reconciliations. The reset leaves the state as it was where it is not enabled or
  -- there is no key; else it truncates all tables, and reaches the state it leaves by writes of
  -- the seed alone: the asset, the ledger, accounts of which the system's own alone may be
  -- overdrawn, and balanced postings.
  pub handle_route-Leaves :
      (schema : Schema) (route : Route) (s : S)
      → Leaves route s (handle_route backend config locale fuel schema route s).1
  unfolding handle_route
  handle_route-Leaves schema (calls call) s = handle-Via schema call s
  handle_route-Leaves schema reset_demo s = handle_reset-IsReset s
