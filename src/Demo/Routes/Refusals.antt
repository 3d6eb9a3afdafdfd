-- ===== src/Demo/Routes/Refusals.antt =====
-- What the routes answer to input that is not valid.
use lux_ledger_demo.Common.{
  ℕ, ◌≡◌, refl, ◌≢◌, ◌⊎◌, inl, inr, false, Bool-cases, Option, none, some, Text, text_eq, codes,
  arith,
}
use lux_ledger_demo.Common.Int.{pos}
use lux_ledger_demo.Common.Json.{property}
use lux_ledger_demo.Common.Outcome.{Outcome, done, raised, out_of_fuel, pure}
use lux_ledger_demo.Api.Errors.{Thrown, Reply, error_handler, validation_message, text_of}
use lux_ledger_demo.Demo.Backend.{Backend, Write, Scope, create_rule}
use lux_ledger_demo.Demo.Input.{Failure, Locale, input, not_ready}
use lux_ledger_demo.Demo.Contract.{Via-nothing}
use lux_ledger_demo.Demo.Service.{
  Config, HoldAction, asks, writes, context, accounts, account_by_address, or_raise, from_service,
  account_exists, get_state, get_account_details, create_demo_account, fund, transfer,
  authenticated, create_demo_hold, resolve_hold, matching_rule, reconcile,
}
use lux_ledger_demo.Demo.Service.Writes.{
  Moves-context, Moves-account_by_address, Moves-account_exists,
}
use lux_ledger_demo.Demo.Service.Refusals.{
  IsStill, NeverInput, Refuses, refusal_rules, NeverInput-pure, NeverInput-reads, NeverInput-bind,
}
use lux_ledger_demo.Demo.Routes.{
  Call, show_state, show_details, open_account, fund_account, make_transfer, make_hold, end_hold,
  match_statement, Answer, serve, handle, respond, refused, demo_reply, Schema, is_valid, rejection,
}

from_service-never :
    {A : Type 0} (o : Outcome Thrown A) (e : Text) → from_service o ≢ raised (input e)
from_service-never (done a) e = cc
from_service-never (raised t) e = cc
from_service-never out_of_fuel e = cc

ready-never : {A : Type 0} (o : Option A) (e : Text) → or_raise o not_ready ≢ raised (input e)
ready-never none e = cc
ready-never (some a) e = cc

rejection-status :
    (schema : Schema) (call : Call) → (error_handler (rejection schema call)).status ≡ pos 400
unfolding error_handler validation_message property text_eq text_of
rejection-status schema call = refl

answer_of :
    {S : Type 0} (r : Outcome Failure Answer × S) (s : S) (m : Text)
    → r.0 ≡ raised (input m)
    → r.1 ≡ s
    → respond r ≡ (refused (demo_reply (input m)), s)
answer_of (o, t) s m h e = rw (h, e)

module _ {S : Type 0} (backend : Backend S) (config : Config) (locale : Locale) (fuel : ℕ) where
  NeverInput-asks :
      {A : Type 0} (question : S → Outcome Thrown A)
      → NeverInput (asks backend config locale fuel question)
  NeverInput-asks question = NeverInput-reads _ (λ s e. from_service-never (question s) e)

  NeverInput-writes : (w : Write) → NeverInput (writes backend config locale fuel w)
  unfolding writes
  NeverInput-writes w = record { at = λ s e. from_service-never (backend.write w s).0 e }

  authenticated-never :
      (s : S) (e : Text) → authenticated backend config locale fuel s ≢ raised (input e)
  unfolding authenticated
  authenticated-never s e h = ground arith

  NeverInput-context : NeverInput (context backend config locale fuel)
  unfolding context
  NeverInput-context = search (refusal_rules, NeverInput-asks, authenticated-never, ready-never)

  NeverInput-accounts : (scope : Scope) → NeverInput (accounts backend config locale fuel scope)
  unfolding accounts
  NeverInput-accounts scope = NeverInput-asks _

  NeverInput-get_state : NeverInput (get_state backend config locale fuel)
  unfolding get_state
  NeverInput-get_state =
      search (refusal_rules, NeverInput-asks, NeverInput-context, NeverInput-accounts) depth 14

  IsStill-context : IsStill (context backend config locale fuel)
  IsStill-context = record {
    at = λ s. Via-nothing backend ((Moves-context backend config locale fuel (λ _. ⊥)).at s);
  }

  IsStill-account :
      (scope : Scope) (name : Text)
      → IsStill (account_by_address backend config locale fuel scope name)
  IsStill-account scope name = record {
    at = λ s.
        Via-nothing backend
          ((Moves-account_by_address backend config locale fuel (λ _. ⊥) scope name).at s);
  }

  IsStill-exists :
      (scope : Scope) (name : Text) → IsStill (account_exists backend config locale fuel scope name)
  IsStill-exists scope name = record {
    at = λ s.
        Via-nothing backend
          ((Moves-account_exists backend config locale fuel (λ _. ⊥) scope name).at s);
  }

  ruleset parts = (
    refusal_rules, IsStill-context, IsStill-account, IsStill-exists, NeverInput-writes,
    NeverInput-get_state,
  )

  Refuses-fund :
      (address amount_minor reference : Text)
      → Refuses (fund backend config locale fuel address amount_minor reference)
  unfolding fund
  Refuses-fund address amount_minor reference = search parts depth 16

  Refuses-create_demo_account :
      (address : Text) → Refuses (create_demo_account backend config locale fuel address)
  unfolding create_demo_account
  Refuses-create_demo_account address = search parts depth 16

  Refuses-transfer :
      (uuid from to amount_minor : Text)
      → Refuses (transfer backend config locale fuel uuid from to amount_minor)
  unfolding transfer
  Refuses-transfer uuid from to amount_minor = search parts depth 20

  Refuses-create_demo_hold :
      (uuid from to amount_minor : Text)
      → Refuses (create_demo_hold backend config locale fuel uuid from to amount_minor)
  unfolding create_demo_hold
  Refuses-create_demo_hold uuid from to amount_minor = search parts depth 20

  Refuses-resolve_hold :
      (hold_id : Text) (action : HoldAction)
      → Refuses (resolve_hold backend config locale fuel hold_id action)
  unfolding resolve_hold
  Refuses-resolve_hold hold_id action = search parts depth 16

  Refuses-get_account_details :
      (address : Text) (at : ℕ)
      → Refuses (get_account_details backend config locale fuel address at)
  unfolding get_account_details
  Refuses-get_account_details address at = search parts depth 16

  never_matched :
      (tenant_id : Text) (found : Option Text)
      → NeverInput (elim found [
        | some rule ↦ pure rule
        | none ↦
            writes backend config locale fuel (create_rule tenant_id (codes "Demo statement match"))
      ])
  never_matched tenant_id none = NeverInput-writes _
  never_matched tenant_id (some rule) = NeverInput-pure rule

  NeverInput-matching_rule :
      (tenant_id : Text) → NeverInput (matching_rule backend config locale fuel tenant_id)
  unfolding matching_rule
  NeverInput-matching_rule tenant_id =
      NeverInput-bind _ _ (NeverInput-asks _) (λ found. never_matched tenant_id found)

  Refuses-reconcile :
      (uuid reference amount_minor : Text)
      → Refuses (reconcile backend config locale fuel uuid reference amount_minor)
  unfolding reconcile
  Refuses-reconcile uuid reference amount_minor = search (parts, NeverInput-matching_rule) depth 16

  Refuses-serve : (call : Call) → Refuses (serve backend config locale fuel call)
  unfolding serve
  Refuses-serve show_state = search (refusal_rules, NeverInput-get_state)
  Refuses-serve (show_details address at) = search (refusal_rules, Refuses-get_account_details)
  Refuses-serve (open_account address) = search (refusal_rules, Refuses-create_demo_account)
  Refuses-serve (fund_account uuid address amount_minor) = search (refusal_rules, Refuses-fund)
  Refuses-serve (make_transfer uuid from to amount_minor) = search (refusal_rules, Refuses-transfer)
  Refuses-serve (make_hold uuid from to amount_minor) =
      search (refusal_rules, Refuses-create_demo_hold)
  Refuses-serve (end_hold hold_id action) = search (refusal_rules, Refuses-resolve_hold)
  Refuses-serve (match_statement uuid reference amount_minor) =
      search (refusal_rules, Refuses-reconcile)

  -- A call that the validation rejects, or that the demo's own check of its input rejects, is
  -- answered with the status 400 and has written nothing: the state is as it was before.
  pub serve-refused :
      (schema : Schema) (call : Call) (s : S)
      → (is_valid schema call ≡ false)
        ⊎ (m : Text) × ((serve backend config locale fuel call s).0 ≡ raised (input m))
      → (reply : Reply) × (handle backend config locale fuel schema call s ≡ (refused reply, s))
        × (reply.status ≡ pos 400)
  unfolding handle
  serve-refused schema call s (inl wrong) =
      (error_handler (rejection schema call), rw wrong, rejection-status schema call)
  serve-refused schema call s (inr (m, h)) = elim (Bool-cases (is_valid schema call)) [
    | inl valid ↦
        (demo_reply (input m), rw valid (answer_of _ s m h ((Refuses-serve call).at s m h)), refl)
    | inr wrong ↦ (error_handler (rejection schema call), rw wrong, rejection-status schema call)
  ]
