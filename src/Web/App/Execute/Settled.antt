-- ===== src/Web/App/Execute/Settled.antt =====
-- How `execute` ends, in every case.
use lux_ledger_demo.Common.{
  ◌≡◌, ◌≢◌, refl, ◌∙◌, ◌⊎◌, inl, inr, Bool, true, false, Option, none, some, List, Text, text_eq,
  codes, Bool-cases,
}
use lux_ledger_demo.Common.Json.{Json, Fields}
use lux_ledger_demo.Common.Outcome.{Outcome, done, raised, out_of_fuel, Outcome-cases, Action}
use lux_ledger_demo.Common.Outcome.Rules.{
  IsPreorder, Moves, stopped-bind, Moves-pure, Moves-bind, Moves-if,
}
use lux_ledger_demo.Web.Requests.{DemoRequest}
use lux_ledger_demo.Web.Requests.Sending.{RequestFailure}
use lux_ledger_demo.Web.App.Refresh.{Account}
use lux_ledger_demo.Web.App.Execute.{
  Desk, is_write, lift, updates, take_boundary, take_ids, show_change, set_ledgers, after_ledger,
  after_write, attempt, settle, begin, execute,
}

module _ {S : Type 0} where
  -- The identifiers, the last write and the change of balances stay.
  pub record Keeps (d d' : Desk S) : Type 0 where
    pub ids : d'.ids ≡ d.ids
    pub last_sent : d'.last_sent ≡ d.last_sent
    pub before_after : d'.before_after ≡ d.before_after

  record Quiet (d d' : Desk S) : Type 0 where
    error : d'.error ≡ d.error

  order : IsPreorder Keeps
  order = record {
    stay = λ d. record { ids = refl; last_sent = refl; before_after = refl };
    go_on = λ a b c f g. record {
      ids = g.ids ∙ f.ids;
      last_sent = g.last_sent ∙ f.last_sent;
      before_after = g.before_after ∙ f.before_after;
    };
  }

  quiet : IsPreorder Quiet
  quiet = record {
    stay = λ d. record { error = refl };
    go_on = λ a b c f g. record { error = g.error ∙ f.error };
  }

  -- A change of the desk that `R` allows.
  Moves-updates :
      {R : Desk S → Desk S → Type 0} (f : Desk S → Desk S)
      → ((d : Desk S) → R d (f d))
      → Moves R (updates f)
  unfolding updates
  Moves-updates f h = record { at = h }

  lift-Keeps : {A : Type 0} (m : Action S RequestFailure A) → Moves Keeps (lift m)
  unfolding lift
  lift-Keeps m = record { at = λ d. record { ids = refl; last_sent = refl; before_after = refl } }

  lift-Quiet : {A : Type 0} (m : Action S RequestFailure A) → Moves Quiet (lift m)
  unfolding lift
  lift-Quiet m = record { at = λ d. record { error = refl } }

  boundary-Keeps :
      (operation : DemoRequest) (body : Fields) (d : Desk S)
      → Keeps d (take_boundary operation body d)
  unfolding take_boundary
  boundary-Keeps operation body d =
      elim (Bool-cases (text_eq operation.path (codes "/v1/credit-grants/expiration/preview"))) [
        | inl preview ↦ rw preview (record { ids = refl; last_sent = refl; before_after = refl })
        | inr other ↦ rw other (order.stay d)
      ]

  boundary-Quiet :
      (operation : DemoRequest) (body : Fields) (d : Desk S)
      → Quiet d (take_boundary operation body d)
  unfolding take_boundary
  boundary-Quiet operation body d =
      elim (Bool-cases (text_eq operation.path (codes "/v1/credit-grants/expiration/preview"))) [
        | inl preview ↦ rw preview (record { error = refl })
        | inr other ↦ rw other (quiet.stay d)
      ]

  ids-Quiet :
      (operation : DemoRequest) (body : Fields) (d : Desk S) → Quiet d (take_ids operation body d)
  unfolding take_ids
  ids-Quiet operation body d = record { error = refl }

  change-Quiet :
      (accounts : List Account) (after : Option (List Account)) (d : Desk S)
      → Quiet d (show_change accounts after d)
  change-Quiet accounts none d = quiet.stay d
  change-Quiet accounts (some a) d = record { error = refl }

  ledgers-Quiet : (books : List Text) (d : Desk S) → Quiet d (set_ledgers books d)
  unfolding set_ledgers
  ledgers-Quiet books d = record { error = refl }

  module _ (request : DemoRequest → Action S RequestFailure Json)
      (refresh : Action S RequestFailure (Option (List Account)))
      (all_ledgers : Action S RequestFailure (List Text)) where
    read-Keeps :
        (operation : DemoRequest) (accounts : List Account)
        → is_write operation ≡ false
        → Moves Keeps (attempt request refresh all_ledgers operation accounts)
    unfolding attempt
    read-Keeps operation accounts is_read =
        rw is_read
          (search (order, Moves-bind, Moves-pure, Moves-updates, lift-Keeps, boundary-Keeps))

    attempt-Quiet :
        (operation : DemoRequest) (accounts : List Account)
        → Moves Quiet (attempt request refresh all_ledgers operation accounts)
    unfolding attempt after_write after_ledger
    attempt-Quiet operation accounts =
        search
          (
            quiet, Moves-bind, Moves-pure, Moves-if, Moves-updates, lift-Quiet, boundary-Quiet,
            ids-Quiet, change-Quiet, ledgers-Quiet,
          )
          depth 16 fits 9000

    abbrev Changes : DemoRequest → Desk S → Desk S → Type 0
    Changes operation d d' =
        ((is_write operation ≡ true) × (v : Json) × ((request operation d.world).0 ≡ done v))
        ⊎ Keeps d d'

    begun : (d d' : Desk S) → Keeps (begin d) d' → Keeps d d'
    begun d d' k = record { ids = k.ids; last_sent = k.last_sent; before_after = k.before_after }

    ended :
        (operation : DemoRequest) (d d' : Desk S) (b : Bool) (e : Option Text)
        → Changes operation d d'
        → Changes operation d (record d' { busy = b; error = e })
    ended operation d d' b e (inl w) = inl w
    ended operation d d' b e (inr k) =
        inr (record { ids = k.ids; last_sent = k.last_sent; before_after = k.before_after })

    no_answer :
        (operation : DemoRequest) (d : Desk S)
        → ((e : RequestFailure) × ((request operation d.world).0 ≡ raised e))
          ⊎ ((request operation d.world).0 ≡ out_of_fuel)
        → (v : Json) → (lift (request operation) (begin d)).0 ≢ done v
    unfolding lift
    no_answer operation d (inl (x, e)) v h = cc
    no_answer operation d (inr e) v h = cc

    -- Where the request gives no answer, nothing is written.
    attempt-Changes :
        (operation : DemoRequest) (accounts : List Account) (d : Desk S)
        → Changes operation d (attempt request refresh all_ledgers operation accounts (begin d)).1
    unfolding attempt lift
    attempt-Changes operation accounts d = elim (Outcome-cases (request operation d.world).0) [
      | inr stopped ↦ inr (
          rw (stopped-bind (lift (request operation)) _ (begin d) (no_answer operation d stopped)).0
            (record { ids = refl; last_sent = refl; before_after = refl }))
      | inl (v, answered) ↦ elim (Bool-cases (is_write operation)) [
        | inl write ↦ inl (write, v, answered)
        | inr read ↦ inr (begun d _ ((read-Keeps operation accounts read).at (begin d)))
      ]
    ]

    module _ (describe : RequestFailure → Text) where
      -- How a call that has ended leaves the desk.
      abbrev pub IsSettled :
          DemoRequest → Desk S → Outcome RequestFailure (Option Json) → Desk S → Type 0
      IsSettled operation d r d' =
          (d'.busy ≡ false)
          × (((v : Json) × (r ≡ done (some v)) × (d'.error ≡ none))
              ⊎ ((e : RequestFailure) × (r ≡ done none) × (d'.error ≡ some (describe e))))
          × (((is_write operation ≡ true) × (v : Json) × ((request operation d.world).0 ≡ done v))
              ⊎ Keeps d d')

      settle-IsSettled :
          (operation : DemoRequest) (d : Desk S) (r : Outcome RequestFailure Json) (d' : Desk S)
          → Quiet (begin d) d'
          → Changes operation d d'
          → ((settle describe (r, d')).0 ≡ out_of_fuel)
            ⊎ IsSettled operation d (settle describe (r, d')).0 (settle describe (r, d')).1
      settle-IsSettled operation d (done v) d' q c =
          inr (refl, inl (v, refl, q.error), ended operation d d' false d'.error c)
      settle-IsSettled operation d (raised e) d' q c =
          inr (refl, inr (e, refl, refl), ended operation d d' false (some (describe e)) c)
      settle-IsSettled operation d out_of_fuel d' q c = inl refl

      -- `execute` never rejects. Once it has ended the page is not busy, and there is either a result
      -- and no error or no result and the error of the call; the identifiers, the last write and the
      -- change of balances are touched only after a POST under /v1/ that the API has answered.
      pub execute-IsSettled :
          (operation : DemoRequest) (accounts : List Account) (d : Desk S)
          → ((execute request refresh all_ledgers describe operation accounts d).0 ≡ out_of_fuel)
            ⊎ IsSettled operation d
                (execute request refresh all_ledgers describe operation accounts d).0
                (execute request refresh all_ledgers describe operation accounts d).1
      unfolding execute
      execute-IsSettled operation accounts d =
          let after : Outcome RequestFailure Json × Desk S =
            attempt request refresh all_ledgers operation accounts (begin d) in
          settle-IsSettled operation d after.0 after.1
            ((attempt-Quiet operation accounts).at (begin d)) (attempt-Changes operation accounts d)
