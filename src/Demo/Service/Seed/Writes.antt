-- ===== src/Demo/Service/Seed/Writes.antt =====
-- What the seed and the reset write.
use lux_ledger_demo.Common.{
  ℕ, ◌≡◌, refl, ◌≢◌, true, false, Option, none, some, List, [], ◌∷◌, Bool-cases, inl, inr, ◌⊎◌,
  Text, text_eq, text_eq_iff, is_empty, codes, split_on, arith,
}
use lux_ledger_demo.Common.Outcome.{Outcome, done, raised, out_of_fuel, pure, raise, ◌>>=◌}
use lux_ledger_demo.Common.Outcome.Rules.{
  Moves, Moves-pure, Moves-reads, Moves-bind, Moves-bind_reads, Moves-if, IsPreorder,
}
use lux_ledger_demo.Demo.Backend.{
  Backend, Write, Scope, Account, Bootstrap, Transaction, create_account, create_asset,
  create_ledger, truncate,
}
use lux_ledger_demo.Demo.Input.{Failure, Locale, matches_address, not_ready, input, error, service}
use lux_ledger_demo.Demo.Input.Laws.{IsAddress}
use lux_ledger_demo.Demo.Contract.{IsSeeding, Via, here, booted, Via-IsPreorder}
use lux_ledger_demo.Demo.Service.{Config, writes, get_state, usd, ledger_name, from_service}
use lux_ledger_demo.Demo.Service.Writes.{
  get_state-same, Moves-writes, Moves-accounts, Moves-get_state, Moves-fund,
}
use lux_ledger_demo.Demo.Service.View.{DemoState}
use lux_ledger_demo.Demo.Service.Seed.{
  SeedAccount, seed_accounts, bootstraps, seed_tenant, ensure_asset, ensure_ledger, create_missing,
  seed_funding, seed_after, perform_seed, seed, perform_reset,
}

-- Each account of the list may be made by the seed.
abbrev AreSeeding : List SeedAccount → Type 0
AreSeeding [] = Unit
AreSeeding (a ∷ wanted) =
    ((scope : Scope)
      → IsSeeding (
          create_account (record {
            scope = scope;
            name = a.name;
            side = a.side;
            overdraft_policy = a.policy;
            currency = usd;
          })))
    × AreSeeding wanted

ne_of_text_eq : (s t : Text) → text_eq s t ≡ false → s ≢ t
ne_of_text_eq s t h e = ground (arith, text_eq_iff s t)

alice-IsAddress : IsAddress (codes "wallet:alice")
unfolding matches_address split_on text_eq
alice-IsAddress = record {
  pattern_matches = refl;
  short = omega arith;
  not_reserved = ne_of_text_eq _ _ refl;
}

bob-IsAddress : IsAddress (codes "wallet:bob")
unfolding matches_address split_on text_eq
bob-IsAddress = record {
  pattern_matches = refl;
  short = omega arith;
  not_reserved = ne_of_text_eq _ _ refl;
}

seed_accounts-AreSeeding : AreSeeding seed_accounts
seed_accounts-AreSeeding = (
  λ scope. inr (refl, refl, refl),
  (
    λ scope.
        inl (record {
          named = alice-IsAddress;
          on_credit = refl;
          no_overdraft = refl;
          in_usd = refl;
        }),
    (
      λ scope.
          inl (record {
            named = bob-IsAddress;
            on_credit = refl;
            no_overdraft = refl;
            in_usd = refl;
          }),
      tt,
    ),
  ),
)

module _ {S : Type 0} (backend : Backend S) (config : Config) (locale : Locale) (fuel : ℕ) where
  abbrev R : S → S → Type 0
  R = Via backend IsSeeding

  order : IsPreorder R
  order = Via-IsPreorder backend

  writing : (w : Write) → IsSeeding w → Moves R (writes backend config locale fuel w)
  writing = Moves-writes backend config locale fuel IsSeeding

  Moves-bootstraps : Moves R (bootstraps backend config locale fuel)
  unfolding bootstraps
  Moves-bootstraps = record { at = λ s. booted _ _ _ here refl refl }

  Moves-seed_tenant : (b : Bootstrap) → Moves R (seed_tenant backend config locale fuel b)
  unfolding seed_tenant
  Moves-seed_tenant b = search (order, Moves-if, Moves-reads)

  asset :
      (tenant_id : Text) (found : Option Text)
      → Moves {E = Failure} R (elim found [
        | some _ ↦ pure tt
        | none ↦ do _ ← writes backend config locale fuel (create_asset tenant_id usd); pure tt
      ])
  asset tenant_id none = Moves-bind order _ _ (writing _ refl) (λ _ _ _. Moves-pure order tt)
  asset tenant_id (some _) = Moves-pure order tt

  Moves-ensure_asset :
      (tenant_id : Text) → Moves R (ensure_asset backend config locale fuel tenant_id)
  unfolding ensure_asset
  Moves-ensure_asset tenant_id = Moves-bind_reads order _ _ (λ found _ _. asset tenant_id found)

  ledger :
      (tenant_id : Text) (found : Option Text)
      → Moves {E = Failure} R (elim found [
        | some ledger_id ↦ pure ledger_id
        | none ↦ writes backend config locale fuel (create_ledger tenant_id ledger_name)
      ])
  ledger tenant_id none = writing _ refl
  ledger tenant_id (some ledger_id) = Moves-pure order ledger_id

  Moves-ensure_ledger :
      (tenant_id : Text) → Moves R (ensure_ledger backend config locale fuel tenant_id)
  unfolding ensure_ledger
  Moves-ensure_ledger tenant_id = Moves-bind_reads order _ _ (λ found _ _. ledger tenant_id found)

  Moves-create_missing :
      (scope : Scope) (existing : List Account) (wanted : List SeedAccount)
      → AreSeeding wanted
      → Moves R (create_missing backend config locale fuel scope existing wanted)
  unfolding create_missing
  Moves-create_missing scope existing [] allowed = Moves-pure order tt
  Moves-create_missing scope existing (a ∷ wanted) allowed =
      let rest = Moves-create_missing scope existing wanted allowed.1 in
      Moves-if order _ _ _ rest (Moves-bind order _ _ (writing _ (allowed.0 scope)) (λ _ _ _. rest))

  Moves-seed_funding :
      (listed : List Transaction) → Moves R (seed_funding backend config locale fuel listed)
  unfolding seed_funding
  Moves-seed_funding listed = Moves-if order _ _ _ (Moves-pure order tt) (
      Moves-bind order _ _
        (Moves-fund backend config locale fuel IsSeeding _ _ _ (λ p balanced. balanced))
        (λ _ _ _. Moves-pure order tt))

  pub Moves-perform_seed : Moves R (perform_seed backend config locale fuel)
  unfolding perform_seed
  Moves-perform_seed =
      search
        (
          order, Moves-bind, Moves-bind_reads, Moves-bootstraps, Moves-seed_tenant,
          Moves-ensure_asset, Moves-ensure_ledger, Moves-accounts, Moves-create_missing,
          seed_accounts-AreSeeding, Moves-seed_funding, Moves-get_state,
        )
        depth 20

  seed_after-Via :
      (s : S) (r : Outcome Failure DemoState × S)
      → r.1 ≡ s
      → Via backend IsSeeding s (seed_after backend config locale fuel r).1
        × ((r.0 ≡ raised not_ready)
            ⊎ (seed_after backend config locale fuel r ≡ r)
              × ((seed_after backend config locale fuel r).1 ≡ s))
  seed_after-Via s (done found, t) h = (rw h here, inr (refl, h))
  seed_after-Via s (out_of_fuel, t) h = (rw h here, inr (refl, h))
  seed_after-Via s (raised not_ready, t) h = (rw h (Moves-perform_seed.at s), inl refl)
  seed_after-Via s (raised (input m), t) h = (rw h here, inr (refl, h))
  seed_after-Via s (raised (error m), t) h = (rw h here, inr (refl, h))
  seed_after-Via s (raised (service e), t) h = (rw h here, inr (refl, h))

  after_truncate :
      (s : S) (r : Outcome Failure Text)
      → Via backend IsSeeding s
          (((λ (_ : S). (r, s)) >>= λ _. perform_seed backend config locale fuel) s).1
  unfolding ◌>>=◌
  after_truncate s (done t) = Moves-perform_seed.at s
  after_truncate s (raised e) = here
  after_truncate s out_of_fuel = here

  -- The seed reaches its state by what a seed may write: the dollar, the demo's ledger, accounts of
  -- which only the system's own may be overdrawn, and balanced postings. Unless the demo answers
  -- that it is not ready, the seed writes nothing and has the answer of `getState`.
  pub seed-Via :
      (s : S)
      → Via backend IsSeeding s (seed backend config locale fuel s).1
        × (((get_state backend config locale fuel s).0 ≡ raised not_ready)
            ⊎ (seed backend config locale fuel s ≡ get_state backend config locale fuel s)
              × ((seed backend config locale fuel s).1 ≡ s))
  unfolding seed
  seed-Via s =
      seed_after-Via s (get_state backend config locale fuel s)
        (get_state-same backend config locale fuel s)

  -- A reset leaves the state as it is where there is no key; else it empties the database first,
  -- and from there on only writes what a seed may write.
  pub perform_reset-Via :
      (s : S)
      → (is_empty config.admin_api_key ≡ true)
          × (perform_reset backend config locale fuel s
              ≡ (raised (error (codes "BOOTSTRAP_ADMIN_API_KEY is required for demo reset")), s))
        ⊎ (is_empty config.admin_api_key ≡ false)
          × Via backend IsSeeding
              (backend.write truncate s).1
              (perform_reset backend config locale fuel s).1
  unfolding perform_reset raise ◌>>=◌ writes
  perform_reset-Via s = elim (Bool-cases (is_empty config.admin_api_key)) [
    | inl missing ↦ inl (missing, rw (missing, perform_reset))
    | inr given ↦ inr (
      given,
      rw (given, perform_reset)
          (after_truncate (backend.write truncate s).1 (from_service (backend.write truncate s).0)),
    )
  ]
