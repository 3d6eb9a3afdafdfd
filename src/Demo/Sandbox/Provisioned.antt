-- ===== src/Demo/Sandbox/Provisioned.antt =====
-- What a sandbox has that is complete, and that the provisioning makes all of it.
use lux_ledger_demo.Common.{◌≡◌, sym, ap, true, false, List, [], ◌∷◌, ◌++◌, Text, codes}
use mathlib.Core.Path.{subst}
use lux_ledger_demo.Common.Int.{pos, negate}
use lux_ledger_demo.Common.Outcome.{Outcome, done, pure}
use lux_ledger_demo.Common.Outcome.Rules.{done-split}
use lux_ledger_demo.Auth.Jwt.{JwtAuthConfig}
use lux_ledger_demo.Api.Errors.{Thrown}
use lux_ledger_demo.Demo.Backend.{debit, credit, allow, disallow}
use lux_ledger_demo.Demo.Sandbox.Model.{
  Provision, create_asset, create_ledger, create_account, create_transaction, Host, Profile,
  usd_profile, eur_profile,
}
use lux_ledger_demo.Demo.Sandbox.Sessions.{provision_currency, open_account, provision_all}

-- The requests are answered one after the other, each with the identifier beside it, and nothing
-- is written between.
abbrev pub Ran : {S : Type 0} → Host S → List (Provision × Text) → S → S → Type 0
Ran host [] s t = t ≡ s
Ran {S} host ((p, id) ∷ ps) s t = (u : S) × (host.provision p s ≡ (done id, u)) × Ran host ps u t

Ran-append :
    {S : Type 0} (host : Host S) (ps qs : List (Provision × Text)) (s t u : S)
    → Ran host ps s t
    → Ran host qs t u
    → Ran host (ps ++ qs) s u
Ran-append host [] qs s t u h k = subst (λ x. Ran host qs x u) h k
Ran-append host ((p, id) ∷ ps) qs s t u (v, e, h) k = (v, e, Ran-append host ps qs v t u h k)

-- The identifiers that one currency of the sandbox gets.
pub record MadeIds : Type 0 where
  pub asset : Text
  pub ledger : Text
  pub funding : Text
  pub primary : Text
  pub secondary : Text
  pub fees : Text
  pub credits : Text
  pub usage : Text
  pub opening : Text

-- One currency of the sandbox: the asset, the ledger, an account of this ledger for each of the six
-- roles, of which funding alone may be overdrawn and credits alone takes grants, and the opening
-- posting of the amount to funding, and of as much less to primary.
abbrev pub requested : Text → Profile → MadeIds → List (Provision × Text)
requested tenant_id profile ids =
    (create_asset tenant_id profile.currency 2, ids.asset)
    ∷ (create_ledger tenant_id (profile.currency ++ codes " product ledger"), ids.ledger)
    ∷ (
      create_account (record {
        tenant_id = tenant_id;
        ledger_id = ids.ledger;
        code = codes "DEMO_FUNDING";
        name = profile.funding;
        side = debit;
        overdraft_policy = allow;
        grant_enabled = false;
        currency = profile.currency;
      }),
      ids.funding,
    )
    ∷ (
      create_account (record {
        tenant_id = tenant_id;
        ledger_id = ids.ledger;
        code = codes "DEMO_PRIMARY";
        name = profile.primary;
        side = credit;
        overdraft_policy = disallow;
        grant_enabled = false;
        currency = profile.currency;
      }),
      ids.primary,
    )
    ∷ (
      create_account (record {
        tenant_id = tenant_id;
        ledger_id = ids.ledger;
        code = codes "DEMO_SECONDARY";
        name = profile.secondary;
        side = credit;
        overdraft_policy = disallow;
        grant_enabled = false;
        currency = profile.currency;
      }),
      ids.secondary,
    )
    ∷ (
      create_account (record {
        tenant_id = tenant_id;
        ledger_id = ids.ledger;
        code = codes "DEMO_FEES";
        name = profile.fees;
        side = credit;
        overdraft_policy = disallow;
        grant_enabled = false;
        currency = profile.currency;
      }),
      ids.fees,
    )
    ∷ (
      create_account (record {
        tenant_id = tenant_id;
        ledger_id = ids.ledger;
        code = codes "DEMO_CREDITS";
        name = profile.credits;
        side = credit;
        overdraft_policy = disallow;
        grant_enabled = true;
        currency = profile.currency;
      }),
      ids.credits,
    )
    ∷ (
      create_account (record {
        tenant_id = tenant_id;
        ledger_id = ids.ledger;
        code = codes "DEMO_USAGE";
        name = profile.usage;
        side = credit;
        overdraft_policy = disallow;
        grant_enabled = false;
        currency = profile.currency;
      }),
      ids.usage,
    )
    ∷ (
      create_transaction (record {
        tenant_id = tenant_id;
        ledger_id = ids.ledger;
        reference = codes "sandbox-" ++ (profile.currency ++ codes "-opening");
        currency = profile.currency;
        description = codes "Opening wallet funding";
        payment_id = profile.payment_id;
        entries =
            record {
              account_id = ids.funding;
              signed_amount_minor = pos profile.opening_minor;
              currency = profile.currency;
            }
            ∷ record {
              account_id = ids.primary;
              signed_amount_minor = negate (pos profile.opening_minor);
              currency = profile.currency;
            }
            ∷ [];
      }),
      ids.opening,
    )
    ∷ []

module _ {S : Type 0} (host : Host S) where
  -- All of it was made, in dollars and in euros, and no more.
  abbrev pub IsComplete : Text → S → S → Type 0
  IsComplete tenant_id s t =
      (usd : MadeIds) × (eur : MadeIds) × Ran host
        (requested tenant_id usd_profile usd ++ requested tenant_id eur_profile eur) s t

  last_state :
      {A : Type 0} {a b : A} {s t : S}
      → ◌≡◌ {A = Outcome Thrown A × S} (done a, s) (done b, t)
      → t ≡ s
  last_state e = sym (ap (λ p. p.1) e)

  provision_currency-Ran :
      (jwt : JwtAuthConfig) (tenant_id : Text) (profile : Profile) (s t : S)
      → provision_currency host jwt tenant_id profile s ≡ (done tt, t)
      → (ids : MadeIds) × Ran host (requested tenant_id profile ids) s t
  unfolding provision_currency open_account pure
  provision_currency-Ran jwt tenant_id profile s t h =
      let (asset, s1, e1, h1) = done-split _ _ s h in
      let (ledger, s2, e2, h2) = done-split _ _ s1 h1 in
      let (funding, s3, e3, h3) = done-split _ _ s2 h2 in
      let (primary, s4, e4, h4) = done-split _ _ s3 h3 in
      let (secondary, s5, e5, h5) = done-split _ _ s4 h4 in
      let (fees, s6, e6, h6) = done-split _ _ s5 h5 in
      let (credits, s7, e7, h7) = done-split _ _ s6 h6 in
      let (usage, s8, e8, h8) = done-split _ _ s7 h7 in
      let (opening, s9, e9, h9) = done-split _ _ s8 h8 in
      (
        record {
          asset = asset;
          ledger = ledger;
          funding = funding;
          primary = primary;
          secondary = secondary;
          fees = fees;
          credits = credits;
          usage = usage;
          opening = opening;
        },
        (
          s1,
          e1,
          (
            s2,
            e2,
            (s3, e3, (s4, e4, (s5, e5, (s6, e6, (s7, e7, (s8, e8, (s9, e9, last_state h9))))))),
          ),
        ),
      )

  pub provision_all-IsComplete :
      (jwt : JwtAuthConfig) (tenant_id : Text) (s t : S)
      → provision_all host jwt tenant_id s ≡ (done tt, t)
      → IsComplete tenant_id s t
  unfolding provision_all
  provision_all-IsComplete jwt tenant_id s t h =
      let (_, u, first, rest) = done-split _ _ s h in
      let (usd, made_usd) = provision_currency-Ran jwt tenant_id usd_profile s u first in
      let (eur, made_eur) = provision_currency-Ran jwt tenant_id eur_profile u t rest in
      (
        usd,
        eur,
        Ran-append host (requested tenant_id usd_profile usd) (requested tenant_id eur_profile eur)
            s u t made_usd made_eur,
      )
