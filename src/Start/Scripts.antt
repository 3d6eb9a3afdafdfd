-- ===== src/Start/Scripts.antt =====
-- The scripts that prepare the demo: apps/api/src/reset-demo.ts, apps/api/src/seed-demo.ts and
-- apps/api/src/bootstrap-admin-key.ts. `world` is the state of the ledger package's database.
pub mod Guarded
use lux_ledger_demo.Common.{
  ℕ, Bool, true, false, ◌==◌, ◌||◌, Option, none, some, List, [], ◌∷◌, ◌++◌, map, Text, text_eq,
  codes, is_empty, trim, if◌then◌else◌,
}
use lux_ledger_demo.Common.Json.{Json, null, bool, str, arr, obj, fields, items}
use lux_ledger_demo.Common.Outcome.{
  Outcome, done, raised, out_of_fuel, Action, pure, raise, reads, ◌>>=◌,
}
use lux_ledger_demo.Config.{ProcessEnv}
use lux_ledger_demo.Demo.Backend.{Backend, Bootstrap}
use lux_ledger_demo.Demo.Input.{Failure, Locale, error}
use lux_ledger_demo.Demo.Service.{Config, from_service}
use lux_ledger_demo.Demo.Service.View.{DemoState, AccountView}
use lux_ledger_demo.Demo.Service.Seed.{seed, perform_reset}

pub data Client : Type 0 where
  not_created open_ ended : Client

pub record Script (S : Type 0) : Type 0 where
  pub client : Client
  pub exit_code : ℕ
  pub logged : List Json
  pub world : S

-- pathname.replace(/^\/+/, '')
unfoldable pub strip_slashes : Text → Text
strip_slashes [] = []
strip_slashes (c ∷ t) = let rest = strip_slashes t in if c == b'/' then rest else c ∷ t

-- env[name] ?? fallback
abbrev pub env_or : ProcessEnv → Text → Text → Text
env_or env name fallback = elim (env name) [ some value ↦ value | none ↦ fallback ]

abbrev pub admin_key : Text
admin_key = codes "BOOTSTRAP_ADMIN_API_KEY"

abbrev pub hosted_database : Text
hosted_database = codes "luxledger_demo_hosted"

-- JSON of { [flag]: true, ledgerId, accounts }
abbrev pub summary : Text → DemoState → Json
summary flag state = obj (
    fields (
      (flag, bool true)
      ∷ (codes "ledgerId", str state.ledger_id)
      ∷ (codes "accounts", arr (items (map (λ (a : AccountView). str a.address) state.accounts)))
      ∷ []))

abbrev pub is_required : Text → Failure
is_required name = error (name ++ codes " is required")

-- `requireEnv`, of the value of the setting
unfoldable pub required : Text → Option Text → Outcome Failure Text
required name none = raised (is_required name)
required name (some value) =
    if is_empty value || is_empty (trim value) then raised (is_required name) else done value

-- value === 'true'
abbrev pub is_true : Option Text → Bool
is_true none = false
is_true (some value) = text_eq value (codes "true")

abbrev pub names_hosted : Option Text → Bool
names_hosted none = false
names_hosted (some path) = text_eq (strip_slashes path) hosted_database

-- `pathname` is that of new URL(text), none where it throws.
module _ (env : ProcessEnv) (pathname : Text → Option Text) where
  unfoldable pub require_env : Text → Outcome Failure Text
  require_env name = required name (env name)

  abbrev pub allows_reset : Bool
  allows_reset = is_true (env (codes "DEMO_ALLOW_RESET"))

  abbrev pub is_hosted : Text → Bool
  is_hosted url = names_hosted (pathname url)

  -- `assertDedicatedDemoDatabase`; a URL that cannot be read is thrown on by new URL.
  unfoldable pub assert_dedicated_demo_database : Outcome Failure (Unit {0})
  assert_dedicated_demo_database =
      if allows_reset
      then elim (require_env (codes "DATABASE_URL")) [
        | raised e ↦ raised e
        | out_of_fuel ↦ out_of_fuel
        | done url ↦
            if is_hosted url
            then done tt
            else raised
                (error (codes "Hosted reset is restricted to the luxledger_demo_hosted database"))
      ]
      else raised (error (codes "DEMO_ALLOW_RESET=true is required"))

  abbrev pub demo_config : Text → Text → Config
  demo_config key default_name = record {
    admin_api_key = key;
    admin_key_name = env_or env (codes "BOOTSTRAP_ADMIN_KEY_NAME") default_name;
    tenant_name = env_or env (codes "BOOTSTRAP_TENANT_NAME") (codes "Demo tenant");
    reset_enabled = false;
  }

-- `end_ok` tells whether sql.end succeeds.
module _ {S : Type 0} (end_ok : Bool) where
  -- createDbClient
  unfoldable pub create_client : Script S → Script S
  create_client s = record s { client = open_ }

  -- The finally of the reset and of the seed: a failure of sql.end sets the exit code.
  abbrev pub close : Script S → Script S
  close s = if end_ok then record s { client = ended } else record s { exit_code = 1 }

  unfoldable pub closing :
      Action (Script S) Failure (Unit {0}) → Action (Script S) Failure (Unit {0})
  closing m s = let (r, t) = m s in (r, close t)

unfoldable pub on_world : {S A : Type 0} → Action S Failure A → Action (Script S) Failure A
on_world m s = let (r, w) = m s.world in (r, record s { world = w })

unfoldable pub logs : {S : Type 0} → Json → Action (Script S) Failure (Unit {0})
logs line s = (done tt, record s { logged = line ∷ s.logged })

-- What the scripts run once the client is there, for a key that is set.
unfoldable pub report :
    {S : Type 0} → Text → Action S Failure DemoState → Action (Script S) Failure (Unit {0})
report flag work = do state ← on_world work; logs (summary flag state)

module _ {S : Type 0} (backend : Backend S) (locale : Locale) (fuel : ℕ) (env : ProcessEnv)
    (pathname : Text → Option Text) (end_ok : Bool) where
  -- The key is read after the client is made and outside the try.
  unfoldable pub run_reset_with : Outcome Failure Text → Action (Script S) Failure (Unit {0})
  run_reset_with (raised e) s = (raised e, s)
  run_reset_with out_of_fuel s = (out_of_fuel, s)
  run_reset_with (done key) s =
      closing end_ok
        (report (codes "reset") (
          perform_reset backend (demo_config env pathname key (codes "Hosted demo admin")) locale
            fuel))
        s

  abbrev pub run_reset_after : Outcome Failure (Unit {0}) → Action (Script S) Failure (Unit {0})
  run_reset_after (raised e) s = (raised e, s)
  run_reset_after out_of_fuel s = (out_of_fuel, s)
  run_reset_after (done _) s =
      run_reset_with (require_env env pathname admin_key) (create_client end_ok s)

  -- `run` of apps/api/src/reset-demo.ts
  unfoldable pub run_reset : Action (Script S) Failure (Unit {0})
  run_reset = run_reset_after (assert_dedicated_demo_database env pathname)

  abbrev pub run_seed_with : Outcome Failure Text → Action (Script S) Failure (Unit {0})
  run_seed_with (raised e) s = (raised e, s)
  run_seed_with out_of_fuel s = (out_of_fuel, s)
  run_seed_with (done key) s =
      closing end_ok
        (report (codes "seeded")
          (seed backend (demo_config env pathname key (codes "Initial admin key")) locale fuel))
        s

  -- `run` of apps/api/src/seed-demo.ts
  unfoldable pub run_seed : Action (Script S) Failure (Unit {0})
  run_seed s = run_seed_with (require_env env pathname admin_key) (create_client end_ok s)

  -- A string, or undefined, which JSON.stringify leaves out; here it is null.
  abbrev or_null : Option Text → Json
  or_null none = null
  or_null (some t) = str t

  abbrev bootstrap_line : Bootstrap → Json
  bootstrap_line result =
      if result.created
      then obj (
          fields (
            (codes "created", bool true)
            ∷ (codes "tenantId", or_null result.tenant_id)
            ∷ (codes "apiKeyId", or_null result.api_key_id)
            ∷ []))
      else str (codes "Bootstrap skipped: api_keys already contains records")

  -- The try of the bootstrap, in the order in which the settings are read.
  unfoldable pub bootstrap_admin : Action (Script S) Failure (Unit {0})
  bootstrap_admin = do
    tenant_name ← reads (λ _. require_env env pathname (codes "BOOTSTRAP_TENANT_NAME"))
    key ← reads (λ _. require_env env pathname admin_key)
    let key_name : Text = env_or env (codes "BOOTSTRAP_ADMIN_KEY_NAME") (codes "Initial admin key")
    result ←
        on_world
          (λ s. let (r, t) = backend.bootstrap tenant_name key_name key s in (from_service r, t))
    logs (bootstrap_line result)

  -- A failure of sql.end is thrown in place of what came before.
  unfoldable pub run_bootstrap : Action (Script S) Failure (Unit {0})
  run_bootstrap s =
      let (r, t) = bootstrap_admin (create_client end_ok s) in
      if end_ok then (r, record t { client = ended }) else (raised (error (codes "sql.end")), t)
