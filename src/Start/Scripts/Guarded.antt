-- ===== src/Start/Scripts/Guarded.antt =====
-- What a hosted reset needs before it touches the database.
use lux_ledger_demo.Common.{
  ℕ, ◌≡◌, refl, ap, ◌⊎◌, inl, inr, Bool, true, false, Option, none, some, Text, codes, text_eq_iff,
  is_empty, trim, Bool-cases,
}
use lux_ledger_demo.Common.Outcome.{Outcome, done, raised, out_of_fuel, Action, ◌>>=◌}
use lux_ledger_demo.Config.{ProcessEnv}
use lux_ledger_demo.Demo.Backend.{Backend, truncate}
use lux_ledger_demo.Demo.Contract.{Via, IsSeeding}
use lux_ledger_demo.Demo.Input.{Failure, Locale}
use lux_ledger_demo.Demo.Service.View.{DemoState}
use lux_ledger_demo.Demo.Service.Seed.{perform_reset}
use lux_ledger_demo.Demo.Service.Seed.Writes.{perform_reset-Via}
use lux_ledger_demo.Start.Scripts.{
  ended, Script, strip_slashes, admin_key, hosted_database, require_env, required, is_required,
  is_true, names_hosted, allows_reset, is_hosted, assert_dedicated_demo_database, demo_config,
  create_client, close, closing, on_world, logs, report, summary, run_reset, run_reset_with,
}

is_true-text : (o : Option Text) → is_true o ≡ true → o ≡ some (codes "true")
is_true-text none h = absurd cc
is_true-text (some value) h = ap some ((text_eq_iff value (codes "true")).0 h)

names_hosted-path :
    (o : Option Text)
    → names_hosted o ≡ true
    → (path : Text) × (o ≡ some path) × (strip_slashes path ≡ hosted_database)
names_hosted-path none h = absurd cc
names_hosted-path (some path) h =
    (path, refl, (text_eq_iff (strip_slashes path) hosted_database).0 h)

-- A setting that is required is there and not blank, or its absence is thrown.
required-cases :
    (name : Text) (o : Option Text)
    → ((value : Text) × (required name o ≡ done value)
        × (o ≡ some value)
        × (is_empty value ≡ false)
        × (is_empty (trim value) ≡ false))
      ⊎ (required name o ≡ raised (is_required name))
unfolding required
required-cases name none = inr refl
required-cases name (some value) = elim (Bool-cases (is_empty value)) [
  | inl empty ↦ inr (rw empty refl)
  | inr some_text ↦ elim (Bool-cases (is_empty (trim value))) [
    | inl blank ↦ inr (rw (some_text, blank) refl)
    | inr there ↦ inl (value, rw (some_text, there) refl, refl, some_text, there)
  ]
]

module _ (env : ProcessEnv) (pathname : Text → Option Text) where
  -- The reset is allowed in so many words, for the hosted demo's database alone, and with a key.
  pub record IsAllowed : Type 0 where
    pub allowed : env (codes "DEMO_ALLOW_RESET") ≡ some (codes "true")
    pub hosted :
        (url : Text) × (path : Text) × (env (codes "DATABASE_URL") ≡ some url)
        × (pathname url ≡ some path)
        × (strip_slashes path ≡ hosted_database)
    pub keyed : (key : Text) × (env admin_key ≡ some key) × (is_empty (trim key) ≡ false)

module _ {S : Type 0} (end_ok : Bool) where
  close-world : (s : Script S) → (close end_ok s).world ≡ s.world
  close-world s = elim (Bool-cases end_ok) [
    | inl ended_well ↦ rw (ended_well, close) refl
    | inr failed ↦ rw (failed, close) refl
  ]

  close-client :
      (s : Script S) → ((close end_ok s).client ≡ ended) ⊎ ((close end_ok s).exit_code ≡ 1)
  close-client s = elim (Bool-cases end_ok) [
    | inl ended_well ↦ inl (rw (ended_well, close) refl)
    | inr failed ↦ inr (rw (failed, close) refl)
  ]

report_rest :
    {S : Type 0} (flag : Text) (r : Outcome Failure DemoState) (w : S) (s : Script S)
    → (((λ (_ : Script S). (r, record s { world = w })) >>= λ state. logs (summary flag state))
        s).1.world
      ≡ w
unfolding ◌>>=◌ logs
report_rest flag (done state) w s = refl
report_rest flag (raised e) w s = refl
report_rest flag out_of_fuel w s = refl

report-world :
    {S : Type 0} (flag : Text) (work : Action S Failure DemoState) (s : Script S)
    → (report flag work s).1.world ≡ (work s.world).1
unfolding report on_world ◌>>=◌
report-world flag work s = report_rest flag (work s.world).0 (work s.world).1 s

module _ {S : Type 0} (backend : Backend S) (locale : Locale) (fuel : ℕ) (env : ProcessEnv)
    (pathname : Text → Option Text) (end_ok : Bool) where
  -- Either nothing is written and the script fails, or it is allowed, the database is emptied and
  -- filled by what a seed may write, and the client is ended or the exit code says that it is not.
  abbrev pub IsGuarded : Script S → Outcome Failure (Unit {0}) × Script S → Type 0
  IsGuarded s r =
      ((r.1.world ≡ s.world) × (e : Failure) × (r.0 ≡ raised e))
      ⊎ (IsAllowed env pathname
          × Via backend IsSeeding (backend.write truncate s.world).1 r.1.world
          × ((r.1.client ≡ ended) ⊎ (r.1.exit_code ≡ 1)))

  emptied :
      (key : Text) (w : S)
      → is_empty key ≡ false
      → Via backend IsSeeding
          (backend.write truncate w).1
          (perform_reset backend
            (demo_config env pathname key (codes "Hosted demo admin"))
            locale
            fuel
            w).1
  emptied key w given =
      elim (perform_reset-Via backend (demo_config env pathname key (codes "Hosted demo admin"))
        locale fuel w) [ inl (missing, _) ↦ absurd cc | inr (_, via) ↦ via ]

  keyed-IsGuarded :
      (s : Script S) (key : Text)
      → IsAllowed env pathname
      → is_empty key ≡ false
      → IsGuarded s (
          run_reset_with backend locale fuel env pathname end_ok
            (done key)
            (create_client end_ok s))
  unfolding run_reset_with closing create_client
  keyed-IsGuarded s key allowed given = inr (
    allowed,
    rw (close-world end_ok _, report-world (codes "reset") _ _) (emptied key s.world given),
    close-client end_ok _,
  )

  allowed-IsGuarded :
      (s : Script S) (url : Text)
      → env (codes "DEMO_ALLOW_RESET") ≡ some (codes "true")
      → env (codes "DATABASE_URL") ≡ some url
      → is_hosted env pathname url ≡ true
      → IsGuarded s (
          run_reset_with backend locale fuel env pathname end_ok
            (required admin_key (env admin_key))
            (create_client end_ok s))
  unfolding run_reset_with create_client
  allowed-IsGuarded s url allowed given hosted = elim (required-cases admin_key (env admin_key)) [
    | inr missing ↦ rw missing (inl (refl, _, refl))
    | inl (key, read, set, some_text, there) ↦
        (let (path, resolved, named) = names_hosted-path (pathname url) hosted in
          rw read (
            keyed-IsGuarded s key
              (record {
                allowed = allowed;
                hosted = (url, path, given, resolved, named);
                keyed = (key, set, there);
              })
              some_text))
  ]

  -- A hosted reset writes nothing unless it is allowed by DEMO_ALLOW_RESET=true, the database is the
  -- hosted demo's and the key is set; then it empties the database and only seeds it, and the client
  -- is ended or the exit code tells that it is not.
  pub run_reset-IsGuarded :
      (s : Script S) → IsGuarded s (run_reset backend locale fuel env pathname end_ok s)
  unfolding run_reset assert_dedicated_demo_database require_env
  run_reset-IsGuarded s = elim (Bool-cases (allows_reset env pathname)) [
    | inr forbidden ↦ rw forbidden (inl (refl, _, refl))
    | inl allowed ↦ elim (required-cases (codes "DATABASE_URL") (env (codes "DATABASE_URL"))) [
      | inr missing ↦ rw (allowed, missing) (inl (refl, _, refl))
      | inl (url, read, given, _, _) ↦ elim (Bool-cases (is_hosted env pathname url)) [
        | inr other ↦ rw (allowed, read, other) (inl (refl, _, refl))
        | inl hosted ↦
            rw (allowed, read, hosted)
              (allowed-IsGuarded s url (is_true-text _ allowed) given hosted)
      ]
    ]
  ]
