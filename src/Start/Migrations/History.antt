-- ===== src/Start/Migrations/History.antt =====
-- When a local database is migrated.
use lux_ledger_demo.Common.{
  ℕ, suc, leb, ◌==◌, ◌≡◌, refl, ap, sym, ◌∙◌, ◌↔◌, ◌⊎◌, inl, inr, Bool, true, false, ◌&&◌, Option,
  none, some, List, [], ◌∷◌, ◌++◌, length, length-append, Text, text_eq, text_eq_iff, text_eq_refl,
  codes, Bool-cases, Option-cases, le→leb, ==_iff, arith,
}
use lux_ledger_demo.Config.{ProcessEnv}
use lux_ledger_demo.Start.Migrations.{
  is_at, every_at, migration_history_matches, MigrationError, no_database_url, Ending, child_exit,
  Database, Answered, answered, database_error, child_error, Progress, check_history, check_ending,
  is_set, after_end, connection_ended, migrate_local,
}

-- `applied` is where `expected` begins.
abbrev pub IsPrefix : List Text → List Text → Type 0
IsPrefix applied expected = (rest : List Text) × (expected ≡ applied ++ rest)

-- Later items are compared as the items of the tail.
every_at-shift :
    (h : Text) (expected applied : List Text) (i : ℕ)
    → every_at (h ∷ expected) (suc i) applied ≡ every_at expected i applied
unfolding every_at
every_at-shift h expected [] i = refl
every_at-shift h expected (a ∷ applied) i =
    ap (λ (b : Bool). is_at expected i a && b) (every_at-shift h expected applied (suc i))

and_parts : (a b : Bool) → a && b ≡ true → (a ≡ true) × (b ≡ true)
and_parts true b h = (refl, h)
and_parts false b h = absurd cc

every_at-IsPrefix :
    (applied expected : List Text) → every_at expected 0 applied ≡ true → IsPrefix applied expected
unfolding every_at
every_at-IsPrefix [] expected h = (expected, refl)
every_at-IsPrefix (a ∷ applied) [] h = absurd cc
every_at-IsPrefix (a ∷ applied) (e ∷ expected) h =
    let (same, later) = and_parts (text_eq a e) _ h in
    let (rest, split) =
      every_at-IsPrefix applied expected (sym (every_at-shift e expected applied 0) ∙ later) in
    (rest, rw ((text_eq_iff a e).0 same, split) refl)

prefix_matches : (applied rest : List Text) → every_at (applied ++ rest) 0 applied ≡ true
unfolding every_at
prefix_matches [] rest = refl
prefix_matches (a ∷ applied) rest =
    rw (text_eq_refl a) (every_at-shift a (applied ++ rest) applied 0 ∙ prefix_matches applied rest)

-- A history matches exactly if it is the beginning of what is expected.
migration_history_matches_iff :
    (applied expected : List Text)
    → (migration_history_matches applied expected ≡ true) ↔ IsPrefix applied expected
unfolding migration_history_matches
migration_history_matches_iff applied expected = (
  λ h.
      every_at-IsPrefix applied expected (and_parts (leb (length applied) (length expected)) _ h).1,
  λ (rest, split).
      rw
        (
          split,
          le→leb (length applied) (length (applied ++ rest))
              (omega (arith, length-append applied rest)),
          prefix_matches applied rest,
        )
        refl,
)

-- The history that the database holds is absent, or the beginning of the expected one.
abbrev pub IsCompatible : List Text → Answered → Type 0
IsCompatible expected o =
    (database : Database) × (o ≡ answered database)
    × ((database.has_table ≡ false) ⊎ IsPrefix database.applied expected)

check_history-IsCompatible :
    (expected : List Text) (o : Answered)
    → check_history expected o ≡ none
    → IsCompatible expected o
unfolding check_history
check_history-IsCompatible expected (database_error m) h = absurd cc
check_history-IsCompatible expected (answered database) h = elim (Bool-cases database.has_table) [
  | inr fresh ↦ (database, refl, inl fresh)
  | inl there ↦ elim (Bool-cases (migration_history_matches database.applied expected)) [
    | inl fits ↦
        (database, refl, inr ((migration_history_matches_iff database.applied expected).0 fits))
    | inr differs ↦ absurd (ground arith)
  ]
]

-- How the script may end: with an error before the migration, or after the migration, with its own
-- result.
abbrev pub IsMigrated :
    List Text → Answered → Option Text → Ending → Option MigrationError × Progress → Type 0
IsMigrated expected o sql_end ending r =
    ((e : MigrationError) × (r.0 ≡ some e) × (r.1.spawned ≡ none))
    ⊎ (IsCompatible expected o
        × (sql_end ≡ none)
        × (r.1.ended ≡ true)
        × (r.0 ≡ check_ending ending)
        × ((r.0 ≡ none) ↔ (ending ≡ child_exit (some 0) none)))

check_ending_zero :
    (ending : Ending) → check_ending ending ≡ none → ending ≡ child_exit (some 0) none
unfolding check_ending
check_ending_zero (child_error m) h = absurd cc
check_ending_zero (child_exit code (some signal)) h = absurd cc
check_ending_zero (child_exit none none) h = absurd cc
check_ending_zero (child_exit (some code) none) h = elim (Bool-cases (code == 0)) [
  | inl zero_code ↦ rw ((==_iff code 0).0 zero_code) refl
  | inr other ↦ absurd (ground arith)
]

check_ending_iff :
    (ending : Ending) → (check_ending ending ≡ none) ↔ (ending ≡ child_exit (some 0) none)
unfolding check_ending
check_ending_iff ending = (check_ending_zero ending, λ e. rw e refl)

after_end-none :
    (sql_end : Option Text) (checked : Option MigrationError)
    → after_end sql_end checked ≡ none
    → (sql_end ≡ none) × (checked ≡ none)
after_end-none none checked h = (refl, h)
after_end-none (some m) checked h = absurd cc

-- The migration is run only on a database whose history is absent or begins the expected one, and
-- after the end of the connection; the script ends well only after a run that exits with 0.
pub migrate_local-IsMigrated :
    (env : ProcessEnv) (expected : List Text) (o : Answered) (sql_end : Option Text)
    (platform : Text) (ending : Ending)
    → IsMigrated expected o sql_end ending (migrate_local env expected o sql_end platform ending)
unfolding migrate_local
migrate_local-IsMigrated env expected o sql_end platform ending =
    elim (Bool-cases (is_set (env (codes "DATABASE_URL")))) [
      | inr unset ↦ rw unset (inl (no_database_url, refl, refl))
      | inl set ↦ elim (Option-cases (after_end sql_end (check_history expected o))) [
        | inr (e, bad) ↦ rw (set, bad) (inl (e, refl, refl))
        | inl fits ↦
            (let (closed, compatible) = after_end-none sql_end (check_history expected o) fits in
              rw (set, fits)
                (inr (
                  check_history-IsCompatible expected o compatible,
                  closed,
                  ap connection_ended closed,
                  refl,
                  check_ending_iff ending,
                )))
      ]
    ]
