-- ===== src/Start/Migrations.antt =====
-- The migration of a local database: scripts/migration-history.mjs and scripts/migrate-local.mjs.
pub mod History
use lux_ledger_demo.Common.{
  ℕ, zero, suc, ◌+◌, leb, ◌==◌, Bool, true, false, not, ◌&&◌, Option, none, some, List, [], ◌∷◌,
  length, get_elem?, Text, text_eq, codes, is_empty, if◌then◌else◌,
}
use lux_ledger_demo.Config.{ProcessEnv}

-- hash === expectedHashes[index]
abbrev pub is_at : List Text → ℕ → Text → Bool
is_at expected index hash = elim (get_elem? expected index) [
  | none ↦ false
  | some h ↦ text_eq hash h
]

-- appliedHashes.every, from an index on
unfoldable pub every_at : List Text → ℕ → List Text → Bool
every_at expected index [] = true
every_at expected index (hash ∷ applied) =
    is_at expected index hash && every_at expected (suc index) applied

unfoldable pub migration_history_matches : List Text → List Text → Bool
migration_history_matches applied expected =
    leb (length applied) (length expected) && every_at expected 0 applied

unfoldable pub npm_executable : Text → Text
npm_executable platform = if text_eq platform (codes "win32") then codes "npm.cmd" else codes "npm"

-- What the script throws: an Error of its own, or what the database or the process threw.
pub data MigrationError : Type 0 where
  no_database_url incompatible_history : MigrationError
  database_failed : Text → MigrationError
  spawn_failed : Text → MigrationError
  terminated : Text → MigrationError
  exited_with : ℕ → MigrationError

-- How the child process ends: the event error, or exit with a code or a signal.
pub data Ending : Type 0 where
  child_error : Text → Ending
  child_exit : Option ℕ → Option Text → Ending

-- What the database answers: whether there is a table of migrations, and the hashes it holds.
pub record Database : Type 0 where
  pub has_table : Bool
  pub applied : List Text

pub data Answered : Type 0 where
  database_error : Text → Answered
  answered : Database → Answered

-- How far the script has come.
pub record Progress : Type 0 where
  pub connected : Bool
  pub ended : Bool
  pub spawned : Option Text

abbrev pub nothing_done : Progress
nothing_done = record { connected = false; ended = false; spawned = none }

-- The try: none, where the history fits.
unfoldable pub check_history : List Text → Answered → Option MigrationError
check_history expected (database_error message) = some (database_failed message)
check_history expected (answered database) =
    if database.has_table
    then (if migration_history_matches database.applied expected
        then none
        else some incompatible_history)
    else none

-- code ?? 1, and the test of the exit code; none, where the script ends well.
unfoldable pub check_ending : Ending → Option MigrationError
check_ending (child_error message) = some (spawn_failed message)
check_ending (child_exit code (some signal)) = some (terminated signal)
check_ending (child_exit none none) = some (exited_with 1)
check_ending (child_exit (some code) none) = if code == 0 then none else some (exited_with code)

-- databaseUrl !== undefined && databaseUrl.length > 0
abbrev pub is_set : Option Text → Bool
is_set none = false
is_set (some url) = not (is_empty url)

-- The finally: what sql.end throws replaces what came before.
abbrev pub after_end : Option Text → Option MigrationError → Option MigrationError
after_end (some message) checked = some (database_failed message)
after_end none checked = checked

abbrev pub connection_ended : Option Text → Bool
connection_ended none = true
connection_ended (some message) = false

-- The script. `expected` are the hashes of the files that the journal names, in its order;
-- `sql_end` is what sql.end throws, if it does.
unfoldable pub migrate_local :
    ProcessEnv
    → List Text
    → Answered
    → Option Text
    → Text
    → Ending
    → Option MigrationError × Progress
migrate_local env expected database sql_end platform ending =
    if is_set (env (codes "DATABASE_URL"))
    then (let progress : Progress = record {
      connected = true;
      ended = connection_ended sql_end;
      spawned = none;
    } in
        elim (after_end sql_end (check_history expected database)) [
          | some e ↦ (some e, progress)
          | none ↦
              (check_ending ending, record progress { spawned = some (npm_executable platform) })
        ])
    else (some no_database_url, nothing_done)
