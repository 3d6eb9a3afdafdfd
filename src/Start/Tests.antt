-- ===== src/Start/Tests.antt =====
-- The migration of a local database at a concrete history.
use lux_ledger_demo.Config.{ProcessEnv}
use lux_ledger_demo.Start.Migrations.{Answered, answered, child_exit, migrate_local}
use lux_ledger_demo.Start.Migrations.History.{IsMigrated, migrate_local-IsMigrated}
use lux_ledger_demo.Common.{true, none, some, List, [], ◌∷◌, Text, codes}

abbrev local_env : ProcessEnv
local_env name = some (codes "postgres://localhost/luxledger")

abbrev expected : List Text
expected = codes "h1" ∷ codes "h2" ∷ []

abbrev first_applied : Answered
first_applied = answered (record { has_table = true; applied = codes "h1" ∷ [] })

migrate_local-IsMigrated_example :
    IsMigrated expected first_applied none (child_exit (some 0) none) (
      migrate_local local_env expected first_applied none
        (codes "linux")
        (child_exit (some 0) none))
migrate_local-IsMigrated_example =
    migrate_local-IsMigrated local_env expected first_applied none (codes "linux")
      (child_exit (some 0) none)
