-- ===== src/Start/Shutdown/Tests.antt =====
-- A signal, the drain, and the end of the database client.
use lux_ledger_demo.Common.{◌≡◌, refl, false, List, [], ◌∷◌}
use lux_ledger_demo.Start.Shutdown.{
  Event, sigint, closed, ended, timed_out, is_running, run, step, handle, shutdown,
}
use lux_ledger_demo.Start.Shutdown.Orderly.{Finished, exited_0-Finished, timed_out-run}

abbrev drained : List Event
drained = ended ∷ closed ∷ sigint ∷ []

exited_0-Finished_example : Finished drained
unfolding run step handle shutdown
exited_0-Finished_example = exited_0-Finished drained refl

timed_out-run_example : is_running (run (timed_out ∷ closed ∷ sigint ∷ [])).phase ≡ false
unfolding run step handle shutdown
timed_out-run_example = timed_out-run (closed ∷ sigint ∷ []) refl
