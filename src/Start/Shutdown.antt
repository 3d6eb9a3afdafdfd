-- ===== src/Start/Shutdown.antt =====
-- The orderly shutdown of apps/api/src/index.ts, as steps of the process. What the process waits
-- for (the drain of the server, the end of the database client, the timer) is an event.
pub mod Orderly
mod Tests
use lux_ledger_demo.Common.{Bool, true, false, List, [], ◌∷◌, if◌then◌else◌}

-- What the process does: it serves, waits in server.close() or in sql.end(), or has ended by
-- process.exit(0), by process.exit(1), or by a signal that nothing listens for.
pub data Phase : Type 0 where
  serving closing ending exited_0 exited_1 killed : Phase

pub record Process : Type 0 where
  pub is_shutting_down : Bool
  pub hard_stop_timer : Bool
  pub on_sigint : Bool
  pub on_sigterm : Bool
  pub phase : Phase

pub data Event : Type 0 where
  sigint sigterm closed close_failed ended end_failed timed_out : Event

-- After `process.once`, for both signals.
abbrev pub started : Process
started = record {
  is_shutting_down = false;
  hard_stop_timer = false;
  on_sigint = true;
  on_sigterm = true;
  phase = serving;
}

unfoldable pub shutdown : Process → Process
shutdown p =
    if p.is_shutting_down
    then p
    else record p { is_shutting_down = true; hard_stop_timer = true; phase = closing }

-- process.exit, with the timer cleared before it.
abbrev exit : Phase → Process → Process
exit phase p = record p { hard_stop_timer = false; phase = phase }

abbrev pub is_running : Phase → Bool
is_running serving = true
is_running closing = true
is_running ending = true
is_running _ = false

abbrev while_closing : Process → Process → Process
while_closing p next = elim p.phase [ closing ↦ next | _ ↦ p ]

abbrev while_ending : Process → Process → Process
while_ending p next = elim p.phase [ ending ↦ next | _ ↦ p ]

-- An event while the process runs; an event that nothing waits for changes nothing. A signal
-- whose listener has been called before ends the process, as Node's default is.
unfoldable pub handle : Process → Event → Process
handle p sigint =
    if p.on_sigint then shutdown (record p { on_sigint = false }) else record p { phase = killed }
handle p sigterm =
    if p.on_sigterm then shutdown (record p { on_sigterm = false }) else record p { phase = killed }
handle p closed = while_closing p (record p { phase = ending })
handle p close_failed = while_closing p (exit exited_1 p)
handle p ended = while_ending p (exit exited_0 p)
handle p end_failed = while_ending p (exit exited_1 p)
handle p timed_out = if p.hard_stop_timer then record p { phase = exited_1 } else p

unfoldable pub step : Process → Event → Process
step p e = if is_running p.phase then handle p e else p

-- The process after a history of events, the newest first.
unfoldable pub run : List Event → Process
run [] = started
run (e ∷ es) = step (run es) e
