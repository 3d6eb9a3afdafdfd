-- ===== src/Demo/Service/Reset.antt =====
-- `reset` of DemoService, which its callers share while it runs. The runs of `performReset` are
-- numbered; a call that waits is an entry of `owners`, which started its run, or of `joined`.
pub mod Exclusive
use lux_ledger_demo.Common.{
  ℕ, ◌+◌, ltb, Option, none, some, List, [], ◌∷◌, ◌++◌, take, drop, if◌then◌else◌,
}

pub record Call : Type 0 where
  pub caller : ℕ
  pub run : ℕ

-- `reset_promise` stands for the promise of a run; `settled` counts the runs that have ended.
pub record Gate : Type 0 where
  pub reset_promise : Option ℕ
  pub started : ℕ
  pub settled : ℕ
  pub owners : List Call
  pub joined : List Call
  pub answered : List Call

abbrev pub idle : Gate
idle = record {
  reset_promise = none;
  started = 0;
  settled = 0;
  owners = [];
  joined = [];
  answered = [];
}

-- `reset` until it waits.
unfoldable pub call : ℕ → Gate → Gate
call caller g = elim g.reset_promise [
  | some run ↦ record g { joined = record { caller = caller; run = run } ∷ g.joined }
  | none ↦ record g {
    reset_promise = some g.started;
    started = g.started + 1;
    owners = record { caller = caller; run = g.started } ∷ g.owners;
  }
]

-- A run that is under way ends, by a result or by an error.
unfoldable pub settle : Gate → Gate
settle g = if ltb g.settled g.started then record g { settled = g.settled + 1 } else g

abbrev pub without : ℕ → List Call → List Call
without i calls = take i calls ++ drop (i + 1) calls

-- The rest of the call that started a run: the finally, and the answer.
unfoldable pub return_owner : ℕ → Call → Gate → Gate
return_owner i c g = record g {
  reset_promise = none;
  owners = without i g.owners;
  answered = c ∷ g.answered;
}

-- The rest of a call that found a run under way.
unfoldable pub return_joined : ℕ → Call → Gate → Gate
return_joined i c g = record g { joined = without i g.joined; answered = c ∷ g.answered }
