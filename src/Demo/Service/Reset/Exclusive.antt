-- ===== src/Demo/Service/Reset/Exclusive.antt =====
-- That resets of one service never run at the same time.
use lux_ledger_demo.Common.{ℕ, ◌+◌, ◌≤◌, ◌<◌, ◌≡◌, ◌⊎◌, none, some, [], ◌∷◌, All, get_elem?}
use lux_ledger_demo.Demo.Service.Reset.{Call, Gate, call, settle, return_owner, return_joined}

-- Calls are made at any time, runs end at any time, and a call goes on once its run has ended.
pub data Step : Gate → Gate → Type 0 where
  calls : (g : Gate) (caller : ℕ) → Step g (call caller g)
  settles : (g : Gate) → Step g (settle g)
  owner_returns :
      (g : Gate) (i : ℕ) (c : Call)
      → get_elem? g.owners i ≡ some c
      → c.run < g.settled
      → Step g (return_owner i c g)
  joined_returns :
      (g : Gate) (i : ℕ) (c : Call)
      → get_elem? g.joined i ≡ some c
      → c.run < g.settled
      → Step g (return_joined i c g)

-- The run of a call has been started.
abbrev IsStarted : ℕ → Call → Type 0
IsStarted started c = c.run < started

-- Either no run is under way and none is remembered, or the last run is the one remembered, one
-- call has started it, and all runs before it have ended.
abbrev pub HasOneRun : Gate → Type 0
HasOneRun g =
    ((g.reset_promise ≡ none) × (g.owners ≡ []) × (g.settled ≡ g.started))
    ⊎ ((last : ℕ) × (owner : Call) × (g.reset_promise ≡ some last)
        × (g.owners ≡ owner ∷ [])
        × (owner.run ≡ last)
        × (g.started ≡ last + 1)
        × (last ≤ g.settled)
        × (g.settled ≤ g.started))

pub record IsExclusive (g : Gate) : Type 0 where
  pub one_run : HasOneRun g
  pub joined_started : All (IsStarted g.started) g.joined
  pub answered_settled : All (IsStarted g.settled) g.answered
