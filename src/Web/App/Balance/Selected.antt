-- ===== src/Web/App/Balance/Selected.antt =====
-- That the balance on the page is the selected account's.
use lux_ledger_demo.Common.{
  ℕ, ◌+◌, ◌==◌, ◌≡◌, refl, ◌⊎◌, inl, inr, Bool, true, false, ◌||◌, Option, none, some, List, ◌∷◌,
  any, All, All-get, All-weaken, get_elem?, Text, Bool-cases, ==_iff, if◌then◌else◌,
}
use lux_ledger_demo.Common.Steps.{Star, Star-keeps}
use lux_ledger_demo.Web.App.Balance.{
  Balance, Choice, BalanceReading, Strip, is_shown, is_aborted, abort_current, run_cleanup,
  start_reading, read_balance, balance_read, balance_failed, choose_balance, clear_balance,
  abort_balance, no_balance,
}

-- The n-th balance that the API tells of an account. A reading is answered, or fails, at any
-- time and in any order; one whose signal is aborted is not answered.
module _ (answer : Text → ℕ → Balance) where
  pub data Step : Strip → Strip → Type 0 where
    chooses : (s : Strip) (c : Choice) → Step s (choose_balance c s)
    settles : (s : Strip) → Step s (read_balance s)
    answers :
        (s : Strip) (i : ℕ) (q : BalanceReading) (n : ℕ)
        → get_elem? s.readings i ≡ some q
        → is_aborted s q.controller ≡ false
        → Step s (balance_read (answer q.account n) s)
    fails :
        (s : Strip) (i : ℕ) (q : BalanceReading) (message : Text)
        → get_elem? s.readings i ≡ some q
        → Step s (balance_failed q message s)
    clears : (s : Strip) → Step s (clear_balance s)
    aborts : (s : Strip) → Step s (abort_balance s)

-- The balance is that of the selected account, which the page shows for the ledger and the
-- tenant that it is in.
abbrev pub IsSelected : Choice → Balance → Type 0
IsSelected c b = (b.account_id ≡ c.selected_account) × (is_shown c ≡ true)

-- No balance is on the page, or the selected account's.
abbrev pub ShowsSelected : Strip → Type 0
ShowsSelected s =
    (s.balance ≡ none) ⊎ ((b : Balance) × (s.balance ≡ some b) × IsSelected s.choice b)

-- Of a reading: it is aborted, or the last run's, which has read for what is chosen.
abbrev IsLive : Bool → Option ℕ → List ℕ → Choice → BalanceReading → Type 0
IsLive stale cleanup aborted c q =
    (any (λ m. m == q.controller) aborted ≡ true)
    ⊎ ((cleanup ≡ some q.controller)
        × ((stale ≡ true) ⊎ ((q.account ≡ c.selected_account) × (is_shown c ≡ true))))

record IsCurrent (s : Strip) : Type 0 where
  live : All (IsLive s.stale s.cleanup s.aborted s.choice) s.readings
  shown : (s.stale ≡ true) ⊎ ShowsSelected s

or_right : (a b : Bool) → b ≡ true → a || b ≡ true
or_right true b h = refl
or_right false b h = h

aborted_self : (n : ℕ) (ns : List ℕ) → any (λ m. m == n) (n ∷ ns) ≡ true
aborted_self n ns = rw ((==_iff n n).1 refl) refl

-- Aborting one more leaves what is known of a reading.
abort-IsLive :
    (n : ℕ) (stale : Bool) (cleanup : Option ℕ) (aborted : List ℕ) (c : Choice) (q : BalanceReading)
    → IsLive stale cleanup aborted c q
    → IsLive stale cleanup (n ∷ aborted) c q
abort-IsLive n stale cleanup aborted c q (inl h) = inl (or_right (n == q.controller) _ h)
abort-IsLive n stale cleanup aborted c q (inr h) = inr h

stale-IsLive :
    (stale : Bool) (cleanup : Option ℕ) (aborted : List ℕ) (c d : Choice) (q : BalanceReading)
    → IsLive stale cleanup aborted c q
    → IsLive true cleanup aborted d q
stale-IsLive stale cleanup aborted c d q (inl h) = inl h
stale-IsLive stale cleanup aborted c d q (inr h) = inr (h.0, inl refl)

-- After the cleanup of the last run every reading is aborted.
abbrev IsOver : List ℕ → BalanceReading → Type 0
IsOver aborted q = any (λ m. m == q.controller) aborted ≡ true

cleaned_one :
    (n : ℕ) (s : Strip) (q : BalanceReading)
    → IsLive s.stale (some n) s.aborted s.choice q
    → IsOver (n ∷ s.aborted) q
cleaned_one n s q (inl h) = or_right (n == q.controller) _ h
cleaned_one n s q (inr h) =
    let e : n ≡ q.controller = cc in rw e (aborted_self q.controller s.aborted)

nothing_to_clean :
    (s : Strip) (q : BalanceReading) → IsLive s.stale none s.aborted s.choice q → IsOver s.aborted q
nothing_to_clean s q (inl h) = h
nothing_to_clean s q (inr h) = let e = h.0 in absurd cc

run_cleanup-IsOver :
    (d : Option ℕ) (s : Strip)
    → All (IsLive s.stale d s.aborted s.choice) s.readings
    → All (IsOver (run_cleanup d s).aborted) (run_cleanup d s).readings
run_cleanup-IsOver none s h = All-weaken (nothing_to_clean s) s.readings h
run_cleanup-IsOver (some n) s h = All-weaken (cleaned_one n s) s.readings h

over-IsLive :
    (stale : Bool) (cleanup : Option ℕ) (aborted : List ℕ) (c : Choice) (q : BalanceReading)
    → IsOver aborted q
    → IsLive stale cleanup aborted c q
over-IsLive stale cleanup aborted c q h = inl h

-- The effect, from a state in which every reading is aborted.
started-IsCurrent :
    (t : Strip)
    → t.balance ≡ none
    → All (IsOver t.aborted) t.readings
    → IsCurrent (if is_shown t.choice then start_reading t else record t { cleanup = none })
started-IsCurrent t e h = elim (Bool-cases (is_shown t.choice)) [
  | inl there ↦ rw there (record {
    live = (
      inr (refl, inr (refl, there)),
      All-weaken (over-IsLive t.stale (some (t.controllers + 1)) t.aborted t.choice) t.readings h,
    );
    shown = inr (inl e);
  })
  | inr gone ↦ rw gone (record {
    live = All-weaken (over-IsLive t.stale none t.aborted t.choice) t.readings h;
    shown = inr (inl e);
  })
]

read_balance-IsCurrent : (s : Strip) → IsCurrent s → IsCurrent (read_balance s)
unfolding read_balance
read_balance-IsCurrent s h =
    started-IsCurrent (record (run_cleanup s.cleanup s) { stale = false; balance = none }) refl
      (run_cleanup-IsOver s.cleanup s h.live)

failed-IsCurrent :
    (q : BalanceReading) (m : Text) (s : Strip) → IsCurrent s → IsCurrent (balance_failed q m s)
unfolding balance_failed
failed-IsCurrent q m s h = elim (Bool-cases (is_aborted s q.controller)) [
  | inl late ↦ rw late h
  | inr now ↦ rw now (record { live = h.live; shown = h.shown })
]

abort_current-IsCurrent : (d : Option ℕ) (s : Strip) → IsCurrent s → IsCurrent (abort_current d s)
abort_current-IsCurrent none s h = h
abort_current-IsCurrent (some n) s h = record {
  live = All-weaken (abort-IsLive n s.stale s.cleanup s.aborted s.choice) s.readings h.live;
  shown = h.shown;
}

module _ (answer : Text → ℕ → Balance)
    (of_account : (account : Text) (n : ℕ) → (answer account n).account_id ≡ account) where
  answered-ShowsSelected :
      (s : Strip) (q : BalanceReading) (n : ℕ)
      → is_aborted s q.controller ≡ false
      → IsLive s.stale s.cleanup s.aborted s.choice q
      → (s.stale ≡ true) ⊎ ShowsSelected (record s { balance = some (answer q.account n) })
  answered-ShowsSelected s q n waiting (inl over) = absurd cc
  answered-ShowsSelected s q n waiting (inr (running, inl stale)) = inl stale
  answered-ShowsSelected s q n waiting (inr (running, inr (same, there))) =
      let e : (answer q.account n).account_id ≡ s.choice.selected_account =
        rw (of_account q.account n) same in
      inr (inr (answer q.account n, refl, (e, there)))

  step-IsCurrent : (s t : Strip) → Step answer s t → IsCurrent s → IsCurrent t
  unfolding balance_read choose_balance clear_balance abort_balance
  step-IsCurrent _ _ (chooses s c) h = record {
    live = All-weaken (stale-IsLive s.stale s.cleanup s.aborted s.choice c) s.readings h.live;
    shown = inl refl;
  }
  step-IsCurrent _ _ (settles s) h = read_balance-IsCurrent s h
  step-IsCurrent _ _ (answers s i q n e waiting) h = record {
    live = h.live;
    shown =
        answered-ShowsSelected s q n waiting
          (All-get (IsLive s.stale s.cleanup s.aborted s.choice) s.readings i h.live e);
  }
  step-IsCurrent _ _ (fails s i q m e) h = failed-IsCurrent q m s h
  step-IsCurrent _ _ (clears s) h = record { live = h.live; shown = inr (inl refl) }
  step-IsCurrent _ _ (aborts s) h =
      abort_current-IsCurrent s.balance_controller (record s { error = none })
        (record { live = h.live; shown = h.shown })

settled_shown : (s : Strip) → s.stale ≡ false → (s.stale ≡ true) ⊎ ShowsSelected s → ShowsSelected s
settled_shown s e (inl stale) = absurd cc
settled_shown s e (inr h) = h

-- However selections, ledgers, sandboxes and late answers follow each other: once the effect has
-- run for what is chosen, the page shows no balance, or that of the selected account, and this
-- account is one of the chosen ledger and the session's tenant. The conditions are that the API
-- answers for the account that is asked for, and (in the steps) that an aborted request is not
-- answered.
pub balance_shown-IsSelected :
    (answer : Text → ℕ → Balance)
    → ((account : Text) (n : ℕ) → (answer account n).account_id ≡ account)
    → (c : Choice) (s : Strip) → Star (Step answer) (no_balance c) s
    → s.stale ≡ false
    → ShowsSelected s
balance_shown-IsSelected answer of_account c s run settled =
    let h : IsCurrent s =
      Star-keeps IsCurrent (step-IsCurrent answer of_account) (no_balance c) s run
        (record { live = tt; shown = inl refl }) in
    settled_shown s settled h.shown
