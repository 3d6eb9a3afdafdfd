-- ===== src/Web/App/Balance/Tests.antt =====
-- The theorem about the balance on the page at concrete inputs.
use lux_ledger_demo.Common.{ℕ, ◌≡◌, refl, false, some, [], ◌∷◌, Text, text_eq, codes}
use lux_ledger_demo.Common.Steps.{Star, stay, then_step}
use lux_ledger_demo.Web.App.Balance.{
  Balance, Choice, Held, BalanceReading, Strip, is_shown, read_balance, balance_read,
  balance_failed, choose_balance, no_balance,
}
use lux_ledger_demo.Web.App.Balance.Selected.{
  Step, chooses, settles, answers, ShowsSelected, balance_shown-IsSelected,
}

abbrev held : Text → Held
held id = record { id = id; ledger_id = codes "L1"; tenant_id = codes "T1" }

abbrev of_account : Text → Choice
of_account id = record {
  selected_account = id;
  accounts = held (codes "a1") ∷ held (codes "a2") ∷ [];
  ledger = codes "L1";
  tenant_id = some (codes "T1");
}

abbrev told : Text → ℕ → Balance
told account n = record {
  account_id = account;
  posted_minor = codes "500";
  reserved_delta_minor = codes "0";
  available_minor = codes "500";
}

abbrev chosen : Text → Strip → Strip
chosen id s = read_balance (choose_balance (of_account id) s)

-- Another account is selected while the balance of the first is read.
abbrev both : Strip
both = chosen (codes "a2") (chosen (codes "a1") (no_balance (of_account (codes "a1"))))

abbrev first_reading : BalanceReading
first_reading = record { controller = 1; account = codes "a1" }

abbrev second_reading : BalanceReading
second_reading = record { controller = 2; account = codes "a2" }

abbrev last_strip : Strip
last_strip = balance_read (told (codes "a2") 0) both

aborted_failure_is_dropped : balance_failed first_reading (codes "aborted") both ≡ both
unfolding balance_failed read_balance choose_balance is_shown text_eq
aborted_failure_is_dropped = refl

choosing : (id : Text) (s t : Strip) → Star (Step told) s t → Star (Step told) s (chosen id t)
choosing id s t run =
    then_step s (choose_balance (of_account id) t) (chosen id t)
      (then_step s t (choose_balance (of_account id) t) run (chooses t (of_account id)))
      (settles (choose_balance (of_account id) t))

history : Star (Step told) (no_balance (of_account (codes "a1"))) last_strip
unfolding read_balance choose_balance is_shown text_eq
history =
    let start = no_balance (of_account (codes "a1")) in
    then_step start both last_strip
      (choosing (codes "a2") start (chosen (codes "a1") start)
        (choosing (codes "a1") start start (stay start)))
      (answers both 0 second_reading 0 refl refl)

last_strip_settled : last_strip.stale ≡ false
unfolding balance_read read_balance choose_balance is_shown text_eq
last_strip_settled = refl

balance_shown-IsSelected_example : ShowsSelected last_strip
balance_shown-IsSelected_example =
    balance_shown-IsSelected told (λ account n. refl) (of_account (codes "a1")) last_strip history
      last_strip_settled
