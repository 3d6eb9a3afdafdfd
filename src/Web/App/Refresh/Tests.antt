-- ===== src/Web/App/Refresh/Tests.antt =====
-- The theorem about `refresh` at concrete inputs.
use lux_ledger_demo.Common.{ℕ, ◌≡◌, ◌≢◌, refl, none, [], ◌∷◌, ◌++◌, All, Text, text_eq, codes}
use lux_ledger_demo.Common.Steps.{Star, stay, then_step}
use lux_ledger_demo.Web.App.Refresh.{
  Account, Request, Answer, View, opened, refresh, set_ledger, run_effects, arrived, select_account,
  select_name, clear, nothing, clearing,
}
use lux_ledger_demo.Web.App.Refresh.Current.{
  Step, chooses, settles, arrives, IsSettled, IsOf, HasSelection, shown-IsOf,
}

abbrev wallet_of : Text → Account
wallet_of ledger = record {
  id = codes "a-" ++ ledger;
  code = none;
  name = codes "wallet:carol";
  ledger_id = ledger;
}

abbrev server : Request → ℕ → Answer
server q n = record {
  accounts = wallet_of q.ledger ∷ [];
  transactions = record { items = []; next_cursor = none };
  holds = record { items = []; next_cursor = none };
}

abbrev chosen : Text → View → View
chosen ledger v = run_effects (set_ledger ledger v)

-- The second ledger is chosen while the request for the first is under way; both are answered,
-- the newer one first.
abbrev second : View
second = chosen (codes "L2") (chosen (codes "L1") opened)

abbrev ask_1 : Request
ask_1 = record { version = 1; ledger = codes "L1"; tx_filter = [] }

abbrev ask_2 : Request
ask_2 = record { version = 2; ledger = codes "L2"; tx_filter = [] }

abbrev last_view : View
last_view = arrived ask_1 (server ask_1 0) (arrived ask_2 (server ask_2 0) second)

late_answer_is_dropped : last_view ≡ arrived ask_2 (server ask_2 0) second
unfolding arrived run_effects refresh set_ledger text_eq select_account select_name clear
late_answer_is_dropped = refl

choosing :
    (ledger : Text) (v : View)
    → Star (Step server) opened v
    → Star (Step server) opened (chosen ledger v)
choosing ledger v run =
    then_step opened (set_ledger ledger v) (chosen ledger v)
      (then_step opened v (set_ledger ledger v) run (chooses v ledger))
      (settles (set_ledger ledger v))

history : Star (Step server) opened last_view
unfolding refresh set_ledger run_effects arrived text_eq clear
history =
    then_step opened (arrived ask_2 (server ask_2 0) second) last_view
      (then_step opened second (arrived ask_2 (server ask_2 0) second)
        (choosing (codes "L2") (chosen (codes "L1") opened)
          (choosing (codes "L1") opened (stay opened)))
        (arrives second 0 ask_2 0 refl))
      (arrives (arrived ask_2 (server ask_2 0) second) 1 ask_1 0 refl)

nothing-ne : nothing ≢ clearing
nothing-ne e = cc

settled : IsSettled last_view
unfolding refresh set_ledger run_effects arrived text_eq clear
settled = (nothing-ne, refl)

shown-IsOf_example : All (IsOf last_view.ledger) last_view.accounts × HasSelection last_view
shown-IsOf_example = shown-IsOf server (λ q n. (refl, tt)) last_view history settled
