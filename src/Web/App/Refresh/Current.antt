-- ===== src/Web/App/Refresh/Current.antt =====
-- That the page shows only what was asked for the ledger that is chosen.
use lux_ledger_demo.Common.{
  ℕ, ◌+◌, ◌==◌, ◌≤◌, ◌≡◌, refl, ◌≢◌, ◌⊎◌, inl, inr, Bool, true, false, some, [], any, All, All-get,
  All-weaken, get_elem?, Text, text_eq, is_empty, Bool-cases, ==_iff, arith,
}
use lux_ledger_demo.Common.Steps.{Star, Star-keeps}
use lux_ledger_demo.Web.App.Refresh.{
  Account, Request, Due, nothing, refreshing, clearing, Answer, View, refresh, arrived, failed,
  set_ledger, set_tx_filter, run_due, more_due, clear, run_effects, start_bootstrap, enter_session,
  opened,
}
use lux_ledger_demo.Web.App.Refresh.Selection.{select_account-HasSelection}

-- The n-th answer of the API to a request.
module _ (answer : Request → ℕ → Answer) where
  -- What can happen while the page is open, in any order: a request that is under way may be
  -- answered, or fail, at any time; a selection is made among the accounts that are shown.
  pub data Step : View → View → Type 0 where
    refreshes : (v : View) → Step v (refresh v)
    arrives :
        (v : View) (i : ℕ) (q : Request) (n : ℕ)
        → get_elem? v.pending i ≡ some q
        → Step v (arrived q (answer q n) v)
    fails :
        (v : View) (i : ℕ) (q : Request) (message : Text)
        → get_elem? v.pending i ≡ some q
        → Step v (failed q message v)
    chooses : (v : View) (ledger : Text) → Step v (set_ledger ledger v)
    filters : (v : View) (tx_filter : Text) → Step v (set_tx_filter tx_filter v)
    settles : (v : View) → Step v (run_effects v)
    bootstraps : (v : View) (fresh : Bool) → Step v (start_bootstrap fresh v)
    enters : (v : View) → Step v (enter_session v)
    selects :
        (v : View) (id : Text)
        → any (λ (a : Account). text_eq a.id id) v.accounts ≡ true
        → Step v (record v { selected_account = id })

-- With the effects of the last choice run, and a ledger chosen.
abbrev pub IsSettled : View → Type 0
IsSettled v = (v.due ≢ clearing) × (is_empty v.ledger ≡ false)

abbrev pub IsOf : Text → Account → Type 0
IsOf ledger a = a.ledger_id ≡ ledger

abbrev pub HasSelection : View → Type 0
HasSelection v =
    (v.selected_account ≡ [])
    ⊎ (any (λ (a : Account). text_eq a.id v.selected_account) v.accounts ≡ true)

abbrev IsIssued : ℕ → Request → Type 0
IsIssued version q = q.version ≤ version

-- The latest request is for the chosen ledger.
abbrev IsLatest : ℕ → Text → Request → Type 0
IsLatest version ledger q = (q.version ≢ version) ⊎ (q.ledger ≡ ledger)

abbrev IsUnsettled : View → Type 0
IsUnsettled v = (v.due ≡ clearing) ⊎ (is_empty v.ledger ≡ true)

record IsCurrent (v : View) : Type 0 where
  issued : All (IsIssued v.refresh_version) v.pending
  latest : IsUnsettled v ⊎ All (IsLatest v.refresh_version v.ledger) v.pending
  shown : IsUnsettled v ⊎ All (IsOf v.ledger) v.accounts
  selection : HasSelection v

older : (n : ℕ) (ledger : Text) (q : Request) → IsIssued n q → IsLatest (n + 1) ledger q
older n ledger q h = inl (λ e. omega arith)

newer : (n : ℕ) (q : Request) → IsIssued n q → IsIssued (n + 1) q
newer n q h = omega arith

refresh-IsCurrent :
    (v : View)
    → All (IsIssued v.refresh_version) v.pending
    → IsUnsettled v ⊎ All (IsOf v.ledger) v.accounts
    → HasSelection v
    → IsCurrent (refresh v)
unfolding refresh
refresh-IsCurrent v issued shown selection = elim (Bool-cases (is_empty v.ledger)) [
  | inl none_chosen ↦ rw none_chosen (record {
    issued = issued;
    latest = inl (inr none_chosen);
    shown = shown;
    selection = selection;
  })
  | inr chosen ↦ rw chosen (record {
    issued = (omega arith, All-weaken (newer v.refresh_version) v.pending issued);
    latest = inr (inr refl, All-weaken (older v.refresh_version v.ledger) v.pending issued);
    shown = shown;
    selection = selection;
  })
]

settled_shown :
    (v : View)
    → v.due ≡ refreshing
    → IsUnsettled v ⊎ All (IsOf v.ledger) v.accounts
    → IsUnsettled (record v { due = nothing }) ⊎ All (IsOf v.ledger) v.accounts
settled_shown v e (inl (inl due)) = absurd cc
settled_shown v e (inl (inr no_ledger)) = inl (inr no_ledger)
settled_shown v e (inr all) = inr all

run_due-IsCurrent : (d : Due) (v : View) → v.due ≡ d → IsCurrent v → IsCurrent (run_due d v)
unfolding clear
run_due-IsCurrent nothing v e h = h
run_due-IsCurrent refreshing v e h =
    refresh-IsCurrent (record v { due = nothing }) h.issued (settled_shown v e h.shown) h.selection
run_due-IsCurrent clearing v e h =
    refresh-IsCurrent (clear (record v { due = nothing })) h.issued (inr tt) (inl refl)

more_due-clearing : (d : Due) → d ≡ clearing → more_due d ≡ clearing
more_due-clearing d e = rw e refl

still_unsettled :
    (v : View) (t : Text)
    → IsUnsettled v
    → IsUnsettled (record v { tx_filter = t; due = more_due v.due })
still_unsettled v t (inl e) = inl (more_due-clearing v.due e)
still_unsettled v t (inr e) = inr e

opened-IsCurrent : IsCurrent opened
opened-IsCurrent = record { issued = tt; latest = inr tt; shown = inr tt; selection = inl refl }

settled_all :
    (v : View)
    → IsSettled v
    → IsUnsettled v ⊎ All (IsOf v.ledger) v.accounts
    → All (IsOf v.ledger) v.accounts
settled_all v settled (inl (inl due)) = absurd (settled.0 due)
settled_all v settled (inl (inr no_ledger)) = (let e = settled.1 in absurd cc)
settled_all v settled (inr all) = all

module _ (answer : Request → ℕ → Answer)
    (of_ledger : (q : Request) (n : ℕ) → All (IsOf q.ledger) (answer q n).accounts) where
  arrived-shown :
      (v : View) (q : Request) (n : ℕ)
      → q.version ≡ v.refresh_version
      → IsLatest v.refresh_version v.ledger q
      → All (IsOf v.ledger) (answer q n).accounts
  arrived-shown v q n same (inl late) = absurd (late same)
  arrived-shown v q n same (inr for_ledger) = rw (← for_ledger) (of_ledger q n)

  arrived-IsCurrent :
      (v : View) (q : Request) (i n : ℕ)
      → get_elem? v.pending i ≡ some q
      → IsCurrent v
      → IsCurrent (arrived q (answer q n) v)
  unfolding arrived
  arrived-IsCurrent v q i n e h = elim (Bool-cases (q.version == v.refresh_version)) [
    | inl same ↦ rw same (record {
      issued = h.issued;
      latest = h.latest;
      shown = elim h.latest [
        | inl u ↦ inl u
        | inr all ↦ inr (
            arrived-shown v q n ((==_iff q.version v.refresh_version).0 same)
              (All-get (IsLatest v.refresh_version v.ledger) v.pending i all e))
      ];
      selection = select_account-HasSelection (answer q n).accounts v.selected_account;
    })
    | inr late ↦ rw late h
  ]

  failed-IsCurrent : (v : View) (q : Request) (m : Text) → IsCurrent v → IsCurrent (failed q m v)
  unfolding failed
  failed-IsCurrent v q m h = elim (Bool-cases (q.version == v.refresh_version)) [
    | inl same ↦
        rw same (record {
          issued = h.issued;
          latest = h.latest;
          shown = h.shown;
          selection = h.selection;
        })
    | inr late ↦ rw late h
  ]

  chosen-IsCurrent : (v : View) (l : Text) → IsCurrent v → IsCurrent (set_ledger l v)
  unfolding set_ledger
  chosen-IsCurrent v l h = elim (Bool-cases (text_eq v.ledger l)) [
    | inl same ↦ rw same h
    | inr other ↦ rw other (record {
      issued = h.issued;
      latest = inl (inl refl);
      shown = inl (inl refl);
      selection = h.selection;
    })
  ]

  filtered-IsCurrent : (v : View) (t : Text) → IsCurrent v → IsCurrent (set_tx_filter t v)
  unfolding set_tx_filter
  filtered-IsCurrent v t h = elim (Bool-cases (text_eq v.tx_filter t)) [
    | inl same ↦ rw same h
    | inr other ↦ rw other (record {
      issued = h.issued;
      latest = elim h.latest [ inl u ↦ inl (still_unsettled v t u) | inr a ↦ inr a ];
      shown = elim h.shown [ inl u ↦ inl (still_unsettled v t u) | inr a ↦ inr a ];
      selection = h.selection;
    })
  ]

  bootstrapped-IsCurrent :
      (v : View) (fresh : Bool) → IsCurrent v → IsCurrent (start_bootstrap fresh v)
  unfolding start_bootstrap
  bootstrapped-IsCurrent v false h = record {
    issued = h.issued;
    latest = h.latest;
    shown = h.shown;
    selection = h.selection;
  }
  bootstrapped-IsCurrent v true h = record {
    issued = All-weaken (newer v.refresh_version) v.pending h.issued;
    latest = inr (All-weaken (older v.refresh_version v.ledger) v.pending h.issued);
    shown = h.shown;
    selection = h.selection;
  }

  step-IsCurrent : (v w : View) → Step answer v w → IsCurrent v → IsCurrent w
  unfolding run_effects enter_session
  step-IsCurrent _ _ (refreshes v) h = refresh-IsCurrent v h.issued h.shown h.selection
  step-IsCurrent _ _ (arrives v i q n e) h = arrived-IsCurrent v q i n e h
  step-IsCurrent _ _ (fails v i q m e) h = failed-IsCurrent v q m h
  step-IsCurrent _ _ (chooses v l) h = chosen-IsCurrent v l h
  step-IsCurrent _ _ (filters v l) h = filtered-IsCurrent v l h
  step-IsCurrent _ _ (settles v) h = run_due-IsCurrent v.due v refl h
  step-IsCurrent _ _ (bootstraps v fresh) h = bootstrapped-IsCurrent v fresh h
  step-IsCurrent _ _ (enters v) h = record {
    issued = h.issued;
    latest = h.latest;
    shown = inr tt;
    selection = inl refl;
  }
  step-IsCurrent _ _ (selects v id e) h = record {
    issued = h.issued;
    latest = h.latest;
    shown = h.shown;
    selection = inr e;
  }

-- Whatever happens, in any order, with answers that come late or not at all: once the effects of
-- the last choice of a ledger have run, the accounts that the page shows are those of the ledger
-- that is chosen, and the selected account is one of them, if there is one. The condition is that
-- the API answers with accounts of the ledger that is asked for.
pub shown-IsOf :
    (answer : Request → ℕ → Answer)
    → ((q : Request) (n : ℕ) → All (IsOf q.ledger) (answer q n).accounts)
    → (v : View) → Star (Step answer) opened v
    → IsSettled v
    → All (IsOf v.ledger) v.accounts × HasSelection v
shown-IsOf answer of_ledger v run settled =
    let h : IsCurrent v =
      Star-keeps IsCurrent (step-IsCurrent answer of_ledger) opened v run opened-IsCurrent in
    (settled_all v settled h.shown, h.selection)
