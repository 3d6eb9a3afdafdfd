-- ===== src/Web/App/Inspection/Matching.antt =====
-- That the entries shown are those of the transaction that is shown.
use lux_ledger_demo.Common.{
  ℕ, ◌+◌, ◌==◌, ◌≤◌, ◌≡◌, refl, sym, ◌≢◌, ◌⊎◌, inl, inr, Option, none, some, List, [], ◌∷◌, All,
  All-get, All-weaken, get_elem?, Text, Bool-cases, ==_iff, arith,
}
use lux_ledger_demo.Common.Steps.{Star, Star-keeps}
use lux_ledger_demo.Web.App.Refresh.{Transaction}
use lux_ledger_demo.Web.App.Inspection.{
  Entry, Reading, Panel, opened, inspect_transaction, entries_read, reading_failed, leave,
}

-- The n-th answer to a reading of the entries of a transaction; readings may be answered, or
-- fail, in any order and at any time.
module _ (answer : Text → ℕ → List Entry) where
  pub data Step : Panel → Panel → Type 0 where
    inspects : (p : Panel) (t : Transaction) → Step p (inspect_transaction t p)
    reads :
        (p : Panel) (i : ℕ) (q : Reading) (n : ℕ)
        → get_elem? p.readings i ≡ some q
        → Step p (entries_read q (answer q.tx n) p)
    fails : (p : Panel) (message : Text) → Step p (reading_failed message p)
    leaves : (p : Panel) → Step p (leave p)

abbrev pub IsOf : Text → Entry → Type 0
IsOf tx e = e.transaction_id ≡ tx

-- Nothing is selected, or the entries are the selected transaction's.
abbrev pub Matches : Panel → Type 0
Matches p =
    (p.selected_tx ≡ none)
    ⊎ ((t : Transaction) × (p.selected_tx ≡ some t) × All (IsOf t.id) p.tx_entries)

abbrev IsIssued : ℕ → Reading → Type 0
IsIssued version q = q.version ≤ version

abbrev IsLatest : ℕ → Option Transaction → Reading → Type 0
IsLatest version selected q =
    (q.version ≢ version)
    ⊎ (selected ≡ none)
    ⊎ ((t : Transaction) × (selected ≡ some t) × (q.tx ≡ t.id))

record IsCurrent (p : Panel) : Type 0 where
  issued : All (IsIssued p.inspection_version) p.readings
  latest : All (IsLatest p.inspection_version p.selected_tx) p.readings
  matching : Matches p

older :
    (n : ℕ) (selected : Option Transaction) (q : Reading)
    → IsIssued n q
    → IsLatest (n + 1) selected q
older n selected q h = inl (λ e. omega arith)

newer : (n : ℕ) (q : Reading) → IsIssued n q → IsIssued (n + 1) q
newer n q h = omega arith

every_left : (n : ℕ) (qs : List Reading) → All (IsLatest n none) qs
every_left n [] = tt
every_left n (q ∷ qs) = (inr (inl refl), every_left n qs)

opened-IsCurrent : IsCurrent opened
opened-IsCurrent = record { issued = tt; latest = tt; matching = inl refl }

inspected-IsCurrent :
    (p : Panel) (t : Transaction) → IsCurrent p → IsCurrent (inspect_transaction t p)
unfolding inspect_transaction
inspected-IsCurrent p t h = record {
  issued = (omega arith, All-weaken (newer p.inspection_version) p.readings h.issued);
  latest = (
    inr (inr (t, refl, refl)),
    All-weaken (older p.inspection_version (some t)) p.readings h.issued,
  );
  matching = inr (t, refl, tt);
}

module _ (answer : Text → ℕ → List Entry)
    (of_tx : (tx : Text) (n : ℕ) → All (IsOf tx) (answer tx n)) where
  read-Matches :
      (p : Panel) (q : Reading) (n : ℕ)
      → p.inspection_version ≡ q.version
      → IsLatest p.inspection_version p.selected_tx q
      → Matches (record p { tx_entries = answer q.tx n })
  read-Matches p q n same (inl late) = absurd (late (sym same))
  read-Matches p q n same (inr (inl none_selected)) = inl none_selected
  read-Matches p q n same (inr (inr (t, selected, for_t))) =
      inr (t, selected, rw (← for_t) (of_tx q.tx n))

  read-IsCurrent :
      (p : Panel) (i : ℕ) (q : Reading) (n : ℕ)
      → get_elem? p.readings i ≡ some q
      → IsCurrent p
      → IsCurrent (entries_read q (answer q.tx n) p)
  unfolding entries_read
  read-IsCurrent p i q n e h = elim (Bool-cases (p.inspection_version == q.version)) [
    | inl same ↦ rw same (record {
      issued = h.issued;
      latest = h.latest;
      matching =
          read-Matches p q n ((==_iff p.inspection_version q.version).0 same)
            (All-get (IsLatest p.inspection_version p.selected_tx) p.readings i h.latest e);
    })
    | inr late ↦ rw late h
  ]

  step-IsCurrent : (p p' : Panel) → Step answer p p' → IsCurrent p → IsCurrent p'
  unfolding reading_failed leave
  step-IsCurrent _ _ (inspects p t) h = inspected-IsCurrent p t h
  step-IsCurrent _ _ (reads p i q n e) h = read-IsCurrent p i q n e h
  step-IsCurrent _ _ (fails p m) h = record {
    issued = h.issued;
    latest = h.latest;
    matching = h.matching;
  }
  step-IsCurrent _ _ (leaves p) h = record {
    issued = h.issued;
    latest = every_left p.inspection_version p.readings;
    matching = inl refl;
  }

-- Whatever is inspected and however late the answers come: the entries that the page shows are
-- those of the transaction that it shows. The condition is that the API answers with entries of
-- the transaction that is asked for.
pub entries_shown-Matches :
    (answer : Text → ℕ → List Entry)
    → ((tx : Text) (n : ℕ) → All (IsOf tx) (answer tx n))
    → (p : Panel) → Star (Step answer) opened p
    → Matches p
entries_shown-Matches answer of_tx p run =
    (Star-keeps IsCurrent (step-IsCurrent answer of_tx) opened p run opened-IsCurrent).matching
