-- ===== src/Demo/Sandbox/Paged.antt =====
-- The console reads all holds of the sandbox through its pages.
use lux_ledger_demo.Common.{
  ℕ, zero, suc, ◌+◌, ◌-◌, ◌≤◌, ◌<◌, ltb, ltb→lt, ◌≡◌, refl, sym, ap, ◌∙◌, Bool, true, false,
  Bool-cases, inl, inr, Option, none, some, List, [], ◌∷◌, ◌++◌, take, drop, get_elem?, length, All,
  Text, is_empty, arith,
}
use mathlib.Core.Path.{subst}
use lux_ledger_demo.Common.Outcome.{done}
use lux_ledger_demo.Demo.Backend.{Hold}
use lux_ledger_demo.Demo.Sandbox.Holds.{following, where_after, holds_page}
use lux_ledger_demo.Web.Requests.{all_pages}
use lux_ledger_demo.Web.Requests.Pages.{IsServed, all_pages_lem}

-- An order of identifiers.
pub record IsStrict (before : Text → Text → Bool) : Type 0 where
  pub asym : (a b : Text) → before a b ≡ true → before b a ≡ false
  pub irreflexive : (a : Text) → before a a ≡ false
  pub transitive : (a b c : Text) → before a b ≡ true → before b c ≡ true → before a c ≡ true

module _ {A : Type 0} where
  take-take : (n : ℕ) (xs : List A) → take n (take (suc n) xs) ≡ take n xs
  take-take zero xs = refl
  take-take (suc n) [] = refl
  take-take (suc n) (x ∷ xs) = ap (λ ys. x ∷ ys) (take-take n xs)

  take-all : (n : ℕ) (xs : List A) → length (take (suc n) xs) ≤ n → take n xs ≡ xs
  take-all zero [] h = refl
  take-all zero (x ∷ xs) h = absurd (omega arith)
  take-all (suc n) [] h = refl
  take-all (suc n) (x ∷ xs) h = ap (λ ys. x ∷ ys) (take-all n xs (omega arith))

  take-drop : (n : ℕ) (xs : List A) → take n xs ++ drop n xs ≡ xs
  take-drop zero xs = refl
  take-drop (suc n) [] = refl
  take-drop (suc n) (x ∷ xs) = ap (λ ys. x ∷ ys) (take-drop n xs)

  -- A row more than the limit was found: there is a last row of the page, and fewer rows follow.
  last_of_page :
      (k : ℕ) (xs : List A)
      → suc k < length (take (suc (suc k)) xs)
      → (x : A) × (get_elem? (take (suc (suc k)) xs) k ≡ some x)
        × (get_elem? xs k ≡ some x)
        × (length (drop (suc k) xs) < length xs)
  last_of_page k [] h = absurd (omega arith)
  last_of_page zero (x ∷ xs) h = (x, refl, refl, omega arith)
  last_of_page (suc k) (x ∷ xs) h =
      let (y, e, f, shorter) = last_of_page k xs (omega arith) in (y, e, f, omega (arith, shorter))

module _ (before : Text → Text → Bool) where
  -- Each row stands before all that follow it, as the primary key orders them.
  abbrev pub IsAscending : List Hold → Type 0
  IsAscending [] = Unit
  IsAscending (h ∷ rows) = All (λ (g : Hold). before h.id g.id ≡ true) rows × IsAscending rows

  following-All :
      (a : Text) (rows : List Hold)
      → All (λ (g : Hold). before a g.id ≡ true) rows
      → following before a rows ≡ rows
  unfolding following
  following-All a [] h = refl
  following-All a (r ∷ rows) (e, h) = rw (e, following-All a rows h)

  All-following :
      (P : Hold → Type 0) (c : Text) (rows : List Hold)
      → All P rows
      → All P (following before c rows)
  unfolding following
  All-following P c [] h = tt
  All-following P c (r ∷ rows) (e, h) = elim (Bool-cases (before c r.id)) [
    | inl kept ↦ rw kept (e, All-following P c rows h)
    | inr out ↦ rw out (All-following P c rows h)
  ]

  following-IsAscending :
      (c : Text) (rows : List Hold) → IsAscending rows → IsAscending (following before c rows)
  unfolding following
  following-IsAscending c [] h = tt
  following-IsAscending c (r ∷ rows) (first, h) = elim (Bool-cases (before c r.id)) [
    | inl kept ↦ rw kept (
      All-following (λ (g : Hold). before r.id g.id ≡ true) c rows first,
      following-IsAscending c rows h,
    )
    | inr out ↦ rw out (following-IsAscending c rows h)
  ]

  following-is_after :
      (c : Text) (rows : List Hold)
      → All (λ (g : Hold). before c g.id ≡ true) (following before c rows)
  unfolding following
  following-is_after c [] = tt
  following-is_after c (r ∷ rows) = elim (Bool-cases (before c r.id)) [
    | inl kept ↦ rw kept (kept, following-is_after c rows)
    | inr out ↦ rw out (following-is_after c rows)
  ]

  All-get :
      (P : Hold → Type 0) (rows : List Hold) (k : ℕ) {x : Hold}
      → All P rows
      → get_elem? rows k ≡ some x
      → P x
  All-get P [] k h e = cc
  All-get P (r ∷ rows) zero {x} h e = let same : r ≡ x = cc in subst P same h.0
  All-get P (r ∷ rows) (suc k) h e = All-get P rows k h.1 e

  module _ (strict : IsStrict before) where
    -- What follows the row of a place are the rows behind it.
    following-drop :
        (rows : List Hold) (k : ℕ) {x : Hold}
        → IsAscending rows
        → get_elem? rows k ≡ some x
        → following before x.id rows ≡ drop (suc k) rows
    unfolding following
    following-drop [] k h e = cc
    following-drop (r ∷ rows) zero {x} h e =
        let same : r ≡ x = cc in
        subst (λ (y : Hold). following before y.id (r ∷ rows) ≡ rows) same
          (rw (strict.irreflexive r.id) (following-All r.id rows h.0))
    following-drop (r ∷ rows) (suc k) {x} h e =
        rw (strict.asym r.id x.id (All-get (λ (g : Hold). before r.id g.id ≡ true) rows k h.0 e))
          (following-drop rows k h.1 e)

    following-following :
        (c x : Text) (rows : List Hold)
        → before c x ≡ true
        → following before x (following before c rows) ≡ following before x rows
    unfolding following
    following-following c x [] h = refl
    following-following c x (r ∷ rows) h =
        let ih = following-following c x rows h in
        elim (Bool-cases (before x r.id)) [
          | inl beyond ↦ rw (beyond, strict.transitive c x r.id h beyond) (rw (beyond, ih))
          | inr short ↦ elim (Bool-cases (before c r.id)) [
            | inl kept ↦ rw (short, kept) (rw (short, ih))
            | inr out ↦ rw (short, out) ih
          ]
        ]

    -- The rows after the row of a place in what a cursor leaves.
    next_rows :
        (cursor : Option Text) (rows : List Hold) (k : ℕ) {x : Hold}
        → IsAscending rows
        → get_elem? (where_after before cursor rows) k ≡ some x
        → following before x.id rows ≡ drop (suc k) (where_after before cursor rows)
    next_rows none rows k h e = following-drop rows k h e
    next_rows (some c) rows k {x} h e =
        let later =
          All-get (λ (g : Hold). before c g.id ≡ true) (following before c rows) k
            (following-is_after c rows) e in
        sym (following-following c x.id rows later)
        ∙ following-drop (following before c rows) k (following-IsAscending c rows h) e

    named_after :
        (cursor : Option Text) (rows : List Hold)
        → All (λ (h : Hold). is_empty h.id ≡ false) rows
        → All (λ (h : Hold). is_empty h.id ≡ false) (where_after before cursor rows)
    named_after none rows h = h
    named_after (some c) rows h = All-following _ c rows h

    last_page :
        (rows : List Hold) (k : ℕ) (cursor : Option Text)
        → ltb (suc k) (length (take (suc (suc k)) (where_after before cursor rows))) ≡ false
        → holds_page before rows (suc k) cursor
          ≡ record { items = where_after before cursor rows; next_cursor = none }
    unfolding holds_page
    last_page rows k cursor h =
        let l = where_after before cursor rows in
        let more : suc k + 1 ≡ suc (suc k) = omega arith in
        let all : take (suc k) (take (suc (suc k)) l) ≡ l =
          take-take (suc k) l ∙ take-all (suc k) l (ground arith) in
        rw (more, holds_page) (rw (h, holds_page) (rw all))

    full_page :
        (rows : List Hold) (k : ℕ) (cursor : Option Text) {x : Hold}
        → ltb (suc k) (length (take (suc (suc k)) (where_after before cursor rows))) ≡ true
        → get_elem? (take (suc (suc k)) (where_after before cursor rows)) k ≡ some x
        → holds_page before rows (suc k) cursor ≡ record {
          items = take (suc k) (where_after before cursor rows);
          next_cursor = some x.id;
        }
    unfolding holds_page
    full_page rows k cursor h e =
        let l = where_after before cursor rows in
        let more : suc k + 1 ≡ suc (suc k) = omega arith in
        let less : suc k - 1 ≡ k = omega arith in
        rw (more, holds_page) (rw (h, holds_page) (rw (less, e) (rw (take-take (suc k) l))))

    -- Any cursor's page is followed by the rest.
    page-IsServed :
        (rows : List Hold) (k : ℕ)
        → IsAscending rows
        → All (λ (h : Hold). is_empty h.id ≡ false) rows
        → IsServed {E = Text}
            (λ cursor. done (holds_page before rows (suc k) cursor))
            (λ cursor. where_after before cursor rows)
    page-IsServed rows k ascending named = record {
      served = λ cursor.
          let l = where_after before cursor rows in
          elim (Bool-cases (ltb (suc k) (length (take (suc (suc k)) l)))) [
            | inr short ↦ (
              record { items = l; next_cursor = none },
              ap done (last_page rows k cursor short),
              inl (refl, refl),
            )
            | inl long ↦
                let (x, found, placed, shorter) = last_of_page k l (ltb→lt _ _ long) in
                let rest = next_rows cursor rows k ascending placed in
                (
                  record { items = take (suc k) l; next_cursor = some x.id },
                  ap done (full_page rows k cursor long found),
                  inr (
                    rw (
                        All-get (λ (h : Hold). is_empty h.id ≡ false) l k
                          (named_after cursor rows named) placed),
                    rw rest (take-drop (suc k) l),
                    rw rest shorter,
                  ),
                )
          ];
    }

  -- A console that goes on from page to page reads every hold of the ledger, once and in order,
  -- whatever limit of at least 1 the pages have: identifiers are not empty and the rows stand in
  -- their order.
  pub all_pages-holds_page :
      IsStrict before
      → (rows : List Hold) (k fuel : ℕ) → IsAscending rows
      → All (λ (h : Hold). is_empty h.id ≡ false) rows
      → length rows < fuel
      → all_pages {E = Text} (λ cursor. done (holds_page before rows (suc k) cursor)) fuel none []
        ≡ done rows
  all_pages-holds_page strict rows k fuel ascending named enough =
      all_pages_lem _ _ (page-IsServed strict rows k ascending named) fuel none [] enough
