-- ===== src/Web/App/Refresh/Selection.antt =====
-- That the account that a refresh selects is one of those that it shows.
use lux_ledger_demo.Common.{
  ◌≡◌, refl, ◌⊎◌, inl, inr, Bool, true, false, ◌||◌, none, some, List, [], ◌∷◌, any, find, Text,
  text_eq, codes, if◌then◌else◌, Bool-cases, Option-cases, text_eq_refl,
}
use mathlib.Core.Path.{subst}
use lux_ledger_demo.Web.App.Refresh.{Account, select_account, is_role, id_of_first}

or_true : (a b : Bool) → b ≡ true → a || b ≡ true
or_true true b h = refl
or_true false b h = h

-- What is found is there.
find-any :
    (p : Account → Bool) (a : List Account) {x : Account}
    → find p a ≡ some x
    → any (λ (y : Account). text_eq y.id x.id) a ≡ true
find-any p [] e = absurd cc
find-any p (y ∷ a) {x} e = elim (Bool-cases (p y)) [
  | inl here ↦
      (let f : (if true then some y else find p a) ≡ some x =
          subst (λ (b : Bool). (if b then some y else find p a) ≡ some x) here e in
        let same : y ≡ x = cc in rw (same, text_eq_refl x.id) refl)
  | inr later ↦
      (let f : (if false then some y else find p a) ≡ some x =
          subst (λ (b : Bool). (if b then some y else find p a) ≡ some x) later e in
        or_true (text_eq y.id x.id) _ (find-any p a f))
]

abbrev default_account : List Account → Text
default_account a = elim (find (is_role (codes "DEMO_PRIMARY") (codes "wallet:alice")) a) [
  | some x ↦ x.id
  | none ↦ id_of_first a
]

first-HasSelection :
    (a : List Account)
    → (id_of_first a ≡ []) ⊎ (any (λ (x : Account). text_eq x.id (id_of_first a)) a ≡ true)
first-HasSelection [] = inl refl
first-HasSelection (x ∷ a) = inr (rw (text_eq_refl x.id) refl)

default-HasSelection :
    (a : List Account)
    → (default_account a ≡ []) ⊎ (any (λ (x : Account). text_eq x.id (default_account a)) a ≡ true)
default-HasSelection a =
    elim (Option-cases (find (is_role (codes "DEMO_PRIMARY") (codes "wallet:alice")) a)) [
      | inl nobody ↦ rw (nobody, default_account) (first-HasSelection a)
      | inr (x, found) ↦ rw (found, default_account) (inr (find-any _ a found))
    ]

pub select_account-HasSelection :
    (a : List Account) (old : Text)
    → (select_account a old ≡ [])
      ⊎ (any (λ (x : Account). text_eq x.id (select_account a old)) a ≡ true)
unfolding select_account
select_account-HasSelection a old = elim (Bool-cases (any (λ (x : Account). text_eq x.id old) a)) [
  | inl kept ↦ inr (rw (kept, kept) refl)
  | inr gone ↦ rw gone (default-HasSelection a)
]
