-- ===== src/Web/Operations/Rejections.antt =====
-- Which of the console's operations post entries that do not balance or are in two currencies.
use lux_ledger_demo.Common.{
  ◌≡◌, refl, ap, sym, Bool, true, false, not, ◌&&◌, none, some, List, [], ◌∷◌, ◌++◌, map, every,
  any, All, Text, text_eq, codes, if◌then◌else◌, Bool-cases, text_eq_refl, text_eq_iff, inl, inr,
}
use lux_ledger_demo.Common.Int.{ℤ, ◌+ℤ◌}
use lux_ledger_demo.Common.BigInt.{big_int}
use lux_ledger_demo.Common.Json.{str, arr, obj, Items, nil, cons, Fields, get_field, set_field}
use lux_ledger_demo.Web.Display.{entries_are_balanced, amounts_of, total_from}
use lux_ledger_demo.Web.Requests.{DemoRequest}
use lux_ledger_demo.Web.Operations.{Context, entries, marketplace, unbalanced}
use lux_ledger_demo.Web.Operations.Building.{Operation, post, post_empty, get, tx}
use lux_ledger_demo.Web.Operations.Postings.{
  accounts_operations, payments, batches, following_up, rejected, backdated, other_currency,
  transactions_operations, holds_operations,
}
use lux_ledger_demo.Web.Operations.Credits.{spending, allocations, credits_operations}
use lux_ledger_demo.Web.Operations.Reconciliation.{reconciliation_operations}
use lux_ledger_demo.Web.Operations.Catalog.{operations}
use lux_ledger_demo.Web.Operations.Cases.{All-transactions, All-credits, All-operations}

-- The objects of an array.
abbrev objects : Items → List Fields
objects nil = []
objects (cons (obj fs) vs) = fs ∷ objects vs
objects (cons v vs) = objects vs

abbrev objects_at : Text → Fields → List Fields
objects_at key fs = elim (get_field key fs) [ some (arr vs) ↦ objects vs | _ ↦ [] ]

abbrev text_at : Text → Fields → Text
text_at key fs = elim (get_field key fs) [ some (str t) ↦ t | _ ↦ [] ]

abbrev has_entries : Fields → Bool
has_entries fs = elim (get_field (codes "entries") fs) [ some _ ↦ true | none ↦ false ]

-- What a body asks to post: the body itself if it has entries, and each item of a batch.
abbrev pub postings_of : DemoRequest → List Fields
postings_of request = elim request.body [
  | none ↦ []
  | some body ↦
      (if has_entries body then body ∷ [] else []) ++ objects_at (codes "transactions") body
]

-- `entriesAreBalanced`, which the console shows of a posted transaction, on the entries of a draft.
abbrev pub is_balanced : Fields → Bool
is_balanced posting =
    elim (entries_are_balanced
      (map (text_at (codes "signed_amount_minor")) (objects_at (codes "entries") posting))) [
        | none ↦ false
        | some b ↦ b
      ]

-- Every entry has the currency that the posting names, if it names one.
abbrev pub is_in_one_currency : Fields → Bool
is_in_one_currency posting = elim (get_field (codes "currency") posting) [
  | some (str currency) ↦
      every (λ e. text_eq (text_at (codes "currency") e) currency)
        (objects_at (codes "entries") posting)
  | _ ↦ true
]

abbrev pub unbalanced_ids : List Text
unbalanced_ids = codes "bulk-failure" ∷ codes "unbalanced" ∷ []

abbrev pub mixed_ids : List Text
mixed_ids = codes "currency-failure" ∷ []

abbrev pub is_among : Text → List Text → Bool
is_among id ids = any (text_eq id) ids

module _ (c : Context) (r : Text) where
  -- The operation's name tells whether all its postings balance, and whether all are in the one
  -- currency that they name.
  abbrev pub IsToldById : Operation → Type 0
  IsToldById o =
      (every is_balanced (postings_of (o.build c r)) ≡ not (is_among o.id unbalanced_ids))
      × (every is_in_one_currency (postings_of (o.build c r)) ≡ not (is_among o.id mixed_ids))

two : (t : Text) → (text_eq t t && (text_eq t t && true)) && true ≡ true
two t = rw (text_eq_refl t) refl

three : (t : Text) → (text_eq t t && (text_eq t t && (text_eq t t && true))) && true ≡ true
three t = rw (text_eq_refl t) refl

two_twice :
    (t : Text)
    → (text_eq t t && (text_eq t t && true)) && ((text_eq t t && (text_eq t t && true)) && true)
      ≡ true
two_twice t = rw (text_eq_refl t) refl

text_eq_flip : (s t : Text) → text_eq s t ≡ false → text_eq t s ≡ false
text_eq_flip s t h = elim (Bool-cases (text_eq t s)) [
  | inl same ↦
      let e : text_eq s s ≡ text_eq s t = ap (text_eq s) (sym ((text_eq_iff t s).0 same)) in
      cc (e, h, text_eq_refl s)
  | inr other ↦ other
]

-- No currency is the other one.
other-ne : (t : Text) → text_eq (other_currency t) t ≡ false
unfolding text_eq
other-ne t = elim (Bool-cases (text_eq t (codes "USD"))) [
  | inl same ↦ rw same (rw ((text_eq_iff t (codes "USD")).0 same) refl)
  | inr other ↦ rw other (text_eq_flip t (codes "USD") other)
]

other_two :
    (t : Text)
    → (text_eq (other_currency t) t && (text_eq (other_currency t) t && true)) && true ≡ false
other_two t = rw (other-ne t) refl

module _ (c : Context) (r : Text) where
  accounts-AreToldById : All (IsToldById c r) accounts_operations
  unfolding post get_field text_eq
  accounts-AreToldById = ((refl, refl), ((refl, refl), tt))

  payments-AreToldById : All (IsToldById c r) payments
  unfolding post get_field tx entries text_eq entries_are_balanced amounts_of big_int total_from
      ◌+ℤ◌ marketplace set_field
  payments-AreToldById =
      ((refl, two c.currency), ((refl, two c.currency), ((refl, three c.currency), tt)))

  batches-AreToldById : All (IsToldById c r) batches
  unfolding post get_field tx entries text_eq entries_are_balanced amounts_of big_int total_from
      ◌+ℤ◌ unbalanced set_field
  batches-AreToldById = ((refl, two_twice c.currency), ((refl, two_twice c.currency), tt))

  following_up-AreToldById : All (IsToldById c r) following_up
  unfolding post get_field tx entries text_eq entries_are_balanced amounts_of big_int total_from
      ◌+ℤ◌
  following_up-AreToldById = ((refl, refl), ((refl, refl), tt))

  rejected-AreToldById : All (IsToldById c r) rejected
  unfolding post get_field tx entries text_eq entries_are_balanced amounts_of big_int total_from
      ◌+ℤ◌ unbalanced set_field
  rejected-AreToldById =
      ((refl, two c.currency), ((refl, other_two c.currency), ((refl, two c.currency), tt)))

  holds-AreToldById : All (IsToldById c r) holds_operations
  unfolding post post_empty get_field tx entries text_eq entries_are_balanced amounts_of big_int
      total_from ◌+ℤ◌
  holds-AreToldById = ((refl, two c.currency), ((refl, refl), ((refl, refl), ((refl, refl), tt))))

  spending-AreToldById : All (IsToldById c r) spending
  unfolding post get_field set_field tx entries text_eq entries_are_balanced amounts_of big_int
      total_from ◌+ℤ◌
  spending-AreToldById =
      ((refl, two c.currency), ((refl, two c.currency), ((refl, refl), ((refl, refl), tt))))

  allocations-AreToldById : All (IsToldById c r) allocations
  unfolding get text_eq
  allocations-AreToldById = ((refl, refl), ((refl, refl), tt))

  module _ (iso : ℤ → Text) (now : ℤ) where
    backdated-IsToldById : IsToldById c r (backdated iso now)
    unfolding post get_field set_field tx entries text_eq entries_are_balanced amounts_of big_int
        total_from ◌+ℤ◌
    backdated-IsToldById = (refl, two c.currency)

    credits-AreToldById : All (IsToldById c r) (credits_operations iso now)
    unfolding post get_field text_eq
    credits-AreToldById =
        All-credits (IsToldById c r) iso now ((refl, refl), ((refl, refl), tt)) spending-AreToldById
          ((refl, refl), ((refl, refl), tt)) allocations-AreToldById

    reconciliation-AreToldById : All (IsToldById c r) (reconciliation_operations iso now)
    unfolding post get get_field text_eq
    reconciliation-AreToldById = (
      (refl, refl),
      (
        (refl, refl),
        ((refl, refl), ((refl, refl), ((refl, refl), ((refl, refl), ((refl, refl), tt))))),
      ),
    )

    transactions-AreToldById : All (IsToldById c r) (transactions_operations iso now)
    transactions-AreToldById =
        All-transactions (IsToldById c r) iso now payments-AreToldById batches-AreToldById
          following_up-AreToldById backdated-IsToldById rejected-AreToldById

-- Whatever the page knows, at any time and for any reference. Of all operations of the console,
-- exactly `unbalanced` and `bulk-failure` have a posting whose entries do not balance by
-- `entriesAreBalanced`, and exactly `currency-failure` has a posting that names a currency of which
-- one of its entries is not.
pub operations-AreToldById :
    (iso : ℤ → Text) (now : ℤ) (c : Context) (r : Text) → All (IsToldById c r) (operations iso now)
operations-AreToldById iso now c r =
    All-operations (IsToldById c r) iso now (accounts-AreToldById c r)
      (transactions-AreToldById c r iso now) (holds-AreToldById c r)
      (credits-AreToldById c r iso now) (reconciliation-AreToldById c r iso now)
