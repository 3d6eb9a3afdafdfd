-- ===== src/Web/Operations/Documented.antt =====
-- Where the console's operations are sent.
use lux_ledger_demo.Common.{
  ◌==◌, ◌≡◌, refl, Bool, true, false, not, ◌&&◌, ◌||◌, [], ◌∷◌, ◌++◌, any, All, All-append, Text,
  codes, is_empty, starts_with,
}
use lux_ledger_demo.Common.Int.{ℤ}
use lux_ledger_demo.Web.Requests.{is_documented, may_request, sends_token}
use lux_ledger_demo.Web.Operations.{Context}
use lux_ledger_demo.Web.Operations.Building.{Operation, post, post_empty, get}
use lux_ledger_demo.Web.Operations.Postings.{
  accounts_operations, payments, batches, following_up, rejected, backdated, holds_operations,
}
use lux_ledger_demo.Web.Operations.Credits.{issues, spending, expirations, allocations}
use lux_ledger_demo.Web.Operations.Reconciliation.{matching_rule, runs, adjustment, upload}
use lux_ledger_demo.Web.Operations.Catalog.{operations}
use lux_ledger_demo.Web.Operations.Cases.{All-transactions, All-credits, All-operations}

-- What `request` lets through no path with.
abbrev pub has_forbidden : Text → Bool
has_forbidden t = any (λ c. c == b'\\' || c == b'#') t

or-false : (a b : Bool) → a || b ≡ false → (a ≡ false) × (b ≡ false)
or-false true b h = absurd cc
or-false false b h = (refl, h)

has_forbidden-append :
    (s t : Text)
    → has_forbidden s ≡ false
    → has_forbidden t ≡ false
    → has_forbidden (s ++ t) ≡ false
has_forbidden-append [] t h k = k
has_forbidden-append (c ∷ s) t h k =
    let (here, later) = or-false _ (has_forbidden s) h in rw here (has_forbidden-append s t later k)

with_id :
    (id suffix : Text)
    → has_forbidden id ≡ false
    → has_forbidden suffix ≡ false
    → not (has_forbidden (id ++ suffix)) ≡ true
with_id id suffix h k = rw (has_forbidden-append id suffix h k) refl

and-true : (b : Bool) → b && true ≡ b
and-true true = refl
and-true false = refl

-- The identifiers that go into paths; the API gives UUIDs.
abbrev pub HasPlainIds : Context → Type 0
HasPlainIds c =
    (has_forbidden c.tx ≡ false)
    × (has_forbidden c.hold ≡ false)
    × (has_forbidden c.grant ≡ false)
    × (has_forbidden c.run ≡ false)

module _ (token : Text) (c : Context) (r : Text) where
  abbrev pub IsSentToApi : Operation → Type 0
  IsSentToApi o =
      (may_request (o.build c r).path ≡ true)
      × (sends_token token (o.build c r).path ≡ not (is_empty token))

  has_token : not (is_empty token) && true ≡ not (is_empty token)
  has_token = and-true (not (is_empty token))

  fixed-AreSent : All IsSentToApi (accounts_operations ++ payments ++ batches ++ rejected)
  unfolding post may_request is_documented sends_token starts_with
  fixed-AreSent =
      let t = has_token in
      (
        (refl, t),
        (
          (refl, t),
          (
            (refl, t),
            (
              (refl, t),
              ((refl, t), ((refl, t), ((refl, t), ((refl, t), ((refl, t), ((refl, t), tt)))))),
            ),
          ),
        ),
      )

  module _ (iso : ℤ → Text) (now : ℤ) where
    timed-AreSent :
        All IsSentToApi (backdated iso now ∷ upload iso now ∷ issues iso now ++ expirations iso now)
    unfolding post may_request is_documented sends_token starts_with
    timed-AreSent =
        let t = has_token in
        ((refl, t), ((refl, t), ((refl, t), ((refl, t), ((refl, t), ((refl, t), tt))))))

  module _ (plain : HasPlainIds c) where
    following_up-AreSent : All IsSentToApi following_up
    unfolding post may_request is_documented sends_token starts_with
    following_up-AreSent =
        let t = has_token in
        (
          (with_id c.tx (codes "/reverse") plain.0 refl, t),
          ((with_id c.tx (codes "/correct") plain.0 refl, t), tt),
        )

    holds-AreSent : All IsSentToApi holds_operations
    unfolding post post_empty may_request is_documented sends_token starts_with
    holds-AreSent =
        let t = has_token in
        let h = plain.1 in
        (
          (refl, t),
          (
            (with_id c.hold (codes "/commit") h refl, t),
            (
              (with_id c.hold (codes "/commit") h refl, t),
              ((with_id c.hold (codes "/void") h refl, t), tt),
            ),
          ),
        )

    spending-AreSent : All IsSentToApi spending
    unfolding post may_request is_documented sends_token starts_with
    spending-AreSent =
        let t = has_token in
        let g = plain.2 in
        (
          (refl, t),
          (
            (refl, t),
            (
              (with_id c.grant (codes "/refund") g refl, t),
              ((with_id c.grant (codes "/reversal") g refl, t), tt),
            ),
          ),
        )

    allocations-AreSent : All IsSentToApi allocations
    unfolding get may_request is_documented sends_token starts_with
    allocations-AreSent =
        let t = has_token in
        (
          (with_id c.grant (codes "/allocations?limit=25") plain.2 refl, t),
          ((with_id c.tx (codes "/credit-allocations?limit=25") plain.0 refl, t), tt),
        )

    matching-AreSent : All IsSentToApi (matching_rule ∷ runs)
    unfolding get post may_request is_documented sends_token starts_with
    matching-AreSent =
        let t = has_token in
        (
          (refl, t),
          (
            (refl, t),
            ((refl, t), ((with_id c.run (codes "/results?limit=25") plain.3 refl, t), tt)),
          ),
        )

  adjustments-AreSent :
      All IsSentToApi (adjustment (codes "credit") ∷ adjustment (codes "debit") ∷ [])
  unfolding post may_request is_documented sends_token starts_with
  adjustments-AreSent = ((refl, has_token), ((refl, has_token), tt))

-- If the identifiers that the console holds have no backslash and no #, each of its operations
-- has a path that `request` lets through, and is sent with the access token, where there is one.
pub operations-AreSent :
    (token : Text) (c : Context) (r : Text) (iso : ℤ → Text) (now : ℤ)
    → HasPlainIds c
    → All (IsSentToApi token c r) (operations iso now)
operations-AreSent token c r iso now plain =
    let P : Operation → Type 0 = IsSentToApi token c r in
    let (a1, (a2, (p1, (p2, (p3, (b1, (b2, rejected_sent))))))) = fixed-AreSent token c r in
    let (backdated_sent, (upload_sent, (i1, (i2, expirations_sent)))) =
      timed-AreSent token c r iso now in
    let (rule_sent, runs_sent) = matching-AreSent token c r plain in
    All-operations P iso now (a1, (a2, tt))
      (All-transactions P iso now (p1, (p2, (p3, tt))) (b1, (b2, tt))
        (following_up-AreSent token c r plain) backdated_sent rejected_sent)
      (holds-AreSent token c r plain)
      (All-credits P iso now (i1, (i2, tt)) (spending-AreSent token c r plain) expirations_sent
        (allocations-AreSent token c r plain))
      (
        rule_sent,
        (
          upload_sent,
          All-append P runs (adjustment (codes "credit") ∷ adjustment (codes "debit") ∷ [])
              runs_sent (adjustments-AreSent token c r),
        ),
      )
