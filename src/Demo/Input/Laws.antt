-- ===== src/Demo/Input/Laws.antt =====
-- What addresses and amounts that are let through look like.
use lux_ledger_demo.Common.{
  ℕ, ltb, ltb-false, ◌≤◌, ◌<◌, ◌≡◌, sym, ap, ◌∙◌, ◌≢◌, true, false, Bool-cases, inl, inr, ◌⊎◌, ◌↔◌,
  length, Text, text_eq, text_eq_iff, trim, codes, arith,
}
use lux_ledger_demo.Common.Int.{ℤ, pos}
use lux_ledger_demo.Common.Decimal.{is_positive_decimal, value, print, print-value, print-IsPrint}
use lux_ledger_demo.Common.Outcome.{done, raised}
use lux_ledger_demo.Demo.Input.{
  input, funding_address, matches_address, Locale, normalize_address, parse_amount,
}

-- An address that the demo's clients may use.
pub record IsAddress (address : Text) : Type 0 where
  pub pattern_matches : matches_address address ≡ true
  pub short : length address ≤ 80
  pub not_reserved : address ≢ funding_address

module _ (locale : Locale) (t : Text) where
  normalize_address-cases :
      ((m : Text) × (normalize_address locale t ≡ raised (input m)))
      ⊎ IsAddress (locale.to_lower (trim t))
        × (normalize_address locale t ≡ done (locale.to_lower (trim t)))
  unfolding normalize_address
  normalize_address-cases =
      let lowered = locale.to_lower (trim t) in
      elim (Bool-cases (matches_address lowered)) [
        | inr bad ↦ inl (codes "Address must look like wallet:alice", rw bad)
        | inl good ↦ elim (Bool-cases (ltb 80 (length lowered))) [
          | inl long ↦ inl (codes "Address must look like wallet:alice", rw (good, long))
          | inr short ↦ elim (Bool-cases (text_eq lowered funding_address)) [
            | inl reserved ↦
                inl (codes "The system funding account is reserved", rw (good, short, reserved))
            | inr free ↦ inr (
              (record {
                pattern_matches = good;
                short = ground arith;
                not_reserved = λ e. ground (arith, text_eq_iff lowered funding_address);
              }),
              rw (good, short, free),
            )
          ]
        ]
      ]

  normalize_address_of_IsAddress :
      IsAddress (locale.to_lower (trim t))
      → normalize_address locale t ≡ done (locale.to_lower (trim t))
  unfolding normalize_address
  normalize_address_of_IsAddress h =
      let lowered = locale.to_lower (trim t) in
      let good = h.pattern_matches in
      let short : ltb 80 (length lowered) ≡ false = ltb-false 80 (length lowered) h.short in
      let free : text_eq lowered funding_address ≡ false =
        elim (Bool-cases (text_eq lowered funding_address)) [
          | inl e ↦ absurd (h.not_reserved ((text_eq_iff _ _).0 e))
          | inr e ↦ e
        ] in
      rw (good, short, free)

module _ (t : Text) {a : ℤ} where
  amount_eq : is_positive_decimal t ≡ true → parse_amount t ≡ done a → a ≡ pos (value t)
  unfolding parse_amount
  amount_eq good h = ground arith

  not_amount : is_positive_decimal t ≡ false → parse_amount t ≢ done a
  unfolding parse_amount
  not_amount bad h = ground arith

pub parse_amount-print : (n : ℕ) → 0 < n → parse_amount (print n) ≡ done (pos n)
unfolding parse_amount
parse_amount-print n positive = let p = print-IsPrint n in rw (p.positive positive, p.value_is)

-- An address is let through exactly when it is an address of a client once it is trimmed and
-- lowered, and so it is passed on.
pub normalize_address_iff :
    (locale : Locale) (t a : Text)
    → (normalize_address locale t ≡ done a) ↔ (a ≡ locale.to_lower (trim t)) × IsAddress a
normalize_address_iff locale t a = (
  λ h. elim (normalize_address-cases locale t) [
    | inl (m, e) ↦ cc
    | inr (good, e) ↦ let same : locale.to_lower (trim t) ≡ a = cc in (sym same, rw (← same) good)
  ],
  λ h. normalize_address_of_IsAddress locale t (rw h.0 at (h.1)) ∙ ap done (sym h.0),
)

-- An amount is let through exactly when it is the decimal text of a positive number, which it
-- then is.
pub parse_amount_iff :
    (t : Text) (a : ℤ)
    → (parse_amount t ≡ done a) ↔ ((n : ℕ) × (0 < n) × (a ≡ pos n) × (t ≡ print n))
parse_amount_iff t a = (
  λ h. elim (Bool-cases (is_positive_decimal t)) [
    | inl good ↦ let p = print-value t good in (value t, p.0, amount_eq t good h, sym p.1)
    | inr bad ↦ absurd (not_amount t bad h)
  ],
  λ (n, positive, e, same).
      let p = print-IsPrint n in rw same (parse_amount-print n positive ∙ ap done (sym e)),
)
