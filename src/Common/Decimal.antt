-- ===== src/Common/Decimal.antt =====
-- Decimal digits: the text of a natural number, the number of a text, and the pattern
-- /^[1-9][0-9]*$/ by which the program recognises the text of a positive number.
use Prim.Native.Nat.{ℕ, zero, suc, ◌+◌, ◌-◌, ◌*◌, ◌/◌, ◌%◌, ◌<◌}
use mathlib.Core.Path.{◌≡◌, refl, sym, ◌∙◌}
use mathlib.Core.Logic.{inl, inr, ◌≢◌}
use mathlib.Core.Bool.{Bool, true, false, ◌&&◌}
use mathlib.Core.List.{[], ◌∷◌, ◌++◌, append_assoc, append-nil}
use native.Mathlib.Omega.{arith}
use lux_ledger_demo.Common.Tests.{ltb, leb, if◌then◌else◌, Bool-cases}
use lux_ledger_demo.Common.Lists.{every}
use lux_ledger_demo.Common.Texts.{Text}
use lux_ledger_demo.Common.Int.{ℤ, pos, negsuc}

-- [0-9]
abbrev pub is_digit : ℕ → Bool
is_digit c = leb b'0' c && leb c b'9'

-- /^[1-9][0-9]*$/.test(t)
unfoldable pub is_positive_decimal : Text → Bool
is_positive_decimal [] = false
is_positive_decimal (c ∷ t) = leb b'1' c && leb c b'9' && every is_digit t

-- The number of a run of digits that follows the number `n`.
unfoldable pub value_from : ℕ → Text → ℕ
value_from n [] = n
value_from n (c ∷ t) = value_from (n * 10 + (c - b'0')) t

-- BigInt(t), of a text of digits
abbrev pub value : Text → ℕ
value = value_from 0

print_fuel : ℕ → ℕ → Text
print_fuel zero n = []
print_fuel (suc f) n =
    let rest = print_fuel f (n / 10) in
    if ltb n 10 then (b'0' + n) ∷ [] else rest ++ (b'0' + n % 10) ∷ []

-- n.toString()
unfoldable pub print : ℕ → Text
unfolding print_fuel
print n = print_fuel (suc n) n

print_fuel-enough : (f g n : ℕ) → n < f → n < g → print_fuel f n ≡ print_fuel g n
unfolding print_fuel
print_fuel-enough zero g n h k = elim h [ ]
print_fuel-enough (suc f) zero n h k = elim k [ ]
print_fuel-enough (suc f) (suc g) n h k = elim (Bool-cases (ltb n 10)) [
  | inl small ↦ rw small
  | inr large ↦ rw (large, print_fuel-enough f g (n / 10) (ground arith) (ground arith))
]

pub print-small : (n : ℕ) → n < 10 → print n ≡ (b'0' + n) ∷ []
unfolding print
print-small n h = ground arith

print_fuel-step :
    (f n v d : ℕ)
    → 0 < v
    → d < 10
    → n ≡ v * 10 + d
    → print_fuel (suc f) n ≡ print_fuel f v ++ (b'0' + d) ∷ []
unfolding print_fuel
print_fuel-step f n v d h k e =
    let large : ltb n 10 ≡ false = ground arith in
    let quotient : n / 10 ≡ v = omega arith in
    let remainder : n % 10 ≡ d = omega arith in rw (large, quotient, remainder)

print-unfold : (n : ℕ) → print n ≡ print_fuel (suc n) n
unfolding print
print-unfold n = refl

pub print-step : (v d : ℕ) → 0 < v → d < 10 → print (v * 10 + d) ≡ print v ++ (b'0' + d) ∷ []
print-step v d h k = rw (
  print-unfold (v * 10 + d),
  print_fuel-step (v * 10 + d) (v * 10 + d) v d h k refl,
  print-unfold v,
  print_fuel-enough (v * 10 + d) (suc v) v (omega arith) (omega arith),
)

pub print-value_from :
    (v : ℕ) (t : Text) → 0 < v → every is_digit t ≡ true → print (value_from v t) ≡ print v ++ t
unfolding value_from
print-value_from v [] h k = sym (append-nil (print v))
print-value_from v (c ∷ t) h k =
    let ih = print-value_from (v * 10 + (c - b'0')) t (omega arith) (ground arith) in
    let step = print-step v (c - b'0') h (ground arith) in
    let same : b'0' + (c - b'0') ≡ c = ground arith in
    ih ∙ rw (step, append_assoc (print v) ((b'0' + (c - b'0')) ∷ []) t, same)

value_from-pos : (v : ℕ) (t : Text) → 0 < v → 0 < value_from v t
unfolding value_from
value_from-pos v [] h = h
value_from-pos v (c ∷ t) h = value_from-pos (v * 10 + (c - b'0')) t (omega arith)

-- A text that the pattern accepts is the text of its number, which is above zero.
pub print-value : (t : Text) → is_positive_decimal t ≡ true → (0 < value t) × (print (value t) ≡ t)
unfolding is_positive_decimal value_from
print-value [] h = cc
print-value (c ∷ t) h =
    let tail_digits : every is_digit t ≡ true = ground arith in
    let first : 0 < 0 * 10 + (c - b'0') = ground arith in
    let small : 0 * 10 + (c - b'0') < 10 = ground arith in
    let same : b'0' + (0 * 10 + (c - b'0')) ≡ c = ground arith in
    (
      value_from-pos (0 * 10 + (c - b'0')) t first,
      print-value_from (0 * 10 + (c - b'0')) t first tail_digits
          ∙ rw (print-small (0 * 10 + (c - b'0')) small, same),
    )

value_from-append :
    (n d : ℕ) (t : Text) → value_from n (t ++ (b'0' + d) ∷ []) ≡ value_from n t * 10 + d
unfolding value_from
value_from-append n d [] = omega arith
value_from-append n d (c ∷ t) = value_from-append (n * 10 + (c - b'0')) d t

every-append :
    (s t : Text)
    → every is_digit s ≡ true
    → every is_digit t ≡ true
    → every is_digit (s ++ t) ≡ true
every-append [] t h k = k
every-append (c ∷ s) t h k = ground (arith, every-append s t)

-- The text of `n` has the value `n`, all of it is digits, and the pattern accepts it if `n` is
-- above zero.
pub record IsPrint (n : ℕ) (t : Text) : Type 0 where
  pub value_is : value t ≡ n
  pub digits : every is_digit t ≡ true
  pub positive : 0 < n → is_positive_decimal t ≡ true
  pub nonempty : t ≢ []

positive-append :
    (t : Text) (d : ℕ)
    → d < 10
    → is_positive_decimal t ≡ true
    → is_positive_decimal (t ++ (b'0' + d) ∷ []) ≡ true
unfolding is_positive_decimal
positive-append [] d k h = cc
positive-append (c ∷ t) d k h = ground (arith, every-append t ((b'0' + d) ∷ []))

append-ne-nil : (t : Text) (c : ℕ) → t ++ c ∷ [] ≢ []
append-ne-nil [] c = cc
append-ne-nil (d ∷ t) c = cc

IsPrint-append :
    (v d : ℕ) (t : Text)
    → 0 < v
    → d < 10
    → IsPrint v t
    → IsPrint (v * 10 + d) (t ++ (b'0' + d) ∷ [])
IsPrint-append v d t h k p = record {
  value_is = rw (value_from-append 0 d t, p.value_is);
  digits = every-append t ((b'0' + d) ∷ []) p.digits (ground arith);
  positive = λ _. positive-append t d k (p.positive h);
  nonempty = append-ne-nil t (b'0' + d);
}

IsPrint-small : (n : ℕ) → n < 10 → IsPrint n ((b'0' + n) ∷ [])
unfolding value_from is_positive_decimal
IsPrint-small n h = record {
  value_is = omega arith;
  digits = ground arith;
  positive = λ k. ground arith;
  nonempty = cc;
}

print_fuel-IsPrint : (f n : ℕ) → n < f → IsPrint n (print_fuel f n)
unfolding print_fuel
print_fuel-IsPrint zero n h = elim h [ ]
print_fuel-IsPrint (suc f) n h = elim (Bool-cases (ltb n 10)) [
  | inl small ↦ rw small (IsPrint-small n (ground arith))
  | inr large ↦
      let p =
        IsPrint-append (n / 10) (n % 10) (print_fuel f (n / 10)) (ground arith) (omega arith)
          (print_fuel-IsPrint f (n / 10) (ground arith)) in
      let same : n / 10 * 10 + n % 10 ≡ n = omega arith in rw large (rw same at p)
]

pub print-IsPrint : (n : ℕ) → IsPrint n (print n)
print-IsPrint n = rw print-unfold (print_fuel-IsPrint (suc n) n (omega arith))

-- z.toString() of a bigint
abbrev pub print_ℤ : ℤ → Text
print_ℤ (pos n) = print n
print_ℤ (negsuc n) = b'-' ∷ print (suc n)
