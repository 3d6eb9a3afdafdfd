-- ===== src/Common/BigInt.antt =====
-- BigInt(text): the syntax of the integers that the language reads from a text.
use Prim.Native.Nat.{ℕ, suc, ◌+◌, ◌-◌, ◌*◌}
use mathlib.Core.Path.{◌≡◌, refl, ◌∙◌}
use mathlib.Core.Logic.{◌≢◌}
use mathlib.Core.Bool.{true, false, ◌&&◌, ◌||◌}
use mathlib.Core.Option.{Option, none, some}
use mathlib.Core.List.{[], ◌∷◌}
use native.Mathlib.Omega.{arith}
use lux_ledger_demo.Common.Tests.{ltb, leb, ◌==◌, if◌then◌else◌}
use lux_ledger_demo.Common.Lists.{every}
use lux_ledger_demo.Common.Texts.{Text}
use lux_ledger_demo.Common.Strings.{trim, is_space, HasNoSpace, trim-HasNoSpace}
use lux_ledger_demo.Common.Int.{ℤ, pos, negsuc, negate}
use lux_ledger_demo.Common.Decimal.{is_digit, value_from, value, print, print_ℤ, print-IsPrint}

-- The value of a digit, and 36 for what is none.
abbrev digit_value : ℕ → ℕ
digit_value c =
    if leb b'0' c && leb c b'9'
    then c - b'0'
    else if leb b'a' c && leb c b'z'
    then c - 87
    else if leb b'A' c && leb c b'Z'
    then c - 55
    else 36

unfoldable number_from : ℕ → ℕ → Text → Option ℕ
number_from base n [] = some n
number_from base n (c ∷ t) =
    let rest = number_from base (n * base + digit_value c) t in
    if ltb (digit_value c) base then rest else none

abbrev number_in : ℕ → Text → Option ℕ
number_in base [] = none
number_in base (c ∷ t) = number_from base 0 (c ∷ t)

-- 0x, 0o and 0b
abbrev base_of : Text → Option ℕ
base_of [] = none
base_of (c ∷ t) =
    if c == b'x' || c == b'X'
    then some 16
    else if c == b'o' || c == b'O'
    then some 8
    else if c == b'b' || c == b'B'
    then some 2
    else none

abbrev positive : Option ℕ → Option ℤ
positive none = none
positive (some n) = some (pos n)

abbrev negative : Option ℕ → Option ℤ
negative none = none
negative (some n) = some (negate (pos n))

abbrev tail : Text → Text
tail [] = []
tail (c ∷ t) = t

-- No prefix goes with a sign.
abbrev unsigned : Text → Option ℤ
unsigned [] = none
unsigned (c ∷ t) = elim (if c == b'0' then base_of t else none) [
  | some base ↦ positive (number_in base (tail t))
  | none ↦ positive (number_in 10 (c ∷ t))
]

abbrev literal : Text → Option ℤ
literal [] = some (pos 0)
literal (c ∷ t) =
    if c == b'-'
    then negative (number_in 10 t)
    else if c == b'+'
    then positive (number_in 10 t)
    else unsigned (c ∷ t)

-- BigInt(t); none, where it throws a SyntaxError.
unfoldable pub big_int : Text → Option ℤ
unfolding trim number_from negate
big_int t = literal (trim t)

number_from-digits :
    (n : ℕ) (t : Text) → every is_digit t ≡ true → number_from 10 n t ≡ some (value_from n t)
unfolding number_from value_from
number_from-digits n [] h = refl
number_from-digits n (c ∷ t) h =
    let digit : digit_value c ≡ c - b'0' = ground arith in
    let small : ltb (c - b'0') 10 ≡ true = ground arith in
    rw (digit, small) (number_from-digits (n * 10 + (c - b'0')) t (ground arith))

digits-HasNoSpace : (t : Text) → every is_digit t ≡ true → HasNoSpace t
unfolding is_space
digits-HasNoSpace [] h = tt
digits-HasNoSpace (c ∷ t) h = (ground arith, digits-HasNoSpace t (ground arith))

no_base : (t : Text) → every is_digit t ≡ true → base_of t ≡ none
no_base [] h = refl
no_base (c ∷ t) h = ground arith

unsigned-digits : (t : Text) → t ≢ [] → every is_digit t ≡ true → literal t ≡ some (pos (value t))
unsigned-digits [] h k = absurd (h refl)
unsigned-digits (c ∷ t) h k =
    let plus : (c == b'+') ≡ false = ground arith in
    let minus : (c == b'-') ≡ false = ground arith in
    let base : base_of t ≡ none = no_base t (ground arith) in
    let read = number_from-digits 0 (c ∷ t) k in ground (arith, plus, minus, base, read)

number_in-digits : (t : Text) → t ≢ [] → every is_digit t ≡ true → number_in 10 t ≡ some (value t)
number_in-digits [] h k = absurd (h refl)
number_in-digits (c ∷ t) h k = number_from-digits 0 (c ∷ t) k

minus_space : is_space b'-' ≡ false
unfolding is_space
minus_space = refl

negate-suc : (n : ℕ) → some (negate (pos (suc n))) ≡ some (negsuc n)
unfolding negate
negate-suc n = ground arith

big_int-unfold : (t : Text) → big_int t ≡ literal (trim t)
unfolding big_int
big_int-unfold t = refl

pub big_int-print : (n : ℕ) → big_int (print n) ≡ some (pos n)
unfolding big_int
big_int-print n =
    let p = print-IsPrint n in
    rw (trim-HasNoSpace (print n) (digits-HasNoSpace (print n) p.digits))
      (unsigned-digits (print n) p.nonempty p.digits ∙ rw p.value_is)

-- The text of a bigint is read back.
pub big_int-print_ℤ : (z : ℤ) → big_int (print_ℤ z) ≡ some z
big_int-print_ℤ (pos n) = big_int-print n
big_int-print_ℤ (negsuc n) =
    let p = print-IsPrint (suc n) in
    let space : HasNoSpace (b'-' ∷ print (suc n)) =
      (minus_space, digits-HasNoSpace (print (suc n)) p.digits) in
    rw (big_int-unfold, trim-HasNoSpace (b'-' ∷ print (suc n)) space)
      (rw (number_in-digits (print (suc n)) p.nonempty p.digits, p.value_is) (negate-suc n))
