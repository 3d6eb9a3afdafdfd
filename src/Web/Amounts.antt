-- ===== src/Web/Amounts.antt =====
-- Amounts in units and in minor units: `money` and `toMinor` of apps/web/src/api.ts.
pub mod RoundTrip
use lux_ledger_demo.Common.{
  ℕ, zero, suc, ◌+◌, ◌-◌, ◌*◌, ◌/◌, ◌%◌, ◌^◌, max, ltb, leb, ◌==◌, Bool, true, false, not, ◌&&◌,
  ◌||◌, Option, none, some, List, [], ◌∷◌, ◌++◌, replicate, every, any, length, Text, codes,
  split_on, if◌then◌else◌, is_empty,
}
use lux_ledger_demo.Common.Int.{ℤ, pos, neg_part, ltb_ℤ, pos_part}
use lux_ledger_demo.Common.Decimal.{is_digit, value, print}
use lux_ledger_demo.Common.BigInt.{big_int}

-- t.padStart(n, '0') and t.padEnd(n, '0')
abbrev pub pad_start : ℕ → Text → Text
pad_start n t = replicate (n - length t) b'0' ++ t

abbrev pub pad_end : ℕ → Text → Text
pad_end n t = t ++ replicate (n - length t) b'0'

-- `${a / divisor}${scale ? '.' + (a % divisor).toString().padStart(scale, '0') : ''}`
unfoldable pub amount_text : ℕ → ℕ → Text
amount_text a scale =
    let divisor = 10 ^ scale in
    print (a / divisor) ++ (if scale == 0 then [] else b'.' ∷ pad_start scale (print (a % divisor)))

-- none, where BigInt throws
unfoldable pub money : Text → Text → ℕ → Option Text
money minor currency scale = elim (big_int minor) [
  | none ↦ none
  | some n ↦ some (
      (if ltb_ℤ n (pos 0) then codes "-" else [])
      ++ (amount_text (pos_part n + neg_part n) scale ++ b' ' ∷ currency))
]

-- \d+
abbrev pub is_number : Text → Bool
is_number t = not (is_empty t) && every is_digit t

-- ^\d+(?:\.\d{1,${Math.max(1, scale)}})?$; no digit is a point, so that the points cut the text.
abbrev pub is_amount : ℕ → List Text → Bool
is_amount scale (whole ∷ []) = is_number whole
is_amount scale (whole ∷ fraction ∷ []) =
    is_number whole && is_number fraction && leb (length fraction) (max 1 scale)
is_amount scale _ = false

abbrev pub whole_of : List Text → Text
whole_of [] = []
whole_of (whole ∷ parts) = whole

-- The second part, and the empty text where there is none.
abbrev pub fraction_of : List Text → Text
fraction_of (whole ∷ fraction ∷ parts) = fraction
fraction_of _ = []

-- none, where it throws; `value` of the empty text is 0, as of the text '0' that stands for it.
unfoldable pub to_minor : Text → ℕ → Option Text
to_minor t scale =
    let parts = split_on b'.' t in
    if not (is_amount scale parts) || (scale == 0 && any (λ c. c == b'.') t)
    then none
    else let result =
        value (whole_of parts) * 10 ^ scale + value (pad_end scale (fraction_of parts)) in
      if leb result 0 then none else some (print result)
